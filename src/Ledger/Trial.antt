-- ===== src/Ledger/Trial.antt =====
-- apps/api/src/ledger/ledger.service.ts: the chart of accounts, the trial balance and the statement.
-- The date of an entry and the keys of new accounts are parameters. The order of the rows of the trial
-- balance and the printing of amounts with two decimals are not modelled.
pub mod Sums
pub mod Kept
pub mod Even
mod Tests
use tailor_erp.Prelude.{
  ℕ, Bool, true, false, not, ◌&&◌, Option, none, some, List, [], ◌∷◌, ◌++◌, map, leb, ◌==◌,
  if◌then◌else◌, Decimal, pos, ◌-ℤ◌, eqb_ℤ, Result, ok, ◌>>=◌, ◌>>◌, guard, length, keep, any,
  sum_of, sum_from, unique_violation,
}
use tailor_erp.Ledger.{
  AccountCode, cash_on_hand, card_clearing, bank, unearned_revenue, vat_payable, sales_revenue,
  same_code, Account, LedgerLine, JournalEntry, Books, chart,
}

abbrev pub has_code : ℕ → AccountCode → Account → Bool
has_code org code a = (a.organization_id == org) && same_code a.code code

-- `CHART.filter((a) => !have.has(a.code))`
abbrev pub missing_codes : ℕ → List Account → List AccountCode
missing_codes org accounts = keep (λ c. not (any (has_code org c) accounts)) chart

-- `ledgerAccount.createMany`, whose keys the database draws and refuses when taken.
unfoldable pub create_accounts :
    ℕ → (AccountCode → ℕ) → List AccountCode → List Account → Result (List Account)
create_accounts org draw [] accounts = ok accounts
create_accounts org draw (c ∷ codes) accounts = do
  guard (not (any (λ (a : Account). a.id == draw c) accounts)) unique_violation
  create_accounts org draw codes
      (accounts ++ (record { id = draw c; organization_id = org; code = c } ∷ []))

-- ensureChartOfAccounts: the number it gives, and the books after it.
unfoldable pub ensure_chart_of_accounts : ℕ → (AccountCode → ℕ) → Books → Result (ℕ × Books)
unfolding create_accounts
ensure_chart_of_accounts org draw books =
    let existing = keep (λ (a : Account). a.organization_id == org) books.accounts in
    let missing = missing_codes org books.accounts in
    if length missing == 0 then ok (length existing, books) else (do
      accounts ← create_accounts org draw missing books.accounts
      ok (length missing, record books { accounts = accounts }))

-- The normal side of the accounts of CHART.
abbrev pub is_debit_normal : AccountCode → Bool
is_debit_normal cash_on_hand = true
is_debit_normal card_clearing = true
is_debit_normal bank = true
is_debit_normal unearned_revenue = false
is_debit_normal vat_payable = false
is_debit_normal sales_revenue = false

-- A line, and the entry that LEFT JOIN finds for it.
pub record Joined : Type 0 where
  pub line : LedgerLine
  pub entry : Option JournalEntry

pub record TrialRow : Type 0 where
  pub code : AccountCode
  pub debit : Decimal
  pub credit : Decimal
  pub balance : Decimal

pub record TrialBalance : Type 0 where
  pub accounts : List TrialRow
  pub total_debit : Decimal
  pub total_credit : Decimal
  pub balanced : Bool

module _ (posted_at : JournalEntry → ℕ) where
  -- `AND j.posted_at <= asOf`, if a date is given
  abbrev pub is_joined : Option ℕ → JournalEntry → Bool
  is_joined none e = true
  is_joined (some date) e = leb (posted_at e) date

  abbrev pub join_entry : Option ℕ → JournalEntry → LedgerLine → Joined
  join_entry as_of e l = record { line = l; entry = if is_joined as_of e then some e else none }

  -- ledger_lines LEFT JOIN journal_entries
  unfoldable pub joined_lines : Option ℕ → List JournalEntry → List Joined
  joined_lines as_of [] = []
  joined_lines as_of (e ∷ entries) = map (join_entry as_of e) e.lines ++ joined_lines as_of entries

abbrev pub on_account : ℕ → Joined → Bool
on_account id j = j.line.account_id == id

-- SUM over the group of an account
abbrev pub account_sum : (LedgerLine → Decimal) → List Joined → Account → Decimal
account_sum f joined a = sum_of (λ (j : Joined). f j.line) (keep (on_account a.id) joined)

abbrev pub trial_row : List Joined → Account → TrialRow
trial_row joined a =
    let debit = account_sum (λ l. l.debit) joined a in
    let credit = account_sum (λ l. l.credit) joined a in
    record {
      code = a.code;
      debit = debit;
      credit = credit;
      balance = if is_debit_normal a.code then debit -ℤ credit else credit -ℤ debit;
    }

-- trialBalance
unfoldable pub trial_balance : (JournalEntry → ℕ) → ℕ → Option ℕ → Books → TrialBalance
unfolding joined_lines
trial_balance posted_at org as_of books =
    let joined = joined_lines posted_at as_of books.entries in
    let rows =
      map (trial_row joined) (keep (λ (a : Account). a.organization_id == org) books.accounts) in
    let total_debit = sum_from (λ (r : TrialRow). r.debit) (pos 0) rows in
    let total_credit = sum_from (λ (r : TrialRow). r.credit) (pos 0) rows in
    record {
      accounts = rows;
      total_debit = total_debit;
      total_credit = total_credit;
      balanced = eqb_ℤ total_debit total_credit;
    }
