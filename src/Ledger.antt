-- ===== src/Ledger.antt =====
-- apps/api/src/ledger/ledger.service.ts: the double-entry ledger of a tenant.
-- Names and memos of the chart of accounts are not modelled. An amount is a number of halalas.
pub mod Posting
pub mod Settling
pub mod Reconcile
pub mod Journal
pub mod Acceptance
pub mod Refusal
pub mod Trial
pub mod Tests
use tailor_erp.Prelude.{
  ℕ, ◌+◌, Bool, not, ◌&&◌, ◌||◌, Option, none, some, List, [], ◌∷◌, ◌++◌, ltb, ◌==◌, if◌then◌else◌,
  Decimal, pos, ltb_ℤ, eqb_ℤ, bad_request, check_violation, Result, ok, ◌>>=◌, ◌>>◌, guard,
  or_throw, keep, every, sum_from,
}

-- ACCOUNTS
pub data AccountCode : Type 0 where
  cash_on_hand card_clearing bank unearned_revenue vat_payable sales_revenue : AccountCode

abbrev pub code_number : AccountCode → ℕ
code_number cash_on_hand = 0
code_number card_clearing = 1
code_number bank = 2
code_number unearned_revenue = 3
code_number vat_payable = 4
code_number sales_revenue = 5

abbrev pub same_code : AccountCode → AccountCode → Bool
same_code a b = code_number a == code_number b

pub data PaymentMethod : Type 0 where
  cash card transfer other : PaymentMethod

pub data JournalSource : Type 0 where
  deposit settlement refund adjustment : JournalSource

pub record Account : Type 0 where
  pub id : ℕ
  pub organization_id : ℕ
  pub code : AccountCode

pub record PostLine : Type 0 where
  pub code : AccountCode
  pub debit : Decimal
  pub credit : Decimal

pub record LedgerLine : Type 0 where
  pub account_id : ℕ
  pub debit : Decimal
  pub credit : Decimal

pub record JournalEntry : Type 0 where
  pub organization_id : ℕ
  pub entry_number : ℕ
  pub source : JournalSource
  pub reference_id : ℕ
  pub total_debit : Decimal
  pub total_credit : Decimal
  pub lines : List LedgerLine

pub record Books : Type 0 where
  pub accounts : List Account
  pub entries : List JournalEntry

abbrev pub dr : AccountCode → Decimal → PostLine
dr code amount = record { code = code; debit = amount; credit = pos 0 }

abbrev pub cr : AccountCode → Decimal → PostLine
cr code amount = record { code = code; debit = pos 0; credit = amount }

-- cashAccountFor
unfoldable pub cash_account_for : PaymentMethod → AccountCode
cash_account_for card = card_clearing
cash_account_for transfer = bank
cash_account_for _ = cash_on_hand

-- CHART
abbrev pub chart : List AccountCode
chart = cash_on_hand ∷ card_clearing ∷ bank ∷ unearned_revenue ∷ vat_payable ∷ sales_revenue ∷ []

-- `byCode` of the accounts of the organisation; a later account with the same code wins.
unfoldable pub by_code : ℕ → AccountCode → List Account → Option ℕ
by_code org code [] = none
by_code org code (a ∷ accounts) = elim (by_code org code accounts) [
  | some id ↦ some id
  | none ↦ if (a.organization_id == org) && same_code a.code code then some a.id else none
]

-- `params.lines.map(…)`: the first line without an account throws.
unfoldable pub resolve : ℕ → List Account → List PostLine → Result (List LedgerLine)
unfolding by_code
resolve org accounts [] = ok []
resolve org accounts (l ∷ ls) = do
  id ← or_throw (by_code org l.code accounts) bad_request
  rest ← resolve org accounts ls
  ok (record { account_id = id; debit = l.debit; credit = l.credit } ∷ rest)

abbrev pub total_debit : List PostLine → Decimal
total_debit = sum_from (λ l. l.debit) (pos 0)

abbrev pub total_credit : List PostLine → Decimal
total_credit = sum_from (λ l. l.credit) (pos 0)

-- The greatest entry number of the organisation, 0 if it has no entry.
unfoldable pub last_number : ℕ → List JournalEntry → ℕ
last_number org [] = 0
last_number org (e ∷ es) =
    let rest = last_number org es in
    if (e.organization_id == org) && ltb rest e.entry_number then e.entry_number else rest

abbrev pub is_nonzero : LedgerLine → Bool
is_nonzero l = not (eqb_ℤ l.debit (pos 0)) || not (eqb_ℤ l.credit (pos 0))

-- chk_line_one_sided
unfoldable pub one_sided : LedgerLine → Bool
one_sided l =
    (ltb_ℤ (pos 0) l.debit && eqb_ℤ l.credit (pos 0))
    || (ltb_ℤ (pos 0) l.credit && eqb_ℤ l.debit (pos 0))

-- chk_journal_balanced and chk_journal_nonzero
unfoldable pub checked_entry : JournalEntry → Bool
unfolding one_sided
checked_entry e =
    eqb_ℤ e.total_debit e.total_credit && ltb_ℤ (pos 0) e.total_debit && every one_sided e.lines

-- `data` of tx.journalEntry.create
unfoldable pub new_entry :
    ℕ → JournalSource → ℕ → List JournalEntry → List PostLine → List LedgerLine → JournalEntry
new_entry org source reference entries lines resolved = record {
  organization_id = org;
  entry_number = last_number org entries + 1;
  source = source;
  reference_id = reference;
  total_debit = total_debit lines;
  total_credit = total_credit lines;
  lines = keep is_nonzero resolved;
}

-- post
unfoldable pub post : ℕ → JournalSource → ℕ → List PostLine → Books → Result Books
post org source reference lines books = do
  resolved ← resolve org books.accounts lines
  guard (eqb_ℤ (total_debit lines) (total_credit lines)) bad_request
  guard (not (eqb_ℤ (total_debit lines) (pos 0))) bad_request
  let entry = new_entry org source reference books.entries lines resolved
  guard (checked_entry entry) check_violation
  ok (record books { entries = books.entries ++ entry ∷ [] })
