-- ===== src/Ledger/Trial/Tests.antt =====
-- A tenant whose chart is set up, and a deposit of 115 riyals in cash.
use tailor_erp.Prelude.{ℕ, ◌+◌, ◌≡◌, refl, true, some, List, [], ◌∷◌, map, pos, ◌+ℤ◌, ok}
use tailor_erp.Ledger.{
  AccountCode, cash_on_hand, unearned_revenue, code_number, deposit, Account, PostLine,
  JournalEntry, Books, dr, cr, chart, by_code, resolve, last_number, one_sided, checked_entry,
  new_entry, post,
}
use tailor_erp.Ledger.Trial.{create_accounts, ensure_chart_of_accounts, trial_balance}
use tailor_erp.Ledger.Trial.Even.{empty, set_up, posted_to, turnover, trial_balance_even}

abbrev no_books : Books
no_books = record { accounts = []; entries = [] }

abbrev account_key : AccountCode → ℕ
account_key c = code_number c + 1

abbrev account : AccountCode → Account
account c = record { id = account_key c; organization_id = 1; code = c }

abbrev opened : Books
opened = record { accounts = map account chart; entries = [] }

opened_up : ensure_chart_of_accounts 1 account_key no_books ≡ ok (6, opened)
unfolding ensure_chart_of_accounts create_accounts
opened_up = refl

abbrev cash_lines : List PostLine
cash_lines = dr cash_on_hand (pos 11500) ∷ cr unearned_revenue (pos 11500) ∷ []

abbrev cash_entry : JournalEntry
cash_entry = record {
  organization_id = 1;
  entry_number = 1;
  source = deposit;
  reference_id = 9;
  total_debit = pos 11500;
  total_credit = pos 11500;
  lines =
      record { account_id = 1; debit = pos 11500; credit = pos 0 }
      ∷ record { account_id = 4; debit = pos 0; credit = pos 11500 }
      ∷ [];
}

abbrev one_entry : Books
one_entry = record { accounts = map account chart; entries = cash_entry ∷ [] }

posted_once : post 1 deposit 9 cash_lines opened ≡ ok one_entry
unfolding ◌+ℤ◌ post resolve by_code checked_entry one_sided new_entry last_number
posted_once = refl

abbrev same_time : JournalEntry → ℕ
same_time e = 50

trial_balance_even_example :
    ((trial_balance same_time 1 (some 40) one_entry).total_debit ≡ turnover 1 one_entry.entries)
    × ((trial_balance same_time 1 (some 40) one_entry).total_credit ≡ turnover 1 one_entry.entries)
    × ((trial_balance same_time 1 (some 40) one_entry).balanced ≡ true)
trial_balance_even_example = trial_balance_even same_time 1 (some 40) (
    posted_to 1 deposit 9 cash_lines opened one_entry
      (set_up 1 account_key no_books 6 opened empty opened_up) posted_once)
