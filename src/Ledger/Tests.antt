-- ===== src/Ledger/Tests.antt =====
-- Postings of concrete payments. The organisation is 1 and its accounts are 101 to 106.
use tailor_erp.Prelude.{
  ℕ, ◌+◌, ◌≡◌, refl, List, [], ◌∷◌, ◌++◌, arith, pos, ◌+ℤ◌, ◌-ℤ◌, ◌<ℤ◌, check_violation, ok, err,
  All,
}
use tailor_erp.Zatca.Vat.{split_inclusive, ksa_vat_rate, div_half_up}
use tailor_erp.Ledger.{
  AccountCode, cash_on_hand, card_clearing, bank, unearned_revenue, vat_payable, sales_revenue,
  Account, cash, card, PostLine, JournalEntry, Books, dr, cr, total_debit, total_credit, by_code,
  resolve, one_sided, last_number, checked_entry, new_entry, post, deposit,
}
use tailor_erp.Ledger.Posting.{
  deposit_lines, post_deposit, Settlement, settlement_lines, post_settlement,
}
use tailor_erp.Ledger.Settling.{closing, credited, debited}
use tailor_erp.Ledger.Reconcile.{
  settlement_lines-balance, settlement_reconciles, partial_settlement_overstates_vat,
}
use tailor_erp.Ledger.Journal.{IsBooked, post-IsBooked}
use tailor_erp.Ledger.Acceptance.{HasChart, post_deposit_succeeds, post_settlement_succeeds}
use tailor_erp.Ledger.Refusal.{closing_settlement_refused}

abbrev pub account : ℕ → AccountCode → Account
account id code = record { id = id; organization_id = 1; code = code }

abbrev pub no_entries : Books
no_entries = record {
  accounts =
      account 101 cash_on_hand
      ∷ account 102 card_clearing
      ∷ account 103 bank
      ∷ account 104 unearned_revenue
      ∷ account 105 vat_payable
      ∷ account 106 sales_revenue
      ∷ [];
  entries = [];
}

no_entries-HasChart : HasChart 1 no_entries.accounts
unfolding by_code
no_entries-HasChart cash_on_hand = (101, refl)
no_entries-HasChart card_clearing = (102, refl)
no_entries-HasChart bank = (103, refl)
no_entries-HasChart unearned_revenue = (104, refl)
no_entries-HasChart vat_payable = (105, refl)
no_entries-HasChart sales_revenue = (106, refl)

-- A deposit of 115.00, 100.00 of it net.
abbrev one_deposit : Books
one_deposit = record no_entries {
  entries =
      record {
        organization_id = 1;
        entry_number = 1;
        source = deposit;
        reference_id = 9;
        total_debit = pos 11500;
        total_credit = pos 11500;
        lines =
            record { account_id = 101; debit = pos 11500; credit = pos 0 }
            ∷ record { account_id = 104; debit = pos 0; credit = pos 10000 }
            ∷ record { account_id = 105; debit = pos 0; credit = pos 1500 }
            ∷ [];
      }
      ∷ [];
}

abbrev deposit_of_115 : List PostLine
deposit_of_115 =
    dr cash_on_hand (pos 11500) ∷ cr unearned_revenue (pos 10000) ∷ cr vat_payable (pos 1500) ∷ []

post_runs : post 1 deposit 9 deposit_of_115 no_entries ≡ ok one_deposit
unfolding post resolve by_code checked_entry one_sided new_entry last_number ◌+ℤ◌ ◌-ℤ◌
post_runs = refl

post-IsBooked_example :
    All IsBooked one_deposit.entries
    × (last_number 1 one_deposit.entries ≡ last_number 1 no_entries.entries + 1)
    × (one_deposit.accounts ≡ no_entries.accounts)
    × ((e : JournalEntry) × (one_deposit.entries ≡ no_entries.entries ++ e ∷ []))
post-IsBooked_example = post-IsBooked 1 deposit 9 deposit_of_115 no_entries tt post_runs

abbrev last_payment : Settlement
last_payment = closing 23000 11500 34500

settlement_lines-balance_example :
    total_debit (settlement_lines last_payment card)
    ≡ total_credit (settlement_lines last_payment card)
settlement_lines-balance_example = settlement_lines-balance last_payment card

settlement_reconciles_example :
    let order = split_inclusive (pos 34500) ksa_vat_rate in
    let first = deposit_lines (pos 11500) cash in
    let second = settlement_lines last_payment card in
    (credited vat_payable first +ℤ credited vat_payable second ≡ order.vat)
    × (credited sales_revenue second ≡ order.net)
    × (credited unearned_revenue first ≡ debited unearned_revenue second)
settlement_reconciles_example = settlement_reconciles 11500 23000 cash card (omega arith)

post_deposit_succeeds_example :
    (books' : Books) × (post_deposit 1 9 (pos 11500) cash no_entries ≡ ok books')
post_deposit_succeeds_example =
    post_deposit_succeeds 1 9 11500 cash no_entries no_entries-HasChart (omega arith)

post_settlement_succeeds_example :
    (books' : Books) × (post_settlement 1 9 last_payment card one_deposit ≡ ok books')
post_settlement_succeeds_example =
    post_settlement_succeeds 1 9 11500 23000 card one_deposit no_entries-HasChart (omega arith)
      (omega arith)

-- 115.00 as a deposit, 115.00 in between and 115.00 at the end: 15.00 of VAT too much.
partial_settlement_overstates_vat_example :
    credited vat_payable (deposit_lines (pos 11500) cash)
      +ℤ credited vat_payable (settlement_lines (closing 11500 0 34500) cash)
      +ℤ credited vat_payable (settlement_lines (closing 11500 11500 34500) card)
    ≡ (split_inclusive (pos 34500) ksa_vat_rate).vat
      +ℤ (split_inclusive (pos 11500) ksa_vat_rate).vat
partial_settlement_overstates_vat_example =
    partial_settlement_overstates_vat 11500 11500 11500 cash cash card (omega arith)

-- 10.00 as a deposit and 10.00 at the end of an order of 345.00, whose VAT is 45.00.
small_parts : pos (1000 + 1000) <ℤ (split_inclusive (pos 34500) ksa_vat_rate).vat
unfolding split_inclusive div_half_up ◌-ℤ◌
small_parts = omega arith

closing_settlement_refused_example :
    post_settlement 1 9 (closing 1000 1000 34500) cash no_entries ≡ err check_violation
closing_settlement_refused_example =
    closing_settlement_refused 1 9 1000 1000 34500 cash no_entries no_entries-HasChart (omega arith)
      (omega arith) small_parts
