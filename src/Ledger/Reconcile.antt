-- ===== src/Ledger/Reconcile.antt =====
-- The deposit and the settlements of an order against its invoice.
use tailor_erp.Prelude.{
  ℕ, ◌+◌, ◌<◌, ◌≡◌, sym, ◌∙◌, false, List, arith, Decimal, pos, ◌+ℤ◌, ◌-ℤ◌, int_laws, parts_of_eq,
}
use tailor_erp.Zatca.Vat.{split_inclusive, ksa_vat_rate}
use tailor_erp.Ledger.{
  PaymentMethod, PostLine, unearned_revenue, vat_payable, sales_revenue, total_debit, total_credit,
  same_code, cash_account_for,
}
use tailor_erp.Ledger.Posting.{
  Settlement, deposit_lines, vat_this_entry, revenue_line, settlement_lines,
}
use tailor_erp.Ledger.Settling.{
  credited, debited, closing, split_vat, split_gross, revenue_line_lem, settlement_lines-cases,
}

abbrev Balanced : List PostLine → Type 0
Balanced ls = total_debit ls ≡ total_credit ls

-- The lines of a settlement always balance, for every amount, deposit and order total.
pub settlement_lines-balance :
    (p : Settlement) (method : PaymentMethod)
    → total_debit (settlement_lines p method) ≡ total_credit (settlement_lines p method)
settlement_lines-balance p method =
    let line = revenue_line_lem p in
    let gross = split_gross p.amount ksa_vat_rate in
    settlement_lines-cases p method Balanced
      (λ z w. omega (int_laws, parts_of_eq line, parts_of_eq gross, parts_of_eq z, parts_of_eq w))
      (λ z. omega (int_laws, parts_of_eq line, parts_of_eq gross, parts_of_eq z))
      (λ w. omega (int_laws, parts_of_eq line, parts_of_eq gross, parts_of_eq w))
      (omega (int_laws, parts_of_eq line, parts_of_eq gross))

-- The cash account of a payment method is none of the other three that a posting names.
cash_is_an_asset :
    (method : PaymentMethod)
    → (same_code (cash_account_for method) vat_payable ≡ false)
      × (same_code (cash_account_for method) unearned_revenue ≡ false)
      × (same_code (cash_account_for method) sales_revenue ≡ false)
unfolding cash_account_for
cash_is_an_asset method = ground arith

pub credited-settlement_lines :
    (p : Settlement) (method : PaymentMethod)
    → (credited vat_payable (settlement_lines p method) ≡ vat_this_entry p)
      × (credited sales_revenue (settlement_lines p method) ≡ revenue_line p)
      × (debited unearned_revenue (settlement_lines p method)
          ≡ (split_inclusive p.deposit_applied ksa_vat_rate).net)
credited-settlement_lines p method =
    let (no_vat, no_deposit, no_sale) = cash_is_an_asset method in
    settlement_lines-cases p method
      (λ ls.
        (credited vat_payable ls ≡ vat_this_entry p)
        × (credited sales_revenue ls ≡ revenue_line p)
        × (debited unearned_revenue ls ≡ (split_inclusive p.deposit_applied ksa_vat_rate).net))
      (λ z w. rw (no_vat, no_deposit, no_sale) (omega (int_laws, parts_of_eq z, parts_of_eq w)))
      (λ z. rw (no_vat, no_deposit, no_sale) (omega (int_laws, parts_of_eq z)))
      (λ w. rw (no_vat, no_deposit, no_sale) (omega (int_laws, parts_of_eq w)))
      (rw (no_vat, no_deposit, no_sale) (omega int_laws))

pub credited-deposit_lines :
    (amount : Decimal) (method : PaymentMethod)
    → (credited vat_payable (deposit_lines amount method)
        ≡ (split_inclusive amount ksa_vat_rate).vat)
      × (credited unearned_revenue (deposit_lines amount method)
          ≡ (split_inclusive amount ksa_vat_rate).net)
credited-deposit_lines amount method =
    let (no_vat, no_deposit, _) = cash_is_an_asset method in
    (rw no_vat (omega int_laws), rw no_deposit (omega int_laws))

pub vat_this_entry-closing :
    (b d t : ℕ)
    → 0 < d
    → vat_this_entry (closing b d t)
      ≡ (split_inclusive (pos t) ksa_vat_rate).vat -ℤ (split_inclusive (pos d) ksa_vat_rate).vat
unfolding vat_this_entry
vat_this_entry-closing b d t paid = rw split_gross (ground arith)

vat_this_entry-open :
    (b t : ℕ) → vat_this_entry (closing b 0 t) ≡ (split_inclusive (pos b) ksa_vat_rate).vat
unfolding vat_this_entry
vat_this_entry-open b t = rw split_gross

-- When a deposit and one settlement pay for an order, the two entries together post exactly the VAT of
-- the order, all of its net amount becomes revenue, and the liability for the deposit is released.
pub settlement_reconciles :
    (d b : ℕ) (m m' : PaymentMethod)
    → 0 < d
    → let order = split_inclusive (pos (d + b)) ksa_vat_rate in
      let first = deposit_lines (pos d) m in
      let second = settlement_lines (closing b d (d + b)) m' in
      (credited vat_payable first +ℤ credited vat_payable second ≡ order.vat)
      × (credited sales_revenue second ≡ order.net)
      × (credited unearned_revenue first ≡ debited unearned_revenue second)
settlement_reconciles d b m m' paid =
    let p = closing b d (d + b) in
    let (vat1, held) = credited-deposit_lines (pos d) m in
    let (vat2, sale, release) = credited-settlement_lines p m' in
    let due = vat_this_entry-closing b d (d + b) paid in
    (
      omega (int_laws, parts_of_eq vat1, parts_of_eq vat2, parts_of_eq due),
      omega (
        int_laws,
        parts_of_eq sale,
        parts_of_eq (revenue_line_lem p),
        parts_of_eq due,
        parts_of_eq (split_vat (pos d) ksa_vat_rate),
        parts_of_eq (split_vat (pos (d + b)) ksa_vat_rate),
      ),
      held ∙ sym release,
    )

-- If a payment is taken between the deposit and the last payment, its VAT is posted when it is made,
-- and the closing entry posts the VAT of the order less that of the deposit alone: the three entries
-- post the VAT of the order and, once more, the VAT of the payment in between.
pub partial_settlement_overstates_vat :
    (d q b : ℕ) (m m' m'' : PaymentMethod)
    → 0 < d
    → let total = d + q + b in
      credited vat_payable (deposit_lines (pos d) m)
        +ℤ credited vat_payable (settlement_lines (closing q 0 total) m')
        +ℤ credited vat_payable (settlement_lines (closing b d total) m'')
      ≡ (split_inclusive (pos total) ksa_vat_rate).vat +ℤ (split_inclusive (pos q) ksa_vat_rate).vat
partial_settlement_overstates_vat d q b m m' m'' paid =
    let total = d + q + b in
    omega (
      int_laws,
      parts_of_eq ((credited-deposit_lines (pos d) m).0),
      parts_of_eq ((credited-settlement_lines (closing q 0 total) m').0),
      parts_of_eq ((credited-settlement_lines (closing b d total) m'').0),
      parts_of_eq (vat_this_entry-open q total),
      parts_of_eq (vat_this_entry-closing b d total paid),
    )
