-- ===== src/Ledger/Posting.antt =====
-- The postings of ledger.service.ts: postDeposit and postSettlement.
use tailor_erp.Prelude.{
  ℕ, Bool, not, List, [], ◌∷◌, ◌++◌, if◌then◌else◌, Decimal, pos, ◌+ℤ◌, ◌-ℤ◌, eqb_ℤ, Result,
}
use tailor_erp.Zatca.Vat.{VatBreakdown, split_inclusive, ksa_vat_rate}
use tailor_erp.Ledger.{
  PaymentMethod, PostLine, Books, unearned_revenue, vat_payable, sales_revenue, deposit, settlement,
  dr, cr, cash_account_for, post,
}

abbrev pub deposit_lines : Decimal → PaymentMethod → List PostLine
deposit_lines amount method =
    let split = split_inclusive amount ksa_vat_rate in
    dr (cash_account_for method) split.gross
    ∷ cr unearned_revenue split.net
    ∷ cr vat_payable split.vat
    ∷ []

-- postDeposit
unfoldable pub post_deposit : ℕ → ℕ → Decimal → PaymentMethod → Books → Result Books
post_deposit org order amount method = post org deposit order (deposit_lines amount method)

pub record Settlement : Type 0 where
  pub amount : Decimal
  pub deposit_applied : Decimal
  pub order_total : Decimal

-- `params.orderTotal ? … : …`; a Decimal object is always truthy, so the order's total is used.
abbrev pub order_split : Settlement → VatBreakdown
order_split p = split_inclusive p.order_total ksa_vat_rate

abbrev pub closes_order : Settlement → Bool
closes_order p = not (eqb_ℤ (split_inclusive p.deposit_applied ksa_vat_rate).gross (pos 0))

-- `vatThisEntry`
unfoldable pub vat_this_entry : Settlement → Decimal
vat_this_entry p =
    let balance = split_inclusive p.amount ksa_vat_rate in
    let deposit = split_inclusive p.deposit_applied ksa_vat_rate in
    if closes_order p then (order_split p).vat -ℤ deposit.vat else balance.vat

-- `revenueNet`
unfoldable pub revenue_net : Settlement → Decimal
revenue_net p =
    let balance = split_inclusive p.amount ksa_vat_rate in
    let deposit = split_inclusive p.deposit_applied ksa_vat_rate in
    if closes_order p then (order_split p).net -ℤ deposit.net +ℤ deposit.net else balance.net

-- The revenue line after the drift is absorbed.
unfoldable pub revenue_line : Settlement → Decimal
revenue_line p =
    let balance = split_inclusive p.amount ksa_vat_rate in
    let deposit = split_inclusive p.deposit_applied ksa_vat_rate in
    let debits = balance.gross +ℤ deposit.net in
    let credits = revenue_net p +ℤ vat_this_entry p in
    if eqb_ℤ debits credits then revenue_net p else revenue_net p +ℤ (debits -ℤ credits)

unfoldable pub settlement_lines : Settlement → PaymentMethod → List PostLine
settlement_lines p method =
    let balance = split_inclusive p.amount ksa_vat_rate in
    let deposit = split_inclusive p.deposit_applied ksa_vat_rate in
    (dr (cash_account_for method) balance.gross ∷ [])
    ++ (if eqb_ℤ deposit.net (pos 0) then [] else dr unearned_revenue deposit.net ∷ [])
    ++ (cr sales_revenue (revenue_line p) ∷ [])
    ++ (if eqb_ℤ (vat_this_entry p) (pos 0) then [] else cr vat_payable (vat_this_entry p) ∷ [])

-- postSettlement
unfoldable pub post_settlement : ℕ → ℕ → Settlement → PaymentMethod → Books → Result Books
unfolding settlement_lines
post_settlement org order p method = post org settlement order (settlement_lines p method)
