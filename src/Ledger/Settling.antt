-- ===== src/Ledger/Settling.antt =====
-- How the deposit and the settlement of an order meet in the ledger.
use tailor_erp.Prelude.{
  ℕ, ◌≡◌, refl, inl, inr, List, [], ◌∷◌, if◌then◌else◌, Bool-cases, Decimal, pos, ◌+ℤ◌, ◌-ℤ◌, eqb_ℤ,
  int_laws, parts_of_eq, eqb_ℤ→eq, sum_of,
}
use tailor_erp.Zatca.Vat.{split_inclusive, ksa_vat_rate}
use tailor_erp.Ledger.{
  AccountCode, PaymentMethod, PostLine, unearned_revenue, vat_payable, sales_revenue, dr, cr,
  same_code, cash_account_for,
}
use tailor_erp.Ledger.Posting.{
  Settlement, vat_this_entry, revenue_net, revenue_line, settlement_lines,
}

-- What the lines of an entry credit to an account, and debit from it.
abbrev pub credited : AccountCode → List PostLine → Decimal
credited code = sum_of (λ l. if same_code l.code code then l.credit else pos 0)

abbrev pub debited : AccountCode → List PostLine → Decimal
debited code = sum_of (λ l. if same_code l.code code then l.debit else pos 0)

-- An order of `total` halalas, settled after a deposit by a last payment.
abbrev pub closing : ℕ → ℕ → ℕ → Settlement
closing last applied total = record {
  amount = pos last;
  deposit_applied = pos applied;
  order_total = pos total;
}

pub split_vat :
    (g : Decimal) (rate : ℕ) → (split_inclusive g rate).vat ≡ g -ℤ (split_inclusive g rate).net
unfolding split_inclusive
split_vat g rate = refl

pub split_gross : (g : Decimal) (rate : ℕ) → (split_inclusive g rate).gross ≡ g
unfolding split_inclusive
split_gross g rate = refl

-- The revenue line is what the debits leave after the VAT, whichever branch computes it.
pub revenue_line_lem :
    (p : Settlement)
    → revenue_line p
      ≡ p.amount +ℤ (split_inclusive p.deposit_applied ksa_vat_rate).net -ℤ vat_this_entry p
unfolding revenue_line
revenue_line_lem p =
    let deposit_net = (split_inclusive p.deposit_applied ksa_vat_rate).net in
    let debits = (split_inclusive p.amount ksa_vat_rate).gross +ℤ deposit_net in
    let credits = revenue_net p +ℤ vat_this_entry p in
    let gross = split_gross p.amount ksa_vat_rate in
    elim (Bool-cases (eqb_ℤ debits credits)) [
      | inl even ↦
          rw even (omega (int_laws, parts_of_eq gross, parts_of_eq (eqb_ℤ→eq debits credits even)))
      | inr drifted ↦ rw drifted (omega (int_laws, parts_of_eq gross))
    ]

-- Two lines of a settlement are left out when their amounts are zero.
module _ (p : Settlement) (method : PaymentMethod) where
  pub settlement_lines-cases :
      (P : List PostLine → Type 0)
      → let net = (split_inclusive p.deposit_applied ksa_vat_rate).net in
        let vat = vat_this_entry p in
        let cash_line =
          dr (cash_account_for method) (split_inclusive p.amount ksa_vat_rate).gross in
        let revenue = cr sales_revenue (revenue_line p) in
        (net ≡ pos 0 → vat ≡ pos 0 → P (cash_line ∷ revenue ∷ []))
        → (net ≡ pos 0 → P (cash_line ∷ revenue ∷ cr vat_payable vat ∷ []))
        → (vat ≡ pos 0 → P (cash_line ∷ dr unearned_revenue net ∷ revenue ∷ []))
        → P (cash_line ∷ dr unearned_revenue net ∷ revenue ∷ cr vat_payable vat ∷ [])
        → P (settlement_lines p method)
  unfolding settlement_lines
  settlement_lines-cases P neither no_deposit no_vat both =
      let net = (split_inclusive p.deposit_applied ksa_vat_rate).net in
      let vat = vat_this_entry p in
      elim (Bool-cases (eqb_ℤ net (pos 0))) [
        | inl z ↦ elim (Bool-cases (eqb_ℤ vat (pos 0))) [
          | inl w ↦ rw (z, w) (neither (eqb_ℤ→eq net (pos 0) z) (eqb_ℤ→eq vat (pos 0) w))
          | inr w ↦ rw (z, w) (no_deposit (eqb_ℤ→eq net (pos 0) z))
        ]
        | inr z ↦ elim (Bool-cases (eqb_ℤ vat (pos 0))) [
          | inl w ↦ rw (z, w) (no_vat (eqb_ℤ→eq vat (pos 0) w))
          | inr w ↦ rw (z, w) both
        ]
      ]
