-- ===== src/Ledger/Refusal.antt =====
-- A settlement that the ledger refuses.
use tailor_erp.Prelude.{
  ℕ, ◌+◌, ◌<◌, ◌≡◌, ◌≢◌, refl, inl, inr, true, false, ◌&&◌, List, [], ◌∷◌, arith, Bool-cases, pos,
  ◌≤ℤ◌, ◌<ℤ◌, ltb_ℤ, eqb_ℤ, int_laws, parts_of_eq, bad_request, check_violation, ok, err, ok_inj,
  or_throw, >>=-eq-ok, keep, every, All, &&-eq-true, eq→eqb_ℤ,
}
use tailor_erp.Zatca.Vat.{split_inclusive, ksa_vat_rate}
use tailor_erp.Ledger.{
  Account, PaymentMethod, PostLine, LedgerLine, JournalSource, JournalEntry, Books, total_debit,
  total_credit, by_code, resolve, is_nonzero, one_sided, checked_entry, new_entry, post, settlement,
}
use tailor_erp.Ledger.Posting.{settlement_lines, post_settlement, revenue_line}
use tailor_erp.Ledger.Settling.{
  closing, revenue_line_lem, settlement_lines-cases, split_vat, split_gross,
}
use tailor_erp.Ledger.Reconcile.{vat_this_entry-closing, settlement_lines-balance}
use tailor_erp.Ledger.Acceptance.{HasChart, resolve-cons, positive-is_nonzero}
use tailor_erp.Zatca.Vat.Laws.{split_inclusive_exact}

nonneg_credit : (l : LedgerLine) → one_sided l ≡ true → pos 0 ≤ℤ l.credit
unfolding one_sided
nonneg_credit l h = ground arith

nonneg_zero : (l : LedgerLine) → is_nonzero l ≡ false → pos 0 ≤ℤ l.credit
nonneg_zero l h = ground arith

every_nonneg :
    (rs : List LedgerLine)
    → every one_sided (keep is_nonzero rs) ≡ true
    → All (λ l. pos 0 ≤ℤ l.credit) rs
every_nonneg [] h = tt
every_nonneg (r ∷ rs) h = elim (Bool-cases (is_nonzero r)) [
  | inl kept ↦
      let (first, rest) =
        &&-eq-true (one_sided r) (every one_sided (keep is_nonzero rs)) (rw kept at h) in
      (nonneg_credit r first, every_nonneg rs rest)
  | inr dropped ↦ (nonneg_zero r dropped, every_nonneg rs (rw dropped at h))
]

resolve_credits :
    (org : ℕ) (accounts : List Account) (ls : List PostLine) (rs : List LedgerLine)
    → resolve org accounts ls ≡ ok rs
    → All (λ l. pos 0 ≤ℤ l.credit) rs
    → All (λ l. pos 0 ≤ℤ l.credit) ls
unfolding resolve
resolve_credits org accounts [] rs h k = tt
resolve_credits org accounts (l ∷ ls) rs h k =
    let (id, found, h1) = >>=-eq-ok (or_throw (by_code org l.code accounts) bad_request) _ h in
    let (rest, done, h2) = >>=-eq-ok (resolve org accounts ls) _ h1 in
    let parts = rw (← ok_inj h2) at k in
    (parts.0, resolve_credits org accounts ls rest done parts.1)

checked_entry-sides :
    (org : ℕ) (source : JournalSource) (reference : ℕ) (es : List JournalEntry) (ls : List PostLine)
    (rs : List LedgerLine)
    → checked_entry (new_entry org source reference es ls rs) ≡ true
    → every one_sided (keep is_nonzero rs) ≡ true
unfolding checked_entry new_entry
checked_entry-sides org source reference es ls rs h =
    (&&-eq-true (eqb_ℤ (total_debit ls) (total_credit ls) && ltb_ℤ (pos 0) (total_debit ls))
      (every one_sided (keep is_nonzero rs)) h).1

-- The revenue line would be negative, so the CHECK cannot pass.
negative_revenue :
    (org order d b total : ℕ) (method : PaymentMethod) (books : Books) (rs : List LedgerLine)
    → 0 < d
    → pos (d + b) <ℤ (split_inclusive (pos total) ksa_vat_rate).vat
    → let ls = settlement_lines (closing b d total) method in
      resolve org books.accounts ls ≡ ok rs
      → checked_entry (new_entry org settlement order books.entries ls rs) ≢ true
negative_revenue org order d b total method books rs deposited short done checked =
    let p = closing b d total in
    let ls = settlement_lines p method in
    let sides = checked_entry-sides org settlement order books.entries ls rs checked in
    let credits = resolve_credits org books.accounts ls rs done (every_nonneg rs sides) in
    let revenue : pos 0 ≤ℤ revenue_line p =
      settlement_lines-cases p method
        (λ l. All (λ r. pos 0 ≤ℤ r.credit) l → pos 0 ≤ℤ revenue_line p) (λ z w k. k.1.0)
        (λ z k. k.1.0) (λ w k. k.1.1.0) (λ k. k.1.1.0) credits in
    absurd (
      omega (
        int_laws,
        parts_of_eq (revenue_line_lem p),
        parts_of_eq (vat_this_entry-closing b d total deposited),
        parts_of_eq (split_vat (pos d) ksa_vat_rate),
      ))

-- Where the chart is set up, the accounts of any lines are found.
resolve_finds :
    (org : ℕ) (accounts : List Account) (ls : List PostLine)
    → HasChart org accounts
    → (rs : List LedgerLine) × (resolve org accounts ls ≡ ok rs)
resolve_finds org accounts [] chart = ([], unfold resolve in refl)
resolve_finds org accounts (l ∷ ls) chart =
    let (id, found) = chart l.code in
    let (rs, done) = resolve_finds org accounts ls chart in
    (
      record { account_id = id; debit = l.debit; credit = l.credit } ∷ rs,
      resolve-cons org accounts l ls id rs found done,
    )

-- Where the chart of accounts is set up, a positive payment that closes an order with a positive
-- deposit is refused by the CHECK on ledger lines if the deposit and this payment together are less
-- than the VAT of the order, because an earlier partial settlement has paid the rest: the revenue line
-- would be negative.
pub closing_settlement_refused :
    (org order d b total : ℕ) (method : PaymentMethod) (books : Books)
    → HasChart org books.accounts
    → 0 < d
    → 0 < b
    → pos (d + b) <ℤ (split_inclusive (pos total) ksa_vat_rate).vat
    → post_settlement org order (closing b d total) method books ≡ err check_violation
unfolding post_settlement post
closing_settlement_refused org order d b total method books chart deposited paid short =
    let p = closing b d total in
    let ls = settlement_lines p method in
    let (rs, done) = resolve_finds org books.accounts ls chart in
    let gross = split_gross (pos b) ksa_vat_rate in
    let (_, net, _, _, _) = split_inclusive_exact d ksa_vat_rate in
    let positive : pos 0 <ℤ total_debit ls =
      settlement_lines-cases p method (λ l. pos 0 <ℤ total_debit l)
        (λ z w. omega (int_laws, parts_of_eq gross)) (λ z. omega (int_laws, parts_of_eq gross))
        (λ w. omega (int_laws, parts_of_eq gross)) (omega (int_laws, parts_of_eq gross)) in
    elim (Bool-cases (checked_entry (new_entry org settlement order books.entries ls rs))) [
      | inl checked ↦
          absurd (negative_revenue org order d b total method books rs deposited short done checked)
      | inr refused ↦
          rw
            (
              done,
              eq→eqb_ℤ (total_debit ls) (total_credit ls) (settlement_lines-balance p method),
              positive-is_nonzero (total_debit ls) positive,
              refused,
            )
            refl
    ]
