-- ===== src/Ledger/Acceptance.antt =====
-- Which postings the ledger accepts.
use tailor_erp.Prelude.{
  ℕ, ◌+◌, ◌<◌, ◌≡◌, ◌⊎◌, refl, inl, inr, true, false, some, List, [], ◌∷◌, ◌++◌, arith, Bool-cases,
  Decimal, pos, ◌≤ℤ◌, ◌<ℤ◌, eqb_ℤ, int_laws, parts_of_eq, ok, keep, every, All, lt→ltb_ℤ, eq→eqb_ℤ,
}
use tailor_erp.Zatca.Vat.{split_inclusive, ksa_vat_rate}
use tailor_erp.Zatca.Vat.Laws.{split_inclusive_exact, split_inclusive_vat_mono}
use tailor_erp.Ledger.{
  AccountCode, Account, PaymentMethod, PostLine, LedgerLine, JournalSource, Books, total_debit,
  total_credit, by_code, resolve, is_nonzero, one_sided, checked_entry, new_entry, post, deposit,
  settlement,
}
use tailor_erp.Ledger.Posting.{
  deposit_lines, post_deposit, settlement_lines, post_settlement, revenue_line, vat_this_entry,
}
use tailor_erp.Ledger.Settling.{
  closing, revenue_line_lem, settlement_lines-cases, split_vat, split_gross,
}
use tailor_erp.Ledger.Reconcile.{vat_this_entry-closing, settlement_lines-balance}

-- Every account that a posting may name is set up for the organisation.
abbrev pub HasChart : ℕ → List Account → Type 0
HasChart org accounts = (code : AccountCode) → (id : ℕ) × (by_code org code accounts ≡ some id)

-- A line with one non-negative side and nothing on the other.
abbrev pub IsSided : Decimal → Decimal → Type 0
IsSided debit credit = ((pos 0 ≤ℤ debit) × (credit ≡ pos 0)) ⊎ ((pos 0 ≤ℤ credit) × (debit ≡ pos 0))

sided_line : (l : LedgerLine) → IsSided l.debit l.credit → is_nonzero l ≡ true → one_sided l ≡ true
unfolding one_sided
sided_line l sided some_amount = ground arith

every_sided :
    (rs : List LedgerLine)
    → All (λ l. IsSided l.debit l.credit) rs
    → every one_sided (keep is_nonzero rs) ≡ true
every_sided [] h = refl
every_sided (r ∷ rs) h = elim (Bool-cases (is_nonzero r)) [
  | inl kept ↦ rw (kept, sided_line r h.0 kept) (every_sided rs h.1)
  | inr dropped ↦ rw dropped (every_sided rs h.1)
]

pub resolve-cons :
    (org : ℕ) (accounts : List Account) (l : PostLine) (ls : List PostLine) (id : ℕ)
    (rs : List LedgerLine)
    → by_code org l.code accounts ≡ some id
    → resolve org accounts ls ≡ ok rs
    → resolve org accounts (l ∷ ls)
      ≡ ok (record { account_id = id; debit = l.debit; credit = l.credit } ∷ rs)
unfolding resolve
resolve-cons org accounts l ls id rs found done = rw (found, done)

resolve_succeeds :
    (org : ℕ) (accounts : List Account) (ls : List PostLine)
    → HasChart org accounts
    → All (λ l. IsSided l.debit l.credit) ls
    → (rs : List LedgerLine) × (resolve org accounts ls ≡ ok rs)
      × All (λ l. IsSided l.debit l.credit) rs
resolve_succeeds org accounts [] chart h = ([], unfold resolve in refl, tt)
resolve_succeeds org accounts (l ∷ ls) chart h =
    let (id, found) = chart l.code in
    let (rs, done, sided) = resolve_succeeds org accounts ls chart h.1 in
    (
      record { account_id = id; debit = l.debit; credit = l.credit } ∷ rs,
      resolve-cons org accounts l ls id rs found done,
      (h.0, sided),
    )

pub positive-is_nonzero : (a : Decimal) → pos 0 <ℤ a → eqb_ℤ a (pos 0) ≡ false
positive-is_nonzero a h = ground arith

post-accepted :
    (org : ℕ) (source : JournalSource) (reference : ℕ) (ls : List PostLine) (books : Books)
    (rs : List LedgerLine)
    → resolve org books.accounts ls ≡ ok rs
    → total_debit ls ≡ total_credit ls
    → pos 0 <ℤ total_debit ls
    → every one_sided (keep is_nonzero rs) ≡ true
    → post org source reference ls books
      ≡ ok (record books {
        entries = books.entries ++ new_entry org source reference books.entries ls rs ∷ [];
      })
unfolding post checked_entry new_entry
post-accepted org source reference ls books rs done even positive sides = rw (
  done,
  eq→eqb_ℤ (total_debit ls) (total_credit ls) even,
  positive-is_nonzero (total_debit ls) positive,
  lt→ltb_ℤ (pos 0) (total_debit ls) positive,
  sides,
)

-- A balanced posting of a positive amount, with each line on one side, is accepted.
pub post_succeeds :
    (org : ℕ) (source : JournalSource) (reference : ℕ) (ls : List PostLine) (books : Books)
    → HasChart org books.accounts
    → All (λ l. IsSided l.debit l.credit) ls
    → total_debit ls ≡ total_credit ls
    → pos 0 <ℤ total_debit ls
    → (books' : Books) × (post org source reference ls books ≡ ok books')
post_succeeds org source reference ls books chart sided even positive =
    let (rs, done, sided_rs) = resolve_succeeds org books.accounts ls chart sided in
    let entry = new_entry org source reference books.entries ls rs in
    (
      record books { entries = books.entries ++ entry ∷ [] },
      post-accepted org source reference ls books rs done even positive (every_sided rs sided_rs),
    )

-- A deposit of any positive amount is accepted where the chart of accounts is set up.
pub post_deposit_succeeds :
    (org order g : ℕ) (method : PaymentMethod) (books : Books)
    → HasChart org books.accounts
    → 0 < g
    → (books' : Books) × (post_deposit org order (pos g) method books ≡ ok books')
unfolding post_deposit
post_deposit_succeeds org order g method books chart paid =
    let (whole, net, vat, _, _) = split_inclusive_exact g ksa_vat_rate in
    let gross = split_gross (pos g) ksa_vat_rate in
    post_succeeds org deposit order (deposit_lines (pos g) method) books chart
      (inl (omega (int_laws, parts_of_eq gross), refl), (inr (net, refl), (inr (vat, refl), tt)))
      (omega (int_laws, parts_of_eq gross, parts_of_eq whole)) (omega (int_laws, parts_of_eq gross))

-- The settlement that pays the rest of an order after its deposit is accepted.
pub post_settlement_succeeds :
    (org order d b : ℕ) (method : PaymentMethod) (books : Books)
    → HasChart org books.accounts
    → 0 < d
    → 0 < b
    → (books' : Books) × (post_settlement org order (closing b d (d + b)) method books ≡ ok books')
unfolding post_settlement
post_settlement_succeeds org order d b method books chart deposited paid =
    let p = closing b d (d + b) in
    let (_, net, _, _, _) = split_inclusive_exact d ksa_vat_rate in
    let vat = split_inclusive_vat_mono d b in
    let (_, net', _, _, _) = split_inclusive_exact (d + b) ksa_vat_rate in
    let due = vat_this_entry-closing b d (d + b) deposited in
    let gross = split_gross (pos b) ksa_vat_rate in
    let revenue : pos 0 ≤ℤ revenue_line p = omega (
      int_laws,
      parts_of_eq (revenue_line_lem p),
      parts_of_eq due,
      parts_of_eq (split_vat (pos d) ksa_vat_rate),
      parts_of_eq (split_vat (pos (d + b)) ksa_vat_rate),
    ) in
    let due_nonneg : pos 0 ≤ℤ vat_this_entry p = omega (int_laws, parts_of_eq due) in
    let cash_side : pos 0 ≤ℤ (split_inclusive (pos b) ksa_vat_rate).gross =
      omega (int_laws, parts_of_eq gross) in
    post_succeeds org settlement order (settlement_lines p method) books chart
      (settlement_lines-cases p method (All (λ l. IsSided l.debit l.credit))
        (λ z w. (inl (cash_side, refl), (inr (revenue, refl), tt)))
        (λ z. (inl (cash_side, refl), (inr (revenue, refl), (inr (due_nonneg, refl), tt))))
        (λ w. (inl (cash_side, refl), (inl (net, refl), (inr (revenue, refl), tt))))
        (
          inl (cash_side, refl),
          (inl (net, refl), (inr (revenue, refl), (inr (due_nonneg, refl), tt))),
        ))
      (settlement_lines-balance p method)
      (settlement_lines-cases p method (λ ls. pos 0 <ℤ total_debit ls)
        (λ z w. omega (int_laws, parts_of_eq gross)) (λ z. omega (int_laws, parts_of_eq gross))
        (λ w. omega (int_laws, parts_of_eq gross)) (omega (int_laws, parts_of_eq gross)))
