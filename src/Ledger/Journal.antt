-- ===== src/Ledger/Journal.antt =====
-- The journal as a whole: every entry balances, and entries are numbered without a gap.
use tailor_erp.Prelude.{
  ℕ, ◌+◌, ◌<◌, ◌≡◌, refl, sym, ap, ◌∙◌, inl, inr, true, false, not, List, [], ◌∷◌, ◌++◌, arith,
  Bool-cases, pos, ◌+ℤ◌, ◌<ℤ◌, ltb_ℤ, eqb_ℤ, int_laws, parts_of_eq, ltb_ℤ→lt, eqb_ℤ→eq, bad_request,
  check_violation, ok, ok_inj, guard, or_throw, >>=-eq-ok, keep, every, sum_of, All,
  sum_from-sum_of, &&-eq-true, guard-eq-ok,
}
use tailor_erp.Ledger.{
  Account, PostLine, LedgerLine, JournalSource, JournalEntry, Books, total_debit, total_credit,
  by_code, resolve, last_number, is_nonzero, one_sided, checked_entry, new_entry, post,
}

-- The stored totals are the sums of the stored lines, equal on both sides and positive, and each line
-- has one side.
pub record IsBooked (e : JournalEntry) : Type 0 where
  pub debits : sum_of (λ l. l.debit) e.lines ≡ e.total_debit
  pub credits : sum_of (λ l. l.credit) e.lines ≡ e.total_credit
  pub even : e.total_debit ≡ e.total_credit
  pub positive : pos 0 <ℤ e.total_debit
  pub sides : every one_sided e.lines ≡ true

resolve_sums :
    (org : ℕ) (accounts : List Account) (ls : List PostLine) {rs : List LedgerLine}
    → resolve org accounts ls ≡ ok rs
    → (sum_of (λ l. l.debit) rs ≡ sum_of (λ l. l.debit) ls)
      × (sum_of (λ l. l.credit) rs ≡ sum_of (λ l. l.credit) ls)
unfolding resolve
resolve_sums org accounts [] h =
    (ap (sum_of (λ l. l.debit)) (sym (ok_inj h)), ap (sum_of (λ l. l.credit)) (sym (ok_inj h)))
resolve_sums org accounts (l ∷ ls) h =
    let (id, found, h1) = >>=-eq-ok (or_throw (by_code org l.code accounts) bad_request) _ h in
    let (rest, done, h2) = >>=-eq-ok (resolve org accounts ls) _ h1 in
    let (debits, credits) = resolve_sums org accounts ls done in
    let e = sym (ok_inj h2) in
    (
      ap (sum_of (λ r. r.debit)) e ∙ ap (λ t. l.debit +ℤ t) debits,
      ap (sum_of (λ r. r.credit)) e ∙ ap (λ t. l.credit +ℤ t) credits,
    )

zero_line : (r : LedgerLine) → is_nonzero r ≡ false → (r.debit ≡ pos 0) × (r.credit ≡ pos 0)
zero_line r h = (ground arith, ground arith)

-- A line without an amount adds nothing.
keep_sums :
    (rs : List LedgerLine)
    → (sum_of (λ l. l.debit) (keep is_nonzero rs) ≡ sum_of (λ l. l.debit) rs)
      × (sum_of (λ l. l.credit) (keep is_nonzero rs) ≡ sum_of (λ l. l.credit) rs)
keep_sums [] = (refl, refl)
keep_sums (r ∷ rs) =
    let (debits, credits) = keep_sums rs in
    elim (Bool-cases (is_nonzero r)) [
      | inl kept ↦ rw kept (ap (λ t. r.debit +ℤ t) debits, ap (λ t. r.credit +ℤ t) credits)
      | inr dropped ↦
          let (no_debit, no_credit) = zero_line r dropped in
          rw dropped (
            omega (int_laws, parts_of_eq debits, parts_of_eq no_debit),
            omega (int_laws, parts_of_eq credits, parts_of_eq no_credit),
          )
    ]

pub post-eq-ok :
    (org : ℕ) (source : JournalSource) (reference : ℕ) (ls : List PostLine) (books : Books)
    {books' : Books}
    → post org source reference ls books ≡ ok books'
    → (rs : List LedgerLine) × (resolve org books.accounts ls ≡ ok rs)
      × (total_debit ls ≡ total_credit ls)
      × (checked_entry (new_entry org source reference books.entries ls rs) ≡ true)
      × (books' ≡ record books {
        entries = books.entries ++ new_entry org source reference books.entries ls rs ∷ [];
      })
unfolding post
post-eq-ok org source reference ls books h =
    let (rs, resolved, h1) = >>=-eq-ok (resolve org books.accounts ls) _ h in
    let (_, even, h2) =
      >>=-eq-ok (guard (eqb_ℤ (total_debit ls) (total_credit ls)) bad_request) _ h1 in
    let (_, some_amount, h3) =
      >>=-eq-ok (guard (not (eqb_ℤ (total_debit ls) (pos 0))) bad_request) _ h2 in
    let (_, checked, h4) =
      >>=-eq-ok
        (guard (checked_entry (new_entry org source reference books.entries ls rs)) check_violation)
        _ h3 in
    (rs, resolved, eqb_ℤ→eq _ _ (guard-eq-ok _ _ even), guard-eq-ok _ _ checked, sym (ok_inj h4))

All-append {κ} :
    {A : Type κ} (P : A → Type 0) (xs ys : List A) → All P xs → All P ys → All P (xs ++ ys)
All-append P [] ys h k = k
All-append P (x ∷ xs) ys h k = (h.0, All-append P xs ys h.1 k)

last_number-append :
    (org : ℕ) (es : List JournalEntry) (e : JournalEntry)
    → e.organization_id ≡ org
    → last_number org es < e.entry_number
    → last_number org (es ++ e ∷ []) ≡ e.entry_number
unfolding last_number
last_number-append org [] e mine above = ground arith
last_number-append org (x ∷ es) e mine above = ground (arith, last_number-append org es e mine)

new_entry-IsBooked :
    (org : ℕ) (source : JournalSource) (reference : ℕ) (accounts : List Account)
    (es : List JournalEntry) (ls : List PostLine) (rs : List LedgerLine)
    → resolve org accounts ls ≡ ok rs
    → total_debit ls ≡ total_credit ls
    → checked_entry (new_entry org source reference es ls rs) ≡ true
    → IsBooked (new_entry org source reference es ls rs)
unfolding new_entry checked_entry
new_entry-IsBooked org source reference accounts es ls rs resolved even checked =
    let (d1, c1) = keep_sums rs in
    let (d2, c2) = resolve_sums org accounts ls resolved in
    let d3 = sum_from-sum_of (λ (l : PostLine). l.debit) (pos 0) ls in
    let c3 = sum_from-sum_of (λ (l : PostLine). l.credit) (pos 0) ls in
    let (left, sides) = &&-eq-true _ (every one_sided (keep is_nonzero rs)) checked in
    let (_, positive) = &&-eq-true _ (ltb_ℤ (pos 0) (total_debit ls)) left in
    record {
      debits = omega (int_laws, parts_of_eq d1, parts_of_eq d2, parts_of_eq d3);
      credits = omega (int_laws, parts_of_eq c1, parts_of_eq c2, parts_of_eq c3);
      even = even;
      positive = ltb_ℤ→lt (pos 0) (total_debit ls) positive;
      sides = sides;
    }

last_number-new_entry :
    (org : ℕ) (source : JournalSource) (reference : ℕ) (es : List JournalEntry) (ls : List PostLine)
    (rs : List LedgerLine)
    → last_number org (es ++ new_entry org source reference es ls rs ∷ []) ≡ last_number org es + 1
unfolding new_entry
last_number-new_entry org source reference es ls rs = last_number-append org es _ refl (omega arith)

-- A posting that is accepted appends one entry that balances, line by line and in total, with the
-- number after the last one of its organisation, and leaves the accounts and the earlier entries alone.
pub post-IsBooked :
    (org : ℕ) (source : JournalSource) (reference : ℕ) (ls : List PostLine) (books : Books)
    {books' : Books}
    → All IsBooked books.entries
    → post org source reference ls books ≡ ok books'
    → All IsBooked books'.entries
      × (last_number org books'.entries ≡ last_number org books.entries + 1)
      × (books'.accounts ≡ books.accounts)
      × ((e : JournalEntry) × (books'.entries ≡ books.entries ++ e ∷ []))
post-IsBooked org source reference ls books booked h =
    let (rs, resolved, even, checked, e) = post-eq-ok org source reference ls books h in
    let entry = new_entry org source reference books.entries ls rs in
    let appended = ap (λ (b : Books). b.entries) e in
    (
      rw appended (
          All-append IsBooked books.entries (entry ∷ []) booked (
            new_entry-IsBooked org source reference books.accounts books.entries ls rs resolved even
                checked,
            tt,
          )),
      rw appended (last_number-new_entry org source reference books.entries ls rs),
      ap (λ (b : Books). b.accounts) e,
      (entry, appended),
    )
