-- ===== src/Zatca/Issue/Sorting.antt =====
-- The series of an organisation, sorted by the counter, when one invoice is written.
use tailor_erp.Prelude.{
  ℕ, ◌<◌, ◌≡◌, refl, sym, ap, ◌∙◌, inl, inr, Bool, true, false, some, List, [], ◌∷◌, ◌++◌, arith,
  ltb, Bool-cases, some_inj, keep, find, All, subst,
}
use tailor_erp.Zatca.Issue.{
  TaxInvoice, has_id, or_zero, is_issued, insert_by_icv, sort_by_icv, series, update_row,
}

abbrev pub IsBelow : TaxInvoice → TaxInvoice → Type 0
IsBelow x y = or_zero y.icv < or_zero x.icv

not_above : (a b : ℕ) → a < b → ltb b a ≡ false
not_above a b h = ground arith

above : (a b : ℕ) → a < b → ltb a b ≡ true
above a b h = ground arith

insert_by_icv-last :
    (x y : TaxInvoice) (ys : List TaxInvoice)
    → IsBelow x y
    → insert_by_icv y (ys ++ (x ∷ [])) ≡ insert_by_icv y ys ++ (x ∷ [])
unfolding insert_by_icv
insert_by_icv-last x y [] below = rw (not_above (or_zero y.icv) (or_zero x.icv) below) refl
insert_by_icv-last x y (z ∷ ys) below = elim (Bool-cases (ltb (or_zero z.icv) (or_zero y.icv))) [
  | inl later ↦ rw later (ap (λ l. z ∷ l) (insert_by_icv-last x y ys below))
  | inr here ↦ rw here refl
]

insert_by_icv_greatest :
    (x : TaxInvoice) (ys : List TaxInvoice)
    → All (IsBelow x) ys
    → insert_by_icv x ys ≡ ys ++ (x ∷ [])
unfolding insert_by_icv
insert_by_icv_greatest x [] h = refl
insert_by_icv_greatest x (y ∷ ys) h =
    rw (above (or_zero y.icv) (or_zero x.icv) h.0)
      (ap (λ l. y ∷ l) (insert_by_icv_greatest x ys h.1))

All-insert_by_icv :
    (P : TaxInvoice → Type 0) (x : TaxInvoice) (ys : List TaxInvoice)
    → P x
    → All P ys
    → All P (insert_by_icv x ys)
unfolding insert_by_icv
All-insert_by_icv P x [] p h = (p, tt)
All-insert_by_icv P x (y ∷ ys) p h = elim (Bool-cases (ltb (or_zero y.icv) (or_zero x.icv))) [
  | inl later ↦ rw later (h.0, All-insert_by_icv P x ys p h.1)
  | inr here ↦ rw here (p, h)
]

All-inserted :
    (P : TaxInvoice → Type 0) (x : TaxInvoice) (ys : List TaxInvoice)
    → All P (insert_by_icv x ys)
    → P x × All P ys
unfolding insert_by_icv
All-inserted P x [] h = h
All-inserted P x (y ∷ ys) h = elim (Bool-cases (ltb (or_zero y.icv) (or_zero x.icv))) [
  | inl later ↦ let k = rw later at h in let (p, rest) = All-inserted P x ys k.1 in (p, (k.0, rest))
  | inr here ↦ let k = rw here at h in (k.0, k.1)
]

All-sort_by_icv :
    (P : TaxInvoice → Type 0) (xs : List TaxInvoice) → All P xs → All P (sort_by_icv xs)
unfolding sort_by_icv
All-sort_by_icv P [] h = tt
All-sort_by_icv P (x ∷ xs) h = All-insert_by_icv P x (sort_by_icv xs) h.0 (All-sort_by_icv P xs h.1)

All-sorted : (P : TaxInvoice → Type 0) (xs : List TaxInvoice) → All P (sort_by_icv xs) → All P xs
unfolding sort_by_icv
All-sorted P [] h = tt
All-sorted P (x ∷ xs) h =
    let (p, rest) = All-inserted P x (sort_by_icv xs) h in (p, All-sorted P xs rest)

sort_by_icv_greatest :
    (x : TaxInvoice) (xs ys : List TaxInvoice)
    → All (IsBelow x) (xs ++ ys)
    → sort_by_icv (xs ++ (x ∷ ys)) ≡ sort_by_icv (xs ++ ys) ++ (x ∷ [])
unfolding sort_by_icv
sort_by_icv_greatest x [] ys h =
    insert_by_icv_greatest x (sort_by_icv ys) (All-sort_by_icv (IsBelow x) ys h)
sort_by_icv_greatest x (y ∷ xs) ys h =
    rw (sort_by_icv_greatest x xs ys h.1) (insert_by_icv-last x y (sort_by_icv (xs ++ ys)) h.0)

keep-append :
    (p : TaxInvoice → Bool) (xs ys : List TaxInvoice) → keep p (xs ++ ys) ≡ keep p xs ++ keep p ys
keep-append p [] ys = refl
keep-append p (x ∷ xs) ys = elim (Bool-cases (p x)) [
  | inl kept ↦ rw kept (ap (λ l. x ∷ l) (keep-append p xs ys))
  | inr dropped ↦ rw dropped (keep-append p xs ys)
]

-- A row that is not issued does not count.
pub series_without :
    (org : ℕ) (x : TaxInvoice) (xs ys : List TaxInvoice)
    → is_issued org x ≡ false
    → series org (xs ++ (x ∷ ys)) ≡ series org (xs ++ ys)
unfolding series
series_without org x xs ys out =
    let e = keep-append (is_issued org) xs (x ∷ ys) in
    let f = keep-append (is_issued org) xs ys in ap sort_by_icv ((rw out at e) ∙ sym f)

-- A row with the greatest counter comes last.
pub series_greatest :
    (org : ℕ) (x : TaxInvoice) (xs ys : List TaxInvoice)
    → is_issued org x ≡ true
    → All (IsBelow x) (series org (xs ++ ys))
    → series org (xs ++ (x ∷ ys)) ≡ series org (xs ++ ys) ++ (x ∷ [])
unfolding series
series_greatest org x xs ys there below =
    let e = keep-append (is_issued org) xs (x ∷ ys) in
    let f = keep-append (is_issued org) xs ys in
    let plain =
      subst (All (IsBelow x)) f (All-sorted (IsBelow x) (keep (is_issued org) (xs ++ ys)) below) in
    ap sort_by_icv (rw there at e)
    ∙ sort_by_icv_greatest x (keep (is_issued org) xs) (keep (is_issued org) ys) plain
    ∙ ap (λ l. sort_by_icv l ++ (x ∷ [])) (sym f)

-- The row that a key finds, in its place, before and after the write.
pub update_row_lem :
    (id : ℕ) (f : TaxInvoice → TaxInvoice) (rows : List TaxInvoice) {x : TaxInvoice}
    → find (has_id id) rows ≡ some x
    → (xs : List TaxInvoice) × (ys : List TaxInvoice) × (rows ≡ xs ++ (x ∷ ys))
      × (update_row id f rows ≡ xs ++ (f x ∷ ys))
unfolding update_row
update_row_lem id f [] found = cc
update_row_lem id f (y ∷ rows) {x} found = elim (Bool-cases (has_id id y)) [
  | inl here ↦
      let same : y ≡ x = some_inj (rw here at found) in
      ([], rows, ap (λ z. z ∷ rows) same, rw here (ap (λ z. f z ∷ rows) same))
  | inr there ↦
      let (xs, ys, e, w) = update_row_lem id f rows (rw there at found) in
      (y ∷ xs, ys, ap (λ l. y ∷ l) e, rw there (ap (λ l. y ∷ l) w))
]
