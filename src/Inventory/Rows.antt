-- ===== src/Inventory/Rows.antt =====
-- Laws of the row updates of the stock tables.
use tailor_erp.Prelude.{
  ℕ, ◌≡◌, ◌≢◌, refl, sym, ap, ◌∙◌, inl, inr, true, false, Option, none, some, List, [], ◌∷◌, ◌++◌,
  arith, ◌==◌, if◌then◌else◌, Bool-cases, some_inj, Decimal, pos, ◌+ℤ◌, ltb_ℤ, leb_ℤ, int_laws,
  parts_of_eq, check_violation, missing_record, Result, ok, err, ok_inj, >>=-eq-ok, sum_of,
  err_ne_ok, &&-eq-true,
}
use tailor_erp.Inventory.{
  Batch, Movement, Stock, checked_batch, checked_movement, find_batch, update_row, update_batch,
  create_movement,
}

-- An update that leaves the primary key alone.
abbrev pub KeepsId : (Batch → Batch) → Type 0
KeepsId f = (b : Batch) → (f b).id ≡ b.id

abbrev pub stock_total : List Batch → Decimal
stock_total = sum_of (λ b. b.current_quantity)

-- The table after a successful update.
unfoldable pub replace_row : ℕ → (Batch → Batch) → List Batch → List Batch
replace_row id f [] = []
replace_row id f (b ∷ bs) = if b.id == id then f b ∷ bs else b ∷ replace_row id f bs

abbrev pub written : (Batch → Batch) → List Batch → Option Batch → Result (List Batch)
written f rows none = err missing_record
written f rows (some b) = if checked_batch (f b) then ok rows else err check_violation

-- An update writes the row that has the key, if there is one and its CHECKs let it.
pub update_row_lem :
    (id : ℕ) (f : Batch → Batch) (rows : List Batch)
    → update_row id f rows ≡ written f (replace_row id f rows) (find_batch id rows)
unfolding update_row replace_row find_batch
update_row_lem id f [] = refl
update_row_lem id f (b ∷ bs) = elim (Bool-cases (b.id == id)) [
  | inl same ↦ rw same
  | inr other ↦ rw (other, update_row_lem id f bs) (ground arith)
]

pub find_batch-id : (j : ℕ) (rows : List Batch) (b : Batch) → find_batch j rows ≡ some b → b.id ≡ j
unfolding find_batch
find_batch-id j [] b found = absurd (cc)
find_batch-id j (r ∷ rows) b found = elim (Bool-cases (r.id == j)) [
  | inl same ↦ let here : some r ≡ some b = rw same at found in ground (arith, here)
  | inr other ↦ find_batch-id j rows b (rw other at found)
]

module _ (id : ℕ) (f : Batch → Batch) (keeps : KeepsId f) where
  pub find_batch-replace_row_self :
      (rows : List Batch) (b : Batch)
      → find_batch id rows ≡ some b
      → find_batch id (replace_row id f rows) ≡ some (f b)
  unfolding replace_row find_batch
  find_batch-replace_row_self [] b found = absurd (cc)
  find_batch-replace_row_self (r ∷ rows) b found = elim (Bool-cases (r.id == id)) [
    | inl same ↦ let here : r ≡ b = some_inj (rw same at found) in ground (arith, keeps r, here)
    | inr other ↦ rw (other, other) (find_batch-replace_row_self rows b (rw other at found))
  ]

  pub find_batch-replace_row_ne :
      (rows : List Batch) (j : ℕ)
      → j ≢ id
      → find_batch j (replace_row id f rows) ≡ find_batch j rows
  unfolding replace_row find_batch
  find_batch-replace_row_ne [] j ne = refl
  find_batch-replace_row_ne (r ∷ rows) j ne =
      ground (arith, keeps r, find_batch-replace_row_ne rows j ne)

-- A write changes the total by the change of the row.
pub stock_total-replace_row :
    (id : ℕ) (f : Batch → Batch) (rows : List Batch) (b : Batch)
    → find_batch id rows ≡ some b
    → stock_total (replace_row id f rows) +ℤ b.current_quantity
      ≡ stock_total rows +ℤ (f b).current_quantity
unfolding replace_row find_batch
stock_total-replace_row id f [] b found = absurd (cc)
stock_total-replace_row id f (r ∷ rows) b found = elim (Bool-cases (r.id == id)) [
  | inl same ↦ let here : r ≡ b = some_inj (rw same at found) in rw (same, here) (omega int_laws)
  | inr other ↦
      let rest = stock_total-replace_row id f rows b (rw other at found) in
      rw other (omega (int_laws, parts_of_eq rest))
]

-- What an update that went through has done.
pub record Updated (id : ℕ) (f : Batch → Batch) (s s' : Stock) : Type 0 where
  pub row : Batch
  pub found : find_batch id s.batches ≡ some row
  pub fits : checked_batch (f row) ≡ true
  pub batches : s'.batches ≡ replace_row id f s.batches
  pub movements : s'.movements ≡ s.movements
  pub reservations : s'.reservations ≡ s.reservations

written-eq-ok :
    (f : Batch → Batch) (rows : List Batch) (o : Option Batch) {rows' : List Batch}
    → written f rows o ≡ ok rows'
    → (b : Batch) × (o ≡ some b) × (checked_batch (f b) ≡ true) × (rows' ≡ rows)
written-eq-ok f rows none h = absurd (cc)
written-eq-ok f rows (some b) {rows'} h = elim (Bool-cases (checked_batch (f b))) [
  | inl fits ↦ (b, refl, fits, sym (ok_inj (rw fits at h)))
  | inr refused ↦ absurd (err_ne_ok (rw refused at h))
]

pub update_batch-eq-ok :
    (id : ℕ) (f : Batch → Batch) (s : Stock) {s' : Stock}
    → update_batch id f s ≡ ok s'
    → Updated id f s s'
unfolding update_batch
update_batch-eq-ok id f s h =
    let (rows, done, e) = >>=-eq-ok (update_row id f s.batches) _ h in
    let (b, found, fits, same) =
      written-eq-ok f (replace_row id f s.batches) (find_batch id s.batches)
        (sym (update_row_lem id f s.batches) ∙ done) in
    let end = ok_inj e in
    record {
      row = b;
      found = found;
      fits = fits;
      batches = ap (λ (t : Stock). t.batches) (sym end) ∙ same;
      movements = ap (λ (t : Stock). t.movements) (sym end);
      reservations = ap (λ (t : Stock). t.reservations) (sym end);
    }

-- An update whose row is there and stays within its CHECKs goes through.
pub update_batch_succeeds :
    (id : ℕ) (f : Batch → Batch) (s : Stock) (b : Batch)
    → find_batch id s.batches ≡ some b
    → checked_batch (f b) ≡ true
    → update_batch id f s ≡ ok (record s { batches = replace_row id f s.batches })
unfolding update_batch
update_batch_succeeds id f s b found fits = rw (update_row_lem id f s.batches, found, fits)

-- The CHECKs refuse any other balance.
pub update_batch_refused :
    (id : ℕ) (f : Batch → Batch) (s : Stock) (b : Batch)
    → find_batch id s.batches ≡ some b
    → checked_batch (f b) ≡ false
    → update_batch id f s ≡ err check_violation
unfolding update_batch
update_batch_refused id f s b found refused = rw (update_row_lem id f s.batches, found, refused)

-- A movement that the CHECKs let through is the last one, and moves something.
pub create_movement-eq-ok :
    (m : Movement) (s : Stock) {s' : Stock}
    → create_movement m s ≡ ok s'
    → (ltb_ℤ (pos 0) m.quantity ≡ true) × (s' ≡ record s { movements = s.movements ++ m ∷ [] })
unfolding create_movement checked_movement
create_movement-eq-ok m s {s'} h = elim (Bool-cases (checked_movement m)) [
  | inl fits ↦ (
    (&&-eq-true (leb_ℤ (pos 0) m.new_balance) (ltb_ℤ (pos 0) m.quantity) fits).1,
    sym (ok_inj (rw fits at h)),
  )
  | inr refused ↦ absurd (err_ne_ok (rw refused at h))
]
