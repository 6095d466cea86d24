-- ===== src/Inventory/Trail/Writes.antt =====
-- Pairs of writes, to a roll and to its movements, that keep the trail of every roll.
use tailor_erp.Prelude.{
  ℕ, ◌≡◌, ◌≢◌, refl, sym, ap, ◌∙◌, inl, inr, true, false, Option, none, some, List, [], ◌∷◌, ◌++◌,
  arith, ◌==◌, ==_iff, Bool-cases, pos, ltb_ℤ, check_violation, ok, ok_inj, guard, >>=-eq-ok, find,
  All, guard-eq-ok, unique_violation, subst,
}
use tailor_erp.Inventory.{
  Batch, Movement, Stock, find_batch, update_batch, create_movement, checked_batch,
}
use tailor_erp.Inventory.Rows.{
  KeepsId, replace_row, update_batch-eq-ok, create_movement-eq-ok, find_batch-replace_row_self,
  find_batch-replace_row_ne,
}
use tailor_erp.Inventory.Keys.{Distinct}
use tailor_erp.Inventory.Warehouse.{create_row, is_absent, has_code}
use tailor_erp.Inventory.Trail.{balance_of, IsDocumented, IsChange, IsDocumented-append}

-- The trail, over a table with distinct keys.
abbrev pub IsTrail : Stock → Type 0
IsTrail s = IsDocumented s × Distinct s.batches

All-replace_row :
    (id : ℕ) (f : Batch → Batch) (keeps : KeepsId f) (k : ℕ) (rows : List Batch)
    → All (λ (c : Batch). c.id ≢ k) rows
    → All (λ (c : Batch). c.id ≢ k) (replace_row id f rows)
unfolding replace_row
All-replace_row id f keeps k [] h = tt
All-replace_row id f keeps k (b ∷ bs) h = elim (Bool-cases (b.id == id)) [
  | inl same ↦ rw same ((λ e. h.0 (sym (keeps b) ∙ e)), h.1)
  | inr other ↦ rw other (h.0, All-replace_row id f keeps k bs h.1)
]

pub Distinct-replace_row :
    (id : ℕ) (f : Batch → Batch) (keeps : KeepsId f) (rows : List Batch)
    → Distinct rows
    → Distinct (replace_row id f rows)
unfolding replace_row
Distinct-replace_row id f keeps [] h = tt
Distinct-replace_row id f keeps (b ∷ bs) h = elim (Bool-cases (b.id == id)) [
  | inl same ↦ rw same (subst (λ k. All (λ (c : Batch). c.id ≢ k) bs) (sym (keeps b)) h.0, h.1)
  | inr other ↦
      rw other (All-replace_row id f keeps b.id bs h.0, Distinct-replace_row id f keeps bs h.1)
]

-- A write to the quantity of a roll, with the movement that says so, keeps the trail.
pub write-IsTrail :
    (id : ℕ) (f : Batch → Batch) (m : Movement) (s s1 s2 : Stock)
    → update_batch id f s ≡ ok s1
    → create_movement m s1 ≡ ok s2
    → KeepsId f
    → m.batch_id ≡ id
    → ((b : Batch)
        → find_batch id s.batches ≡ some b
        → ltb_ℤ (pos 0) m.quantity ≡ true
        → IsChange m b.current_quantity (f b).current_quantity)
    → IsTrail s
    → IsTrail s2
write-IsTrail id f m s s1 s2 done made keeps of_roll change trail =
    let u = update_batch-eq-ok id f s done in
    let (moved, e) = create_movement-eq-ok m s1 made in
    let rolls : s2.batches ≡ replace_row id f s.batches =
      ap (λ (t : Stock). t.batches) e ∙ u.batches in
    let listed : s2.movements ≡ s.movements ++ (m ∷ []) =
      ap (λ (t : Stock). t.movements) e ∙ ap (λ ms. ms ++ (m ∷ [])) u.movements in
    (
      IsDocumented-append s s2 id m (f u.row).current_quantity of_roll listed
          (subst (λ o. IsChange m (balance_of o) (f u.row).current_quantity) (sym u.found)
            (change u.row u.found moved))
          (ap (λ rows. balance_of (find_batch id rows)) rolls
            ∙ ap balance_of (find_batch-replace_row_self id f keeps s.batches u.row u.found))
          (λ j ne. ap (find_batch j) rolls ∙ find_batch-replace_row_ne id f keeps s.batches j ne)
          trail.0,
      subst Distinct (sym rolls) (Distinct-replace_row id f keeps s.batches trail.1),
    )

absent : (o : Option Batch) → is_absent o ≡ true → o ≡ none
absent none h = refl
absent (some b) h = cc

unused :
    (id : ℕ) (rows : List Batch) → find_batch id rows ≡ none → All (λ (c : Batch). c.id ≢ id) rows
unfolding find_batch
unused id [] h = tt
unused id (b ∷ bs) h = elim (Bool-cases (b.id == id)) [
  | inl same ↦ let bad = rw same at h in cc
  | inr other ↦ ((λ e. apart b.id id other e), unused id bs (rw other at h))
]
  where
    apart : (a b : ℕ) → (a == b) ≡ false → a ≡ b → ⊥
    apart a b h e = ground (arith, e)

-- What the insertion of a row has done.
pub create_row-eq-ok :
    (b : Batch) (s : Stock) {s1 : Stock}
    → create_row b s ≡ ok s1
    → (find_batch b.id s.batches ≡ none)
      × (find (has_code b.store_id b.batch_code) s.batches ≡ none)
      × (s1 ≡ record s { batches = b ∷ s.batches })
unfolding create_row
create_row-eq-ok b s h =
    let (_, fresh, h1) =
      >>=-eq-ok (guard (is_absent (find_batch b.id s.batches)) unique_violation) _ h in
    let (_, free, h2) =
      >>=-eq-ok
        (guard (is_absent (find (has_code b.store_id b.batch_code) s.batches)) unique_violation) _
        h1 in
    let (_, _, h3) = >>=-eq-ok (guard (checked_batch b) check_violation) _ h2 in
    (
      absent (find_batch b.id s.batches) (guard-eq-ok _ unique_violation fresh),
      absent (find (has_code b.store_id b.batch_code) s.batches)
          (guard-eq-ok _ unique_violation free),
      sym (ok_inj h3),
    )

find_batch-cons :
    (b : Batch) (rows : List Batch) (j : ℕ) → j ≢ b.id → find_batch j (b ∷ rows) ≡ find_batch j rows
unfolding find_batch
find_batch-cons b rows j ne = ground arith

find_batch-here : (b : Batch) (rows : List Batch) → find_batch b.id (b ∷ rows) ≡ some b
unfolding find_batch
find_batch-here b rows = rw ((==_iff b.id b.id).1 refl) refl

-- A new roll, with the movement that brings its metres, keeps the trail.
pub create-IsTrail :
    (b : Batch) (m : Movement) (s s1 s2 : Stock)
    → create_row b s ≡ ok s1
    → create_movement m s1 ≡ ok s2
    → m.batch_id ≡ b.id
    → (ltb_ℤ (pos 0) m.quantity ≡ true → IsChange m (pos 0) b.current_quantity)
    → IsTrail s
    → IsTrail s2
create-IsTrail b m s s1 s2 done made of_roll change trail =
    let (fresh, _, e1) = create_row-eq-ok b s done in
    let (moved, e) = create_movement-eq-ok m s1 made in
    let rolls : s2.batches ≡ b ∷ s.batches =
      ap (λ (t : Stock). t.batches) e ∙ ap (λ (t : Stock). t.batches) e1 in
    let listed : s2.movements ≡ s.movements ++ (m ∷ []) =
      ap (λ (t : Stock). t.movements) e ∙ ap (λ (t : Stock). t.movements ++ (m ∷ [])) e1 in
    (
      IsDocumented-append s s2 b.id m b.current_quantity of_roll listed
          (subst (λ o. IsChange m (balance_of o) b.current_quantity) (sym fresh) (change moved))
          (ap (λ rows. balance_of (find_batch b.id rows)) rolls
            ∙ ap balance_of (find_batch-here b s.batches))
          (λ j ne. ap (find_batch j) rolls ∙ find_batch-cons b s.batches j ne) trail.0,
      subst Distinct (sym rolls) (unused b.id s.batches fresh, trail.1),
    )

-- A write that leaves the quantity alone keeps the trail.
pub hold-IsTrail :
    (id : ℕ) (f : Batch → Batch) (s s1 : Stock)
    → update_batch id f s ≡ ok s1
    → KeepsId f
    → ((b : Batch) → (f b).current_quantity ≡ b.current_quantity)
    → IsTrail s
    → IsTrail s1
hold-IsTrail id f s s1 done keeps same trail =
    let u = update_batch-eq-ok id f s done in
    (
      (λ j.
          rw u.movements (trail.0 j)
          ∙ ap some (elim (Bool-cases (j == id)) [
            | inl e ↦
                let is_id = (==_iff j id).0 e in
                ap (λ k. balance_of (find_batch k s.batches)) is_id
                ∙ ap balance_of u.found
                ∙ sym (same u.row)
                ∙ sym
                    (ap balance_of (find_batch-replace_row_self id f keeps s.batches u.row u.found))
                ∙ sym (ap (λ k. balance_of (find_batch k (replace_row id f s.batches))) is_id)
                ∙ sym (ap (λ rows. balance_of (find_batch j rows)) u.batches)
            | inr ne ↦ sym (
                ap (λ rows. balance_of (find_batch j rows)) u.batches
                ∙ ap balance_of
                    (find_batch-replace_row_ne id f keeps s.batches j (λ e. ground (arith, e))))
          ])),
      subst Distinct (sym u.batches) (Distinct-replace_row id f keeps s.batches trail.1),
    )
