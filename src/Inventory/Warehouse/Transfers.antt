-- ===== src/Inventory/Warehouse/Transfers.antt =====
-- What a transfer between two stores does to the stock.
use tailor_erp.Prelude.{
  ℕ, ◌≡◌, ◌≢◌, refl, sym, ap, ◌∙◌, inl, inr, Bool, true, false, not, Option, none, some, List, [],
  ◌∷◌, arith, ◌==◌, ==_iff, if◌then◌else◌, Bool-cases, Option-cases, some_inj, Decimal, pos, ◌+ℤ◌,
  ◌-ℤ◌, ◌≤ℤ◌, ltb_ℤ, int_laws, parts_of_eq, ltb_ℤ→le, bad_request, not_found, ok, ok_inj, guard,
  or_throw, >>=-eq-ok, keep, find, any, or_throw-eq-ok, &&-eq-true, guard-eq-ok, All-find, subst,
  All_const,
}
use tailor_erp.Inventory.{
  transfer_out, transfer_in, Batch, Stock, find_batch, update_batch, create_movement,
}
use tailor_erp.Inventory.Keys.{Distinct, Stored-self}
use tailor_erp.Inventory.Rows.{
  stock_total, replace_row, written, find_batch-id, update_batch-eq-ok, create_movement-eq-ok,
}
use tailor_erp.Inventory.Warehouse.{
  batch_row, has_code, create_row, movement, Transfer, source_of, received, copied, receive,
  transfer_fabric,
}
use tailor_erp.Inventory.Trail.Writes.{Distinct-replace_row, create_row-eq-ok}
use tailor_erp.Inventory.Fifo.{set_balance}
use tailor_erp.Auth.Guard.{Store, belongs}

-- The metres of one store.
abbrev pub in_store : ℕ → Batch → Bool
in_store store b = b.store_id == store

abbrev pub stock_of : ℕ → List Batch → Decimal
stock_of store rows = stock_total (keep (in_store store) rows)

abbrev pub KeepsStore : (Batch → Batch) → Type 0
KeepsStore f = (b : Batch) → (f b).store_id ≡ b.store_id

stock_of-replace_row :
    (store id : ℕ) (f : Batch → Batch) (rows : List Batch) (b : Batch)
    → KeepsStore f
    → find_batch id rows ≡ some b
    → stock_of store (replace_row id f rows)
        +ℤ (if in_store store b then b.current_quantity else pos 0)
      ≡ stock_of store rows +ℤ (if in_store store b then (f b).current_quantity else pos 0)
unfolding replace_row find_batch
stock_of-replace_row store id f [] b keeps found = absurd (cc)
stock_of-replace_row store id f (r ∷ rows) b keeps found = elim (Bool-cases (r.id == id)) [
  | inl same ↦
      let here : r ≡ b = some_inj (rw same at found) in
      elim (Bool-cases (in_store store b)) [
        | inl inside ↦ rw (same, here, keeps b, inside) (omega int_laws)
        | inr outside ↦ rw (same, here, keeps b, outside) (omega int_laws)
      ]
  | inr other ↦
      let rest = stock_of-replace_row store id f rows b keeps (rw other at found) in
      elim (Bool-cases (in_store store r)) [
        | inl inside ↦ rw (other, inside) (omega (int_laws, parts_of_eq rest))
        | inr outside ↦ rw (other, outside) rest
      ]
]

-- What the received metres do to the stock of a store.
receive_stock :
    (id now : ℕ) (source : Batch) (store : ℕ) (quantity : Decimal) (o : Option Batch) (s : Stock)
    (x : ℕ) {r : ℕ × Stock}
    → Distinct s.batches
    → find (has_code store source.batch_code) s.batches ≡ o
    → receive id now source store quantity o s ≡ ok r
    → stock_of x (r.1.batches) ≡ stock_of x s.batches +ℤ (if store == x then quantity else pos 0)
unfolding receive
receive_stock id now source store quantity none s x {r} keys searched done =
    let row = batch_row id now (copied source store quantity) in
    let (s1, made, h1) = >>=-eq-ok (create_row row s) _ done in
    let (s2, moved, e) =
      >>=-eq-ok (create_movement (movement id transfer_in quantity (pos 0) quantity) s1) _ h1 in
    let (_, _, e1) = create_row-eq-ok row s made in
    let (_, e2) = create_movement-eq-ok _ s1 moved in
    let rolls : r.1.batches ≡ row ∷ s.batches =
      ap (λ (p : ℕ × Stock). p.1.batches) (sym (ok_inj e))
      ∙ ap (λ (t : Stock). t.batches) e2
      ∙ ap (λ (t : Stock). t.batches) e1 in
    elim (Bool-cases (store == x)) [
      | inl inside ↦ rw (rolls, inside) (omega int_laws)
      | inr outside ↦ rw (rolls, outside) (omega int_laws)
    ]
receive_stock id now source store quantity (some b) s x {r} keys searched done =
    let balance = b.current_quantity +ℤ quantity in
    let (s1, written, h1) = >>=-eq-ok (update_batch b.id (received balance) s) _ done in
    let (s2, moved, e) =
      >>=-eq-ok (create_movement (movement b.id transfer_in quantity b.current_quantity balance) s1)
        _ h1 in
    let (stored, hit) =
      All-find (λ (c : Batch). find_batch c.id s.batches ≡ some c)
        (has_code store source.batch_code) s.batches (Stored-self s.batches keys) searched in
    let at_store =
      (==_iff b.store_id store).0
        ((&&-eq-true (b.store_id == store) (b.batch_code == source.batch_code) hit).0) in
    let u = update_batch-eq-ok b.id (received balance) s written in
    let (_, e2) = create_movement-eq-ok _ s1 moved in
    let rolls : r.1.batches ≡ replace_row b.id (received balance) s.batches =
      ap (λ (p : ℕ × Stock). p.1.batches) (sym (ok_inj e))
      ∙ ap (λ (t : Stock). t.batches) e2
      ∙ u.batches in
    let law = stock_of-replace_row x b.id (received balance) s.batches b (λ c. refl) stored in
    elim (Bool-cases (store == x)) [
      | inl inside ↦
          rw (rolls, inside) (omega (int_laws, parts_of_eq (rw (at_store, inside) at law)))
      | inr outside ↦
          rw (rolls, outside) (omega (int_laws, parts_of_eq (rw (at_store, outside) at law)))
    ]

find_sound {ℓ} : {A : Type ℓ} (p : A → Bool) (xs : List A) {a : A} → find p xs ≡ some a → p a ≡ true
find_sound p xs found =
    (All-find (λ x. Unit {0}) p xs (All_const (λ x. Unit {0}) xs (λ x. tt)) found).1

any_found {ℓ} :
    {A : Type ℓ} (p : A → Bool) (xs : List A) {a : A} → find p xs ≡ some a → any p xs ≡ true
any_found p [] h = cc
any_found p (x ∷ xs) h = elim (Bool-cases (p x)) [
  | inl here ↦ rw here refl
  | inr there ↦ rw there (any_found p xs (rw there at h))
]

source_found :
    (org id : ℕ) (stores : List Store) (s : Stock) {b : Batch}
    → source_of org id stores s ≡ some b
    → (find_batch id s.batches ≡ some b) × (any (belongs b.store_id org) stores ≡ true)
source_found org id stores s {b} h = elim (Option-cases (find_batch id s.batches)) [
  | inl e ↦ let bad = rw (e, source_of) at h in cc
  | inr (c, e) ↦ elim (Option-cases (find (belongs c.store_id org) stores)) [
    | inl f ↦ let bad = rw (e, source_of, f) at h in cc
    | inr (st, t) ↦
        let same : some c ≡ some b = rw (e, source_of, t) at h in
        (
          e ∙ same,
          subst (λ (d : Batch). any (belongs d.store_id org) stores ≡ true) (some_inj same)
              (any_found (belongs c.store_id org) stores t),
        )
  ]
]

-- The balance of a store after the metres have left the roll and arrived.
moved_stock :
    (x dest : ℕ) (b : Batch) (dto : Transfer) (s s2 t : Stock) (rows : List Batch)
    → dest ≡ dto.destination_store_id
    → s2.batches ≡ rows
    → stock_of x rows +ℤ (if in_store x b then b.current_quantity else pos 0)
      ≡ stock_of x s.batches +ℤ (if in_store x b then b.current_quantity -ℤ dto.quantity else pos 0)
    → stock_of x t.batches ≡ stock_of x s2.batches +ℤ (if dest == x then dto.quantity else pos 0)
    → stock_of x t.batches +ℤ (if b.store_id == x then dto.quantity else pos 0)
      ≡ stock_of x s.batches +ℤ (if dto.destination_store_id == x then dto.quantity else pos 0)
moved_stock x dest b dto s s2 t rows is_dest rolls left arrived =
    let came = rw is_dest at arrived in
    let from = rw (sym rolls) at left in
    elim (Bool-cases (b.store_id == x)) [
      | inl inside ↦ rw inside (omega (int_laws, parts_of_eq (rw inside at from), parts_of_eq came))
      | inr outside ↦
          rw outside (omega (int_laws, parts_of_eq (rw outside at from), parts_of_eq came))
    ]

-- A transfer that succeeds has moved its quantity, which the roll had, from the store of the roll to
-- the other one, both of the organisation: it leaves the stock of the one, arrives in the stock of the
-- other, and the stock of every other store is what it was.
pub transfer_fabric_moves :
    (id now org : ℕ) (dto : Transfer) (stores : List Store) (s : Stock) {r : ℕ × Stock}
    → Distinct s.batches
    → transfer_fabric id now org dto stores s ≡ ok r
    → (b : Batch) × (find_batch dto.batch_id s.batches ≡ some b)
      × (dto.destination_store_id ≢ b.store_id)
      × (any (belongs b.store_id org) stores ≡ true)
      × (any (belongs dto.destination_store_id org) stores ≡ true)
      × (dto.quantity ≤ℤ b.current_quantity)
      × ((x : ℕ)
          → stock_of x (r.1.batches) +ℤ (if b.store_id == x then dto.quantity else pos 0)
            ≡ stock_of x s.batches
              +ℤ (if dto.destination_store_id == x then dto.quantity else pos 0))
unfolding transfer_fabric set_balance
transfer_fabric_moves id now org dto stores s {r} keys done =
    let (b, held, h1) =
      >>=-eq-ok (or_throw (source_of org dto.batch_id stores s) not_found) _ done in
    let (dest, known, h2) =
      >>=-eq-ok (or_throw (find (belongs dto.destination_store_id org) stores) bad_request) _ h1 in
    let (_, apart, h3) = >>=-eq-ok (guard (not (dest.id == b.store_id)) bad_request) _ h2 in
    let (_, enough, h4) =
      >>=-eq-ok (guard (not (ltb_ℤ b.current_quantity dto.quantity)) bad_request) _ h3 in
    let balance = b.current_quantity -ℤ dto.quantity in
    let (s1, written, h5) = >>=-eq-ok (update_batch b.id (set_balance balance) s) _ h4 in
    let (s2, moved, rest) =
      >>=-eq-ok
        (create_movement (movement b.id transfer_out dto.quantity b.current_quantity balance) s1) _
        h5 in
    let (found, home) =
      source_found org dto.batch_id stores s
        (or_throw-eq-ok (source_of org dto.batch_id stores s) not_found held) in
    let arrived =
      or_throw-eq-ok (find (belongs dto.destination_store_id org) stores) bad_request known in
    let is_dest = (==_iff dest.id dto.destination_store_id).0 (
      (&&-eq-true (dest.id == dto.destination_store_id) (dest.organization_id == org)
        (find_sound (belongs dto.destination_store_id org) stores arrived)).0) in
    let u = update_batch-eq-ok b.id (set_balance balance) s written in
    let (_, e2) = create_movement-eq-ok _ s1 moved in
    let rolls : s2.batches ≡ replace_row b.id (set_balance balance) s.batches =
      ap (λ (t : Stock). t.batches) e2 ∙ u.batches in
    let keys2 =
      subst Distinct (sym rolls)
        (Distinct-replace_row b.id (set_balance balance) (λ c. refl) s.batches keys) in
    let there =
      ap (λ k. find_batch k s.batches) (find_batch-id dto.batch_id s.batches b found) ∙ found in
    (
      b,
      found,
      (λ e.
          differ dest.id b.store_id (not_equal _ (guard-eq-ok _ bad_request apart)) (is_dest ∙ e)),
      home,
      any_found (belongs dto.destination_store_id org) stores arrived,
      ltb_ℤ→le b.current_quantity dto.quantity (not_equal _ (guard-eq-ok _ bad_request enough)),
      λ x.
          moved_stock x dest.id b dto s s2 r.1 (replace_row b.id (set_balance balance) s.batches)
            is_dest rolls
            (stock_of-replace_row x b.id (set_balance balance) s.batches b (λ c. refl) there)
            (receive_stock id now b dest.id dto.quantity
              (find (has_code dest.id b.batch_code) s2.batches) s2 x keys2 refl rest),
    )
  where
    differ : (a b : ℕ) → (a == b) ≡ false → a ≡ b → ⊥
    differ a b h e = ground (arith, e)

    not_equal : (b : Bool) → not b ≡ true → b ≡ false
    not_equal b h = ground arith
