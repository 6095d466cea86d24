-- ===== src/Pos/Holding.antt =====
-- The metres that a checkout holds on the rolls.
use tailor_erp.Prelude.{
  ℕ, ◌+◌, ◌≡◌, refl, sym, ap, ◌∙◌, inl, inr, Option, none, some, List, [], ◌∷◌, ◌++◌, ◌==◌, ==_iff,
  if◌then◌else◌, Bool-cases, Decimal, pos, ◌+ℤ◌, int_laws, parts_of_eq, not_found, unprocessable,
  ok, ok_inj, guard, or_throw, >>=-eq-ok, sum_of, sum_of-append, or_throw-eq-ok, true_ne_false,
  subst,
}
use tailor_erp.Inventory.{Batch, find_batch, Stock, Reservation, reserved, update_batch}
use tailor_erp.Inventory.Rows.{
  replace_row, find_batch-replace_row_self, find_batch-replace_row_ne, stock_total, find_batch-id,
  stock_total-replace_row, update_batch-eq-ok,
}
use tailor_erp.Inventory.Yield.{can_cut_from}
use tailor_erp.Inventory.Holds.{ReserveRequest, lock_available, hold, new_reservation, reserve}
use tailor_erp.Inventory.Holds.Reserving.{lock_available-find}
use tailor_erp.Inventory.Trail.Writes.{IsTrail}
use tailor_erp.Inventory.Trail.History.{reserve-IsTrail}
use tailor_erp.Pos.{OrderItem, Prepared, order_item, hold_fabric, place_items}

-- The hold of one garment.
abbrev pub held_meters : (ℕ → ℕ) → (ℕ → ℕ) → ℕ → ℕ → Decimal → Reservation
held_meters item_key hold_key index batch meters = record {
  id = hold_key index;
  batch_id = batch;
  order_item_id = item_key index;
  meters = meters;
  status = reserved;
}

abbrev pub hold_of : (ℕ → ℕ) → (ℕ → ℕ) → ℕ → Decimal → Option ℕ → List Reservation
hold_of item_key hold_key index meters none = []
hold_of item_key hold_key index meters (some batch) =
    held_meters item_key hold_key index batch meters ∷ []

-- The holds that the garments ask for: one for each that has a roll, of its yield.
abbrev pub holds_from : (ℕ → ℕ) → (ℕ → ℕ) → ℕ → List Prepared → List Reservation
holds_from item_key hold_key index [] = []
holds_from item_key hold_key index (p ∷ prepared) =
    hold_of item_key hold_key index p.yield_meters p.item.fabric_batch_id
    ++ holds_from item_key hold_key (index + 1) prepared

-- What a roll has reserved, and what holds take of a roll.
abbrev pub reserved_part : Option Batch → Decimal
reserved_part none = pos 0
reserved_part (some b) = b.reserved_quantity

abbrev pub reserved_of : ℕ → List Batch → Decimal
reserved_of id rows = reserved_part (find_batch id rows)

abbrev pub share_of : ℕ → Reservation → Decimal
share_of id r = if r.batch_id == id then r.meters else pos 0

abbrev pub held_on : ℕ → List Reservation → Decimal
held_on id holds = sum_of (share_of id) holds

nothing_more : (a : Decimal) → a ≡ a +ℤ pos 0
nothing_more a = omega int_laws

reserved_of-replace_row :
    (id : ℕ) (meters : Decimal) (rows : List Batch) (b : Batch) (j : ℕ)
    → find_batch id rows ≡ some b
    → reserved_of j (replace_row id (hold meters) rows)
      ≡ reserved_of j rows +ℤ (if id == j then meters else pos 0)
reserved_of-replace_row id meters rows b j found = elim (Bool-cases (id == j)) [
  | inl same ↦
      let here = (==_iff id j).0 same in
      let before : find_batch j rows ≡ some b = rw here at found in
      let after : find_batch j (replace_row id (hold meters) rows) ≡ some (hold meters b) =
        subst (λ k. find_batch k (replace_row id (hold meters) rows) ≡ some (hold meters b)) here
          (find_batch-replace_row_self id (hold meters) (λ _. refl) rows b found) in
      rw same (ap reserved_part after ∙ ap (λ d. d +ℤ meters) (sym (ap reserved_part before)))
  | inr other ↦
      let elsewhere =
        find_batch-replace_row_ne id (hold meters) (λ _. refl) rows j
          (λ e. true_ne_false (sym ((==_iff id j).1 (sym e)) ∙ other)) in
      rw other (ap reserved_part elsewhere ∙ nothing_more (reserved_of j rows))
]

-- A reservation that goes through adds its row, and leaves the metres of the rolls alone.
reserve_adds :
    (id : ℕ) (p : ReserveRequest) (s : Stock) {r : Reservation × Stock}
    → reserve id p s ≡ ok r
    → (r.1.reservations
        ≡ s.reservations
          ++ (record {
            id = id;
            batch_id = p.batch_id;
            order_item_id = p.order_item_id;
            meters = p.meters;
            status = reserved;
          }
              ∷ []))
      × (stock_total r.1.batches ≡ stock_total s.batches)
      × ((j : ℕ)
          → reserved_of j r.1.batches
            ≡ reserved_of j s.batches +ℤ (if p.batch_id == j then p.meters else pos 0))
unfolding reserve
reserve_adds id p s {r} done =
    let (b, held, h1) =
      >>=-eq-ok (or_throw (lock_available p.batch_id p.store_id s) not_found) _ done in
    let (_, _, h2) =
      >>=-eq-ok
        (guard
          ((can_cut_from b.current_quantity b.reserved_quantity (some b.min_usable_meters)
            p.meters).is_ok)
          unprocessable)
        _ h1 in
    let (s1, written, e) = >>=-eq-ok (update_batch b.id (hold p.meters) s) _ h2 in
    let found =
      lock_available-find p.batch_id p.store_id s b
        (or_throw-eq-ok (lock_available p.batch_id p.store_id s) not_found held) in
    let same = find_batch-id p.batch_id s.batches b found in
    let u = update_batch-eq-ok b.id (hold p.meters) s written in
    let moved = stock_total-replace_row b.id (hold p.meters) s.batches u.row u.found in
    let end = sym (ok_inj e) in
    (
      ap (λ (q : Reservation × Stock). q.1.reservations) end
          ∙ ap (λ l. l ++ (new_reservation id p b ∷ [])) u.reservations
          ∙ ap
              (λ k.
                s.reservations
                ++ (record {
                  id = id;
                  batch_id = k;
                  order_item_id = p.order_item_id;
                  meters = p.meters;
                  status = reserved;
                }
                    ∷ []))
              same,
      ap (λ (q : Reservation × Stock). stock_total q.1.batches) end
          ∙ ap stock_total u.batches
          ∙ omega (int_laws, parts_of_eq moved),
      λ j.
          ap (λ (q : Reservation × Stock). reserved_of j q.1.batches) end
          ∙ ap (reserved_of j) u.batches
          ∙ ap (λ k. reserved_of j (replace_row k (hold p.meters) s.batches)) same
          ∙ reserved_of-replace_row p.batch_id p.meters s.batches b j found,
    )

append_assoc : (xs ys zs : List Reservation) → (xs ++ ys) ++ zs ≡ xs ++ (ys ++ zs)
append_assoc [] ys zs = refl
append_assoc (x ∷ xs) ys zs = ap (λ l. x ∷ l) (append_assoc xs ys zs)

append_nil : (xs : List Reservation) → xs ++ [] ≡ xs
append_nil [] = refl
append_nil (x ∷ xs) = ap (λ l. x ∷ l) (append_nil xs)

-- The stock after the garments: their holds, the same metres, and the trail of every roll.
abbrev pub HasHeld : List Reservation → Stock → Stock → Type 0
HasHeld holds s t =
    (t.reservations ≡ s.reservations ++ holds)
    × (stock_total t.batches ≡ stock_total s.batches)
    × ((id : ℕ) → reserved_of id t.batches ≡ reserved_of id s.batches +ℤ held_on id holds)
    × IsTrail t

held_on-append :
    (id : ℕ) (a : Decimal) (first later : List Reservation)
    → (a +ℤ held_on id first) +ℤ held_on id later ≡ a +ℤ held_on id (first ++ later)
held_on-append id a first later =
    let both = sum_of-append (share_of id) first later in omega (int_laws, parts_of_eq both)

module _ (item_key hold_key : ℕ → ℕ) where
  hold_fabric-HasHeld :
      (store index : ℕ) (p : Prepared) (batch : Option ℕ) (s : Stock) {t : Stock}
      → hold_fabric item_key hold_key store index p batch s ≡ ok t
      → IsTrail s
      → HasHeld (hold_of item_key hold_key index p.yield_meters batch) s t
  unfolding hold_fabric
  hold_fabric-HasHeld store index p none s done trail = subst (HasHeld [] s) (ok_inj done) (
    sym (append_nil s.reservations),
    refl,
    (λ id. nothing_more (reserved_of id s.batches)),
    trail,
  )
  hold_fabric-HasHeld store index p (some batch) s done trail =
      let request : ReserveRequest = record {
        batch_id = batch;
        order_item_id = item_key index;
        meters = p.yield_meters;
        store_id = store;
      } in
      let (r, held, e) = >>=-eq-ok (reserve (hold_key index) request s) _ done in
      let (rows, metres, taken) = reserve_adds (hold_key index) request s held in
      subst (HasHeld (held_meters item_key hold_key index batch p.yield_meters ∷ []) s) (ok_inj e) (
        rows,
        metres,
        (λ id. taken id ∙ ap (λ d. reserved_of id s.batches +ℤ d) (nothing_more _)),
        reserve-IsTrail (hold_key index) request s held trail,
      )

  pub place_items-HasHeld :
      (store order index : ℕ) (prepared : List Prepared) (items : List OrderItem) (s : Stock)
      {r : List OrderItem × Stock}
      → place_items item_key hold_key store order index prepared (items, s) ≡ ok r
      → IsTrail s
      → HasHeld (holds_from item_key hold_key index prepared) s r.1
  unfolding place_items
  place_items-HasHeld store order index [] items s done trail =
      subst (λ (r : List OrderItem × Stock). HasHeld [] s r.1) (ok_inj done)
        (
          sym (append_nil s.reservations),
          refl,
          (λ id. nothing_more (reserved_of id s.batches)),
          trail,
        )
  place_items-HasHeld store order index (p ∷ prepared) items s done trail =
      let (s1, held, rest) =
        >>=-eq-ok (hold_fabric item_key hold_key store index p p.item.fabric_batch_id s) _ done in
      let (rows, metres, taken, kept) =
        hold_fabric-HasHeld store index p p.item.fabric_batch_id s held trail in
      let (rows', metres', taken', kept') =
        place_items-HasHeld store order (index + 1) prepared
          (items ++ (order_item item_key hold_key order index p ∷ [])) s1 rest kept in
      let first = hold_of item_key hold_key index p.yield_meters p.item.fabric_batch_id in
      let later = holds_from item_key hold_key (index + 1) prepared in
      (
        rows' ∙ ap (λ l. l ++ later) rows ∙ append_assoc s.reservations first later,
        metres' ∙ metres,
        (λ id.
            taken' id
            ∙ ap (λ d. d +ℤ held_on id later) (taken id)
            ∙ held_on-append id (reserved_of id s.batches) first later),
        kept',
      )
