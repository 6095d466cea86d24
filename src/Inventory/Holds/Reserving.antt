-- ===== src/Inventory/Holds/Reserving.antt =====
-- What a reservation promises.
use tailor_erp.Prelude.{
  ℕ, ◌≡◌, ◌⊎◌, refl, ap, ◌∙◌, inl, inr, true, some, [], ◌∷◌, ◌++◌, arith, Decimal, pos, ◌+ℤ◌, ◌-ℤ◌,
  ◌≤ℤ◌, ◌<ℤ◌, int_laws, le→leb_ℤ, unprocessable, ok, err, +ℤ_parts, -ℤ_parts, lt→leb_ℤ, le_or_lt,
}
use tailor_erp.Inventory.{Batch, Reservation, Stock, available, reserved, checked_batch, find_batch}
use tailor_erp.Inventory.Rows.{
  find_batch-id, find_batch-replace_row_self, update_batch_succeeds, replace_row,
}
use tailor_erp.Inventory.Yield.{can_cut_from}
use tailor_erp.Inventory.Holds.{ReserveRequest, lock_available, hold, new_reservation, reserve}

pub lock_available-find :
    (id store : ℕ) (s : Stock) (b : Batch)
    → lock_available id store s ≡ some b
    → find_batch id s.batches ≡ some b
lock_available-find id store s b h = ground arith

find-lock_available :
    (id store : ℕ) (s : Stock) (b : Batch)
    → find_batch id s.batches ≡ some b
    → b.store_id ≡ store
    → b.status ≡ available
    → lock_available id store s ≡ some b
find-lock_available id store s b found home there = ground arith

hold_fits :
    (b : Batch) (meters : Decimal)
    → checked_batch b ≡ true
    → pos 0 ≤ℤ meters
    → meters ≤ℤ b.current_quantity -ℤ b.reserved_quantity
    → checked_batch (hold meters b) ≡ true
unfolding checked_batch
hold_fits b meters fits some_metres room =
    ground
      (arith, -ℤ_parts b.current_quantity b.reserved_quantity, +ℤ_parts b.reserved_quantity meters)

-- On a roll that is available in the store and within its CHECKs, with a minimum usable length that is
-- not negative, a quantity of metres that is not negative can be reserved exactly if the roll keeps
-- that minimum beyond everything that is reserved on it; otherwise the request is refused with 422.
-- What it has reserved then grows by the new metres and the rest of its row is untouched, and one row
-- is added to the reservations: of these metres on this roll for this garment, with the status
-- reserved.
pub reserve_decides :
    (id : ℕ) (p : ReserveRequest) (s : Stock) (b : Batch)
    → find_batch p.batch_id s.batches ≡ some b
    → b.store_id ≡ p.store_id
    → b.status ≡ available
    → checked_batch b ≡ true
    → pos 0 ≤ℤ b.min_usable_meters
    → pos 0 ≤ℤ p.meters
    → ((b.reserved_quantity +ℤ p.meters +ℤ b.min_usable_meters ≤ℤ b.current_quantity)
        × ((r : Reservation × Stock) × (reserve id p s ≡ ok r)
            × (find_batch p.batch_id r.1.batches
                ≡ some (record b { reserved_quantity = b.reserved_quantity +ℤ p.meters }))
            × (r.0 ≡ record {
              id = id;
              batch_id = p.batch_id;
              order_item_id = p.order_item_id;
              meters = p.meters;
              status = reserved;
            })
            × (r.1.reservations ≡ s.reservations ++ r.0 ∷ [])))
      ⊎ ((b.current_quantity <ℤ b.reserved_quantity +ℤ p.meters +ℤ b.min_usable_meters)
          × (reserve id p s ≡ err unprocessable))
unfolding reserve can_cut_from
reserve_decides id p s b found home there fits minimum some_metres =
    let locked = find-lock_available p.batch_id p.store_id s b found home there in
    let same = find_batch-id p.batch_id s.batches b found in
    let remainder = b.current_quantity -ℤ b.reserved_quantity -ℤ p.meters in
    elim (le_or_lt (b.reserved_quantity +ℤ p.meters +ℤ b.min_usable_meters) b.current_quantity) [
      | inl room ↦
          let row = new_reservation id p b in
          let found' = ap (λ j. find_batch j s.batches) same ∙ found in
          inl (
            room,
            (
              (
                row,
                record s {
                  batches = replace_row b.id (hold p.meters) s.batches;
                  reservations = s.reservations ++ row ∷ [];
                },
              ),
              rw (
                locked,
                le→leb_ℤ b.min_usable_meters remainder (omega int_laws),
                update_batch_succeeds b.id (hold p.meters) s b found'
                    (hold_fits b p.meters fits some_metres (omega int_laws)),
              ),
              ap (λ j. find_batch p.batch_id (replace_row j (hold p.meters) s.batches)) same
                  ∙ find_batch-replace_row_self p.batch_id (hold p.meters) (λ _. refl) s.batches b
                      found,
              ap
                  (λ k. record {
                    id = id;
                    batch_id = k;
                    order_item_id = p.order_item_id;
                    meters = p.meters;
                    status = reserved;
                  })
                  same,
              refl,
            ),
          )
      | inr short ↦
          inr (short, rw (locked, lt→leb_ℤ b.min_usable_meters remainder (omega int_laws)))
    ]
