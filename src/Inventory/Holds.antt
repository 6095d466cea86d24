-- ===== src/Inventory/Holds.antt =====
-- apps/api/src/inventory/reservation.service.ts: metres held on a roll between checkout and cutting.
-- Each function is the body of one database transaction, so an error leaves the tables as they were.
pub mod Reserving
pub mod Marking
pub mod Cutting
use tailor_erp.Prelude.{
  ℕ, Bool, true, false, ◌&&◌, Option, none, some, List, [], ◌∷◌, ◌++◌, ◌==◌, if◌then◌else◌, ℤ,
  Decimal, pos, ◌+ℤ◌, ◌-ℤ◌, eqb_ℤ, max_ℤ, not_found, unprocessable, Result, ok, ◌>>=◌, ◌>>◌, guard,
  or_throw, length, keep,
}
use tailor_erp.Inventory.{
  Batch, Reservation, ReservationStatus, Stock, reserved, consumed, released, depleted, order_out,
  is_available, find_batch, update_batch, create_movement,
}
use tailor_erp.Inventory.Yield.{can_cut_from}

abbrev pub is_reserved : ReservationStatus → Bool
is_reserved reserved = true
is_reserved _ = false

pub record ReserveRequest : Type 0 where
  pub batch_id : ℕ
  pub order_item_id : ℕ
  pub meters : Decimal
  pub store_id : ℕ

-- The row that `reserve` locks: WHERE id = … AND store_id = … AND status = 'available'
abbrev pub lock_available : ℕ → ℕ → Stock → Option Batch
lock_available id store s = elim (find_batch id s.batches) [
  | none ↦ none
  | some b ↦ if (b.store_id == store) && is_available b.status then some b else none
]

abbrev pub hold : Decimal → Batch → Batch
hold meters b = record b { reserved_quantity = b.reserved_quantity +ℤ meters }

abbrev pub new_reservation : ℕ → ReserveRequest → Batch → Reservation
new_reservation id p b = record {
  id = id;
  batch_id = b.id;
  order_item_id = p.order_item_id;
  meters = p.meters;
  status = reserved;
}

-- reserve; `id` is the key that the database draws for the new row.
unfoldable pub reserve : ℕ → ReserveRequest → Stock → Result (Reservation × Stock)
reserve id p s = do
  batch ← or_throw (lock_available p.batch_id p.store_id s) not_found
  let check =
      can_cut_from batch.current_quantity batch.reserved_quantity (some batch.min_usable_meters)
        p.meters
  guard check.is_ok unprocessable
  s1 ← update_batch batch.id (hold p.meters) s
  let row = new_reservation id p batch
  ok (row, record s1 { reservations = s1.reservations ++ row ∷ [] })

-- tx.fabricReservation.update({ where: { id }, data: { status } })
unfoldable pub set_status : ℕ → ReservationStatus → List Reservation → List Reservation
set_status id status [] = []
set_status id status (r ∷ rs) =
    let rest = set_status id status rs in
    if r.id == id then record r { status = status } ∷ rest else r ∷ rest

-- The writes to the roll at the cutting table.
unfoldable pub cut : Decimal → Decimal → Batch → Batch
cut balance held b = record b {
  current_quantity = balance;
  reserved_quantity = held;
  status = if eqb_ℤ balance (pos 0) then depleted else b.status;
}

-- One round of the loop in consumeForOrderItem.
unfoldable pub consume_reservation : Reservation → Stock → Result Stock
unfolding cut
consume_reservation r s = elim (find_batch r.batch_id s.batches) [
  | none ↦ ok s
  | some b ↦ do
    let balance = b.current_quantity -ℤ r.meters
    let held = max_ℤ (b.reserved_quantity -ℤ r.meters) (pos 0)
    s1 ← update_batch r.batch_id (cut balance held) s
    s2 ←
        create_movement
          (record {
            batch_id = r.batch_id;
            order_id = none;
            movement_type = order_out;
            quantity = r.meters;
            previous_balance = b.current_quantity;
            new_balance = balance;
          })
          s1
    ok (record s2 { reservations = set_status r.id consumed s2.reservations })
]

unfoldable pub each_reservation :
    (Reservation → Stock → Result Stock) → List Reservation → Stock → Result Stock
each_reservation f [] s = ok s
each_reservation f (r ∷ rs) s = f r s >>= λ s'. each_reservation f rs s'

abbrev pub held_for : ℕ → Reservation → Bool
held_for item r = (r.order_item_id == item) && is_reserved r.status

-- consumeForOrderItem
unfoldable pub consume_for_order_item : ℕ → Stock → Result (ℕ × Stock)
consume_for_order_item item s = do
  let found = keep (held_for item) s.reservations
  s' ← each_reservation consume_reservation found s
  ok (length found, s')

-- One round of the loop in releaseForOrder.
unfoldable pub release_reservation : Reservation → Stock → Result Stock
release_reservation r s = do
  s1 ←
      update_batch r.batch_id
        (λ b. record b { reserved_quantity = b.reserved_quantity -ℤ r.meters }) s
  ok (record s1 { reservations = set_status r.id released s1.reservations })

-- releaseForOrder, over the items of the order
unfoldable pub release_for_order : (ℕ → Bool) → Stock → Result (ℕ × Stock)
release_for_order of_order s = do
  let found = keep (λ r. of_order r.order_item_id && is_reserved r.status) s.reservations
  s' ← each_reservation release_reservation found s
  ok (length found, s')
