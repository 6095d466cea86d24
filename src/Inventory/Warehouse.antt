-- ===== src/Inventory/Warehouse.antt =====
-- apps/api/src/inventory/inventory.service.ts: purchases, adjustments and transfers between stores,
-- and the explicit allocation of apps/api/src/orders/orders.service.ts. Each function is the body of
-- one database transaction, so an error leaves the tables as they were. The key and the time of a new
-- row are the database's. Quantities come from a decoded request.
pub mod Transfers
mod Tests
use tailor_erp.Prelude.{
  ℕ, Bool, true, false, not, ◌&&◌, Option, none, some, List, [], ◌∷◌, ◌++◌, ◌==◌, if◌then◌else◌, ℤ,
  Decimal, pos, ◌+ℤ◌, ◌-ℤ◌, ltb_ℤ, eqb_ℤ, bad_request, not_found, unprocessable, check_violation,
  Result, ok, ◌>>=◌, ◌>>◌, guard, or_throw, find, unique_violation,
}
use tailor_erp.Inventory.{
  available, depleted, MovementType, purchase_in, transfer_out, transfer_in, adjustment, order_out,
  Batch, Movement, Stock, checked_batch, find_batch, update_batch, create_movement,
}
use tailor_erp.Inventory.Yield.{default_min_usable}
use tailor_erp.Inventory.Fifo.{Consumption, consumption, set_balance}
use tailor_erp.Inventory.Holds.{lock_available}
use tailor_erp.Auth.Guard.{Store, belongs}
use tailor_erp.Platform.{Platform, assert_feature}

-- The columns that a new roll is given.
pub record NewBatch : Type 0 where
  pub store_id : ℕ
  pub fabric_name : ℕ
  pub batch_code : ℕ
  pub quantity : Decimal
  pub cost_price_per_unit : Decimal
  pub purchase_date : ℕ

abbrev pub batch_row : ℕ → ℕ → NewBatch → Batch
batch_row id now p = record {
  id = id;
  store_id = p.store_id;
  fabric_name = p.fabric_name;
  batch_code = p.batch_code;
  status = available;
  initial_quantity = p.quantity;
  current_quantity = p.quantity;
  reserved_quantity = pos 0;
  min_usable_meters = default_min_usable;
  cost_price_per_unit = p.cost_price_per_unit;
  purchase_date = p.purchase_date;
  created_at = now;
}

-- The unique key of a store and a batch code.
abbrev pub has_code : ℕ → ℕ → Batch → Bool
has_code store code b = (b.store_id == store) && (b.batch_code == code)

abbrev pub is_absent : Option Batch → Bool
is_absent none = true
is_absent (some b) = false

-- tx.inventoryBatch.create
unfoldable pub create_row : Batch → Stock → Result Stock
create_row b s = do
  guard (is_absent (find_batch b.id s.batches)) unique_violation
  guard (is_absent (find (has_code b.store_id b.batch_code) s.batches)) unique_violation
  guard (checked_batch b) check_violation
  ok (record s { batches = b ∷ s.batches })

abbrev pub movement : ℕ → MovementType → Decimal → Decimal → Decimal → Movement
movement id kind quantity previous balance = record {
  batch_id = id;
  order_id = none;
  movement_type = kind;
  quantity = quantity;
  previous_balance = previous;
  new_balance = balance;
}

-- createBatch
unfoldable pub create_batch : ℕ → ℕ → NewBatch → Stock → Result Stock
unfolding create_row create_movement
create_batch id now p s = do
  s1 ← create_row (batch_row id now p) s
  create_movement (movement id purchase_in p.quantity (pos 0) p.quantity) s1

abbrev pub abs_ℤ : ℤ → ℤ
abs_ℤ z = if ltb_ℤ z (pos 0) then pos 0 -ℤ z else z

abbrev pub adjusted : Decimal → Batch → Batch
adjusted balance b = record b {
  current_quantity = balance;
  status = if eqb_ℤ balance (pos 0) then depleted else available;
}

abbrev pub locked : ℕ → ℕ → Stock → Option Batch
locked id store s = elim (find_batch id s.batches) [
  | none ↦ none
  | some b ↦ if b.store_id == store then some b else none
]

-- adjustBatch
unfoldable pub adjust_batch : ℕ → ℕ → Decimal → Stock → Result Stock
unfolding update_batch create_movement
adjust_batch store id delta s = do
  guard (not (eqb_ℤ delta (pos 0))) bad_request
  batch ← or_throw (locked id store s) not_found
  let balance = batch.current_quantity +ℤ delta
  guard (not (ltb_ℤ balance (pos 0))) bad_request
  s1 ← update_batch id (adjusted balance) s
  create_movement (movement id adjustment (abs_ℤ delta) batch.current_quantity balance) s1

pub record Transfer : Type 0 where
  pub batch_id : ℕ
  pub destination_store_id : ℕ
  pub quantity : Decimal

-- The roll, in a store of the organisation.
abbrev pub source_of : ℕ → ℕ → List Store → Stock → Option Batch
source_of org id stores s = elim (find_batch id s.batches) [
  | none ↦ none
  | some b ↦ elim (find (belongs b.store_id org) stores) [ none ↦ none | some store ↦ some b ]
]

abbrev pub received : Decimal → Batch → Batch
received balance b = record b { current_quantity = balance; status = available }

abbrev pub copied : Batch → ℕ → Decimal → NewBatch
copied source store quantity = record {
  store_id = store;
  fabric_name = source.fabric_name;
  batch_code = source.batch_code;
  quantity = quantity;
  cost_price_per_unit = source.cost_price_per_unit;
  purchase_date = source.purchase_date;
}

-- The destination: merge into the roll of the same code, or create one. Gives the roll's key.
unfoldable pub receive : ℕ → ℕ → Batch → ℕ → Decimal → Option Batch → Stock → Result (ℕ × Stock)
unfolding update_batch create_movement create_row
receive id now source store quantity (some existing) s = do
  let balance = existing.current_quantity +ℤ quantity
  s1 ← update_batch existing.id (received balance) s
  s2 ←
      create_movement (movement existing.id transfer_in quantity existing.current_quantity balance)
        s1
  ok (existing.id, s2)
receive id now source store quantity none s = do
  s1 ← create_row (batch_row id now (copied source store quantity)) s
  s2 ← create_movement (movement id transfer_in quantity (pos 0) quantity) s1
  ok (id, s2)

-- The transaction of transfer.
unfoldable pub transfer_fabric : ℕ → ℕ → ℕ → Transfer → List Store → Stock → Result (ℕ × Stock)
unfolding receive update_batch create_movement set_balance
transfer_fabric id now org dto stores s = do
  source ← or_throw (source_of org dto.batch_id stores s) not_found
  destination ← or_throw (find (belongs dto.destination_store_id org) stores) bad_request
  guard (not (destination.id == source.store_id)) bad_request
  guard (not (ltb_ℤ source.current_quantity dto.quantity)) bad_request
  let balance = source.current_quantity -ℤ dto.quantity
  s1 ← update_batch source.id (set_balance balance) s
  s2 ←
      create_movement (movement source.id transfer_out dto.quantity source.current_quantity balance)
        s1
  receive id now source destination.id dto.quantity
      (find (has_code destination.id source.batch_code) s2.batches) s2

-- The feature 'transfers'
abbrev pub transfers : ℕ
transfers = 1

-- transfer
unfoldable pub transfer :
    ℕ → ℕ → ℕ → Transfer → List Store → Platform → Stock → Result (ℕ × Stock) × Platform
unfolding transfer_fabric assert_feature
transfer id now org dto stores p s =
    let (gate, after) = assert_feature org transfers p in
    (gate >> transfer_fabric id now org dto stores s, after)

pub record Allocation : Type 0 where
  pub batch_id : ℕ
  pub quantity : Decimal

-- consumeExplicit
unfoldable pub consume_explicit :
    ℕ → ℕ → List Allocation → List Consumption → Stock → Result (List Consumption × Stock)
unfolding update_batch create_movement set_balance
consume_explicit store order [] results s = ok (results, s)
consume_explicit store order (alloc ∷ allocations) results s = do
  batch ← or_throw (lock_available alloc.batch_id store s) unprocessable
  guard (not (ltb_ℤ batch.current_quantity alloc.quantity)) unprocessable
  let balance = batch.current_quantity -ℤ alloc.quantity
  s1 ← update_batch alloc.batch_id (set_balance balance) s
  s2 ←
      create_movement
        (record (movement alloc.batch_id order_out alloc.quantity batch.current_quantity balance) {
          order_id = some order;
        })
        s1
  consume_explicit store order allocations (results ++ (consumption batch alloc.quantity ∷ [])) s2
