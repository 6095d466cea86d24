-- ===== src/Inventory.antt =====
-- The stock tables (apps/api/prisma/schema.prisma, InventoryBatch, InventoryMovement and
-- FabricReservation) and the writes to them, with the CHECK constraints of the migrations.
-- A UUID, a fabric name and a batch code are only compared, so each is a number; a date is a number.
pub mod Yield
pub mod Holds
pub mod Rows
pub mod Keys
pub mod Fifo
pub mod Warehouse
pub mod Trail
mod Tests
use tailor_erp.Prelude.{
  ℕ, Bool, true, false, ◌&&◌, Option, none, some, List, [], ◌∷◌, ◌++◌, Decimal, pos, ltb_ℤ, leb_ℤ,
  Result, ok, err, check_violation, missing_record, ◌>>=◌, ◌==◌, if◌then◌else◌,
}

pub data BatchStatus : Type 0 where
  available depleted quarantined : BatchStatus

abbrev pub is_available : BatchStatus → Bool
is_available available = true
is_available _ = false

pub data MovementType : Type 0 where
  purchase_in order_out transfer_out transfer_in adjustment return_in : MovementType

pub data ReservationStatus : Type 0 where
  reserved consumed released : ReservationStatus

-- A roll of fabric. Quantities are hundredths of a metre, prices hundredths of a riyal.
pub record Batch : Type 0 where
  pub id : ℕ
  pub store_id : ℕ
  pub fabric_name : ℕ
  pub batch_code : ℕ
  pub status : BatchStatus
  pub initial_quantity : Decimal
  pub current_quantity : Decimal
  pub reserved_quantity : Decimal
  pub min_usable_meters : Decimal
  pub cost_price_per_unit : Decimal
  pub purchase_date : ℕ
  pub created_at : ℕ

pub record Movement : Type 0 where
  pub batch_id : ℕ
  pub order_id : Option ℕ
  pub movement_type : MovementType
  pub quantity : Decimal
  pub previous_balance : Decimal
  pub new_balance : Decimal

pub record Reservation : Type 0 where
  pub id : ℕ
  pub batch_id : ℕ
  pub order_item_id : ℕ
  pub meters : Decimal
  pub status : ReservationStatus

pub record Stock : Type 0 where
  pub batches : List Batch
  pub movements : List Movement
  pub reservations : List Reservation

-- chk_batch_current_qty_nonnegative and chk_batch_reserved_within_current
unfoldable pub checked_batch : Batch → Bool
checked_batch b =
    leb_ℤ (pos 0) b.current_quantity
    && leb_ℤ (pos 0) b.reserved_quantity
    && leb_ℤ b.reserved_quantity b.current_quantity

-- chk_movement_new_balance_nonnegative and chk_movement_quantity_positive
unfoldable pub checked_movement : Movement → Bool
checked_movement m = leb_ℤ (pos 0) m.new_balance && ltb_ℤ (pos 0) m.quantity

-- The row with a primary key.
unfoldable pub find_batch : ℕ → List Batch → Option Batch
find_batch id [] = none
find_batch id (b ∷ bs) = if b.id == id then some b else find_batch id bs

-- `UPDATE inventory_batches … WHERE id = …`
unfoldable pub update_row : ℕ → (Batch → Batch) → List Batch → Result (List Batch)
update_row id f [] = err missing_record
update_row id f (b ∷ bs) =
    if b.id == id
    then (if checked_batch (f b) then ok (f b ∷ bs) else err check_violation)
    else (update_row id f bs >>= λ rest. ok (b ∷ rest))

-- tx.inventoryBatch.update
unfoldable pub update_batch : ℕ → (Batch → Batch) → Stock → Result Stock
update_batch id f s = do rows ← update_row id f s.batches; ok (record s { batches = rows })

-- tx.inventoryMovement.create
unfoldable pub create_movement : Movement → Stock → Result Stock
create_movement m s =
    if checked_movement m
    then ok (record s { movements = s.movements ++ m ∷ [] })
    else err check_violation
