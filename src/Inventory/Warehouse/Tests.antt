-- ===== src/Inventory/Warehouse/Tests.antt =====
-- A purchase of ten metres in one shop, and a transfer of four of them to another.
use tailor_erp.Prelude.{
  ℕ, ◌≡◌, ◌≢◌, refl, true, some, List, [], ◌∷◌, ◌==◌, if◌then◌else◌, pos, ◌+ℤ◌, ◌-ℤ◌, ◌≤ℤ◌, ok, any,
}
use tailor_erp.Inventory.{
  purchase_in, transfer_out, transfer_in, Batch, Stock, checked_batch, checked_movement, find_batch,
  update_row, update_batch, create_movement,
}
use tailor_erp.Inventory.Warehouse.{
  NewBatch, batch_row, create_row, movement, create_batch, Transfer, copied, receive,
  transfer_fabric,
}
use tailor_erp.Inventory.Warehouse.Transfers.{stock_of, transfer_fabric_moves}
use tailor_erp.Inventory.Trail.Writes.{IsTrail}
use tailor_erp.Inventory.Trail.History.{purchased, Run, empty, next, Run-IsTrail}
use tailor_erp.Inventory.Fifo.{set_balance}
use tailor_erp.Auth.Guard.{Store, belongs}

abbrev linen : NewBatch
linen = record {
  store_id = 1;
  fabric_name = 20;
  batch_code = 300;
  quantity = pos 1000;
  cost_price_per_unit = pos 2500;
  purchase_date = 7;
}

abbrev no_stock : Stock
no_stock = record { batches = []; movements = []; reservations = [] }

abbrev bought : Stock
bought = record {
  batches = batch_row 5 8 linen ∷ [];
  movements = movement 5 purchase_in (pos 1000) (pos 0) (pos 1000) ∷ [];
  reservations = [];
}

bought-Run : Run bought
unfolding create_batch create_row create_movement find_batch checked_batch checked_movement
bought-Run = next no_stock bought empty (purchased 5 8 linen no_stock bought refl)

Run-IsTrail_example : IsTrail bought
Run-IsTrail_example = Run-IsTrail bought-Run

abbrev shops : List Store
shops = record { id = 1; organization_id = 9 } ∷ record { id = 2; organization_id = 9 } ∷ []

abbrev four_metres : Transfer
four_metres = record { batch_id = 5; destination_store_id = 2; quantity = pos 400 }

abbrev after_transfer : ℕ × Stock
after_transfer = (
  6,
  record {
    batches =
        batch_row 6 10 (copied (batch_row 5 8 linen) 2 (pos 400))
        ∷ record (batch_row 5 8 linen) { current_quantity = pos 600 }
        ∷ [];
    movements =
        movement 5 purchase_in (pos 1000) (pos 0) (pos 1000)
        ∷ movement 5 transfer_out (pos 400) (pos 1000) (pos 600)
        ∷ movement 6 transfer_in (pos 400) (pos 0) (pos 400)
        ∷ [];
    reservations = [];
  },
)

four_metres_moved : transfer_fabric 6 10 9 four_metres shops bought ≡ ok after_transfer
unfolding ◌-ℤ◌ transfer_fabric receive update_batch update_row create_row create_movement
    set_balance find_batch checked_batch checked_movement
four_metres_moved = refl

transfer_fabric_moves_example :
    (b : Batch) × (find_batch 5 bought.batches ≡ some b)
    × (2 ≢ b.store_id)
    × (any (belongs b.store_id 9) shops ≡ true)
    × (any (belongs 2 9) shops ≡ true)
    × (pos 400 ≤ℤ b.current_quantity)
    × ((x : ℕ)
        → stock_of x (after_transfer.1.batches) +ℤ (if b.store_id == x then pos 400 else pos 0)
          ≡ stock_of x bought.batches +ℤ (if 2 == x then pos 400 else pos 0))
transfer_fabric_moves_example =
    transfer_fabric_moves 6 10 9 four_metres shops bought (tt, tt) four_metres_moved
