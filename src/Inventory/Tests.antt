-- ===== src/Inventory/Tests.antt =====
-- Runs of the stock operations on concrete rolls.
use tailor_erp.Prelude.{
  ℕ, ◌≡◌, ◌≢◌, ◌⊎◌, refl, inl, true, none, some, List, [], ◌∷◌, ◌++◌, arith, Decimal, pos, ◌+ℤ◌,
  ◌-ℤ◌, ◌*ℤ◌, ◌≤ℤ◌, ◌<ℤ◌, int_laws, unprocessable, check_violation, ok, err,
}
use tailor_erp.Inventory.{
  reserved, Batch, BatchStatus, Movement, Reservation, Stock, available, depleted, order_out,
  checked_batch, checked_movement, find_batch, update_row, update_batch, create_movement,
}
use tailor_erp.Inventory.Keys.{Distinct}
use tailor_erp.Inventory.Rows.{stock_total}
use tailor_erp.Inventory.Fifo.{
  Request, Consumption, candidates, sort_by_age, insert_by_age, set_balance, take_loop, consume,
}
use mathlib.Core.List.{Perm}
use tailor_erp.Inventory.Fifo.Offered.{Offers, no_rows, offered, Ascending}
use tailor_erp.Inventory.Fifo.Oldest.{OldestFirst, consume-OldestFirst}
use tailor_erp.Inventory.Fifo.Conservation.{total_taken, consume-conserves}
use tailor_erp.Inventory.Fifo.Success.{consume_decides, consume_refused_by_reservation}
use tailor_erp.Inventory.Holds.{ReserveRequest, reserve}
use tailor_erp.Inventory.Holds.Reserving.{reserve_decides}
use tailor_erp.Inventory.Yield.{thobe, trousers, Measurement, compute_yield}
use tailor_erp.Inventory.Yield.Bounds.{RoundedUp, needed, compute_yield_covers}

abbrev roll : ℕ → Decimal → Decimal → BatchStatus → ℕ → Batch
roll id current held status bought = record {
  id = id;
  store_id = 1;
  fabric_name = 7;
  batch_code = id;
  status = status;
  initial_quantity = pos 5000;
  current_quantity = current;
  reserved_quantity = held;
  min_usable_meters = pos 350;
  cost_price_per_unit = pos 2500;
  purchase_date = bought;
  created_at = bought;
}

-- The newer roll stands first in the table.
abbrev two_rolls : Stock
two_rolls = record {
  batches = roll 2 (pos 500) (pos 0) available 20 ∷ roll 1 (pos 300) (pos 0) available 10 ∷ [];
  movements = [];
  reservations = [];
}

abbrev four_metres : Request
four_metres = record { store_id = 1; fabric_name = 7; quantity = pos 400; order_id = some 9 }

abbrev used : List Consumption
used =
    record { batch_id = 1; batch_code = 1; quantity = pos 300; cost_per_unit = pos 2500 }
    ∷ record { batch_id = 2; batch_code = 2; quantity = pos 100; cost_per_unit = pos 2500 }
    ∷ []

abbrev movement : ℕ → Decimal → Decimal → Decimal → Movement
movement id taken before left = record {
  batch_id = id;
  order_id = some 9;
  movement_type = order_out;
  quantity = taken;
  previous_balance = before;
  new_balance = left;
}

abbrev after_sale : Stock
after_sale = record {
  batches = roll 2 (pos 400) (pos 0) available 20 ∷ roll 1 (pos 0) (pos 0) depleted 10 ∷ [];
  movements =
      movement 1 (pos 300) (pos 300) (pos 0) ∷ movement 2 (pos 100) (pos 500) (pos 400) ∷ [];
  reservations = [];
}

consume_runs : consume four_metres two_rolls ≡ ok (used, after_sale)
unfolding consume take_loop candidates sort_by_age insert_by_age set_balance update_batch update_row
    checked_batch create_movement checked_movement ◌+ℤ◌ ◌-ℤ◌
consume_runs = refl

two_rolls-Distinct : Distinct two_rolls.batches
two_rolls-Distinct = (((λ e. omega (arith, e)), tt), (tt, tt))

consume-OldestFirst_example :
    (picked rows : List Batch) × Offers four_metres two_rolls.batches picked
    × Perm rows picked
    × Ascending rows
    × OldestFirst rows (pos 400) used
consume-OldestFirst_example = consume-OldestFirst four_metres two_rolls (omega arith) consume_runs

consume-conserves_example :
    stock_total after_sale.batches +ℤ total_taken used ≡ stock_total two_rolls.batches
consume-conserves_example = consume-conserves four_metres two_rolls two_rolls-Distinct consume_runs

two_rolls-Offers : Offers four_metres two_rolls.batches two_rolls.batches
two_rolls-Offers =
    offered _ _ _ (refl, refl, refl, omega arith)
      (offered _ _ _ (refl, refl, refl, omega arith) no_rows)

consume_decides_example :
    ((pos 400 ≤ℤ stock_total two_rolls.batches)
      × ((r : List Consumption × Stock) × (consume four_metres two_rolls ≡ ok r)))
    ⊎ ((stock_total two_rolls.batches <ℤ pos 400)
        × (consume four_metres two_rolls ≡ err unprocessable))
consume_decides_example =
    consume_decides four_metres two_rolls two_rolls.batches two_rolls-Distinct two_rolls-Offers
      (refl, (refl, tt))

-- Two of the three metres of the oldest roll are promised.
abbrev promised : Stock
promised = record {
  batches = roll 1 (pos 300) (pos 200) available 10 ∷ [];
  movements = [];
  reservations = [];
}

abbrev two_metres : Request
two_metres = record { store_id = 1; fabric_name = 7; quantity = pos 200; order_id = none }

consume_refused_by_reservation_example : consume two_metres promised ≡ err check_violation
consume_refused_by_reservation_example =
    consume_refused_by_reservation two_metres promised promised.batches
      (roll 1 (pos 300) (pos 200) available 10) (tt, tt)
      (offered _ _ _ (refl, refl, refl, omega arith) no_rows) (inl refl) (inl refl, tt)
      (omega int_laws) (omega int_laws) (omega int_laws)

abbrev for_thobe : ReserveRequest
for_thobe = record { batch_id = 2; order_item_id = 5; meters = pos 120; store_id = 1 }

second_roll : find_batch 2 two_rolls.batches ≡ some (roll 2 (pos 500) (pos 0) available 20)
unfolding find_batch
second_roll = refl

second_roll_fits : checked_batch (roll 2 (pos 500) (pos 0) available 20) ≡ true
unfolding checked_batch
second_roll_fits = refl

reserve_decides_example :
    let b = roll 2 (pos 500) (pos 0) available 20 in
    ((b.reserved_quantity +ℤ pos 120 +ℤ b.min_usable_meters ≤ℤ b.current_quantity)
      × ((r : Reservation × Stock) × (reserve 31 for_thobe two_rolls ≡ ok r)
          × (find_batch 2 r.1.batches
              ≡ some (record b { reserved_quantity = b.reserved_quantity +ℤ pos 120 }))
          × (r.0 ≡ record {
            id = 31;
            batch_id = 2;
            order_item_id = 5;
            meters = pos 120;
            status = reserved;
          })
          × (r.1.reservations ≡ two_rolls.reservations ++ r.0 ∷ [])))
    ⊎ ((b.current_quantity <ℤ b.reserved_quantity +ℤ pos 120 +ℤ b.min_usable_meters)
        × (reserve 31 for_thobe two_rolls ≡ err unprocessable))
reserve_decides_example =
    reserve_decides 31 for_thobe two_rolls (roll 2 (pos 500) (pos 0) available 20) second_roll refl
      refl second_roll_fits (omega arith) (omega arith)

-- Lengths of 150 and 152.5 cm, sleeves of 60 and 61 cm.
abbrev thobe_points : Measurement
thobe_points = record {
  m1_front_length = some (pos 15000);
  m1_back_length = some (pos 15250);
  m3_sleeve_left = some (pos 6000);
  m3_sleeve_right = some (pos 6100);
  t4_outseam = none;
}

thobe_ne_trousers : thobe ≢ trousers
thobe_ne_trousers h = cc

compute_yield_covers_example :
    (y : Decimal) × (compute_yield thobe thobe_points 2 ≡ ok y)
    × RoundedUp (needed thobe 2 (pos 15250) (pos 6100)) y
    × (needed thobe 2 (pos 15000) (pos 6100) ≤ℤ y *ℤ 100)
compute_yield_covers_example =
    compute_yield_covers thobe thobe_points 2 (pos 15000) (pos 15250) (pos 6000) (pos 6100)
      (pos 15000) (pos 6100) thobe_ne_trousers refl refl refl refl (omega arith) (omega arith)
      (omega arith) (omega arith)
