-- ===== src/Inventory/Fifo.antt =====
-- apps/api/src/inventory/fifo.service.ts: oldest batches first.
pub mod Step
pub mod Age
pub mod Offered
pub mod Oldest
pub mod Conservation
pub mod Success
use tailor_erp.Prelude.{
  ℕ, Bool, ◌&&◌, ◌||◌, Option, List, [], ◌∷◌, ◌++◌, Decimal, pos, ◌-ℤ◌, ltb_ℤ, leb_ℤ, eqb_ℤ, min_ℤ,
  Result, ok, err, unprocessable, ◌>>=◌, ◌==◌, ltb, if◌then◌else◌, keep, sum_from,
}
use tailor_erp.Inventory.{
  Batch, Movement, Stock, is_available, depleted, order_out, update_batch, create_movement,
}

pub record Consumption : Type 0 where
  pub batch_id : ℕ
  pub batch_code : ℕ
  pub quantity : Decimal
  pub cost_per_unit : Decimal

pub record Request : Type 0 where
  pub store_id : ℕ
  pub fabric_name : ℕ
  pub quantity : Decimal
  pub order_id : Option ℕ

-- The WHERE clause of the query.
abbrev pub is_candidate : Request → Batch → Bool
is_candidate p b =
    (b.store_id == p.store_id)
    && (b.fabric_name == p.fabric_name)
    && is_available b.status
    && ltb_ℤ (pos 0) b.current_quantity

-- ORDER BY purchase_date ASC, created_at ASC
abbrev pub is_older : Batch → Batch → Bool
is_older a b =
    ltb a.purchase_date b.purchase_date
    || ((a.purchase_date == b.purchase_date) && ltb a.created_at b.created_at)

unfoldable pub insert_by_age : Batch → List Batch → List Batch
insert_by_age a [] = a ∷ []
insert_by_age a (b ∷ bs) = if is_older b a then b ∷ insert_by_age a bs else a ∷ b ∷ bs

unfoldable pub sort_by_age : List Batch → List Batch
unfolding insert_by_age
sort_by_age [] = []
sort_by_age (b ∷ bs) = insert_by_age b (sort_by_age bs)

-- The rows that the query locks.
unfoldable pub candidates : Request → List Batch → List Batch
unfolding sort_by_age
candidates p rows = sort_by_age (keep (is_candidate p) rows)

-- `data: { currentQuantity: newBalance, ...(newBalance.isZero() ? { status: 'depleted' } : {}) }`
unfoldable pub set_balance : Decimal → Batch → Batch
set_balance balance b = record b {
  current_quantity = balance;
  status = if eqb_ℤ balance (pos 0) then depleted else b.status;
}

abbrev pub consumption : Batch → Decimal → Consumption
consumption b take = record {
  batch_id = b.id;
  batch_code = b.batch_code;
  quantity = take;
  cost_per_unit = b.cost_price_per_unit;
}

-- The movement that documents one take.
abbrev pub order_movement : Request → Batch → Decimal → Decimal → Movement
order_movement p b take balance = record {
  batch_id = b.id;
  order_id = p.order_id;
  movement_type = order_out;
  quantity = take;
  previous_balance = b.current_quantity;
  new_balance = balance;
}

-- The `for` loop: the rows that are left, `remaining` and `consumed`.
unfoldable pub take_loop :
    Request → List Batch → Decimal → List Consumption → Stock → Result (List Consumption × Stock)
take_loop p [] remaining consumed s = ok (consumed, s)
take_loop p (b ∷ bs) remaining consumed s = if leb_ℤ remaining (pos 0) then ok (consumed, s) else do
  let take = min_ℤ remaining b.current_quantity
  let balance = b.current_quantity -ℤ take
  s1 ← update_batch b.id (set_balance balance) s
  s2 ← create_movement (order_movement p b take balance) s1
  take_loop p bs (remaining -ℤ take) (consumed ++ consumption b take ∷ []) s2

abbrev pub total_available : List Batch → Decimal
total_available = sum_from (λ b. b.current_quantity) (pos 0)

-- FifoService.consume
unfoldable pub consume : Request → Stock → Result (List Consumption × Stock)
consume p s =
    let batches = candidates p s.batches in
    if ltb_ℤ (total_available batches) p.quantity
    then err unprocessable
    else take_loop p batches p.quantity [] s
