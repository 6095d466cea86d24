-- ===== src/Inventory/Fifo/Step.antt =====
-- One round of the FIFO loop, read backwards from a loop that succeeds.
use tailor_erp.Prelude.{
  ◌≡◌, refl, ap, ◌∙◌, true, false, some, List, [], ◌∷◌, ◌++◌, Decimal, pos, ◌-ℤ◌, leb_ℤ, min_ℤ, ok,
  >>=-eq-ok,
}
use tailor_erp.Inventory.{Batch, Stock, find_batch, update_batch, create_movement}
use tailor_erp.Inventory.Rows.{KeepsId, replace_row, update_batch-eq-ok, create_movement-eq-ok}
use tailor_erp.Inventory.Fifo.{
  Consumption, Request, set_balance, consumption, order_movement, take_loop,
}

pub set_balance-KeepsId : (balance : Decimal) → KeepsId (set_balance balance)
unfolding set_balance
set_balance-KeepsId balance b = refl

pub set_balance-current_quantity :
    (balance : Decimal) (b : Batch) → (set_balance balance b).current_quantity ≡ balance
unfolding set_balance
set_balance-current_quantity balance b = refl

-- The state of the tables after a take of `take` from `b`.
abbrev pub Taken : Request → Batch → Decimal → Stock → Stock → Type 0
Taken p b take s s' =
    (row : Batch) × (find_batch b.id s.batches ≡ some row)
    × (s'.batches ≡ replace_row b.id (set_balance (b.current_quantity -ℤ take)) s.batches)
    × (s'.movements ≡ s.movements ++ order_movement p b take (b.current_quantity -ℤ take) ∷ [])
    × (s'.reservations ≡ s.reservations)

-- The two writes of a round that succeeds, and the rest of the loop.
pub take_loop-writes :
    (p : Request) (b : Batch) (bs : List Batch) (remaining : Decimal) (results : List Consumption)
    (s : Stock) {r : List Consumption × Stock}
    → leb_ℤ remaining (pos 0) ≡ false
    → take_loop p (b ∷ bs) remaining results s ≡ ok r
    → let take = min_ℤ remaining b.current_quantity in
      let balance = b.current_quantity -ℤ take in
      (s1 : Stock) × (s2 : Stock) × (update_batch b.id (set_balance balance) s ≡ ok s1)
      × (create_movement (order_movement p b take balance) s1 ≡ ok s2)
      × (take_loop p bs (remaining -ℤ take) (results ++ consumption b take ∷ []) s2 ≡ ok r)
unfolding take_loop
take_loop-writes p b bs remaining results s more h =
    let (s1, done, h1) = >>=-eq-ok (update_batch b.id _ s) _ (rw more at h) in
    let (s2, made, h2) = >>=-eq-ok (create_movement _ s1) _ h1 in (s1, s2, done, made, h2)

pub writes-Taken :
    (p : Request) (b : Batch) (take : Decimal) (s s1 s2 : Stock)
    → update_batch b.id (set_balance (b.current_quantity -ℤ take)) s ≡ ok s1
    → create_movement (order_movement p b take (b.current_quantity -ℤ take)) s1 ≡ ok s2
    → Taken p b take s s2
writes-Taken p b take s s1 s2 done made =
    let u = update_batch-eq-ok b.id _ s done in
    let (_, e) = create_movement-eq-ok _ s1 made in
    (
      u.row,
      u.found,
      ap (λ (t : Stock). t.batches) e ∙ u.batches,
      ap (λ (t : Stock). t.movements) e
          ∙ ap (λ ms. ms ++ order_movement p b take (b.current_quantity -ℤ take) ∷ []) u.movements,
      ap (λ (t : Stock). t.reservations) e ∙ u.reservations,
    )

pub take_loop-step :
    (p : Request) (b : Batch) (bs : List Batch) (remaining : Decimal) (results : List Consumption)
    (s : Stock) {r : List Consumption × Stock}
    → leb_ℤ remaining (pos 0) ≡ false
    → take_loop p (b ∷ bs) remaining results s ≡ ok r
    → let take = min_ℤ remaining b.current_quantity in
      (s2 : Stock) × Taken p b take s s2
      × (take_loop p bs (remaining -ℤ take) (results ++ consumption b take ∷ []) s2 ≡ ok r)
take_loop-step p b bs remaining results s more h =
    let (s1, s2, done, made, rest) = take_loop-writes p b bs remaining results s more h in
    (s2, writes-Taken p b (min_ℤ remaining b.current_quantity) s s1 s2 done made, rest)

-- With nothing left to take the loop ends.
pub take_loop-done :
    (p : Request) (rows : List Batch) (remaining : Decimal) (results : List Consumption) (s : Stock)
    → leb_ℤ remaining (pos 0) ≡ true
    → take_loop p rows remaining results s ≡ ok (results, s)
unfolding take_loop
take_loop-done p [] remaining results s h = refl
take_loop-done p (b ∷ bs) remaining results s h = rw h
