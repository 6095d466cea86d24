-- ===== src/Inventory/Fifo/Success.antt =====
-- When FIFO consumption goes through, and when the reservations on a roll make it fail.
use tailor_erp.Prelude.{
  ◌≡◌, ◌⊎◌, refl, ap, ◌∙◌, inl, inr, true, false, some, List, [], ◌∷◌, ◌++◌, arith, Bool-cases,
  Decimal, pos, ◌-ℤ◌, ◌≤ℤ◌, ◌<ℤ◌, leb_ℤ, min_ℤ, int_laws, parts_of_eq, le→leb_ℤ, unprocessable,
  check_violation, ok, err, All, All-zip, keep_sound, -ℤ_parts, le→ltb_ℤ, lt→ltb_ℤ, lt→leb_ℤ,
  le_or_lt, subst, Among,
}
use tailor_erp.Inventory.{
  Batch, Stock, checked_batch, checked_movement, find_batch, create_movement,
}
use tailor_erp.Inventory.Rows.{
  stock_total, update_batch_succeeds, update_batch_refused, replace_row,
}
use tailor_erp.Inventory.Keys.{Distinct, Stored}
use tailor_erp.Inventory.Fifo.{
  Consumption, Request, is_candidate, consumption, set_balance, order_movement, take_loop,
  total_available, candidates, consume,
}
use tailor_erp.Inventory.Fifo.Offered.{
  Offers, no_rows, offered, passed_over, candidate-IsOffered, Offers-keep, Older,
  total_available_lem, oldest_first,
}
use tailor_erp.Inventory.Fifo.Step.{Taken, take_loop-done}
use tailor_erp.Inventory.Fifo.Age.{Distinct-candidates, Stored-candidates, All-candidates}
use tailor_erp.Inventory.Fifo.Conservation.{Stored-step}

-- A roll with metres on it and none promised to an order.
abbrev pub IsFree : Batch → Type 0
IsFree b = (b.reserved_quantity ≡ pos 0) × (pos 0 <ℤ b.current_quantity)

free_take_fits :
    (b : Batch) (take : Decimal)
    → b.reserved_quantity ≡ pos 0
    → take ≤ℤ b.current_quantity
    → checked_batch (set_balance (b.current_quantity -ℤ take) b) ≡ true
unfolding checked_batch set_balance
free_take_fits b take free fits = ground (arith, parts_of_eq free, -ℤ_parts b.current_quantity take)

movement_fits :
    (p : Request) (b : Batch) (take : Decimal)
    → pos 0 <ℤ take
    → take ≤ℤ b.current_quantity
    → checked_movement (order_movement p b take (b.current_quantity -ℤ take)) ≡ true
unfolding checked_movement
movement_fits p b take some_metres fits = ground (arith, -ℤ_parts b.current_quantity take)

-- The table after a take from `b`.
abbrev take_from : Request → Batch → Decimal → Stock → Stock
take_from p b take s = record s {
  batches = replace_row b.id (set_balance (b.current_quantity -ℤ take)) s.batches;
  movements = s.movements ++ order_movement p b take (b.current_quantity -ℤ take) ∷ [];
}

take_from-Taken :
    (p : Request) (b : Batch) (take : Decimal) (s : Stock)
    → find_batch b.id s.batches ≡ some b
    → Taken p b take s (take_from p b take s)
take_from-Taken p b take s stored = (b, stored, refl, refl, refl)

-- A round whose writes pass the CHECKs goes on with the next row.
take_loop-next :
    (p : Request) (b : Batch) (bs : List Batch) (remaining : Decimal) (consumed : List Consumption)
    (s : Stock)
    → leb_ℤ remaining (pos 0) ≡ false
    → find_batch b.id s.batches ≡ some b
    → let take = min_ℤ remaining b.current_quantity in
      let balance = b.current_quantity -ℤ take in
      checked_batch (set_balance balance b) ≡ true
      → checked_movement (order_movement p b take balance) ≡ true
      → take_loop p (b ∷ bs) remaining consumed s
        ≡ take_loop p bs
            (remaining -ℤ take)
            (consumed ++ consumption b take ∷ [])
            (take_from p b take s)
unfolding take_loop create_movement
take_loop-next p b bs remaining consumed s more stored fits documented =
    rw (more, update_batch_succeeds b.id _ s b stored fits, documented)

min_ℤ-le_right : (a b : Decimal) → min_ℤ a b ≤ℤ b
min_ℤ-le_right a b = ground arith

min_ℤ_pos : (a b : Decimal) → leb_ℤ a (pos 0) ≡ false → pos 0 <ℤ b → pos 0 <ℤ min_ℤ a b
min_ℤ_pos a b h k = ground arith

take_loop_succeeds :
    (p : Request) (rows : List Batch) (remaining : Decimal) (consumed : List Consumption)
    (s : Stock)
    → Distinct rows
    → Stored s.batches rows
    → All IsFree rows
    → (r : List Consumption × Stock) × (take_loop p rows remaining consumed s ≡ ok r)
take_loop_succeeds p [] remaining consumed s keys stored free =
    ((consumed, s), unfold take_loop in refl)
take_loop_succeeds p (b ∷ bs) remaining consumed s keys stored free =
    elim (Bool-cases (leb_ℤ remaining (pos 0))) [
      | inl done ↦ ((consumed, s), take_loop-done p (b ∷ bs) remaining consumed s done)
      | inr more ↦
          let take = min_ℤ remaining b.current_quantity in
          let fits = min_ℤ-le_right remaining b.current_quantity in
          let s2 = take_from p b take s in
          let next =
            take_loop-next p b bs remaining consumed s more stored.0
              (free_take_fits b take free.0.0 fits)
              (movement_fits p b take (min_ℤ_pos remaining b.current_quantity more free.0.1)
                fits) in
          let (r, e) =
            take_loop_succeeds p bs (remaining -ℤ take) (consumed ++ consumption b take ∷ []) s2
              keys.1
              (Stored-step p b bs take s s2 keys stored (take_from-Taken p b take s stored.0))
              free.1 in
          (r, next ∙ e)
    ]

-- If the keys of the rolls are distinct and no roll that is offered for a request is reserved, the
-- request is served exactly when these rolls, the available ones of the fabric in the store, hold
-- enough: it succeeds when their metres are at least the request, and is refused with 422 otherwise.
pub consume_decides :
    (p : Request) (s : Stock) (picked : List Batch)
    → Distinct s.batches
    → Offers p s.batches picked
    → All (λ b. b.reserved_quantity ≡ pos 0) picked
    → ((p.quantity ≤ℤ stock_total picked) × ((r : List Consumption × Stock) × (consume p s ≡ ok r)))
      ⊎ ((stock_total picked <ℤ p.quantity) × (consume p s ≡ err unprocessable))
unfolding consume
consume_decides p s picked keys offers free =
    let rows = candidates p s.batches in
    let total = total_available_lem p offers in
    let candidate = All-candidates _ p s.batches (keep_sound (is_candidate p) s.batches) in
    let unreserved =
      All-candidates (λ b. b.reserved_quantity ≡ pos 0) p s.batches
        (subst (All (λ b. b.reserved_quantity ≡ pos 0)) (Offers-keep p offers) free) in
    let (r, e) =
      take_loop_succeeds p rows p.quantity [] s (Distinct-candidates p s.batches keys)
        (Stored-candidates p s.batches keys)
        (All-zip _ _ IsFree rows
          (λ b zero_reserved c. (zero_reserved, (candidate-IsOffered p b c).3)) unreserved
          candidate) in
    elim (le_or_lt p.quantity (stock_total picked)) [
      | inl enough ↦
          let room : p.quantity ≤ℤ total_available rows =
            omega (int_laws, enough, parts_of_eq total) in
          inl (enough, (r, rw (le→ltb_ℤ (total_available rows) p.quantity room) e))
      | inr short ↦
          let lacking : total_available rows <ℤ p.quantity =
            omega (int_laws, short, parts_of_eq total) in
          inr (short, rw (lt→ltb_ℤ (total_available rows) p.quantity lacking))
    ]

reserved_take_refused :
    (b : Batch) (take : Decimal)
    → b.current_quantity -ℤ take <ℤ b.reserved_quantity
    → checked_batch (set_balance (b.current_quantity -ℤ take) b) ≡ false
unfolding checked_batch set_balance
reserved_take_refused b take reserved = ground arith

take_loop-refused :
    (p : Request) (b : Batch) (bs : List Batch) (remaining : Decimal) (consumed : List Consumption)
    (s : Stock)
    → pos 0 <ℤ remaining
    → remaining ≤ℤ b.current_quantity
    → b.current_quantity -ℤ remaining <ℤ b.reserved_quantity
    → find_batch b.id s.batches ≡ some b
    → take_loop p (b ∷ bs) remaining consumed s ≡ err check_violation
unfolding take_loop
take_loop-refused p b bs remaining consumed s need fits reserved stored = rw (
  lt→leb_ℤ remaining (pos 0) need,
  le→leb_ℤ remaining b.current_quantity fits,
  update_batch_refused b.id _ s b stored (reserved_take_refused b remaining reserved),
)

stock_total_nonneg :
    (p : Request) {rows picked : List Batch} → Offers p rows picked → pos 0 ≤ℤ stock_total picked
stock_total_nonneg p no_rows = omega int_laws
stock_total_nonneg p (offered b rows picked o rest) =
    let later = stock_total_nonneg p rest in omega (int_laws, later, o.3)
stock_total_nonneg p (passed_over b rows picked not_offered rest) = stock_total_nonneg p rest

one_within_total :
    (p : Request) (b : Batch) {rows picked : List Batch}
    → Offers p rows picked
    → Among b picked
    → b.current_quantity ≤ℤ stock_total picked
one_within_total p b no_rows there = absurd there
one_within_total p b (offered a rows picked o rest) (inl here) =
    let later = stock_total_nonneg p rest in
    let same = ap (λ (x : Batch). x.current_quantity) here in
    omega (int_laws, later, parts_of_eq same)
one_within_total p b (offered a rows picked o rest) (inr there) =
    let later = one_within_total p b rest there in omega (int_laws, later, o.3)
one_within_total p b (passed_over a rows picked not_offered rest) there =
    one_within_total p b rest there

-- FIFO counts the metres that are reserved for other orders as available. When the keys of the rolls
-- are distinct, the request is positive, and the oldest of the rolls that are offered has enough on it
-- for the request and it eats into its reservation, the request is not refused with 422, as one for
-- more than what is available, but by the CHECK on the roll.
pub consume_refused_by_reservation :
    (p : Request) (s : Stock) (picked : List Batch) (b : Batch)
    → Distinct s.batches
    → Offers p s.batches picked
    → Among b picked
    → All (λ a. (a ≡ b) ⊎ Older b a) picked
    → pos 0 <ℤ p.quantity
    → p.quantity ≤ℤ b.current_quantity
    → b.current_quantity -ℤ p.quantity <ℤ b.reserved_quantity
    → consume p s ≡ err check_violation
unfolding consume
consume_refused_by_reservation p s picked b keys offers there oldest need fits reserved =
    let (bs, rows) = oldest_first p b offers there oldest in
    let total = total_available_lem p offers in
    let within = one_within_total p b offers there in
    let enough : p.quantity ≤ℤ total_available (candidates p s.batches) =
      omega (int_laws, within, fits, parts_of_eq total) in
    let stored : Stored s.batches (b ∷ bs) = rw rows at (Stored-candidates p s.batches keys) in
    rw (le→ltb_ℤ (total_available (candidates p s.batches)) p.quantity enough, rows)
      (take_loop-refused p b bs p.quantity [] s need fits reserved stored.0)
