-- ===== src/Inventory/Trail/History.antt =====
-- The trail through holds, cutting, and any sequence of operations on the stock.
use tailor_erp.Prelude.{
  ℕ, ◌≡◌, refl, sym, ◌∙◌, inl, inr, Bool, ◌&&◌, some, List, [], ◌∷◌, Option-cases, some_inj,
  Decimal, pos, ◌-ℤ◌, max_ℤ, not_found, unprocessable, Result, ok, ok_inj, guard, or_throw,
  >>=-eq-ok, keep, subst,
}
use tailor_erp.Inventory.{Reservation, Stock, find_batch, update_batch, create_movement}
use tailor_erp.Inventory.Rows.{written}
use tailor_erp.Inventory.Yield.{can_cut_from}
use tailor_erp.Inventory.Fifo.{Request, Consumption, consume}
use tailor_erp.Inventory.Holds.{
  is_reserved, ReserveRequest, lock_available, hold, reserve, cut, consume_reservation,
  each_reservation, held_for, consume_for_order_item, release_reservation, release_for_order,
}
use tailor_erp.Inventory.Warehouse.{
  NewBatch, create_batch, adjust_batch, Transfer, transfer, Allocation, consume_explicit,
}
use tailor_erp.Inventory.Trail.{replay, abs_out}
use tailor_erp.Inventory.Trail.Writes.{IsTrail, write-IsTrail, hold-IsTrail}
use tailor_erp.Inventory.Trail.Moves.{
  create_batch-IsTrail, adjust_batch-IsTrail, consume-IsTrail, consume_explicit-IsTrail,
  transfer-IsTrail,
}
use tailor_erp.Auth.Guard.{Store}
use tailor_erp.Platform.{Platform}

pub reserve-IsTrail :
    (id : ℕ) (p : ReserveRequest) (s : Stock) {r : Reservation × Stock}
    → reserve id p s ≡ ok r
    → IsTrail s
    → IsTrail (r.1)
unfolding reserve
reserve-IsTrail id p s done trail =
    let (b, _, h1) =
      >>=-eq-ok (or_throw (lock_available p.batch_id p.store_id s) not_found) _ done in
    let (_, _, h2) =
      >>=-eq-ok
        (guard
          ((can_cut_from b.current_quantity b.reserved_quantity (some b.min_usable_meters)
            p.meters).is_ok)
          unprocessable)
        _ h1 in
    let (s1, written, e) = >>=-eq-ok (update_batch b.id (hold p.meters) s) _ h2 in
    subst (λ r. IsTrail (r.1)) (ok_inj e)
      (hold-IsTrail b.id (hold p.meters) s s1 written (λ c. refl) (λ c. refl) trail)

consume_reservation-IsTrail :
    (r : Reservation) (s : Stock) {t : Stock}
    → consume_reservation r s ≡ ok t
    → IsTrail s
    → IsTrail t
unfolding consume_reservation cut
consume_reservation-IsTrail r s done trail = elim (Option-cases (find_batch r.batch_id s.batches)) [
  | inl e ↦ subst IsTrail (ok_inj (rw (e, consume_reservation) at done)) trail
  | inr (b, e) ↦
      let balance = b.current_quantity -ℤ r.meters in
      let held = max_ℤ (b.reserved_quantity -ℤ r.meters) (pos 0) in
      let (s1, written, h1) =
        >>=-eq-ok (update_batch r.batch_id (cut balance held) s) _
          (rw (e, consume_reservation) at done) in
      let (s2, moved, end) = >>=-eq-ok (create_movement _ s1) _ h1 in
      subst IsTrail (ok_inj end) (
        write-IsTrail r.batch_id (cut balance held) _ s s1 s2 written moved (λ c. refl) refl
          (λ c there h.
            rw (some_inj (sym there ∙ e)) (refl, refl, abs_out b.current_quantity r.meters h))
          trail)
]

release_reservation-IsTrail :
    (r : Reservation) (s : Stock) {t : Stock}
    → release_reservation r s ≡ ok t
    → IsTrail s
    → IsTrail t
unfolding release_reservation
release_reservation-IsTrail r s done trail =
    let (s1, written, end) = >>=-eq-ok (update_batch r.batch_id _ s) _ done in
    subst IsTrail (ok_inj end)
      (hold-IsTrail r.batch_id _ s s1 written (λ c. refl) (λ c. refl) trail)

each_reservation-IsTrail :
    (f : Reservation → Stock → Result Stock) (rs : List Reservation) (s : Stock) {t : Stock}
    → ((r : Reservation) (a b : Stock) → f r a ≡ ok b → IsTrail a → IsTrail b)
    → each_reservation f rs s ≡ ok t
    → IsTrail s
    → IsTrail t
unfolding each_reservation
each_reservation-IsTrail f [] s keeps done trail = subst IsTrail (ok_inj done) trail
each_reservation-IsTrail f (r ∷ rs) s keeps done trail =
    let (s1, first, rest) = >>=-eq-ok (f r s) _ done in
    each_reservation-IsTrail f rs s1 keeps rest (keeps r s s1 first trail)

consume_for_order_item-IsTrail :
    (item : ℕ) (s : Stock) {r : ℕ × Stock}
    → consume_for_order_item item s ≡ ok r
    → IsTrail s
    → IsTrail (r.1)
unfolding consume_for_order_item
consume_for_order_item-IsTrail item s done trail =
    let (s1, each, end) =
      >>=-eq-ok (each_reservation consume_reservation (keep (held_for item) s.reservations) s) _
        done in
    subst (λ r. IsTrail (r.1)) (ok_inj end)
      (each_reservation-IsTrail consume_reservation (keep (held_for item) s.reservations) s
        (λ r a b h. consume_reservation-IsTrail r a h) each trail)

release_for_order-IsTrail :
    (of_order : ℕ → Bool) (s : Stock) {r : ℕ × Stock}
    → release_for_order of_order s ≡ ok r
    → IsTrail s
    → IsTrail (r.1)
unfolding release_for_order
release_for_order-IsTrail of_order s done trail =
    let found =
      keep (λ (r : Reservation). of_order r.order_item_id && is_reserved r.status) s.reservations in
    let (s1, each, end) = >>=-eq-ok (each_reservation release_reservation found s) _ done in
    subst (λ r. IsTrail (r.1)) (ok_inj end)
      (each_reservation-IsTrail release_reservation found s
        (λ r a b h. release_reservation-IsTrail r a h) each trail)

-- The transactions on the stock that commit.
pub data Step : Stock → Stock → Type 0 where
  purchased : (id now : ℕ) (p : NewBatch) (s t : Stock) → create_batch id now p s ≡ ok t → Step s t
  adjusted_by :
      (store id : ℕ) (delta : Decimal) (s t : Stock)
      → adjust_batch store id delta s ≡ ok t
      → Step s t
  transferred :
      (id now org : ℕ) (dto : Transfer) (stores : List Store) (p : Platform) (s : Stock) (roll : ℕ)
      (t : Stock)
      → (transfer id now org dto stores p s).0 ≡ ok (roll, t)
      → Step s t
  sold :
      (p : Request) (s : Stock) (taken : List Consumption) (t : Stock)
      → consume p s ≡ ok (taken, t)
      → Step s t
  allocated :
      (store order : ℕ) (allocations : List Allocation) (s : Stock) (taken : List Consumption)
      (t : Stock)
      → consume_explicit store order allocations [] s ≡ ok (taken, t)
      → Step s t
  held :
      (id : ℕ) (p : ReserveRequest) (s : Stock) (r : Reservation) (t : Stock)
      → reserve id p s ≡ ok (r, t)
      → Step s t
  was_cut :
      (item : ℕ) (s : Stock) (n : ℕ) (t : Stock)
      → consume_for_order_item item s ≡ ok (n, t)
      → Step s t
  let_go :
      (of_order : ℕ → Bool) (s : Stock) (n : ℕ) (t : Stock)
      → release_for_order of_order s ≡ ok (n, t)
      → Step s t

pub data Run : Stock → Type 0 where
  empty : Run (record { batches = []; movements = []; reservations = [] })
  next : (s t : Stock) → Run s → Step s t → Run t

Step-IsTrail : {s t : Stock} → Step s t → IsTrail s → IsTrail t
Step-IsTrail (purchased id now p s t done) = create_batch-IsTrail id now p s done
Step-IsTrail (adjusted_by store id delta s t done) = adjust_batch-IsTrail store id delta s done
Step-IsTrail (transferred id now org dto stores p s roll t done) =
    transfer-IsTrail id now org dto stores p s done
Step-IsTrail (sold p s taken t done) = consume-IsTrail p s done
Step-IsTrail (allocated store order allocations s taken t done) =
    consume_explicit-IsTrail store order allocations [] s done
Step-IsTrail (held id p s r t done) = reserve-IsTrail id p s done
Step-IsTrail (was_cut item s n t done) = consume_for_order_item-IsTrail item s done
Step-IsTrail (let_go of_order s n t done) = release_for_order-IsTrail of_order s done

-- However purchases, adjustments, transfers, sales by FIFO, sales of chosen rolls, holds, cuts and
-- releases follow each other from empty tables, the movements of every roll lead from zero to its
-- quantity without a gap: each starts from the balance that the one before it ended with, and its
-- quantity is the size of the change. No two rolls have one key.
pub Run-IsTrail : {s : Stock} → Run s → IsTrail s
unfolding replay find_batch
Run-IsTrail empty = ((λ id. refl), tt)
Run-IsTrail (next s t run step) = Step-IsTrail step (Run-IsTrail run)
