-- ===== src/Inventory/Trail/Moves.antt =====
-- Every operation on the stock keeps the trail of its rolls.
use tailor_erp.Prelude.{
  ℕ, ◌≡◌, refl, sym, ap, ◌∙◌, inl, inr, true, not, Option, none, some, List, [], ◌∷◌, ◌++◌, ◌==◌,
  Bool-cases, Option-cases, some_inj, Decimal, pos, ◌+ℤ◌, ◌-ℤ◌, ltb_ℤ, leb_ℤ, eqb_ℤ, min_ℤ,
  bad_request, not_found, unprocessable, ok, ok_inj, guard, or_throw, >>=-eq-ok, find, err_ne_ok,
  or_throw-eq-ok, All-find, subst,
}
use tailor_erp.Inventory.{
  purchase_in, transfer_out, transfer_in, Batch, Movement, Stock, find_batch, update_batch,
  create_movement,
}
use tailor_erp.Inventory.Keys.{Distinct, Stored, Stored-self}
use tailor_erp.Inventory.Rows.{written, find_batch-id}
use tailor_erp.Inventory.Fifo.{
  Consumption, Request, candidates, set_balance, consumption, take_loop, total_available, consume,
}
use tailor_erp.Inventory.Fifo.Step.{take_loop-writes, writes-Taken}
use tailor_erp.Inventory.Fifo.Age.{Distinct-candidates, Stored-candidates}
use tailor_erp.Inventory.Fifo.Conservation.{Stored-step}
use tailor_erp.Inventory.Warehouse.{
  NewBatch, batch_row, has_code, create_row, movement, create_batch, adjusted, locked, adjust_batch,
  Transfer, source_of, received, copied, receive, transfer_fabric, transfers, transfer, Allocation,
  consume_explicit,
}
use tailor_erp.Inventory.Holds.{lock_available}
use tailor_erp.Inventory.Holds.Reserving.{lock_available-find}
use tailor_erp.Inventory.Trail.{abs_change, abs_in, abs_out, abs_new}
use tailor_erp.Inventory.Trail.Writes.{IsTrail, write-IsTrail, create-IsTrail}
use tailor_erp.Auth.Guard.{Store, belongs}
use tailor_erp.Platform.{Platform, assert_feature}

pub create_batch-IsTrail :
    (id now : ℕ) (p : NewBatch) (s : Stock) {t : Stock}
    → create_batch id now p s ≡ ok t
    → IsTrail s
    → IsTrail t
unfolding create_batch
create_batch-IsTrail id now p s {t} done trail =
    let (s1, made, moved) = >>=-eq-ok (create_row (batch_row id now p) s) _ done in
    create-IsTrail (batch_row id now p) (movement id purchase_in p.quantity (pos 0) p.quantity) s s1
      t made moved refl (λ h. (refl, refl, abs_new p.quantity h)) trail

same_found : {o : Option Batch} {b c : Batch} → o ≡ some b → o ≡ some c → c ≡ b
same_found h k = some_inj (sym k ∙ h)

locked_found :
    (id store : ℕ) (s : Stock) {b : Batch}
    → locked id store s ≡ some b
    → find_batch id s.batches ≡ some b
locked_found id store s h = elim (Option-cases (find_batch id s.batches)) [
  | inl e ↦ let bad = rw (e, locked) at h in cc
  | inr (c, e) ↦ elim (Bool-cases (c.store_id == store)) [
    | inl t ↦ e ∙ (rw (e, locked, t) at h)
    | inr f ↦ let bad = rw (e, locked, f) at h in cc
  ]
]

pub adjust_batch-IsTrail :
    (store id : ℕ) (delta : Decimal) (s : Stock) {t : Stock}
    → adjust_batch store id delta s ≡ ok t
    → IsTrail s
    → IsTrail t
unfolding adjust_batch
adjust_batch-IsTrail store id delta s {t} done trail =
    let (_, _, h1) = >>=-eq-ok (guard (not (eqb_ℤ delta (pos 0))) bad_request) _ done in
    let (b, held, h2) = >>=-eq-ok (or_throw (locked id store s) not_found) _ h1 in
    let balance = b.current_quantity +ℤ delta in
    let (_, _, h3) = >>=-eq-ok (guard (not (ltb_ℤ balance (pos 0))) bad_request) _ h2 in
    let (s1, written, moved) = >>=-eq-ok (update_batch id (adjusted balance) s) _ h3 in
    let found = locked_found id store s (or_throw-eq-ok (locked id store s) not_found held) in
    write-IsTrail id (adjusted balance) _ s s1 t written moved (λ c. refl) refl
      (λ c there _. rw (same_found found there) (refl, refl, abs_change b.current_quantity delta))
      trail

-- Metres that leave a roll.
out-IsTrail :
    (b : Batch) (take : Decimal) (m : Movement) (s s1 s2 : Stock)
    → find_batch b.id s.batches ≡ some b
    → update_batch b.id (set_balance (b.current_quantity -ℤ take)) s ≡ ok s1
    → create_movement m s1 ≡ ok s2
    → m.batch_id ≡ b.id
    → m.quantity ≡ take
    → m.previous_balance ≡ b.current_quantity
    → m.new_balance ≡ b.current_quantity -ℤ take
    → IsTrail s
    → IsTrail s2
unfolding set_balance
out-IsTrail b take m s s1 s2 found written moved of_roll sized starts ends trail =
    write-IsTrail b.id (set_balance (b.current_quantity -ℤ take)) m s s1 s2 written moved
      (λ c. refl) of_roll
      (λ c there h. rw (same_found found there) (
        starts,
        ends,
        sized ∙ abs_out b.current_quantity take (subst (λ q. ltb_ℤ (pos 0) q ≡ true) sized h),
      ))
      trail

take_loop-IsTrail :
    (p : Request) (rows : List Batch) (remaining : Decimal) (results : List Consumption) (s : Stock)
    {r : List Consumption × Stock}
    → Distinct rows
    → Stored s.batches rows
    → take_loop p rows remaining results s ≡ ok r
    → IsTrail s
    → IsTrail (r.1)
unfolding take_loop
take_loop-IsTrail p [] remaining results s keys stored done trail =
    subst (λ r. IsTrail (r.1)) (ok_inj done) trail
take_loop-IsTrail p (b ∷ bs) remaining results s keys stored done trail =
    elim (Bool-cases (leb_ℤ remaining (pos 0))) [
      | inl over ↦ subst (λ r. IsTrail (r.1)) (ok_inj (rw over at done)) trail
      | inr more ↦
          let take = min_ℤ remaining b.current_quantity in
          let (s1, s2, written, moved, rest) =
            take_loop-writes p b bs remaining results s more done in
          take_loop-IsTrail p bs (remaining -ℤ take) (results ++ (consumption b take ∷ [])) s2
            keys.1
            (Stored-step p b bs take s s2 keys stored (writes-Taken p b take s s1 s2 written moved))
            rest (out-IsTrail b take _ s s1 s2 stored.0 written moved refl refl refl refl trail)
    ]

pub consume-IsTrail :
    (p : Request) (s : Stock) {r : List Consumption × Stock}
    → consume p s ≡ ok r
    → IsTrail s
    → IsTrail (r.1)
unfolding consume
consume-IsTrail p s done trail =
    let rows = candidates p s.batches in
    elim (Bool-cases (ltb_ℤ (total_available rows) p.quantity)) [
      | inl short ↦ absurd (err_ne_ok (rw short at done))
      | inr enough ↦
          take_loop-IsTrail p rows p.quantity [] s (Distinct-candidates p s.batches trail.1)
            (Stored-candidates p s.batches trail.1) (rw enough at done) trail
    ]

found_id :
    (id : ℕ) (s : Stock) {b : Batch}
    → find_batch id s.batches ≡ some b
    → find_batch b.id s.batches ≡ some b
found_id id s {b} h = ap (λ k. find_batch k s.batches) (find_batch-id id s.batches b h) ∙ h

pub consume_explicit-IsTrail :
    (store order : ℕ) (allocations : List Allocation) (results : List Consumption) (s : Stock)
    {r : List Consumption × Stock}
    → consume_explicit store order allocations results s ≡ ok r
    → IsTrail s
    → IsTrail (r.1)
unfolding consume_explicit
consume_explicit-IsTrail store order [] results s done trail =
    subst (λ r. IsTrail (r.1)) (ok_inj done) trail
consume_explicit-IsTrail store order (alloc ∷ allocations) results s done trail =
    let (b, held, h1) =
      >>=-eq-ok (or_throw (lock_available alloc.batch_id store s) unprocessable) _ done in
    let (_, _, h2) =
      >>=-eq-ok (guard (not (ltb_ℤ b.current_quantity alloc.quantity)) unprocessable) _ h1 in
    let balance = b.current_quantity -ℤ alloc.quantity in
    let (s1, written, h3) = >>=-eq-ok (update_batch alloc.batch_id (set_balance balance) s) _ h2 in
    let (s2, moved, rest) = >>=-eq-ok (create_movement _ s1) _ h3 in
    let found =
      lock_available-find alloc.batch_id store s b
        (or_throw-eq-ok (lock_available alloc.batch_id store s) unprocessable held) in
    let is_roll = find_batch-id alloc.batch_id s.batches b found in
    consume_explicit-IsTrail store order allocations
      (results ++ (consumption b alloc.quantity ∷ [])) s2 rest
      (out-IsTrail b alloc.quantity _ s s1 s2 (found_id alloc.batch_id s found)
        (subst (λ k. update_batch k (set_balance balance) s ≡ ok s1) (sym is_roll) written) moved
        (sym is_roll) refl refl refl trail)

source_found :
    (org id : ℕ) (stores : List Store) (s : Stock) {b : Batch}
    → source_of org id stores s ≡ some b
    → find_batch id s.batches ≡ some b
source_found org id stores s h = elim (Option-cases (find_batch id s.batches)) [
  | inl e ↦ let bad = rw (e, source_of) at h in cc
  | inr (c, e) ↦ elim (Option-cases (find (belongs c.store_id org) stores)) [
    | inl f ↦ let bad = rw (e, source_of, f) at h in cc
    | inr (st, t) ↦ e ∙ (rw (e, source_of, t) at h)
  ]
]

receive-IsTrail :
    (id now : ℕ) (source : Batch) (store : ℕ) (quantity : Decimal) (o : Option Batch) (s : Stock)
    {r : ℕ × Stock}
    → find (has_code store source.batch_code) s.batches ≡ o
    → receive id now source store quantity o s ≡ ok r
    → IsTrail s
    → IsTrail (r.1)
unfolding receive
receive-IsTrail id now source store quantity none s searched done trail =
    let row = batch_row id now (copied source store quantity) in
    let (s1, made, h1) = >>=-eq-ok (create_row row s) _ done in
    let (s2, moved, e) =
      >>=-eq-ok (create_movement (movement id transfer_in quantity (pos 0) quantity) s1) _ h1 in
    subst (λ r. IsTrail (r.1)) (ok_inj e)
      (create-IsTrail row (movement id transfer_in quantity (pos 0) quantity) s s1 s2 made moved
        refl (λ h. (refl, refl, abs_new quantity h)) trail)
receive-IsTrail id now source store quantity (some b) s searched done trail =
    let balance = b.current_quantity +ℤ quantity in
    let (s1, written, h1) = >>=-eq-ok (update_batch b.id (received balance) s) _ done in
    let (s2, moved, e) =
      >>=-eq-ok (create_movement (movement b.id transfer_in quantity b.current_quantity balance) s1)
        _ h1 in
    let (stored, _) =
      All-find (λ (c : Batch). find_batch c.id s.batches ≡ some c)
        (has_code store source.batch_code) s.batches (Stored-self s.batches trail.1) searched in
    subst (λ r. IsTrail (r.1)) (ok_inj e)
      (write-IsTrail b.id (received balance) _ s s1 s2 written moved (λ c. refl) refl
        (λ c there h.
          rw (same_found stored there) (refl, refl, abs_in b.current_quantity quantity h))
        trail)

pub transfer_fabric-IsTrail :
    (id now org : ℕ) (dto : Transfer) (stores : List Store) (s : Stock) {r : ℕ × Stock}
    → transfer_fabric id now org dto stores s ≡ ok r
    → IsTrail s
    → IsTrail (r.1)
unfolding transfer_fabric
transfer_fabric-IsTrail id now org dto stores s done trail =
    let (b, held, h1) =
      >>=-eq-ok (or_throw (source_of org dto.batch_id stores s) not_found) _ done in
    let (dest, _, h2) =
      >>=-eq-ok (or_throw (find (belongs dto.destination_store_id org) stores) bad_request) _ h1 in
    let (_, _, h3) = >>=-eq-ok (guard (not (dest.id == b.store_id)) bad_request) _ h2 in
    let (_, _, h4) =
      >>=-eq-ok (guard (not (ltb_ℤ b.current_quantity dto.quantity)) bad_request) _ h3 in
    let balance = b.current_quantity -ℤ dto.quantity in
    let (s1, written, h5) = >>=-eq-ok (update_batch b.id (set_balance balance) s) _ h4 in
    let (s2, moved, rest) =
      >>=-eq-ok
        (create_movement (movement b.id transfer_out dto.quantity b.current_quantity balance) s1) _
        h5 in
    let found =
      source_found org dto.batch_id stores s
        (or_throw-eq-ok (source_of org dto.batch_id stores s) not_found held) in
    receive-IsTrail id now b dest.id dto.quantity (find (has_code dest.id b.batch_code) s2.batches)
      s2 refl rest
      (out-IsTrail b dto.quantity _ s s1 s2 (found_id dto.batch_id s found) written moved refl refl
        refl refl trail)

pub transfer-IsTrail :
    (id now org : ℕ) (dto : Transfer) (stores : List Store) (p : Platform) (s : Stock)
    {r : ℕ × Stock}
    → (transfer id now org dto stores p s).0 ≡ ok r
    → IsTrail s
    → IsTrail (r.1)
unfolding transfer
transfer-IsTrail id now org dto stores p s done trail =
    let (_, _, moved) = >>=-eq-ok ((assert_feature org transfers p).0) _ done in
    transfer_fabric-IsTrail id now org dto stores s moved trail
