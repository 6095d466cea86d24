-- ===== src/Inventory/Fifo/Conservation.antt =====
-- What FIFO consumption takes is what leaves the stock.
use tailor_erp.Prelude.{
  err_ne_ok, sum_of-append, sym, ap, ok_inj, ltb_ℤ, ◌≡◌, inl, inr, some, List, [], ◌∷◌, ◌++◌,
  Bool-cases, Decimal, pos, ◌+ℤ◌, ◌-ℤ◌, leb_ℤ, min_ℤ, int_laws, parts_of_eq, ok, sum_of,
}
use tailor_erp.Inventory.{Batch, Stock, find_batch}
use tailor_erp.Inventory.Rows.{stock_total, stock_total-replace_row}
use tailor_erp.Inventory.Keys.{Distinct, Stored, Stored-replace_row}
use tailor_erp.Inventory.Fifo.{
  Consumption, Request, consumption, set_balance, take_loop, total_available, candidates, consume,
}
use tailor_erp.Inventory.Fifo.Step.{
  Taken, take_loop-step, set_balance-KeepsId, set_balance-current_quantity,
}
use tailor_erp.Inventory.Fifo.Age.{Distinct-candidates, Stored-candidates}

abbrev pub total_taken : List Consumption → Decimal
total_taken = sum_of (λ c. c.quantity)

Taken-total :
    (p : Request) (b : Batch) (take : Decimal) (s s' : Stock)
    → find_batch b.id s.batches ≡ some b
    → Taken p b take s s'
    → stock_total s'.batches +ℤ take ≡ stock_total s.batches
Taken-total p b take s s' stored taken =
    let f = set_balance (b.current_quantity -ℤ take) in
    let moved = stock_total-replace_row b.id f s.batches b stored in
    rw taken.2 (
      omega (
        int_laws,
        parts_of_eq moved,
        parts_of_eq (set_balance-current_quantity (b.current_quantity -ℤ take) b),
      ))

abbrev remaining_and_taken : List Consumption × Stock → Decimal
remaining_and_taken r = stock_total r.1.batches +ℤ total_taken r.0

-- The rows that the loop has not reached are still what the table holds.
pub Stored-step :
    (p : Request) (b : Batch) (bs : List Batch) (take : Decimal) (s s' : Stock)
    → Distinct (b ∷ bs)
    → Stored s.batches (b ∷ bs)
    → Taken p b take s s'
    → Stored s'.batches bs
Stored-step p b bs take s s' keys stored taken =
    let balance = b.current_quantity -ℤ take in
    rw taken.2 (
      Stored-replace_row s.batches bs b.id (set_balance balance) (set_balance-KeepsId balance)
        keys.0 stored.1)

take_loop-total :
    (p : Request) (rows : List Batch) (remaining : Decimal) (consumed : List Consumption)
    (s : Stock) {r : List Consumption × Stock}
    → Distinct rows
    → Stored s.batches rows
    → take_loop p rows remaining consumed s ≡ ok r
    → stock_total r.1.batches +ℤ total_taken r.0 ≡ stock_total s.batches +ℤ total_taken consumed
unfolding take_loop
take_loop-total p [] remaining consumed s keys stored h = sym (ap remaining_and_taken (ok_inj h))
take_loop-total p (b ∷ bs) remaining consumed s keys stored h =
    elim (Bool-cases (leb_ℤ remaining (pos 0))) [
      | inl done ↦ sym (ap remaining_and_taken (ok_inj (rw done at h)))
      | inr more ↦
          let take = min_ℤ remaining b.current_quantity in
          let (s2, taken, h2) = take_loop-step p b bs remaining consumed s more h in
          omega (
            int_laws,
            parts_of_eq (
                take_loop-total p bs (remaining -ℤ take) (consumed ++ consumption b take ∷ []) s2
                  keys.1 (Stored-step p b bs take s s2 keys stored taken) h2),
            parts_of_eq (sum_of-append (λ c. c.quantity) consumed (consumption b take ∷ [])),
            parts_of_eq (Taken-total p b take s s2 stored.0 taken),
          )
    ]

-- What a successful consumption reports as taken is what has left the stock: the metres on all rolls
-- before are the metres on all rolls after and the quantities consumed.
pub consume-conserves :
    (p : Request) (s : Stock) {consumed : List Consumption} {s' : Stock}
    → Distinct s.batches
    → consume p s ≡ ok (consumed, s')
    → stock_total s'.batches +ℤ total_taken consumed ≡ stock_total s.batches
unfolding consume
consume-conserves p s keys h =
    let rows = candidates p s.batches in
    elim (Bool-cases (ltb_ℤ (total_available rows) p.quantity)) [
      | inl short ↦ absurd (err_ne_ok (rw short at h))
      | inr enough ↦ omega (
        int_laws,
        parts_of_eq (
            take_loop-total p rows p.quantity [] s (Distinct-candidates p s.batches keys)
              (Stored-candidates p s.batches keys) (rw enough at h)),
      )
    ]
