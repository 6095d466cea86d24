-- ===== src/Inventory/Fifo/Oldest.antt =====
-- Which batches FIFO consumption uses: the oldest ones, each emptied before the next is touched.
use mathlib.Core.List.{append_assoc}
use tailor_erp.Prelude.{
  ◌≡◌, refl, sym, ap, ◌∙◌, inl, inr, List, [], ◌∷◌, ◌++◌, map, arith, Bool-cases, Decimal, pos,
  ◌+ℤ◌, ◌-ℤ◌, ◌≤ℤ◌, ◌<ℤ◌, ltb_ℤ, leb_ℤ, int_laws, parts_of_eq, ltb_ℤ→le, leb_ℤ→le, leb_ℤ→lt,
  le→leb_ℤ, ok, ok_inj, keep, sum_from-sum_of, err_ne_ok,
}
use tailor_erp.Inventory.{Batch, Stock}
use tailor_erp.Inventory.Rows.{stock_total}
use tailor_erp.Inventory.Fifo.{
  Consumption, Request, consumption, is_candidate, take_loop, total_available, candidates, consume,
}
use mathlib.Core.List.{Perm}
use tailor_erp.Inventory.Fifo.Offered.{
  Offers, Ascending, keep-Offers, candidates-Perm, candidates-Ascending,
}
use tailor_erp.Inventory.Fifo.Step.{take_loop-step, take_loop-done}

-- The whole of a batch is taken.
abbrev pub drain : Batch → Consumption
drain b = consumption b b.current_quantity

-- `rows` starts with batches that are drained, then one that gives the rest of `quantity`.
abbrev pub OldestFirst : List Batch → Decimal → List Consumption → Type 0
OldestFirst rows quantity consumed =
    (drained : List Batch) × (last : Batch) × (untouched : List Batch) × (part : Decimal) × (rows
      ≡ drained ++ (last ∷ untouched))
    × (consumed ≡ map drain drained ++ (consumption last part ∷ []))
    × (pos 0 <ℤ part)
    × (part ≤ℤ last.current_quantity)
    × (stock_total drained +ℤ part ≡ quantity)

-- The batch that covers what remains ends the loop.
last_take :
    (p : Request) (b : Batch) (bs : List Batch) (remaining : Decimal) (consumed : List Consumption)
    (s : Stock) {r : List Consumption × Stock}
    → take_loop p bs (remaining -ℤ remaining) (consumed ++ consumption b remaining ∷ []) s ≡ ok r
    → r.0 ≡ consumed ++ consumption b remaining ∷ []
last_take p b bs remaining consumed s h =
    ap (λ (t : List Consumption × Stock). t.0)
      (ok_inj (
        sym h
        ∙ take_loop-done p bs (remaining -ℤ remaining) _ s
            (le→leb_ℤ (remaining -ℤ remaining) (pos 0) (omega int_laws))))

-- A batch that is drained stands before those that the rest of the loop uses.
OldestFirst-cons :
    (b : Batch) (bs : List Batch) (remaining : Decimal) (new : List Consumption)
    → OldestFirst bs (remaining -ℤ b.current_quantity) new
    → OldestFirst (b ∷ bs) remaining (drain b ∷ new)
OldestFirst-cons b bs remaining new
      (drained, last, untouched, part, rows, cs, some_part, fits, sum) =
    (
      b ∷ drained,
      last,
      untouched,
      part,
      ap (λ l. b ∷ l) rows,
      ap (λ l. drain b ∷ l) cs,
      some_part,
      fits,
      omega (int_laws, parts_of_eq sum),
    )

take_loop-OldestFirst :
    (p : Request) (rows : List Batch) (remaining : Decimal) (consumed : List Consumption)
    (s : Stock) {r : List Consumption × Stock}
    → pos 0 <ℤ remaining
    → remaining ≤ℤ stock_total rows
    → take_loop p rows remaining consumed s ≡ ok r
    → (new : List Consumption) × (r.0 ≡ consumed ++ new) × OldestFirst rows remaining new
take_loop-OldestFirst p [] remaining consumed s need room h = absurd (omega arith)
take_loop-OldestFirst p (b ∷ bs) remaining consumed s need room h =
    let (s2, _, h2) = take_loop-step p b bs remaining consumed s (ground arith) h in
    elim (Bool-cases (leb_ℤ remaining b.current_quantity)) [
      | inl enough ↦ (
        consumption b remaining ∷ [],
        last_take p b bs remaining consumed s2 (rw enough at h2),
        (
          [],
          b,
          bs,
          remaining,
          refl,
          refl,
          need,
          leb_ℤ→le remaining b.current_quantity enough,
          omega int_laws,
        ),
      )
      | inr short ↦
          let fewer = leb_ℤ→lt remaining b.current_quantity short in
          let (new, e, oldest) =
            take_loop-OldestFirst p bs (remaining -ℤ b.current_quantity) (consumed ++ drain b ∷ [])
              s2 (omega int_laws) (omega int_laws) (rw short at h2) in
          (
            drain b ∷ new,
            e ∙ append_assoc consumed (drain b ∷ []) new,
            OldestFirst-cons b bs remaining new oldest,
          )
    ]

-- A successful consumption of a positive quantity uses the rolls of the fabric in the store that are
-- available and have metres on them, each of them once in the order of purchase and then of entry: it
-- empties each roll but the last and takes a positive part of the last, the quantities add up to the
-- request, and no newer roll is used.
pub consume-OldestFirst :
    (p : Request) (s : Stock) {consumed : List Consumption} {s' : Stock}
    → pos 0 <ℤ p.quantity
    → consume p s ≡ ok (consumed, s')
    → (picked rows : List Batch) × Offers p s.batches picked
      × Perm rows picked
      × Ascending rows
      × OldestFirst rows p.quantity consumed
unfolding consume
consume-OldestFirst p s need h =
    let rows = candidates p s.batches in
    elim (Bool-cases (ltb_ℤ (total_available rows) p.quantity)) [
      | inl short ↦ absurd (err_ne_ok (rw short at h))
      | inr enough ↦
          let room = rw sum_from-sum_of at (ltb_ℤ→le (total_available rows) p.quantity enough) in
          let (new, e, oldest) =
            take_loop-OldestFirst p rows p.quantity [] s need (omega (int_laws, room))
              (rw enough at h) in
          (
            keep (is_candidate p) s.batches,
            rows,
            keep-Offers p s.batches,
            candidates-Perm p s.batches,
            candidates-Ascending p s.batches,
            rw e oldest,
          )
    ]
