-- ===== src/Inventory/Holds/Cutting.antt =====
-- What the cutting of a garment does to the holds on its fabric.
use tailor_erp.Prelude.{
  ℕ, ◌≡◌, refl, sym, ap, ◌∙◌, inl, inr, some, List, [], ◌∷◌, arith, ◌==◌, ==_iff, Bool-cases,
  Decimal, pos, ◌-ℤ◌, max_ℤ, ok, ok_inj, >>=-eq-ok, keep, any, All, All-mono, All-keep, subst,
}
use mathlib.Core.Path.{subst}
use tailor_erp.Inventory.{
  consumed, Batch, Reservation, Stock, find_batch, update_batch, create_movement,
}
use tailor_erp.Inventory.Rows.{
  KeepsId, replace_row, update_batch-eq-ok, create_movement-eq-ok, find_batch-replace_row_self,
  find_batch-replace_row_ne,
}
use tailor_erp.Inventory.Holds.{
  set_status, cut, consume_reservation, each_reservation, held_for, consume_for_order_item,
}
use tailor_erp.Inventory.Holds.Marking.{
  NoneHeld, set_all, set_all_clears, keep-Covered, set_all_keeps_none,
}

-- The foreign key of the reservations: their rolls are there.
abbrev pub Linked : List Batch → List Reservation → Type 0
Linked batches rs = All (λ r. (b : Batch) × (find_batch r.batch_id batches ≡ some b)) rs

-- Every reservation of a stock stands on a roll of the stock.
abbrev pub IsLinked : Stock → Type 0
IsLinked s = Linked s.batches s.reservations

present-replace_row :
    (id : ℕ) (f : Batch → Batch) (keeps : KeepsId f) (rows : List Batch) (j : ℕ)
    → ((b : Batch) × (find_batch j rows ≡ some b))
    → (b : Batch) × (find_batch j (replace_row id f rows) ≡ some b)
present-replace_row id f keeps rows j (b, found) = elim (Bool-cases (j == id)) [
  | inl same ↦
      let e = (==_iff j id).0 same in
      (
        f b,
        ap (λ k. find_batch k (replace_row id f rows)) e
            ∙ find_batch-replace_row_self id f keeps rows b (rw e at found),
      )
  | inr other ↦ (b, find_batch-replace_row_ne id f keeps rows j (λ e. ground (arith, e)) ∙ found)
]

set_status-Linked :
    (id : ℕ) (batches : List Batch) (rs : List Reservation)
    → Linked batches rs
    → Linked batches (set_status id consumed rs)
unfolding set_status
set_status-Linked id batches [] h = tt
set_status-Linked id batches (r ∷ rs) h = elim (Bool-cases (r.id == id)) [
  | inl same ↦ rw same (h.0, set_status-Linked id batches rs h.1)
  | inr other ↦ rw other (h.0, set_status-Linked id batches rs h.1)
]

-- A round of the loop whose roll is there consumes its hold.
consume_reservation-step :
    (r : Reservation) (s : Stock) (b : Batch) {s' : Stock}
    → find_batch r.batch_id s.batches ≡ some b
    → consume_reservation r s ≡ ok s'
    → let balance = b.current_quantity -ℤ r.meters in
      let held = max_ℤ (b.reserved_quantity -ℤ r.meters) (pos 0) in
      (s'.reservations ≡ set_status r.id consumed s.reservations)
      × (s'.batches ≡ replace_row r.batch_id (cut balance held) s.batches)
unfolding consume_reservation
consume_reservation-step r s b found h =
    let balance = b.current_quantity -ℤ r.meters in
    let held = max_ℤ (b.reserved_quantity -ℤ r.meters) (pos 0) in
    let (s1, done, h1) =
      >>=-eq-ok (update_batch r.batch_id (cut balance held) s) _
        (rw (found, consume_reservation) at h) in
    let (s2, moved, h2) = >>=-eq-ok (create_movement _ s1) _ h1 in
    let written = update_batch-eq-ok r.batch_id (cut balance held) s done in
    let (_, e) = create_movement-eq-ok _ s1 moved in
    let same_rolls = ap (λ (t : Stock). t.batches) e in
    let same_holds = ap (λ (t : Stock). t.reservations) e in
    let end = sym (ok_inj h2) in
    (
      ap (λ (t : Stock). t.reservations) end
          ∙ ap (set_status r.id consumed) (same_holds ∙ written.reservations),
      ap (λ (t : Stock). t.batches) end ∙ same_rolls ∙ written.batches,
    )

cut-Linked :
    (id : ℕ) (balance held : Decimal) (batches : List Batch) (rs : List Reservation)
    → Linked batches rs
    → Linked (replace_row id (cut balance held) batches) rs
unfolding cut
cut-Linked id balance held batches rs h =
    All-mono _ _ rs (λ r. present-replace_row id (cut balance held) (λ _. refl) batches r.batch_id)
      h

each_consumed :
    (rs : List Reservation) (s : Stock) {s' : Stock}
    → Linked s.batches rs
    → IsLinked s
    → each_reservation consume_reservation rs s ≡ ok s'
    → (s'.reservations ≡ set_all rs s.reservations) × IsLinked s'
unfolding each_reservation set_all
each_consumed [] s linked all h =
    let end = ok_inj h in (ap (λ (t : Stock). t.reservations) (sym end), subst IsLinked end all)
each_consumed (r ∷ rs) s linked all h =
    let (s1, first, rest) = >>=-eq-ok (consume_reservation r s) _ h in
    let (b, found) = linked.0 in
    let (holds, rolls) = consume_reservation-step r s b found first in
    let balance = b.current_quantity -ℤ r.meters in
    let held = max_ℤ (b.reserved_quantity -ℤ r.meters) (pos 0) in
    let linked1 : Linked s1.batches rs =
      subst (λ bs. Linked bs rs) (sym rolls)
        (cut-Linked r.batch_id balance held s.batches rs linked.1) in
    let all1 : Linked s1.batches (set_status r.id consumed s.reservations) =
      subst (λ bs. Linked bs (set_status r.id consumed s.reservations)) (sym rolls)
        (set_status-Linked r.id _ s.reservations
          (cut-Linked r.batch_id balance held s.batches s.reservations all)) in
    let (e, end) = each_consumed rs s1 linked1 (subst (Linked s1.batches) (sym holds) all1) rest in
    (e ∙ ap (set_all rs) holds, end)

-- When the cutting of a garment is recorded, no metres stay reserved for it, and a garment with none
-- reserved gets none.
pub consume_for_order_item-NoneHeld :
    (item : ℕ) (s : Stock) {n : ℕ} {s' : Stock}
    → IsLinked s
    → consume_for_order_item item s ≡ ok (n, s')
    → NoneHeld item s' × IsLinked s' × ((j : ℕ) → NoneHeld j s → NoneHeld j s')
unfolding consume_for_order_item
consume_for_order_item-NoneHeld item s linked h =
    let found = keep (held_for item) s.reservations in
    let (s1, done, h1) = >>=-eq-ok (each_reservation consume_reservation found s) _ h in
    let (e, linked1) =
      each_consumed found s (All-keep _ (held_for item) s.reservations linked) linked done in
    let end : s1 ≡ _ = ap (λ (r : ℕ × Stock). r.1) (ok_inj h1) in
    let cleared =
      set_all_clears item found s.reservations (keep-Covered item s.reservations found refl) in
    (
      subst (NoneHeld item) end (ap (any (held_for item)) e ∙ cleared),
      subst IsLinked end linked1,
      λ j none_held.
          subst (NoneHeld j) end
            (ap (any (held_for j)) e ∙ set_all_keeps_none j found s.reservations none_held),
    )
