-- ===== src/Workshop/Fabric.antt =====
-- Fabric and the stations: what `moveTicket` of apps/api/src/workshop/workshop.service.ts promises by
-- advancing one station at a time.
use tailor_erp.Prelude.{
  ℕ, ◌+◌, ◌≤◌, ◌≡◌, ◌≢◌, ◌⊎◌, refl, sym, inl, inr, Bool, true, false, not, ◌&&◌, some, List, [],
  ◌∷◌, arith, ltb, ◌==◌, ==_iff, Bool-cases, some_inj, bad_request, not_found, ok, ok_inj, guard,
  or_throw, >>=-eq-ok, find, All, All-zip, All-mono, or_throw-eq-ok,
}
use mathlib.Core.Path.{subst}
use tailor_erp.Inventory.{Stock}
use tailor_erp.Inventory.Holds.{consume_for_order_item}
use tailor_erp.Inventory.Holds.Marking.{NoneHeld}
use tailor_erp.Inventory.Holds.Cutting.{IsLinked, consume_for_order_item-NoneHeld}
use tailor_erp.Workshop.{
  Station, cutting, ready, station_index, same_station, Ticket, Floor, is_ticket, put_at,
  update_ticket, all_ready, check_order_ready, leaving_cutting, take_fabric, advance, move_ticket,
}

-- The primary key of the tickets.
abbrev pub Keyed : List Ticket → Type 0
Keyed [] = Unit
Keyed (t ∷ ts) = All (λ (u : Ticket). u.id ≢ t.id) ts × Keyed ts

-- A garment past the cutting station has no metres that are still reserved.
abbrev pub IsTaken : Stock → Ticket → Type 0
IsTaken s t = (station_index t.station ≤ 1) ⊎ NoneHeld t.order_item_id s

pub record IsCut (f : Floor) : Type 0 where
  pub keyed : Keyed f.tickets
  pub linked : IsLinked f.stock
  pub taken : All (IsTaken f.stock) f.tickets

All-find :
    (P : Ticket → Type 0) (p : Ticket → Bool) (ts : List Ticket) (t : Ticket)
    → All P ts
    → find p ts ≡ some t
    → P t
All-find P p [] t h found = absurd (cc)
All-find P p (x ∷ ts) t h found = elim (Bool-cases (p x)) [
  | inl here ↦ subst P (some_inj (rw here at found)) h.0
  | inr there ↦ All-find P p ts t h.1 (rw there at found)
]

find_unique :
    (p : Ticket → Bool) (ts : List Ticket) (t : Ticket)
    → Keyed ts
    → find p ts ≡ some t
    → All (λ u. (u.id ≢ t.id) ⊎ (u ≡ t)) ts
find_unique p [] t keys found = tt
find_unique p (x ∷ ts) t keys found = elim (Bool-cases (p x)) [
  | inl here ↦
      let e : x ≡ t = some_inj (rw here at found) in
      (inr e, All-mono _ _ ts (λ u ne. inl (subst (λ (v : Ticket). u.id ≢ v.id) e ne)) keys.0)
  | inr there ↦
      let found' : find p ts ≡ some t = rw there at found in
      let ne = All-find (λ u. u.id ≢ x.id) p ts t keys.0 found' in
      (inl (λ e. ne (sym e)), find_unique p ts t keys.1 found')
]

update_ticket-All :
    (P : Ticket → Type 0) (id : ℕ) (f : Ticket → Ticket) (ts : List Ticket)
    → All (λ u. ((u.id == id) ≡ true → P (f u)) × ((u.id == id) ≡ false → P u)) ts
    → All P (update_ticket id f ts)
unfolding update_ticket
update_ticket-All P id f [] h = tt
update_ticket-All P id f (t ∷ ts) h = elim (Bool-cases (t.id == id)) [
  | inl same ↦ rw same (h.0.0 same, update_ticket-All P id f ts h.1)
  | inr other ↦ rw other (h.0.1 other, update_ticket-All P id f ts h.1)
]

put_at-Keyed :
    (id : ℕ) (to : Station) (ts : List Ticket) → Keyed ts → Keyed (update_ticket id (put_at to) ts)
unfolding update_ticket put_at
put_at-Keyed id to [] keys = tt
put_at-Keyed id to (t ∷ ts) keys =
    let rest = put_at-Keyed id to ts keys.1 in
    let apart : All (λ (u : Ticket). u.id ≢ t.id) (update_ticket id (put_at to) ts) =
      update_ticket-All (λ u. u.id ≢ t.id) id (put_at to) ts
        (All-mono _ _ ts (λ u ne. (λ _. ne, λ _. ne)) keys.0) in
    elim (Bool-cases (t.id == id)) [
      | inl same ↦ rw same (apart, rest)
      | inr other ↦ rw other (apart, rest)
    ]

take_fabric-keeps :
    (t : Ticket) (to : Station) (s : Stock) {s' : Stock}
    → IsLinked s
    → take_fabric t to s ≡ ok s'
    → IsLinked s'
      × ((j : ℕ) → NoneHeld j s → NoneHeld j s')
      × (leaving_cutting t to ≡ true → NoneHeld t.order_item_id s')
unfolding take_fabric
take_fabric-keeps t to s linked h = elim (Bool-cases (leaving_cutting t to)) [
  | inl leaves ↦
      let (r, done, e) = >>=-eq-ok (consume_for_order_item t.order_item_id s) _ (rw leaves at h) in
      let (none_held, linked', keeps) =
        consume_for_order_item-NoneHeld t.order_item_id s linked done in
      let end = ok_inj e in
      (
        subst IsLinked end linked',
        λ j held. subst (NoneHeld j) end (keeps j held),
        λ _. subst (NoneHeld t.order_item_id) end none_held,
      )
  | inr stays ↦
      let end = ok_inj (rw stays at h) in
      (subst IsLinked end linked, λ j held. subst (NoneHeld j) end held, λ leaves. absurd (cc))
]

no_skip :
    (from to : Station)
    → ltb (station_index from + 1) (station_index to) ≡ false
    → station_index from ≤ 1
    → (same_station from cutting && ltb (station_index from) (station_index to)) ≡ false
    → station_index to ≤ 1
no_skip from to step early stays = ground arith

put_at-IsTaken :
    (t : Ticket) (to : Station) (s s' : Stock)
    → ltb (station_index t.station + 1) (station_index to) ≡ false
    → IsTaken s t
    → ((j : ℕ) → NoneHeld j s → NoneHeld j s')
    → (leaving_cutting t to ≡ true → NoneHeld t.order_item_id s')
    → IsTaken s' (put_at to t)
unfolding put_at
put_at-IsTaken t to s s' step (inr none_held) keeps cuts = inr (keeps t.order_item_id none_held)
put_at-IsTaken t to s s' step (inl early) keeps cuts = elim (Bool-cases (leaving_cutting t to)) [
  | inl leaves ↦ inr (cuts leaves)
  | inr stays ↦ inl (no_skip t.station to step early stays)
]

stay-IsTaken :
    (t : Ticket) (s s' : Stock)
    → ((j : ℕ) → NoneHeld j s → NoneHeld j s')
    → IsTaken s t
    → IsTaken s' t
stay-IsTaken t s s' keeps (inl early) = inl early
stay-IsTaken t s s' keeps (inr none_held) = inr (keeps t.order_item_id none_held)

check_order_ready-stock :
    (order : ℕ) (f : Floor)
    → ((check_order_ready order f).tickets ≡ f.tickets)
      × ((check_order_ready order f).stock ≡ f.stock)
unfolding check_order_ready
check_order_ready-stock order f = elim (Bool-cases (all_ready order f.tickets)) [
  | inl done ↦ rw done (refl, refl)
  | inr waiting ↦ rw waiting (refl, refl)
]

-- The floor when a ticket has been moved.
abbrev moved : Ticket → Station → Floor → Stock → Floor
moved t to f stock = record f { stock = stock; tickets = update_ticket t.id (put_at to) f.tickets }

moved-IsCut :
    (store id : ℕ) (t : Ticket) (to : Station) (f : Floor) (stock : Stock)
    → IsCut f
    → find (is_ticket store id) f.tickets ≡ some t
    → ltb (station_index t.station + 1) (station_index to) ≡ false
    → take_fabric t to f.stock ≡ ok stock
    → IsCut (moved t to f stock)
moved-IsCut store id t to f stock cut found step taken =
    let (linked, keeps, cuts) = take_fabric-keeps t to f.stock cut.linked taken in
    let here = All-find (IsTaken f.stock) (is_ticket store id) f.tickets t cut.taken found in
    let after = put_at-IsTaken t to f.stock stock step here keeps cuts in
    record {
      keyed = put_at-Keyed t.id to f.tickets cut.keyed;
      linked = linked;
      taken = update_ticket-All (IsTaken stock) t.id (put_at to) f.tickets (
          All-zip _ _ _ f.tickets
            (λ u one before. (
              λ same. elim one [
                | inl ne ↦ absurd (ne ((==_iff u.id t.id).0 same))
                | inr e ↦ subst (λ v. IsTaken stock (put_at to v)) (sym e) after
              ],
              λ _. stay-IsTaken u f.stock stock keeps before,
            ))
            (find_unique (is_ticket store id) f.tickets t cut.keyed found) cut.taken);
    }

advance-IsCut :
    (store id : ℕ) (t : Ticket) (to : Station) (f : Floor) {f' : Floor}
    → IsCut f
    → find (is_ticket store id) f.tickets ≡ some t
    → advance t to f ≡ ok f'
    → IsCut f'
unfolding advance
advance-IsCut store id t to f cut found h =
    let (_, step, h1) =
      >>=-eq-ok (guard (not (ltb (station_index t.station + 1) (station_index to))) bad_request) _
        h in
    let (stock, taken, h2) = >>=-eq-ok (take_fabric t to f.stock) _ h1 in
    let cut' = moved-IsCut store id t to f stock cut found (ground arith) taken in
    elim (Bool-cases (same_station to ready)) [
      | inl last ↦
          let (same_tickets, same_stock) =
            check_order_ready-stock t.order_id (moved t to f stock) in
          subst IsCut (ok_inj (rw last at h2)) (record {
            keyed = rw same_tickets cut'.keyed;
            linked = rw same_stock cut'.linked;
            taken = rw (same_tickets, same_stock) cut'.taken;
          })
      | inr earlier ↦ subst IsCut (ok_inj (rw earlier at h2)) cut'
    ]

-- Moving a ticket, whichever way, keeps the promise that a garment past the cutting station has no
-- metres still reserved for it: no move skips the cutting, and leaving it consumes the reservation.
pub move_ticket-IsCut :
    (store id : ℕ) (to : Station) (f : Floor) {f' : Floor}
    → IsCut f
    → move_ticket store id to f ≡ ok f'
    → IsCut f'
unfolding move_ticket
move_ticket-IsCut store id to f cut h =
    let (t, found, h1) = >>=-eq-ok (or_throw (find (is_ticket store id) f.tickets) not_found) _ h in
    let found' = or_throw-eq-ok (find (is_ticket store id) f.tickets) not_found found in
    elim (Bool-cases (same_station t.station to)) [
      | inl same ↦ subst IsCut (ok_inj (rw same at h1)) cut
      | inr other ↦ advance-IsCut store id t to f cut found' (rw other at h1)
    ]
