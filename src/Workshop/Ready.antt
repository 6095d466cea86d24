-- ===== src/Workshop/Ready.antt =====
-- When the tickets make an order ready.
use tailor_erp.Prelude.{
  ℕ, ◌+◌, ◌≡◌, ◌≢◌, ◌⊎◌, refl, sym, ap, ◌∙◌, inl, inr, Bool, true, false, not, ◌&&◌, Option, some,
  List, [], ◌∷◌, ◌++◌, arith, ltb, ◌==◌, ==_iff, if◌then◌else◌, Bool-cases, some_inj, bad_request,
  not_found, ok, ok_inj, guard, or_throw, >>=-eq-ok, length, keep, find, every, All, or_throw-eq-ok,
  true_ne_false, subst, Among, find-Among,
}
use tailor_erp.Shared.OrderStatus.{Status, pending, sewing, fitting, delivered, cancelled}
use tailor_erp.Orders.{Order}
use tailor_erp.Workshop.{
  Station, queued, cutting, stitching, quality, ready, station_index, same_station, Ticket, Floor,
  all_ready, is_finished, mark_ready, update_order, check_order_ready, is_ticket, put_at,
  update_ticket, take_fabric, advance, move_ticket,
}

-- Each garment of the order is at the last station.
abbrev pub IsAllReady : ℕ → List Ticket → Type 0
IsAllReady order ts = All (λ (t : Ticket). (t.order_id ≢ order) ⊎ (t.station ≡ ready)) ts

same_station-ready : (a : Station) → same_station a ready ≡ true → a ≡ ready
same_station-ready queued h = cc
same_station-ready cutting h = cc
same_station-ready stitching h = cc
same_station-ready quality h = cc
same_station-ready ready h = refl

at_index : ℕ → Station
at_index n =
    if n == 0
    then queued
    else if n == 1
    then cutting
    else if n == 2
    then stitching
    else if n == 3
    then quality
    else ready

at_index-station_index : (s : Station) → at_index (station_index s) ≡ s
unfolding at_index
at_index-station_index queued = refl
at_index-station_index cutting = refl
at_index-station_index stitching = refl
at_index-station_index quality = refl
at_index-station_index ready = refl

same_station-eq : (a b : Station) → same_station a b ≡ true → a ≡ b
same_station-eq a b h =
    sym (at_index-station_index a)
    ∙ ap at_index ((==_iff (station_index a) (station_index b)).0 h)
    ∙ at_index-station_index b

-- A garment of the order is not at the last station.
abbrev pub IsWaiting : ℕ → List Ticket → Type 0
IsWaiting order ts = (u : Ticket) × Among u ts × (u.order_id ≡ order) × (u.station ≢ ready)

abbrev is_at_end : Ticket → Bool
is_at_end t = same_station t.station ready

abbrev mine : ℕ → List Ticket → List Ticket
mine order ts = keep (λ (t : Ticket). t.order_id == order) ts

same_station-not_ready : (a : Station) → same_station a ready ≡ false → a ≢ ready
same_station-not_ready a h e = true_ne_false (sym (rw e refl) ∙ h)

every_cases :
    (order : ℕ) (ts : List Ticket)
    → ((every is_at_end (mine order ts) ≡ true) × IsAllReady order ts)
      ⊎ ((every is_at_end (mine order ts) ≡ false) × IsWaiting order ts)
every_cases order [] = inl (refl, tt)
every_cases order (t ∷ ts) = elim (Bool-cases (t.order_id == order)) [
  | inr other ↦
      let another =
        λ (e : t.order_id ≡ order). true_ne_false (sym ((==_iff t.order_id order).1 e) ∙ other) in
      elim (every_cases order ts) [
        | inl (done, each) ↦ inl (rw other done, (inl another, each))
        | inr (not_done, (u, there, its, waits)) ↦
            inr (rw other not_done, (u, inr there, its, waits))
      ]
  | inl own ↦ elim (Bool-cases (same_station t.station ready)) [
    | inr waits ↦ inr (
      rw (own, waits) refl,
      (t, inl refl, (==_iff t.order_id order).0 own, same_station-not_ready t.station waits),
    )
    | inl at_end ↦ elim (every_cases order ts) [
      | inl (done, each) ↦
          inl (rw (own, at_end) done, (inr (same_station-ready t.station at_end), each))
      | inr (not_done, (u, there, its, waits)) ↦
          inr (rw (own, at_end) not_done, (u, inr there, its, waits))
    ]
  ]
]

some_of_order :
    (order : ℕ) (ts : List Ticket) (u : Ticket)
    → Among u ts
    → u.order_id ≡ order
    → not (length (mine order ts) == 0) ≡ true
some_of_order order [] u there its = absurd there
some_of_order order (t ∷ ts) u there its = elim (Bool-cases (t.order_id == order)) [
  | inl own ↦ rw own (ground arith)
  | inr other ↦ elim there [
    | inl here ↦ absurd (
        true_ne_false
          (sym ((==_iff t.order_id order).1 (ap (λ (x : Ticket). x.order_id) here ∙ its)) ∙ other))
    | inr later ↦ rw other (some_of_order order ts u later its)
  ]
]

-- The row of an order.
abbrev pub find_order : ℕ → List Order → Option Order
find_order id os = find (λ o. o.id == id) os

-- What the end of the work does to an order, whatever its status was.
abbrev pub Readied : Order → Order → Type 0
Readied o o' =
    (((o.status ≡ Status.ready) ⊎ (o.status ≡ delivered)) × (o' ≡ o))
    ⊎ ((o.status ≢ Status.ready)
        × (o.status ≢ delivered)
        × (o'.status ≡ Status.ready)
        × (o'.history ≡ o.history ++ (o.status, Status.ready) ∷ []))

finished_cases :
    (s : Status)
    → ((is_finished s ≡ true) × ((s ≡ Status.ready) ⊎ (s ≡ delivered)))
      ⊎ ((is_finished s ≡ false) × (s ≢ Status.ready) × (s ≢ delivered))
finished_cases pending = inr (refl, (λ e. cc), (λ e. cc))
finished_cases Status.cutting = inr (refl, (λ e. cc), (λ e. cc))
finished_cases sewing = inr (refl, (λ e. cc), (λ e. cc))
finished_cases fitting = inr (refl, (λ e. cc), (λ e. cc))
finished_cases Status.ready = inl (refl, inl refl)
finished_cases delivered = inl (refl, inr refl)
finished_cases cancelled = inr (refl, (λ e. cc), (λ e. cc))

mark_ready-Readied : (o : Order) → Readied o (mark_ready o)
mark_ready-Readied o = elim (finished_cases o.status) [
  | inl (finished, end) ↦ inl (end, rw finished refl)
  | inr (unfinished, not_ready, not_delivered) ↦
      inr (not_ready, not_delivered, rw unfinished refl, rw unfinished refl)
]

mark_ready-id : (o : Order) → (mark_ready o).id ≡ o.id
mark_ready-id o = elim (Bool-cases (is_finished o.status)) [
  | inl finished ↦ rw finished refl
  | inr unfinished ↦ rw unfinished refl
]

find_order-update_order :
    (id : ℕ) (os : List Order) (o : Order)
    → find_order id os ≡ some o
    → find_order id (update_order id mark_ready os) ≡ some (mark_ready o)
unfolding update_order
find_order-update_order id [] o found = cc
find_order-update_order id (x ∷ os) o found = elim (Bool-cases (x.id == id)) [
  | inl same ↦
      let here : x ≡ o = some_inj (rw same at found) in
      let kept : ((mark_ready x).id == id) ≡ true = rw (mark_ready-id x) same in
      rw (same, kept) (ap (λ y. some (mark_ready y)) here)
  | inr other ↦ rw (other, other) (find_order-update_order id os o (rw other at found))
]

Among-update_ticket :
    (id : ℕ) (f : Ticket → Ticket) (ts : List Ticket) (t : Ticket)
    → Among t ts
    → t.id ≡ id
    → Among (f t) (update_ticket id f ts)
unfolding update_ticket
Among-update_ticket id f [] t there same = absurd there
Among-update_ticket id f (x ∷ ts) t (inl here) same =
    let hit : (x.id == id) ≡ true = (==_iff x.id id).1 (ap (λ (y : Ticket). y.id) here ∙ same) in
    rw hit (inl (ap f here))
Among-update_ticket id f (x ∷ ts) t (inr there) same =
    let later = Among-update_ticket id f ts t there same in
    elim (Bool-cases (x.id == id)) [ inl hit ↦ rw hit (inr later) | inr miss ↦ rw miss (inr later) ]

-- The order of a ticket after the ticket has come to the last station.
abbrev pub Finished : Ticket → Order → Floor → Floor → Type 0
Finished t o f f' =
    ((u : Ticket) × Among u f'.tickets
      × (u.id ≡ t.id)
      × (u.order_id ≡ t.order_id)
      × (u.station ≡ ready))
    × ((IsAllReady t.order_id f'.tickets
          × (o' : Order) × (find_order t.order_id f'.orders ≡ some o')
          × Readied o o')
        ⊎ (IsWaiting t.order_id f'.tickets × (f'.orders ≡ f.orders)))

check_order_ready-Finished :
    (t u : Ticket) (o : Order) (f : Floor)
    → Among u f.tickets
    → u.id ≡ t.id
    → u.order_id ≡ t.order_id
    → u.station ≡ ready
    → find_order t.order_id f.orders ≡ some o
    → Finished t o f (check_order_ready t.order_id f)
unfolding check_order_ready all_ready
check_order_ready-Finished t u o f there same its at_end found =
    let some_ticket = some_of_order t.order_id f.tickets u there its in
    elim (every_cases t.order_id f.tickets) [
      | inl (done, each) ↦
          rw (some_ticket, done)
            (
              (u, there, same, its, at_end),
              inl (
                each,
                mark_ready o,
                find_order-update_order t.order_id f.orders o found,
                mark_ready-Readied o,
              ),
            )
      | inr (not_done, waits) ↦
          rw (some_ticket, not_done) ((u, there, same, its, at_end), inr (waits, refl))
    ]

advance_finishes :
    (t : Ticket) (to : Station) (f : Floor) (o : Order) {f' : Floor}
    → advance t to f ≡ ok f'
    → Among t f.tickets
    → find_order t.order_id f.orders ≡ some o
    → ((to ≢ ready) × (f'.orders ≡ f.orders)) ⊎ ((to ≡ ready) × Finished t o f f')
unfolding advance put_at
advance_finishes t to f o h there found =
    let (_, step, h2) =
      >>=-eq-ok (guard (not (ltb (station_index t.station + 1) (station_index to))) bad_request) _
        h in
    let (stock, taken, h3) = >>=-eq-ok (take_fabric t to f.stock) _ h2 in
    let moved : Floor = record f {
      stock = stock;
      tickets = update_ticket t.id (put_at to) f.tickets;
    } in
    elim (Bool-cases (same_station to ready)) [
      | inl last ↦
          let at_end = same_station-ready to last in
          let end = ok_inj (rw last at h3) in
          let moved_there = Among-update_ticket t.id (put_at to) f.tickets t there refl in
          inr (
            at_end,
            subst (Finished t o f) end (
                check_order_ready-Finished t (put_at to t) o moved moved_there refl refl at_end
                  found),
          )
      | inr earlier ↦ inl (
        same_station-not_ready to earlier,
        ap (λ (g : Floor). g.orders) (sym (ok_inj (rw earlier at h3))),
      )
    ]

-- The move of a ticket whose order is there. To another place than the last station, or to the place
-- where the ticket is, it leaves every order alone. A ticket that comes to the last station is there
-- afterwards; if all tickets of its order are at the last station then, the order is made ready, and
-- if one is not, the orders are left alone. Made ready means: an order that was ready or delivered
-- stays as it is, and one of any other status, cancelled too, gets the status ready and a row in its
-- history, whatever the transition table says.
pub move_ticket_readies :
    (store id : ℕ) (to : Station) (f : Floor) (t : Ticket) (o : Order) {f' : Floor}
    → move_ticket store id to f ≡ ok f'
    → find (λ (u : Ticket). (u.id == id) && (u.store_id == store)) f.tickets ≡ some t
    → find_order t.order_id f.orders ≡ some o
    → (((to ≢ ready) ⊎ (t.station ≡ to)) × (f'.orders ≡ f.orders))
      ⊎ ((to ≡ ready) × (t.station ≢ ready) × Finished t o f f')
unfolding move_ticket
move_ticket_readies store id to f t o {f'} h ticket found =
    let (t', read, h1) = >>=-eq-ok (or_throw (find (is_ticket store id) f.tickets) not_found) _ h in
    let same : t' ≡ t =
      some_inj
        (sym (or_throw-eq-ok (find (is_ticket store id) f.tickets) not_found read) ∙ ticket) in
    let h2 =
      subst (λ (x : Ticket). (if same_station x.station to then ok f else advance x to f) ≡ ok f')
        same h1 in
    let (there, _) =
      find-Among (λ (u : Ticket). (u.id == id) && (u.store_id == store)) f.tickets ticket in
    elim (Bool-cases (same_station t.station to)) [
      | inl stays ↦ inl (
        inr (same_station-eq t.station to stays),
        ap (λ (g : Floor). g.orders) (sym (ok_inj (rw stays at h2))),
      )
      | inr moves ↦ elim (advance_finishes t to f o (rw moves at h2) there found) [
        | inl (earlier, e) ↦ inl (inl earlier, e)
        | inr (at_end, finished) ↦
            inr (at_end, same_station-not_ready t.station (rw at_end at moves), finished)
      ]
    ]
