-- ===== src/Workshop.antt =====
-- apps/api/src/workshop/workshop.service.ts: the tickets of the garments and their way through the
-- workshop. Notes, workers, labels and times are not modelled; the order rows and the stock are those
-- of Orders.antt and Inventory.antt.
pub mod Fabric
pub mod Ready
mod Tests
use tailor_erp.Prelude.{
  ℕ, ◌+◌, Bool, false, not, ◌&&◌, ◌||◌, Option, List, [], ◌∷◌, ◌++◌, ltb, ◌==◌, if◌then◌else◌,
  bad_request, not_found, Result, ok, ◌>>=◌, ◌>>◌, guard, or_throw, length, keep, find, every,
}
use tailor_erp.Shared.OrderStatus.{Status, delivered, same_status}
use tailor_erp.Orders.{Order, change_status}
use tailor_erp.Inventory.{Stock}
use tailor_erp.Inventory.Holds.{consume_for_order_item}

-- STATION_ORDER
pub data Station : Type 0 where
  queued cutting stitching quality ready : Station

abbrev pub station_index : Station → ℕ
station_index queued = 0
station_index cutting = 1
station_index stitching = 2
station_index quality = 3
station_index ready = 4

abbrev pub same_station : Station → Station → Bool
same_station a b = station_index a == station_index b

pub record Ticket : Type 0 where
  pub id : ℕ
  pub order_id : ℕ
  pub order_item_id : ℕ
  pub store_id : ℕ
  pub sequence_no : ℕ
  pub station : Station
  pub is_started : Bool
  pub is_completed : Bool
  pub history : List (Station × Station)

pub record Floor : Type 0 where
  pub tickets : List Ticket
  pub orders : List Order
  pub stock : Stock

-- `findFirst({ where: { id: ticketId, storeId } })`
abbrev pub is_ticket : ℕ → ℕ → Ticket → Bool
is_ticket store id t = (t.id == id) && (t.store_id == store)

-- tx.productionTicket.update and the history row
unfoldable pub put_at : Station → Ticket → Ticket
put_at to t = record t {
  station = to;
  is_started = same_station to cutting || t.is_started;
  is_completed = same_station to ready || t.is_completed;
  history = t.history ++ (t.station, to) ∷ [];
}

unfoldable pub update_ticket : ℕ → (Ticket → Ticket) → List Ticket → List Ticket
update_ticket id f [] = []
update_ticket id f (t ∷ ts) =
    let rest = update_ticket id f ts in if t.id == id then f t ∷ rest else t ∷ rest

-- `tickets.length > 0 && tickets.every(…)` over the tickets of the order
unfoldable pub all_ready : ℕ → List Ticket → Bool
all_ready order ts =
    let mine = keep (λ t. t.order_id == order) ts in
    not (length mine == 0) && every (λ t. same_station t.station ready) mine

-- `order.status === 'ready' || order.status === 'delivered'`
abbrev pub is_finished : Status → Bool
is_finished s = same_status s Status.ready || same_status s delivered

abbrev pub mark_ready : Order → Order
mark_ready o = if is_finished o.status then o else change_status Status.ready o

unfoldable pub update_order : ℕ → (Order → Order) → List Order → List Order
update_order id f [] = []
update_order id f (o ∷ os) =
    let rest = update_order id f os in if o.id == id then f o ∷ rest else o ∷ rest

-- checkOrderReady
unfoldable pub check_order_ready : ℕ → Floor → Floor
unfolding all_ready update_order
check_order_ready order f =
    if all_ready order f.tickets
    then record f { orders = update_order order mark_ready f.orders }
    else f

-- `ticket.station === 'cutting' && toIndex > fromIndex`
abbrev pub leaving_cutting : Ticket → Station → Bool
leaving_cutting t to =
    same_station t.station cutting && ltb (station_index t.station) (station_index to)

-- The fabric of the garment, when the cut happened.
unfoldable pub take_fabric : Ticket → Station → Stock → Result Stock
take_fabric t to s =
    if leaving_cutting t to
    then (consume_for_order_item t.order_item_id s >>= λ r. ok r.1)
    else ok s

-- moveTicket past its first return. The consumption commits first and in a transaction of its own; what
-- follows it has no way to fail, so the step is one.
unfoldable pub advance : Ticket → Station → Floor → Result Floor
unfolding take_fabric update_ticket put_at
advance t to f = do
  guard (not (ltb (station_index t.station + 1) (station_index to))) bad_request
  stock ← take_fabric t to f.stock
  let moved : Floor = record f { stock = stock; tickets = update_ticket t.id (put_at to) f.tickets }
  ok (if same_station to ready then check_order_ready t.order_id moved else moved)

-- moveTicket
unfoldable pub move_ticket : ℕ → ℕ → Station → Floor → Result Floor
unfolding advance
move_ticket store id to f = do
  t ← or_throw (find (is_ticket store id) f.tickets) not_found
  if same_station t.station to then ok f else advance t to f

-- The ticket of the garment that stands at `index` among the items of its order.
abbrev pub new_ticket : (ℕ → ℕ) → Order → ℕ → ℕ → ℕ → Ticket
new_ticket ids o store index item = record {
  id = ids index;
  order_id = o.id;
  order_item_id = item;
  store_id = store;
  sequence_no = index + 1;
  station = queued;
  is_started = false;
  is_completed = false;
  history = [];
}

unfoldable pub tickets_from : (ℕ → ℕ) → Order → ℕ → ℕ → List ℕ → List Ticket
tickets_from ids o store index [] = []
tickets_from ids o store index (item ∷ items) =
    new_ticket ids o store index item ∷ tickets_from ids o store (index + 1) items

-- createTicketsForOrder: the items are those of the order by sequence number, and `ids` the keys that
-- the database draws.
unfoldable pub create_tickets_for_order :
    (ℕ → ℕ) → ℕ → List ℕ → Option Order → Floor → Result (List Ticket × Floor)
unfolding tickets_from
create_tickets_for_order ids store items found f = do
  o ← or_throw found not_found
  let old = keep (λ (t : Ticket). t.order_id == o.id) f.tickets
  let new = tickets_from ids o store 0 items
  ok (if ltb 0 (length old) then (old, f) else (new, record f { tickets = f.tickets ++ new }))
