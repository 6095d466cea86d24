-- ===== src/Workshop/Tests.antt =====
-- A thobe that leaves the cutting table, and one that is finished for an order that was cancelled.
use tailor_erp.Prelude.{
  ◌≡◌, ◌≢◌, ◌⊎◌, refl, inl, true, false, none, List, [], ◌∷◌, arith, Decimal, pos, ◌-ℤ◌, ok,
}
use tailor_erp.Inventory.{
  Batch, Reservation, ReservationStatus, available, reserved, consumed, order_out, find_batch,
  update_batch, update_row, checked_batch, create_movement, checked_movement,
}
use tailor_erp.Inventory.Holds.{
  consume_for_order_item, each_reservation, consume_reservation, cut, set_status,
}
use tailor_erp.Shared.OrderStatus.{Status, cancelled}
use tailor_erp.Orders.{Order, change_status}
use tailor_erp.Workshop.{
  Station, cutting, stitching, quality, ready, update_order, Ticket, Floor, put_at, update_ticket,
  all_ready, check_order_ready, take_fabric, advance, move_ticket,
}
use tailor_erp.Workshop.Fabric.{IsCut, move_ticket-IsCut}
use tailor_erp.Workshop.Ready.{Finished, move_ticket_readies}

abbrev ticket : Station → List (Station × Station) → Ticket
ticket station history = record {
  id = 41;
  order_id = 9;
  order_item_id = 5;
  store_id = 1;
  sequence_no = 1;
  station = station;
  is_started = true;
  is_completed = false;
  history = history;
}

abbrev roll : Decimal → Decimal → Batch
roll current held = record {
  id = 2;
  store_id = 1;
  fabric_name = 7;
  batch_code = 2;
  status = available;
  initial_quantity = pos 5000;
  current_quantity = current;
  reserved_quantity = held;
  min_usable_meters = pos 350;
  cost_price_per_unit = pos 2500;
  purchase_date = 20;
  created_at = 20;
}

abbrev hold_of : ReservationStatus → Reservation
hold_of status = record {
  id = 31;
  batch_id = 2;
  order_item_id = 5;
  meters = pos 320;
  status = status;
}

abbrev before_cut : Floor
before_cut = record {
  tickets = ticket cutting [] ∷ [];
  orders = [];
  stock = record {
    batches = roll (pos 1000) (pos 320) ∷ [];
    movements = [];
    reservations = hold_of reserved ∷ [];
  };
}

abbrev after_cut : Floor
after_cut = record {
  tickets = ticket stitching ((cutting, stitching) ∷ []) ∷ [];
  orders = [];
  stock = record {
    batches = roll (pos 680) (pos 0) ∷ [];
    movements =
        record {
          batch_id = 2;
          order_id = none;
          movement_type = order_out;
          quantity = pos 320;
          previous_balance = pos 1000;
          new_balance = pos 680;
        }
        ∷ [];
    reservations = hold_of consumed ∷ [];
  };
}

cut_runs : move_ticket 1 41 stitching before_cut ≡ ok after_cut
unfolding move_ticket advance take_fabric consume_for_order_item each_reservation
    consume_reservation cut set_status find_batch update_batch update_row checked_batch
    create_movement checked_movement update_ticket put_at ◌-ℤ◌
cut_runs = refl

before_cut-IsCut : IsCut before_cut
unfolding find_batch
before_cut-IsCut = record {
  keyed = (tt, tt);
  linked = ((roll (pos 1000) (pos 320), refl), tt);
  taken = (inl (omega arith), tt);
}

move_ticket-IsCut_example : IsCut after_cut
move_ticket-IsCut_example = move_ticket-IsCut 1 41 stitching before_cut before_cut-IsCut cut_runs

abbrev cancelled_order : Order
cancelled_order = record {
  id = 9;
  organization_id = 1;
  status = cancelled;
  total_amount = pos 34500;
  discount_amount = pos 0;
  paid_amount = pos 0;
  is_delivered = false;
  payments = [];
  history = (Status.pending, cancelled) ∷ [];
}

abbrev floor_of : Ticket → Order → Floor
floor_of t o = record {
  tickets = t ∷ [];
  orders = o ∷ [];
  stock = record { batches = []; movements = []; reservations = [] };
}

abbrev last_floor : Floor
last_floor = floor_of (ticket quality []) cancelled_order

abbrev finished_floor : Floor
finished_floor =
    floor_of (put_at ready (ticket quality [])) (change_status Status.ready cancelled_order)

finish_runs : move_ticket 1 41 ready last_floor ≡ ok finished_floor
unfolding move_ticket advance take_fabric update_ticket put_at check_order_ready all_ready
    update_order
finish_runs = refl

move_ticket_readies_example :
    (((ready ≢ ready) ⊎ (quality ≡ ready)) × (finished_floor.orders ≡ last_floor.orders))
    ⊎ ((ready ≡ ready)
        × (quality ≢ ready)
        × Finished (ticket quality []) cancelled_order last_floor finished_floor)
move_ticket_readies_example =
    move_ticket_readies 1 41 ready last_floor (ticket quality []) cancelled_order finish_runs refl
      refl
