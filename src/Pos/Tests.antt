-- ===== src/Pos/Tests.antt =====
-- A pair of trousers from a roll of the shop, with a deposit of 100 riyals in cash.
use tailor_erp.Prelude.{
  ℕ, ◌+◌, ◌≡◌, refl, true, none, some, List, [], ◌∷◌, ◌++◌, map, pos, ◌+ℤ◌, ◌-ℤ◌, ◌*ℤ◌, Result, ok,
  err, sum_of,
}
use tailor_erp.Orders.{Order}
use tailor_erp.Orders.Settle.{deposits}
use tailor_erp.Inventory.{Stock}
use tailor_erp.Inventory.Rows.{stock_total}
use tailor_erp.Inventory.Yield.{GarmentType}
use tailor_erp.Inventory.Warehouse.{NewBatch, batch_row, movement, create_batch}
use tailor_erp.Inventory.Trail.Writes.{IsTrail}
use tailor_erp.Inventory.Trail.History.{empty, next, purchased, Run-IsTrail}
use tailor_erp.Ledger.{AccountCode, code_number, Books, cash, chart}
use tailor_erp.Ledger.Trial.{ensure_chart_of_accounts}
use tailor_erp.Ledger.Trial.Kept.{IsKept, ensure_chart_of_accounts-IsKept}
use tailor_erp.Inventory
use tailor_erp.Inventory.Warehouse
use tailor_erp.Ledger.Trial
use tailor_erp.Pos.{Checkout, Profile, Shop, Prepared, new_order, checkout}
use tailor_erp.Pos.Placed.{IsPrepared, price_of, checkout_places}
use tailor_erp.Pos.Holding.{holds_from, reserved_of, held_on}

abbrev roll : NewBatch
roll = record {
  store_id = 1;
  fabric_name = 20;
  batch_code = 300;
  quantity = pos 100000;
  cost_price_per_unit = pos 2500;
  purchase_date = 7;
}

abbrev no_stock : Stock
no_stock = record { batches = []; movements = []; reservations = [] }

abbrev one_roll : Stock
one_roll = record {
  batches = batch_row 5 8 roll ∷ [];
  movements = movement 5 Inventory.purchase_in (pos 100000) (pos 0) (pos 100000) ∷ [];
  reservations = [];
}

one_roll-IsTrail : IsTrail one_roll
unfolding create_batch Warehouse.create_row Inventory.create_movement Inventory.find_batch
    Inventory.checked_batch Inventory.checked_movement
one_roll-IsTrail =
    Run-IsTrail (next no_stock one_roll empty (purchased 5 8 roll no_stock one_roll refl))

abbrev no_books : Books
no_books = record { accounts = []; entries = [] }

abbrev account_key : AccountCode → ℕ
account_key c = code_number c + 1

abbrev opened : Books
opened = record {
  accounts = map (λ c. record { id = account_key c; organization_id = 9; code = c }) chart;
  entries = [];
}

opened-IsKept : IsKept opened
unfolding ensure_chart_of_accounts Trial.create_accounts
opened-IsKept =
    ensure_chart_of_accounts-IsKept 9 account_key no_books {r = (6, opened)} refl
      (record { booked = tt; keys = tt; home = tt })

abbrev profile : Profile
profile = record {
  customer_id = 3;
  garment_type = GarmentType.trousers;
  is_active = true;
  measurement = record {
    m1_front_length = none;
    m1_back_length = none;
    m3_sleeve_left = none;
    m3_sleeve_right = none;
    t4_outseam = some (pos 10000);
  };
}

abbrev shop : Shop
shop = record {
  customers = record { id = 3; organization_id = 9; lifetime_order_count = 0 } ∷ [];
  profiles = profile ∷ [];
  buttons = [];
  visits = [];
  counters = [];
  orders = [];
  order_items = [];
  stock = one_roll;
  books = opened;
}

abbrev trousers_order : Checkout
trousers_order = record {
  customer_id = 3;
  items =
      record {
        garment_type = GarmentType.trousers;
        quantity = none;
        unit_price = pos 30000;
        fabric_batch_id = some 5;
        button_design_id = none;
      }
      ∷ [];
  deposit_amount = some (pos 10000);
  deposit_method = some cash;
  discount_amount = none;
}

abbrev key_of : ℕ → ℕ
key_of index = index + 50

abbrev outcome : Result (ℕ × Order × Shop)
outcome = checkout key_of key_of 40 600 9 1 trousers_order shop

abbrev value_of : Result (ℕ × Order × Shop) → ℕ × Order × Shop
value_of (ok r) = r
value_of (err e) = (0, new_order 0 0 [] (pos 0), shop)

abbrev placed_order : ℕ × Order × Shop
placed_order = value_of outcome

checks_out : outcome ≡ ok placed_order
unfolding checkout tailor_erp.Inventory.Yield.calculate_trousers Inventory.find_batch
    tailor_erp.Inventory.Yield.can_cut_from ◌-ℤ◌ ◌*ℤ◌ ◌+ℤ◌ Inventory.update_batch
    Inventory.update_row Inventory.checked_batch tailor_erp.Ledger.post tailor_erp.Ledger.resolve
    tailor_erp.Ledger.cash_account_for tailor_erp.Zatca.Vat.split_inclusive
    tailor_erp.Ledger.checked_entry tailor_erp.Ledger.new_entry
checks_out = refl

checkout_places_example :
    (prepared : List Prepared) × IsPrepared 3 shop.profiles trousers_order.items prepared
    × (placed_order.2.stock.reservations ≡ [] ++ holds_from key_of key_of 0 prepared)
    × ((id : ℕ)
        → reserved_of id placed_order.2.stock.batches
          ≡ reserved_of id one_roll.batches +ℤ held_on id (holds_from key_of key_of 0 prepared))
    × (stock_total placed_order.2.stock.batches ≡ stock_total one_roll.batches)
    × (placed_order.1.total_amount +ℤ pos 0 ≡ sum_of price_of prepared)
    × (placed_order.1.paid_amount ≡ deposits placed_order.1)
    × IsTrail placed_order.2.stock
    × IsKept placed_order.2.books
checkout_places_example =
    checkout_places key_of key_of 40 600 9 1 trousers_order shop checks_out one_roll-IsTrail
      opened-IsKept
