-- ===== src/Pos.antt =====
-- apps/api/src/pos/pos.service.ts: the checkout at the counter, over the orders, the stock, the books
-- and the document counters. The styles of a garment, notes and due dates are not modelled; the
-- tickets and the invoice are made after the transaction has committed, by the workshop and the
-- invoices. The keys of new rows are the database's: `item_key` and `hold_key` give those of the
-- garment at an index.
pub mod Holding
pub mod Placed
mod Tests
use tailor_erp.Prelude.{
  ℕ, ◌+◌, Bool, false, not, ◌&&◌, ◌||◌, Option, none, some, List, [], ◌∷◌, ◌++◌, map, ◌==◌,
  if◌then◌else◌, Decimal, pos, ltb_ℤ, bad_request, not_found, Result, ok, err, ◌>>=◌, ◌>>◌, guard,
  or_throw, length, keep, find, any, update_where,
}
use tailor_erp.Common.Counter.{Counter, DocumentKind, next}
use tailor_erp.Shared.OrderStatus.{pending}
use tailor_erp.Orders.{Order, Item, deposit, order_total}
use tailor_erp.Inventory.{Stock}
use tailor_erp.Inventory.Yield.{GarmentType, Measurement, compute_yield}
use tailor_erp.Inventory.Holds.{reserve}
use tailor_erp.Ledger.{PaymentMethod, card, Books}
use tailor_erp.Ledger.Posting.{post_deposit}

abbrev pub garment_number : GarmentType → ℕ
garment_number GarmentType.thobe = 0
garment_number GarmentType.bisht = 1
garment_number GarmentType.shirt = 2
garment_number GarmentType.trousers = 3
garment_number GarmentType.other_garment = 4

pub record CheckoutItem : Type 0 where
  pub garment_type : GarmentType
  pub quantity : Option ℕ
  pub unit_price : Decimal
  pub fabric_batch_id : Option ℕ
  pub button_design_id : Option ℕ

-- PosCheckoutDto
pub record Checkout : Type 0 where
  pub customer_id : ℕ
  pub items : List CheckoutItem
  pub deposit_amount : Option Decimal
  pub deposit_method : Option PaymentMethod
  pub discount_amount : Option Decimal

pub record Customer : Type 0 where
  pub id : ℕ
  pub organization_id : ℕ
  pub lifetime_order_count : ℕ

-- A row of measurements.
pub record Profile : Type 0 where
  pub customer_id : ℕ
  pub garment_type : GarmentType
  pub is_active : Bool
  pub measurement : Measurement

pub record ButtonDesign : Type 0 where
  pub id : ℕ
  pub organization_id : ℕ

pub record OrderItem : Type 0 where
  pub id : ℕ
  pub order_id : ℕ
  pub garment_type : GarmentType
  pub quantity : ℕ
  pub unit_price : Decimal
  pub sequence_no : ℕ
  pub yield_meters : Decimal

pub record Visit : Type 0 where
  pub customer_id : ℕ
  pub store_id : ℕ
  pub last_visit_date : ℕ

-- The tables that a checkout reads and writes.
pub record Shop : Type 0 where
  pub customers : List Customer
  pub profiles : List Profile
  pub buttons : List ButtonDesign
  pub visits : List Visit
  pub counters : List Counter
  pub orders : List Order
  pub order_items : List OrderItem
  pub stock : Stock
  pub books : Books

pub record Prepared : Type 0 where
  pub item : CheckoutItem
  pub yield_meters : Decimal

-- `item.quantity ?? 1`
abbrev pub or_one : Option ℕ → ℕ
or_one none = 1
or_one (some n) = n

abbrev pub or_nothing : Option Decimal → Decimal
or_nothing none = pos 0
or_nothing (some d) = d

-- `dto.depositMethod ?? 'card'`
abbrev pub or_card : Option PaymentMethod → PaymentMethod
or_card none = card
or_card (some m) = m

-- `[...new Set(…filter(…))]`
unfoldable pub button_ids : List CheckoutItem → List ℕ
button_ids [] = []
button_ids (i ∷ items) =
    let rest = button_ids items in
    elim i.button_design_id [
      | none ↦ rest
      | some id ↦ if any (λ j. j == id) rest then rest else id ∷ rest
    ]

abbrev pub is_owned : ℕ → List ℕ → ButtonDesign → Bool
is_owned org ids b = any (λ i. b.id == i) ids && (b.organization_id == org)

-- The check of the buttons, when there are any.
abbrev pub check_buttons : ℕ → List ℕ → List ButtonDesign → Result (Unit {0})
check_buttons org ids buttons =
    guard ((length ids == 0) || (length (keep (is_owned org ids) buttons) == length ids))
      bad_request

abbrev pub is_profile : ℕ → GarmentType → Profile → Bool
is_profile customer garment m =
    (m.customer_id == customer)
    && (garment_number m.garment_type == garment_number garment)
    && m.is_active

-- Whatever computeYield throws is a 400.
abbrev pub as_bad_request : Result Decimal → Result Decimal
as_bad_request (err e) = err bad_request
as_bad_request (ok d) = ok d

-- The loop that resolves measurements and yields.
unfoldable pub prepare : ℕ → List Profile → List CheckoutItem → Result (List Prepared)
unfolding compute_yield
prepare customer profiles [] = ok []
prepare customer profiles (i ∷ items) = do
  profile ← or_throw (find (is_profile customer i.garment_type) profiles) bad_request
  meters ← as_bad_request (compute_yield i.garment_type profile.measurement (or_one i.quantity))
  rest ← prepare customer profiles items
  ok (record { item = i; yield_meters = meters } ∷ rest)

abbrev pub priced : Prepared → Item
priced p = record { unit_price = p.item.unit_price; quantity = or_one p.item.quantity }

-- `data` of tx.order.create
unfoldable pub new_order : ℕ → ℕ → List Prepared → Decimal → Order
unfolding order_total
new_order key org prepared discount = record {
  id = key;
  organization_id = org;
  status = pending;
  total_amount = order_total (map priced prepared) discount;
  discount_amount = discount;
  paid_amount = pos 0;
  is_delivered = false;
  payments = [];
  history = [];
}

module _ (item_key hold_key : ℕ → ℕ) where
  abbrev pub order_item : ℕ → ℕ → Prepared → OrderItem
  order_item order index p = record {
    id = item_key index;
    order_id = order;
    garment_type = p.item.garment_type;
    quantity = or_one p.item.quantity;
    unit_price = p.item.unit_price;
    sequence_no = index + 1;
    yield_meters = p.yield_meters;
  }

  -- The hold on the roll of a garment; the customer's own material has none.
  unfoldable pub hold_fabric : ℕ → ℕ → Prepared → Option ℕ → Stock → Result Stock
  unfolding reserve
  hold_fabric store index p none s = ok s
  hold_fabric store index p (some batch) s = do
    (_, s') ←
        reserve (hold_key index)
          (record {
            batch_id = batch;
            order_item_id = item_key index;
            meters = p.yield_meters;
            store_id = store;
          })
          s
    ok s'

  -- The loop over the garments.
  unfoldable pub place_items :
      ℕ → ℕ → ℕ → List Prepared → List OrderItem × Stock → Result (List OrderItem × Stock)
  unfolding hold_fabric
  place_items store order index [] state = ok state
  place_items store order index (p ∷ prepared) (items, s) = do
    s' ← hold_fabric store index p p.item.fabric_batch_id s
    place_items store order (index + 1) prepared (items ++ (order_item order index p ∷ []), s')

-- The deposit: the payment row, the order's paid amount, and its posting.
unfoldable pub take_deposit :
    Option Decimal → PaymentMethod → Order → Books → Result (Order × Books)
unfolding post_deposit
take_deposit none method o books = ok (o, books)
take_deposit (some amount) method o books =
    if ltb_ℤ (pos 0) amount
    then (do
      books' ← post_deposit o.organization_id o.id amount method books
      ok (
        record o {
          paid_amount = amount;
          payments = o.payments ++ (record { amount = amount; kind = deposit } ∷ []);
        },
        books',
      ))
    else ok (o, books)

abbrev pub is_customer : ℕ → ℕ → Customer → Bool
is_customer id org c = (c.id == id) && (c.organization_id == org)

abbrev pub visit_of : ℕ → ℕ → Visit → Bool
visit_of customer store v = (v.customer_id == customer) && (v.store_id == store)

-- tx.customerStoreVisit.upsert
unfoldable pub upsert_visit : ℕ → ℕ → ℕ → List Visit → List Visit
unfolding update_where
upsert_visit customer store now visits =
    if any (visit_of customer store) visits
    then update_where (visit_of customer store) (λ (v : Visit). record v { last_visit_date = now })
        visits
    else visits ++ (record { customer_id = customer; store_id = store; last_visit_date = now } ∷ [])

abbrev pub with_orders : ℕ → Customer → Customer
with_orders n c = record c { lifetime_order_count = c.lifetime_order_count + n }

-- checkout, to the commit of its transaction: the number of the order, the order, and the tables.
unfoldable pub checkout :
    (ℕ → ℕ) → (ℕ → ℕ) → ℕ → ℕ → ℕ → ℕ → Checkout → Shop → Result (ℕ × Order × Shop)
unfolding new_order button_ids prepare place_items take_deposit upsert_visit update_where next
checkout item_key hold_key key now org store dto shop = do
  customer ← or_throw (find (is_customer dto.customer_id org) shop.customers) not_found
  guard (not (length dto.items == 0)) bad_request
  check_buttons org (button_ids dto.items) shop.buttons
  prepared ← prepare dto.customer_id shop.profiles dto.items
  let drawn =
      next
        (record {
          organization_id = org;
          store_id = some store;
          kind = DocumentKind.order;
          scope = none;
        })
        shop.counters
  let created = new_order key org prepared (or_nothing dto.discount_amount)
  (items, stock) ← place_items item_key hold_key store key 0 prepared (shop.order_items, shop.stock)
  (placed, books) ← take_deposit dto.deposit_amount (or_card dto.deposit_method) created shop.books
  ok (
    drawn.0,
    placed,
    record shop {
      customers =
          update_where (λ (c : Customer). c.id == dto.customer_id) (with_orders (length prepared))
            shop.customers;
      visits = upsert_visit dto.customer_id store now shop.visits;
      counters = drawn.1;
      orders = shop.orders ++ (placed ∷ []);
      order_items = items;
      stock = stock;
      books = books;
    },
  )
