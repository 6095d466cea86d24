-- ===== src/Orders.antt =====
-- apps/api/src/orders/orders.service.ts, and the settlement of apps/api/src/pos/pos.service.ts.
-- A handler is given the row that its `findFirst` returns. Notes, actors and times are not modelled.
pub mod Settle
pub mod Money
mod Tests
use tailor_erp.Prelude.{
  ℕ, Bool, not, ◌||◌, Option, List, [], ◌∷◌, ◌++◌, ℤ, Decimal, pos, ◌+ℤ◌, ◌-ℤ◌, ◌*ℤ◌, ltb_ℤ,
  bad_request, not_found, Result, ok, ◌>>=◌, ◌>>◌, guard, or_throw, sum_from,
}
use tailor_erp.Shared.OrderStatus.{Status, can_transition, same_status, delivered}

pub data PaymentKind : Type 0 where
  deposit settlement refund : PaymentKind

pub record Payment : Type 0 where
  pub amount : Decimal
  pub kind : PaymentKind

pub record Order : Type 0 where
  pub id : ℕ
  pub organization_id : ℕ
  pub status : Status
  pub total_amount : Decimal
  pub discount_amount : Decimal
  pub paid_amount : Decimal
  pub is_delivered : Bool
  pub payments : List Payment
  pub history : List (Status × Status)

pub record Item : Type 0 where
  pub unit_price : Decimal
  pub quantity : ℕ

-- `totalAmount` of create and checkout: the items, less the discount.
unfoldable pub order_total : List Item → Decimal → Decimal
order_total items discount = sum_from (λ i. i.unit_price *ℤ i.quantity) (pos 0) items -ℤ discount

-- `data: { status, ...(status === 'delivered' ? { deliveredAt: … } : {}) }` and the history row
abbrev pub change_status : Status → Order → Order
change_status to o = record o {
  status = to;
  is_delivered = same_status to delivered || o.is_delivered;
  history = o.history ++ (o.status, to) ∷ [];
}

-- updateStatus
unfoldable pub update_status : Option Order → Status → Result Order
update_status found to = do
  order ← or_throw found not_found
  guard (can_transition order.status to) bad_request
  ok (change_status to order)

-- addPayment; the kind of a payment is `settlement` by default.
unfoldable pub add_payment : Option Order → Decimal → Result Order
add_payment found amount = do
  order ← or_throw found not_found
  let paid = order.paid_amount +ℤ amount
  guard (not (ltb_ℤ order.total_amount paid)) bad_request
  ok (record order {
    paid_amount = paid;
    payments = order.payments ++ record { amount = amount; kind = settlement } ∷ [];
  })
