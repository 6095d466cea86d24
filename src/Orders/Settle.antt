-- ===== src/Orders/Settle.antt =====
-- `settle` of apps/api/src/pos/pos.service.ts: the payment at the counter, the hand-over, and its
-- posting. The order row and the ledger are written in one transaction.
pub mod Laws
use tailor_erp.Prelude.{
  Bool, true, false, not, ◌&&◌, Option, [], ◌∷◌, ◌++◌, if◌then◌else◌, Decimal, pos, ◌+ℤ◌, ◌-ℤ◌,
  ltb_ℤ, eqb_ℤ, bad_request, not_found, Result, ok, ◌>>=◌, ◌>>◌, guard, or_throw, keep, sum_from,
}
use tailor_erp.Shared.OrderStatus.{can_transition, delivered}
use tailor_erp.Orders.{Order, Payment, PaymentKind, deposit, settlement, change_status}
use tailor_erp.Ledger.{PaymentMethod, Books}
use tailor_erp.Ledger.Posting.{post_settlement}

abbrev pub is_deposit : PaymentKind → Bool
is_deposit deposit = true
is_deposit _ = false

-- `order.payments.filter(…).reduce(…)`
unfoldable pub deposits : Order → Decimal
deposits o = sum_from (λ (p : Payment). p.amount) (pos 0) (keep (λ p. is_deposit p.kind) o.payments)

abbrev pub balance_due : Order → Decimal
balance_due o = o.total_amount -ℤ o.paid_amount

abbrev pub closes : Order → Decimal → Bool
closes o payment = eqb_ℤ (balance_due o -ℤ payment) (pos 0)

-- `willDeliver`
abbrev pub will_deliver : Order → Decimal → Bool
will_deliver o payment = closes o payment && can_transition o.status delivered

-- tx.payment.create and tx.order.update
unfoldable pub pay : Decimal → Order → Order
pay payment o =
    let paid : Order = record o {
      paid_amount = o.paid_amount +ℤ payment;
      payments = o.payments ++ record { amount = payment; kind = settlement } ∷ [];
    } in
    if will_deliver o payment then change_status delivered paid else paid

-- settle
unfoldable pub settle : Option Order → Decimal → PaymentMethod → Books → Result (Order × Books)
unfolding pay deposits
settle found payment method books = do
  order ← or_throw found not_found
  guard (not (ltb_ℤ (balance_due order) payment)) bad_request
  books' ←
      post_settlement order.organization_id order.id
        (record {
          amount = payment;
          deposit_applied = if closes order payment then deposits order else pos 0;
          order_total = order.total_amount;
        })
        method books
  ok (pay payment order, books')
