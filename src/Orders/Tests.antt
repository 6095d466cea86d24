-- ===== src/Orders/Tests.antt =====
-- A concrete order of 345.00 with a deposit of 115.00, which is ready.
use tailor_erp.Prelude.{
  ◌≡◌, ◌⊎◌, refl, true, false, none, some, [], ◌∷◌, ◌++◌, arith, pos, ◌+ℤ◌, ◌-ℤ◌, ◌≤ℤ◌, ◌<ℤ◌,
  Failure, bad_request, not_found, ok, err,
}
use tailor_erp.Shared.OrderStatus.{
  pending, cutting, sewing, fitting, ready, delivered, can_transition,
}
use tailor_erp.Orders.{Order, deposit, settlement, update_status, add_payment}
use tailor_erp.Orders.Money.{IsPaidUp, IsPath, add_payment_decides, update_status_decides}
use tailor_erp.Orders.Settle.{settle}
use tailor_erp.Orders.Settle.Laws.{IsSound, IsPosting, HandedOver, settle_decides}
use tailor_erp.Ledger.{cash, Books}
use tailor_erp.Ledger.Tests.{no_entries}
use tailor_erp.Ledger.Posting.{Settlement, post_settlement}

abbrev ready_order : Order
ready_order = record {
  id = 9;
  organization_id = 1;
  status = ready;
  total_amount = pos 34500;
  discount_amount = pos 0;
  paid_amount = pos 11500;
  is_delivered = false;
  payments = record { amount = pos 11500; kind = deposit } ∷ [];
  history = (pending, cutting) ∷ (cutting, sewing) ∷ (sewing, fitting) ∷ (fitting, ready) ∷ [];
}

ready_order-IsPaidUp : IsPaidUp ready_order
unfolding ◌+ℤ◌
ready_order-IsPaidUp = record { recorded = refl; within = omega arith }

ready_order-IsPath : IsPath pending ready_order.history ready
unfolding can_transition
ready_order-IsPath = (refl, refl, (refl, refl, (refl, refl, (refl, refl, refl))))

ready_order-IsSound : IsSound ready_order
ready_order-IsSound = record { money = ready_order-IsPaidUp; path = ready_order-IsPath }

add_payment_decides_example :
    (((pos 11500 +ℤ pos 5000 ≤ℤ pos 34500)
        × (o' : Order) × (add_payment (some ready_order) (pos 5000) ≡ ok o')
        × IsPaidUp o'
        × (o'.paid_amount ≡ pos 11500 +ℤ pos 5000)
        × (o'.status ≡ ready))
      ⊎ ((pos 34500 <ℤ pos 11500 +ℤ pos 5000)
          × (add_payment (some ready_order) (pos 5000) ≡ err bad_request)))
    × (add_payment none (pos 5000) ≡ err not_found)
add_payment_decides_example = add_payment_decides ready_order (pos 5000) ready_order-IsPaidUp

update_status_decides_example :
    (((can_transition ready delivered ≡ true)
        × (o' : Order) × (update_status (some ready_order) delivered ≡ ok o')
        × (o'.status ≡ delivered)
        × (o'.history ≡ ready_order.history ++ (ready, delivered) ∷ [])
        × IsPath pending o'.history delivered
        × (o'.paid_amount ≡ pos 11500))
      ⊎ ((can_transition ready delivered ≡ false)
          × (update_status (some ready_order) delivered ≡ err bad_request)))
    × (update_status none delivered ≡ err not_found)
update_status_decides_example = update_status_decides ready_order delivered ready_order-IsPath

settle_decides_example :
    (((pos 23000 ≤ℤ pos 34500 -ℤ pos 11500)
        × (q : Settlement) × IsPosting ready_order (pos 23000) q
        × (((books' : Books) × (post_settlement 1 9 q cash no_entries ≡ ok books')
              × (o' : Order) × (settle (some ready_order) (pos 23000) cash no_entries
                  ≡ ok (o', books'))
              × IsSound o'
              × (o'.paid_amount ≡ pos 11500 +ℤ pos 23000)
              × (o'.payments
                  ≡ ready_order.payments ++ record { amount = pos 23000; kind = settlement } ∷ [])
              × HandedOver ready_order (pos 23000) o')
            ⊎ ((e : Failure) × (post_settlement 1 9 q cash no_entries ≡ err e)
                × (settle (some ready_order) (pos 23000) cash no_entries ≡ err e))))
      ⊎ ((pos 34500 -ℤ pos 11500 <ℤ pos 23000)
          × (settle (some ready_order) (pos 23000) cash no_entries ≡ err bad_request)))
    × (settle none (pos 23000) cash no_entries ≡ err not_found)
settle_decides_example = settle_decides ready_order (pos 23000) cash no_entries ready_order-IsSound
