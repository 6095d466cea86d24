-- ===== src/Orders/Money.antt =====
-- The money and the history of an order, through the operations of
-- apps/api/src/orders/orders.service.ts.
use tailor_erp.Prelude.{
  ◌≡◌, ◌⊎◌, refl, inl, inr, true, false, none, some, List, [], ◌∷◌, ◌++◌, Bool-cases, Decimal, ◌+ℤ◌,
  ◌≤ℤ◌, ◌<ℤ◌, int_laws, bad_request, not_found, ok, err, sum_of, sum_of-append, le→ltb_ℤ, lt→ltb_ℤ,
  le_or_lt,
}
use tailor_erp.Shared.OrderStatus.{Status, can_transition, pending}
use tailor_erp.Orders.{Order, Payment, settlement, change_status, update_status, add_payment}

-- What was paid is the sum of the payments, and it is not more than the total.
pub record IsPaidUp (o : Order) : Type 0 where
  pub recorded : o.paid_amount ≡ sum_of (λ (p : Payment). p.amount) o.payments
  pub within : o.paid_amount ≤ℤ o.total_amount

-- A history of allowed changes that leads from one status to another.
abbrev pub IsPath : Status → List (Status × Status) → Status → Type 0
IsPath from [] to = from ≡ to
IsPath from (h ∷ hs) to = (from ≡ h.0) × (can_transition h.0 h.1 ≡ true) × IsPath h.1 hs to

pub IsPath-append :
    (from : Status) (hs : List (Status × Status)) (via to : Status)
    → IsPath from hs via
    → can_transition via to ≡ true
    → IsPath from (hs ++ (via, to) ∷ []) to
IsPath-append from [] via to path allowed = (path, allowed, refl)
IsPath-append from (h ∷ hs) via to path allowed =
    let (here, step, rest) = path in (here, step, IsPath-append h.1 hs via to rest allowed)

-- Recording a payment that still fits keeps the money of an order in step.
pub paid-IsPaidUp :
    (o : Order) (p : Payment) (paid : Decimal)
    → IsPaidUp o
    → paid ≡ o.paid_amount +ℤ p.amount
    → paid ≤ℤ o.total_amount
    → (paid ≡ sum_of (λ (q : Payment). q.amount) (o.payments ++ p ∷ [])) × (paid ≤ℤ o.total_amount)
paid-IsPaidUp o p paid h added fits = (
  rw (sum_of-append (λ (q : Payment). q.amount) o.payments (p ∷ []), added, h.recorded)
      (omega int_laws),
  fits,
)

-- A payment is accepted exactly if it does not take what was paid above the total of the order; a
-- payment that does is answered with 400, and one for an order that is not found with 404. An accepted
-- payment adds to what was paid, which stays the sum of the payments and within the total, and the
-- status stays.
pub add_payment_decides :
    (o : Order) (amount : Decimal)
    → IsPaidUp o
    → (((o.paid_amount +ℤ amount ≤ℤ o.total_amount)
          × (o' : Order) × (add_payment (some o) amount ≡ ok o')
          × IsPaidUp o'
          × (o'.paid_amount ≡ o.paid_amount +ℤ amount)
          × (o'.status ≡ o.status))
        ⊎ ((o.total_amount <ℤ o.paid_amount +ℤ amount)
            × (add_payment (some o) amount ≡ err bad_request)))
      × (add_payment none amount ≡ err not_found)
unfolding add_payment
add_payment_decides o amount sound =
    let p : Payment = record { amount = amount; kind = settlement } in
    let paid = o.paid_amount +ℤ amount in
    (
      elim (le_or_lt paid o.total_amount) [
        | inl fits ↦
            let (recorded, within) = paid-IsPaidUp o p paid sound refl fits in
            inl (
              fits,
              record o { paid_amount = paid; payments = o.payments ++ p ∷ [] },
              rw (le→ltb_ℤ o.total_amount paid fits) refl,
              record { recorded = recorded; within = within },
              refl,
              refl,
            )
        | inr over ↦ inr (over, rw (lt→ltb_ℤ o.total_amount paid over) refl)
      ],
      refl,
    )

-- A change of status succeeds exactly if the transition table allows it (400 otherwise, 404 without an
-- order). It then sets the status, and adds the row of this change at the end of the history, which
-- stays a path of allowed changes from the start to the present status; what was paid is untouched.
pub update_status_decides :
    (o : Order) (to : Status)
    → IsPath pending o.history o.status
    → (((can_transition o.status to ≡ true)
          × (o' : Order) × (update_status (some o) to ≡ ok o')
          × (o'.status ≡ to)
          × (o'.history ≡ o.history ++ (o.status, to) ∷ [])
          × IsPath pending o'.history to
          × (o'.paid_amount ≡ o.paid_amount))
        ⊎ ((can_transition o.status to ≡ false) × (update_status (some o) to ≡ err bad_request)))
      × (update_status none to ≡ err not_found)
unfolding update_status
update_status_decides o to path = (
  elim (Bool-cases (can_transition o.status to)) [
    | inl allowed ↦ inl (
      allowed,
      change_status to o,
      rw allowed refl,
      refl,
      refl,
      IsPath-append pending o.history o.status to path allowed,
      refl,
    )
    | inr banned ↦ inr (banned, rw banned refl)
  ],
  refl,
)
