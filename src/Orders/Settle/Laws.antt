-- ===== src/Orders/Settle/Laws.antt =====
-- What a settlement at the counter does.
use tailor_erp.Prelude.{
  ◌≡◌, ◌≢◌, ◌⊎◌, refl, sym, ◌∙◌, inl, inr, true, false, none, some, List, [], ◌∷◌, ◌++◌,
  if◌then◌else◌, Bool-cases, Decimal, pos, ◌+ℤ◌, ◌-ℤ◌, ◌≤ℤ◌, ◌<ℤ◌, int_laws, parts_of_eq, eqb_ℤ→eq,
  Failure, bad_request, not_found, ok, err, keep, sum_of, sum_from-sum_of, le→ltb_ℤ, lt→ltb_ℤ,
  le_or_lt, Result-cases, &&-eq-true, true_ne_false, eq→eqb_ℤ,
}
use tailor_erp.Shared.OrderStatus.{
  Status, can_transition, pending, cutting, sewing, fitting, ready, delivered, cancelled,
}
use tailor_erp.Orders.{Order, Payment, PaymentKind, deposit, settlement, refund}
use tailor_erp.Orders.Money.{IsPaidUp, paid-IsPaidUp, IsPath, IsPath-append}
use tailor_erp.Orders.Settle.{is_deposit, deposits, balance_due, closes, will_deliver, pay, settle}
use tailor_erp.Ledger.{PaymentMethod, Books}
use tailor_erp.Ledger.Posting.{Settlement, post_settlement}

-- An order whose money and history are in step.
pub record IsSound (o : Order) : Type 0 where
  pub money : IsPaidUp o
  pub path : IsPath pending o.history o.status

-- What the deposits among the payments add up to.
abbrev pub deposit_part : PaymentKind → Decimal → Decimal
deposit_part deposit amount = amount
deposit_part settlement amount = pos 0
deposit_part refund amount = pos 0

abbrev pub deposit_sum : List Payment → Decimal
deposit_sum [] = pos 0
deposit_sum (p ∷ ps) = deposit_part p.kind p.amount +ℤ deposit_sum ps

deposit_sum-cons :
    (p : Payment) (ps : List Payment) (k : PaymentKind)
    → p.kind ≡ k
    → sum_of (λ (p : Payment). p.amount) (keep (λ p. is_deposit p.kind) ps) ≡ deposit_sum ps
    → sum_of (λ (p : Payment). p.amount) (keep (λ p. is_deposit p.kind) (p ∷ ps))
      ≡ deposit_part p.kind p.amount +ℤ deposit_sum ps
deposit_sum-cons p ps deposit e rest = rw (e, rest) refl
deposit_sum-cons p ps settlement e rest = rw (e, rest) (omega int_laws)
deposit_sum-cons p ps refund e rest = rw (e, rest) (omega int_laws)

deposit_sum-keep :
    (ps : List Payment)
    → sum_of (λ (p : Payment). p.amount) (keep (λ p. is_deposit p.kind) ps) ≡ deposit_sum ps
deposit_sum-keep [] = refl
deposit_sum-keep (p ∷ ps) = deposit_sum-cons p ps p.kind refl (deposit_sum-keep ps)

deposits_lem : (o : Order) → deposits o ≡ deposit_sum o.payments
unfolding deposits
deposits_lem o =
    let all =
      sum_from-sum_of (λ (p : Payment). p.amount) (pos 0)
        (keep (λ (p : Payment). is_deposit p.kind) o.payments) in
    let same = deposit_sum-keep o.payments in omega (int_laws, parts_of_eq all, parts_of_eq same)

-- What a payment passes to the ledger: the deposits are applied by the payment of the whole balance.
pub record IsPosting (o : Order) (payment : Decimal) (q : Settlement) : Type 0 where
  pub amount : q.amount ≡ payment
  pub total : q.order_total ≡ o.total_amount
  pub applied :
      ((payment ≡ o.total_amount -ℤ o.paid_amount) × (q.deposit_applied ≡ deposit_sum o.payments))
      ⊎ ((payment ≢ o.total_amount -ℤ o.paid_amount) × (q.deposit_applied ≡ pos 0))

-- The status after a payment: a ready order is delivered by the payment of the whole balance.
abbrev pub HandedOver : Order → Decimal → Order → Type 0
HandedOver o payment o' =
    ((payment ≡ o.total_amount -ℤ o.paid_amount)
      × (o.status ≡ ready)
      × (o'.status ≡ delivered)
      × (o'.history ≡ o.history ++ (ready, delivered) ∷ []))
    ⊎ (((payment ≢ o.total_amount -ℤ o.paid_amount) ⊎ (o.status ≢ ready))
        × (o'.status ≡ o.status)
        × (o'.history ≡ o.history))

posting : Order → Decimal → Settlement
posting o payment = record {
  amount = payment;
  deposit_applied = if closes o payment then deposits o else pos 0;
  order_total = o.total_amount;
}

closes_cases :
    (o : Order) (payment : Decimal)
    → ((closes o payment ≡ true) × (payment ≡ o.total_amount -ℤ o.paid_amount))
      ⊎ ((closes o payment ≡ false) × (payment ≢ o.total_amount -ℤ o.paid_amount))
closes_cases o payment = elim (Bool-cases (closes o payment)) [
  | inl whole ↦
      let zero_left = eqb_ℤ→eq (balance_due o -ℤ payment) (pos 0) whole in
      inl (whole, omega (int_laws, parts_of_eq zero_left))
  | inr part ↦ inr (
    part,
    λ e.
        let zero_left : balance_due o -ℤ payment ≡ pos 0 = omega (int_laws, parts_of_eq e) in
        true_ne_false (sym (eq→eqb_ℤ (balance_due o -ℤ payment) (pos 0) zero_left) ∙ part),
  )
]

delivery_cases :
    (s : Status)
    → ((can_transition s delivered ≡ true) × (s ≡ ready))
      ⊎ ((can_transition s delivered ≡ false) × (s ≢ ready))
unfolding can_transition
delivery_cases pending = inr (refl, λ e. cc)
delivery_cases cutting = inr (refl, λ e. cc)
delivery_cases sewing = inr (refl, λ e. cc)
delivery_cases fitting = inr (refl, λ e. cc)
delivery_cases ready = inl (refl, refl)
delivery_cases delivered = inr (refl, λ e. cc)
delivery_cases cancelled = inr (refl, λ e. cc)

posting-IsPosting : (o : Order) (payment : Decimal) → IsPosting o payment (posting o payment)
unfolding posting
posting-IsPosting o payment = record {
  amount = refl;
  total = refl;
  applied = elim (closes_cases o payment) [
    | inl (whole, e) ↦ inl (e, rw whole (deposits_lem o))
    | inr (part, ne) ↦ inr (ne, rw part refl)
  ];
}

pay-IsPaidUp :
    (o : Order) (payment : Decimal)
    → IsPaidUp o
    → payment ≤ℤ balance_due o
    → IsPaidUp (pay payment o)
unfolding pay
pay-IsPaidUp o payment sound fits =
    let p : Payment = record { amount = payment; kind = settlement } in
    let (recorded, within) =
      paid-IsPaidUp o p (o.paid_amount +ℤ payment) sound refl (omega int_laws) in
    elim (Bool-cases (will_deliver o payment)) [
      | inl delivers ↦ rw delivers (record { recorded = recorded; within = within })
      | inr stays ↦ rw stays (record { recorded = recorded; within = within })
    ]

pay-IsPath :
    (o : Order) (payment : Decimal)
    → IsPath pending o.history o.status
    → IsPath pending (pay payment o).history (pay payment o).status
unfolding pay
pay-IsPath o payment path = elim (Bool-cases (will_deliver o payment)) [
  | inl delivers ↦
      let allowed =
        (&&-eq-true (closes o payment) (can_transition o.status delivered) delivers).1 in
      rw delivers (IsPath-append pending o.history o.status delivered path allowed)
  | inr stays ↦ rw stays path
]

pay-HandedOver : (o : Order) (payment : Decimal) → HandedOver o payment (pay payment o)
unfolding pay
pay-HandedOver o payment = elim (closes_cases o payment) [
  | inl (whole, e) ↦ elim (delivery_cases o.status) [
    | inl (may, there) ↦ inl (e, there, rw (whole, may) refl, rw (whole, may, there) refl)
    | inr (may_not, elsewhere) ↦
        inr (inr elsewhere, rw (whole, may_not) refl, rw (whole, may_not) refl)
  ]
  | inr (part, ne) ↦ inr (inl ne, rw part refl, rw part refl)
]

pay-paid : (o : Order) (payment : Decimal) → (pay payment o).paid_amount ≡ o.paid_amount +ℤ payment
unfolding pay
pay-paid o payment = elim (Bool-cases (will_deliver o payment)) [
  | inl delivers ↦ rw delivers refl
  | inr stays ↦ rw stays refl
]

pay-payments :
    (o : Order) (payment : Decimal)
    → (pay payment o).payments ≡ o.payments ++ record { amount = payment; kind = settlement } ∷ []
unfolding pay
pay-payments o payment = elim (Bool-cases (will_deliver o payment)) [
  | inl delivers ↦ rw delivers refl
  | inr stays ↦ rw stays refl
]

-- For an order whose payments and history are sound: a payment above what is left of the total is
-- answered with 400, and one for an order that is not found with 404. Any other payment is recorded
-- exactly if the ledger accepts its posting, whose error is passed on; the posting applies the
-- deposits, if the payment is of all that is left, and none otherwise. The order then has the payment
-- and its sum, and stays sound. It is delivered if it was ready and the payment is of all that is
-- left; otherwise its status and its history stay.
pub settle_decides :
    (o : Order) (payment : Decimal) (method : PaymentMethod) (books : Books)
    → IsSound o
    → (((payment ≤ℤ o.total_amount -ℤ o.paid_amount)
          × (q : Settlement) × IsPosting o payment q
          × (((books' : Books) × (post_settlement o.organization_id o.id q method books ≡ ok books')
                × (o' : Order) × (settle (some o) payment method books ≡ ok (o', books'))
                × IsSound o'
                × (o'.paid_amount ≡ o.paid_amount +ℤ payment)
                × (o'.payments ≡ o.payments ++ record { amount = payment; kind = settlement } ∷ [])
                × HandedOver o payment o')
              ⊎ ((e : Failure) × (post_settlement o.organization_id o.id q method books ≡ err e)
                  × (settle (some o) payment method books ≡ err e))))
        ⊎ ((o.total_amount -ℤ o.paid_amount <ℤ payment)
            × (settle (some o) payment method books ≡ err bad_request)))
      × (settle none payment method books ≡ err not_found)
unfolding settle posting
settle_decides o payment method books sound = (
  elim (le_or_lt payment (balance_due o)) [
    | inl fits ↦ inl (
      fits,
      posting o payment,
      posting-IsPosting o payment,
      elim (Result-cases
          (post_settlement o.organization_id o.id (posting o payment) method books)) [
            | inl (books', posted) ↦ inl (
              books',
              posted,
              pay payment o,
              rw (le→ltb_ℤ (balance_due o) payment fits, posted) refl,
              record {
                money = pay-IsPaidUp o payment sound.money fits;
                path = pay-IsPath o payment sound.path;
              },
              pay-paid o payment,
              pay-payments o payment,
              pay-HandedOver o payment,
            )
            | inr (e, refused) ↦
                inr (e, refused, rw (le→ltb_ℤ (balance_due o) payment fits, refused) refl)
          ],
    )
    | inr over ↦ inr (over, rw (lt→ltb_ℤ (balance_due o) payment over) refl)
  ],
  refl,
)
