-- ===== src/Pos/Placed.antt =====
-- What a checkout leaves in the stock and in the books.
use tailor_erp.Prelude.{
  ℕ, ◌≡◌, refl, sym, ap, ◌∙◌, inl, inr, true, not, ◌&&◌, Option, none, some, List, [], ◌∷◌, ◌++◌,
  map, ◌==◌, ==_iff, if◌then◌else◌, ℤ, Decimal, pos, ◌+ℤ◌, ◌*ℤ◌, ltb_ℤ, int_laws, parts_of_eq,
  bad_request, not_found, Result, ok, err, ok_inj, guard, or_throw, >>=-eq-ok, length, find, sum_of,
  sum_from-sum_of, err_ne_ok, or_throw-eq-ok, &&-eq-true, if-eq-ok, subst, Among, find-Among,
}
use tailor_erp.Orders.{Order, Item, order_total}
use tailor_erp.Orders.Settle.{deposits}
use tailor_erp.Inventory.Rows.{stock_total}
use tailor_erp.Inventory.Trail.Writes.{IsTrail}
use tailor_erp.Ledger.{PaymentMethod, Books}
use tailor_erp.Ledger.Posting.{post_deposit, deposit_lines}
use tailor_erp.Ledger.Trial.Kept.{IsKept, post-IsKept}
use tailor_erp.Inventory.Yield.{GarmentType, compute_yield}
use tailor_erp.Pos.{
  CheckoutItem, Profile, garment_number, is_profile, as_bad_request, Checkout, Shop, Prepared,
  or_one, or_nothing, or_card, button_ids, check_buttons, prepare, priced, new_order, place_items,
  take_deposit, is_customer, checkout,
}
use tailor_erp.Pos.Holding.{holds_from, reserved_of, held_on, place_items-HasHeld}

deposit_total : (amount : ℤ) → pos 0 +ℤ amount ≡ amount
deposit_total amount = omega int_laws

-- The deposit: what has been paid is the deposits, and the books stay kept.
take_deposit-IsKept :
    (amount : Option Decimal) (method : PaymentMethod) (o : Order) (books : Books)
    {r : Order × Books}
    → o.payments ≡ []
    → o.paid_amount ≡ pos 0
    → take_deposit amount method o books ≡ ok r
    → IsKept books
    → (r.0.paid_amount ≡ deposits r.0) × (r.0.total_amount ≡ o.total_amount) × IsKept r.1
unfolding take_deposit post_deposit deposits
take_deposit-IsKept none method o books fresh unpaid done kept =
    subst
      (λ (r : Order × Books).
        (r.0.paid_amount ≡ deposits r.0) × (r.0.total_amount ≡ o.total_amount) × IsKept r.1)
      (ok_inj done) (rw (unpaid, fresh) refl, refl, kept)
take_deposit-IsKept (some amount) method o books fresh unpaid done kept =
    elim (if-eq-ok (ltb_ℤ (pos 0) amount) _ _ done) [
      | inl (_, h) ↦
          let (books', posted, e) =
            >>=-eq-ok (post_deposit o.organization_id o.id amount method books) _ h in
          subst
            (λ (r : Order × Books).
              (r.0.paid_amount ≡ deposits r.0) × (r.0.total_amount ≡ o.total_amount) × IsKept r.1)
            (ok_inj e)
            (
              rw fresh (sym (deposit_total amount)),
              refl,
              post-IsKept o.organization_id _ o.id (deposit_lines amount method) books posted kept,
            )
      | inr (_, e) ↦
          subst
            (λ (r : Order × Books).
              (r.0.paid_amount ≡ deposits r.0) × (r.0.total_amount ≡ o.total_amount) × IsKept r.1)
            (ok_inj e) (rw (unpaid, fresh) refl, refl, kept)
    ]

-- How many pieces of a garment are asked for: one, if nothing is said.
abbrev pub pieces : Option ℕ → ℕ
pieces none = 1
pieces (some n) = n

or_one_lem : (q : Option ℕ) → or_one q ≡ pieces q
or_one_lem none = refl
or_one_lem (some n) = refl

abbrev pub price_of : Prepared → Decimal
price_of p = p.item.unit_price *ℤ pieces p.item.quantity

sum_of-priced :
    (prepared : List Prepared)
    → sum_of (λ (i : Item). i.unit_price *ℤ i.quantity) (map priced prepared)
      ≡ sum_of price_of prepared
sum_of-priced [] = refl
sum_of-priced (p ∷ prepared) =
    ap
      (λ n.
        (p.item.unit_price *ℤ n)
        +ℤ sum_of (λ (i : Item). i.unit_price *ℤ i.quantity) (map priced prepared))
      (or_one_lem p.item.quantity)
    ∙ ap (λ d. price_of p +ℤ d) (sum_of-priced prepared)

order_total_lem :
    (prepared : List Prepared) (discount : Decimal)
    → order_total (map priced prepared) discount +ℤ discount ≡ sum_of price_of prepared
unfolding order_total
order_total_lem prepared discount =
    let a =
      sum_from-sum_of (λ (i : Item). i.unit_price *ℤ i.quantity) (pos 0) (map priced prepared) in
    let b = sum_of-priced prepared in omega (int_laws, parts_of_eq a, parts_of_eq b)

-- What a garment of the request is prepared as: with the yield that an active profile of the customer
-- for the kind of garment gives.
abbrev pub IsResolved : ℕ → List Profile → CheckoutItem → Prepared → Type 0
IsResolved customer profiles i p =
    (p.item ≡ i)
    × (m : Profile) × Among m profiles
    × (m.customer_id ≡ customer)
    × (m.garment_type ≡ i.garment_type)
    × (m.is_active ≡ true)
    × (compute_yield i.garment_type m.measurement (pieces i.quantity) ≡ ok p.yield_meters)

-- Garment by garment.
abbrev pub IsPrepared : ℕ → List Profile → List CheckoutItem → List Prepared → Type 0
IsPrepared customer profiles [] [] = Unit
IsPrepared customer profiles [] (p ∷ ps) = ⊥
IsPrepared customer profiles (i ∷ items) [] = ⊥
IsPrepared customer profiles (i ∷ items) (p ∷ ps) =
    IsResolved customer profiles i p × IsPrepared customer profiles items ps

garment_of : ℕ → GarmentType
garment_of n =
    if n == 0
    then GarmentType.thobe
    else if n == 1
    then GarmentType.bisht
    else if n == 2
    then GarmentType.shirt
    else if n == 3
    then GarmentType.trousers
    else GarmentType.other_garment

garment_of-garment_number : (g : GarmentType) → garment_of (garment_number g) ≡ g
unfolding garment_of
garment_of-garment_number GarmentType.thobe = refl
garment_of-garment_number GarmentType.bisht = refl
garment_of-garment_number GarmentType.shirt = refl
garment_of-garment_number GarmentType.trousers = refl
garment_of-garment_number GarmentType.other_garment = refl

garment_number-inj : (g h : GarmentType) → garment_number g ≡ garment_number h → g ≡ h
garment_number-inj g h e =
    sym (garment_of-garment_number g) ∙ ap garment_of e ∙ garment_of-garment_number h

as_bad_request-eq-ok : (r : Result Decimal) {d : Decimal} → as_bad_request r ≡ ok d → r ≡ ok d
as_bad_request-eq-ok (ok e) h = h
as_bad_request-eq-ok (err e) h = absurd (err_ne_ok h)

prepare-IsPrepared :
    (customer : ℕ) (profiles : List Profile) (items : List CheckoutItem) {prepared : List Prepared}
    → prepare customer profiles items ≡ ok prepared
    → IsPrepared customer profiles items prepared
unfolding prepare
prepare-IsPrepared customer profiles [] h = subst (IsPrepared customer profiles []) (ok_inj h) tt
prepare-IsPrepared customer profiles (i ∷ items) h =
    let row = find (is_profile customer i.garment_type) profiles in
    let (m, read, h1) = >>=-eq-ok (or_throw row bad_request) _ h in
    let computed = compute_yield i.garment_type m.measurement (or_one i.quantity) in
    let (meters, yields, h2) = >>=-eq-ok (as_bad_request computed) _ h1 in
    let (rest, later, e) = >>=-eq-ok (prepare customer profiles items) _ h2 in
    let (there, fits) =
      find-Among (is_profile customer i.garment_type) profiles
        (or_throw-eq-ok row bad_request read) in
    let own = m.customer_id == customer in
    let kind = garment_number m.garment_type == garment_number i.garment_type in
    let (both, active) = &&-eq-true (own && kind) m.is_active fits in
    let (mine, same) = &&-eq-true own kind both in
    subst (IsPrepared customer profiles (i ∷ items)) (ok_inj e) (
      (
        refl,
        m,
        there,
        (==_iff m.customer_id customer).0 mine,
        garment_number-inj m.garment_type i.garment_type
            ((==_iff (garment_number m.garment_type) (garment_number i.garment_type)).0 same),
        active,
        ap (compute_yield i.garment_type m.measurement) (sym (or_one_lem i.quantity))
            ∙ as_bad_request-eq-ok computed yields,
      ),
      prepare-IsPrepared customer profiles items later,
    )

-- On stock that has a trail and books that are kept, a checkout that commits has resolved, garment by
-- garment, a yield from an active profile of the customer. It has added exactly one hold of this yield
-- for each garment with a roll; what each roll has reserved has grown by its holds, and no metres have
-- left a roll. The order's total and its discount are the prices of the garments, what it has as paid
-- is its deposits, and neither the trail of the stock nor the balance of the books is broken.
pub checkout_places :
    (item_key hold_key : ℕ → ℕ) (key now org store : ℕ) (dto : Checkout) (shop : Shop) {n : ℕ}
    {placed : Order} {after : Shop}
    → checkout item_key hold_key key now org store dto shop ≡ ok (n, placed, after)
    → IsTrail shop.stock
    → IsKept shop.books
    → (prepared : List Prepared) × IsPrepared dto.customer_id shop.profiles dto.items prepared
      × (after.stock.reservations
          ≡ shop.stock.reservations ++ holds_from item_key hold_key 0 prepared)
      × ((id : ℕ)
          → reserved_of id after.stock.batches
            ≡ reserved_of id shop.stock.batches
              +ℤ held_on id (holds_from item_key hold_key 0 prepared))
      × (stock_total after.stock.batches ≡ stock_total shop.stock.batches)
      × (placed.total_amount +ℤ or_nothing dto.discount_amount ≡ sum_of price_of prepared)
      × (placed.paid_amount ≡ deposits placed)
      × IsTrail after.stock
      × IsKept after.books
unfolding checkout new_order
checkout_places item_key hold_key key now org store dto shop done trail kept =
    let (_, _, h1) =
      >>=-eq-ok (or_throw (find (is_customer dto.customer_id org) shop.customers) not_found) _
        done in
    let (_, _, h2) = >>=-eq-ok (guard (not (length dto.items == 0)) bad_request) _ h1 in
    let (_, _, h3) = >>=-eq-ok (check_buttons org (button_ids dto.items) shop.buttons) _ h2 in
    let (prepared, resolved, h4) =
      >>=-eq-ok (prepare dto.customer_id shop.profiles dto.items) _ h3 in
    let created = new_order key org prepared (or_nothing dto.discount_amount) in
    let ((items, stock), put, h5) =
      >>=-eq-ok (place_items item_key hold_key store key 0 prepared (shop.order_items, shop.stock))
        _ h4 in
    let ((o, books), taken, e) =
      >>=-eq-ok (take_deposit dto.deposit_amount (or_card dto.deposit_method) created shop.books) _
        h5 in
    let (rows, metres, reserved, kept_trail) =
      place_items-HasHeld item_key hold_key store key 0 prepared shop.order_items shop.stock put
        trail in
    let (paid, total, kept_books) =
      take_deposit-IsKept dto.deposit_amount (or_card dto.deposit_method) created shop.books refl
        refl taken kept in
    let end = ok_inj e in
    (
      prepared,
      prepare-IsPrepared dto.customer_id shop.profiles dto.items resolved,
      ap (λ (r : ℕ × Order × Shop). r.2.stock.reservations) (sym end) ∙ rows,
      λ id. ap (λ (r : ℕ × Order × Shop). reserved_of id r.2.stock.batches) (sym end) ∙ reserved id,
      ap (λ (r : ℕ × Order × Shop). stock_total r.2.stock.batches) (sym end) ∙ metres,
      ap (λ (r : ℕ × Order × Shop). r.1.total_amount +ℤ or_nothing dto.discount_amount) (sym end)
          ∙ ap (λ t. t +ℤ or_nothing dto.discount_amount) total
          ∙ order_total_lem prepared (or_nothing dto.discount_amount),
      subst (λ (r : ℕ × Order × Shop). r.1.paid_amount ≡ deposits r.1) end paid,
      subst (λ (r : ℕ × Order × Shop). IsTrail r.2.stock) end kept_trail,
      subst (λ (r : ℕ × Order × Shop). IsKept r.2.books) end kept_books,
    )
