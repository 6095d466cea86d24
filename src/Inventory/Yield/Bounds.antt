-- ===== src/Inventory/Yield/Bounds.antt =====
-- The yield is enough for the garments and wastes less than a centimetre.
use tailor_erp.Prelude.{
  ℕ, ◌+◌, ◌/◌, ◌≡◌, ◌≢◌, refl, ◌∙◌, some, arith, Decimal, pos, negsuc, ◌+ℤ◌, ◌*ℤ◌, ◌≤ℤ◌, ◌<ℤ◌,
  max_ℤ, int_laws, ok, length, *ℤ_parts, lt→leb_ℤ, *ℤ_mono, *ℤ_nonneg,
}
use tailor_erp.Inventory.Yield.{
  Length, Measurement, GarmentType, thobe, trousers, round_up, at_least_one, calculate_robe,
  robe_params, robe_yield, compute_yield,
}

-- Rounding up to the centimetre.
abbrev pub RoundedUp : Length → Decimal → Type 0
RoundedUp exact metres = (exact ≤ℤ metres *ℤ 100) × (metres *ℤ 100 <ℤ exact +ℤ pos 100)

round_up-RoundedUp : (n : Length) → pos 0 ≤ℤ n → RoundedUp n (round_up n)
unfolding round_up
round_up-RoundedUp (pos n) h = (
  omega (int_laws, *ℤ_parts (pos ((n + 99) / 100)) 100),
  omega (int_laws, *ℤ_parts (pos ((n + 99) / 100)) 100),
)
round_up-RoundedUp (negsuc n) h = absurd (omega arith)

-- What a robe cut to these two lengths takes.
abbrev pub needed : GarmentType → ℕ → Length → Length → Length
needed garment quantity length sleeve =
    (length *ℤ (robe_params garment).0 +ℤ sleeve +ℤ (robe_params garment).1)
    *ℤ at_least_one quantity

hem_nonneg : (garment : GarmentType) → pos 0 ≤ℤ (robe_params garment).1
unfolding robe_params
hem_nonneg thobe = omega arith
hem_nonneg _ = omega arith

needed_mono :
    (garment : GarmentType) (quantity : ℕ) (l l' s s' : Length)
    → l ≤ℤ l'
    → s ≤ℤ s'
    → needed garment quantity l s ≤ℤ needed garment quantity l' s'
needed_mono garment quantity l l' s s' h k =
    *ℤ_mono _ _ (at_least_one quantity) (omega (int_laws, *ℤ_mono l l' (robe_params garment).0 h))

needed_nonneg :
    (garment : GarmentType) (quantity : ℕ) (l s : Length)
    → pos 0 ≤ℤ l
    → pos 0 ≤ℤ s
    → pos 0 ≤ℤ needed garment quantity l s
needed_nonneg garment quantity l s h k =
    *ℤ_nonneg _ (at_least_one quantity)
      (omega (int_laws, hem_nonneg garment, *ℤ_nonneg l (robe_params garment).0 h))

robe_eq :
    (garment : GarmentType) (m : Measurement) (quantity : ℕ)
    → garment ≢ trousers
    → compute_yield garment m quantity ≡ robe_yield garment m quantity
unfolding compute_yield
robe_eq trousers m quantity robe = absurd (robe refl)
robe_eq _ m quantity robe = refl

robe_yield_lem :
    (garment : GarmentType) (m : Measurement) (quantity : ℕ) (front back left right : Length)
    → m.m1_front_length ≡ some front
    → m.m1_back_length ≡ some back
    → m.m3_sleeve_left ≡ some left
    → m.m3_sleeve_right ≡ some right
    → pos 0 <ℤ max_ℤ front back
    → pos 0 <ℤ max_ℤ left right
    → robe_yield garment m quantity
      ≡ ok (round_up (needed garment quantity (max_ℤ front back) (max_ℤ left right)))
unfolding robe_yield calculate_robe
robe_yield_lem garment m quantity front back left right f b lf r long wide = rw (
  f,
  b,
  lf,
  r,
  lt→leb_ℤ (max_ℤ front back) (pos 0) long,
  lt→leb_ℤ (max_ℤ left right) (pos 0) wide,
)

-- A garment of the robe family with all four points measured, at least one of each pair positive, has a
-- yield. It is the exact length for the longer side of each pair rounded up to the centimetre, so
-- it is enough for any robe that is no longer than that on either pair.
pub compute_yield_covers :
    (garment : GarmentType) (m : Measurement) (quantity : ℕ) (front back left right l s : Length)
    → garment ≢ trousers
    → m.m1_front_length ≡ some front
    → m.m1_back_length ≡ some back
    → m.m3_sleeve_left ≡ some left
    → m.m3_sleeve_right ≡ some right
    → pos 0 <ℤ max_ℤ front back
    → pos 0 <ℤ max_ℤ left right
    → l ≤ℤ max_ℤ front back
    → s ≤ℤ max_ℤ left right
    → (y : Decimal) × (compute_yield garment m quantity ≡ ok y)
      × RoundedUp (needed garment quantity (max_ℤ front back) (max_ℤ left right)) y
      × (needed garment quantity l s ≤ℤ y *ℤ 100)
compute_yield_covers garment m quantity front back left right l s robe f b lf r long wide hl hs =
    let exact = needed garment quantity (max_ℤ front back) (max_ℤ left right) in
    let up = round_up-RoundedUp exact (
      needed_nonneg garment quantity (max_ℤ front back) (max_ℤ left right) (omega arith)
        (omega arith)) in
    (
      round_up exact,
      robe_eq garment m quantity robe
          ∙ robe_yield_lem garment m quantity front back left right f b lf r long wide,
      up,
      omega (
        arith,
        up.0,
        needed_mono garment quantity l (max_ℤ front back) s (max_ℤ left right) hl hs,
      ),
    )
