-- ===== src/Inventory/Yield.antt =====
-- apps/api/src/inventory/yield.service.ts, and computeYield of apps/api/src/pos/pos.service.ts.
-- A measurement is a number of hundredths of a centimetre, which is the same number of ten-thousandths
-- of a metre; the formulas are computed in that unit, without rounding, until the last step.
pub mod Bounds
use tailor_erp.Prelude.{
  ℕ, suc, ◌+◌, ◌/◌, Bool, ◌||◌, Option, none, some, ltb, if◌then◌else◌, ℤ, Decimal, pos, negsuc,
  ◌+ℤ◌, ◌-ℤ◌, ◌*ℤ◌, leb_ℤ, max_ℤ, bad_request, Result, ok, err, ◌>>=◌, ◌>>◌, or_throw,
}

-- Ten-thousandths of a metre.
abbrev pub Length : Type 0
Length = ℤ

-- toDecimalPlaces(2, ROUND_UP): away from zero.
unfoldable pub round_up : Length → Decimal
round_up (pos n) = pos ((n + 99) / 100)
round_up (negsuc n) = pos 0 -ℤ pos ((suc n + 99) / 100)

abbrev pub hem_allowance : Length
hem_allowance = pos 2000

abbrev pub bisht_hem_allowance : Length
bisht_hem_allowance = pos 3500

abbrev pub shirt_hem_allowance : Length
shirt_hem_allowance = pos 1500

abbrev pub trousers_hem_allowance : Length
trousers_hem_allowance = pos 2500

-- DEFAULT_MIN_USABLE_METERS
abbrev pub default_min_usable : Decimal
default_min_usable = pos 350

-- Math.max(1, quantity)
abbrev pub at_least_one : ℕ → ℕ
at_least_one quantity = if ltb quantity 1 then 1 else quantity

pub record RobeInput : Type 0 where
  pub total_length : Length
  pub sleeve_length : Length
  pub quantity : ℕ
  pub length_multiplier : ℕ
  pub hem_allowance : Length

abbrev pub robe_length : RobeInput → Length
robe_length i =
    (i.total_length *ℤ i.length_multiplier +ℤ i.sleeve_length +ℤ i.hem_allowance)
    *ℤ at_least_one i.quantity

-- calculateRobe
unfoldable pub calculate_robe : RobeInput → Result Decimal
unfolding round_up
calculate_robe i =
    if leb_ℤ i.total_length (pos 0) || leb_ℤ i.sleeve_length (pos 0)
    then err bad_request
    else ok (round_up (robe_length i))

abbrev pub trousers_length : Length → ℕ → Length → Length
trousers_length outseam quantity hem = (outseam *ℤ 2 +ℤ hem) *ℤ at_least_one quantity

-- calculateTrousers
unfoldable pub calculate_trousers : Length → ℕ → Length → Result Decimal
unfolding round_up
calculate_trousers outseam quantity hem =
    if leb_ℤ outseam (pos 0)
    then err bad_request
    else ok (round_up (trousers_length outseam quantity hem))

pub record CutCheck : Type 0 where
  pub is_ok : Bool
  pub available : Decimal
  pub remainder_after : Decimal
  pub min_usable : Decimal

-- canCutFrom
unfoldable pub can_cut_from : Decimal → Decimal → Option Decimal → Decimal → CutCheck
can_cut_from current reserved min_usable_meters required =
    let min_usable : Decimal = elim min_usable_meters [ none ↦ default_min_usable | some m ↦ m ] in
    let available = current -ℤ reserved in
    let remainder = available -ℤ required in
    record {
      is_ok = leb_ℤ min_usable remainder;
      available = available;
      remainder_after = remainder;
      min_usable = min_usable;
    }

-- The garment types that the code names, and any other text.
pub data GarmentType : Type 0 where
  thobe bisht shirt trousers other_garment : GarmentType

pub record Measurement : Type 0 where
  pub m1_front_length : Option Length
  pub m1_back_length : Option Length
  pub m3_sleeve_left : Option Length
  pub m3_sleeve_right : Option Length
  pub t4_outseam : Option Length

-- ROBE_YIELD_PARAMS[garmentType] ?? ROBE_YIELD_PARAMS.Thobe
unfoldable pub robe_params : GarmentType → ℕ × Length
robe_params bisht = (2, bisht_hem_allowance)
robe_params shirt = (1, shirt_hem_allowance)
robe_params _ = (2, hem_allowance)

-- The branch of the robe family (garmentFamily), with all four points present or an exception.
unfoldable pub robe_yield : GarmentType → Measurement → ℕ → Result Decimal
robe_yield garment m quantity = do
  front ← or_throw m.m1_front_length bad_request
  back ← or_throw m.m1_back_length bad_request
  left ← or_throw m.m3_sleeve_left bad_request
  right ← or_throw m.m3_sleeve_right bad_request
  calculate_robe (record {
    total_length = max_ℤ front back;
    sleeve_length = max_ℤ left right;
    quantity = quantity;
    length_multiplier = (robe_params garment).0;
    hem_allowance = (robe_params garment).1;
  })

-- computeYield
unfoldable pub compute_yield : GarmentType → Measurement → ℕ → Result Decimal
unfolding robe_yield
compute_yield trousers m quantity = do
  outseam ← or_throw m.t4_outseam bad_request
  calculate_trousers outseam quantity trousers_hem_allowance
compute_yield garment m quantity = robe_yield garment m quantity
