-- ===== src/Zatca/Vat.antt =====
-- apps/api/src/zatca/zatca-vat.ts. Amounts are whole halalas (hundredths of a riyal), so `round2` of an
-- amount that comes from a money column is the amount itself; a rate is a whole percentage. A quotient
-- is rounded once, half away from zero. `decimal.js` first cuts it to 20 significant digits, which
-- moves it by less than the distance to a tie for every amount below 10^15 halalas.
mod Rounding
pub mod Laws
use tailor_erp.Prelude.{ℕ, suc, ◌+◌, ◌*◌, ◌/◌, ℤ, Decimal, pos, negsuc, ◌+ℤ◌, ◌-ℤ◌}

-- Decimal.ROUND_HALF_UP of n / d, for a divisor that is not zero.
unfoldable pub div_half_up : ℕ → ℕ → ℕ
div_half_up n d = (2 * n + d) / (2 * d)

-- The same for an amount of either sign: halves go away from zero.
unfoldable pub round_quotient : Decimal → ℕ → ℕ → Decimal
unfolding div_half_up
round_quotient (pos n) k d = pos (div_half_up (n * k) d)
round_quotient (negsuc n) k d = pos 0 -ℤ pos (div_half_up (suc n * k) d)

pub record VatBreakdown : Type 0 where
  pub net : Decimal
  pub vat : Decimal
  pub gross : Decimal
  pub rate : ℕ

-- KSA_VAT_RATE
abbrev pub ksa_vat_rate : ℕ
ksa_vat_rate = 15

-- splitInclusive
unfoldable pub split_inclusive : Decimal → ℕ → VatBreakdown
unfolding round_quotient
split_inclusive gross rate =
    let net = round_quotient gross 100 (100 + rate) in
    record { net = net; vat = gross -ℤ net; gross = gross; rate = rate }

-- addExclusive
unfoldable pub add_exclusive : Decimal → ℕ → VatBreakdown
unfolding round_quotient
add_exclusive net rate =
    let vat = round_quotient net rate 100 in
    record { net = net; vat = vat; gross = net +ℤ vat; rate = rate }
