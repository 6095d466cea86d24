-- ===== src/Zatca/Vat/Rounding.antt =====
-- What rounding half up gives.
use native.Mathlib.Nat.{div-add-mod', mod-lt}
use tailor_erp.Prelude.{ℕ, ◌+◌, ◌*◌, ◌/◌, ◌%◌, ◌≤◌, ◌<◌, ◌≡◌, arith}
use tailor_erp.Zatca.Vat.{div_half_up}

-- The nearest whole number, the upper one at a tie.
pub div_half_up_nearest :
    (n d : ℕ)
    → 0 < d
    → (2 * n < 2 * (div_half_up n d * d) + d) × (2 * (div_half_up n d * d) ≤ 2 * n + d)
unfolding div_half_up
div_half_up_nearest n d h =
    let k = 2 * n + d in
    let parts : k / (2 * d) * (2 * d) + k % (2 * d) ≡ k = div-add-mod' k (2 * d) in
    let small : k % (2 * d) < 2 * d = mod-lt k (omega arith) in (grind arith, grind arith)
