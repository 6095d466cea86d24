-- ===== src/Zatca/Vat/Laws.antt =====
-- The laws of the VAT split.
use native.Mathlib.Nat.{div-lt_iff_lt-mul}
use tailor_erp.Prelude.{
  ℕ, suc, ◌+◌, ◌*◌, ◌≤◌, ◌<◌, ◌≡◌, ap, List, [], ◌∷◌, arith, Decimal, pos, pos_part, ◌+ℤ◌, ◌≤ℤ◌,
  int_laws, parts_of_eq, length, pos-+ℤ,
}
use tailor_erp.Zatca.Vat.Rounding.{div_half_up_nearest}
use tailor_erp.Zatca.Vat.{div_half_up, ksa_vat_rate, split_inclusive, add_exclusive}

half_up_net-le : (g rate : ℕ) → div_half_up (g * 100) (100 + rate) ≤ g
unfolding div_half_up
half_up_net-le g rate =
    let below : 2 * (g * 100) + (100 + rate) < suc g * (2 * (100 + rate)) = grind arith in
    let h = (div-lt_iff_lt-mul {k = 2 * (100 + rate)} (omega arith)).1 below in omega (arith, h)

-- A split of a non-negative VAT-inclusive amount: both parts are non-negative, they add up to the
-- amount, and the net amount is amount * 100 / (100 + rate) rounded to the nearest halala.
pub split_inclusive_exact :
    (g rate : ℕ)
    → let b = split_inclusive (pos g) rate in
      (b.net +ℤ b.vat ≡ pos g)
      × (pos 0 ≤ℤ b.net)
      × (pos 0 ≤ℤ b.vat)
      × (2 * (g * 100) < 2 * (pos_part b.net * (100 + rate)) + (100 + rate))
      × (2 * (pos_part b.net * (100 + rate)) ≤ 2 * (g * 100) + (100 + rate))
unfolding split_inclusive
split_inclusive_exact g rate =
    let near = div_half_up_nearest (g * 100) (100 + rate) (omega arith) in
    (omega int_laws, omega int_laws, omega (int_laws, half_up_net-le g rate), near.0, near.1)

-- Adding VAT to a net amount and splitting the gross amount gives the net amount and the VAT back.
pub split_inclusive-add_exclusive :
    (n : ℕ)
    → let b = add_exclusive (pos n) ksa_vat_rate in
      ((split_inclusive b.gross ksa_vat_rate).net ≡ pos n)
      × ((split_inclusive b.gross ksa_vat_rate).vat ≡ b.vat)
unfolding split_inclusive add_exclusive
split_inclusive-add_exclusive n =
    let vat = div_half_up (n * ksa_vat_rate) 100 in
    let back : div_half_up ((n + vat) * 100) 115 ≡ n = unfold div_half_up in omega arith in
    rw pos-+ℤ (ap pos back, rw back (omega int_laws))

-- Splitting an amount in two moves the VAT by at most one halala.
split_in_two :
    (a b : ℕ)
    → let whole = split_inclusive (pos (a + b)) ksa_vat_rate in
      let first = split_inclusive (pos a) ksa_vat_rate in
      let second = split_inclusive (pos b) ksa_vat_rate in
      (whole.vat ≤ℤ first.vat +ℤ second.vat +ℤ pos 1)
      × (first.vat +ℤ second.vat ≤ℤ whole.vat +ℤ pos 1)
unfolding split_inclusive
split_in_two a b = omega int_laws

abbrev pub amount_of : List ℕ → ℕ
amount_of [] = 0
amount_of (a ∷ rest) = a + amount_of rest

-- The VAT of payments that are split one by one.
abbrev pub vat_of : List ℕ → Decimal
vat_of [] = pos 0
vat_of (a ∷ rest) = (split_inclusive (pos a) ksa_vat_rate).vat +ℤ vat_of rest

-- Splitting the payments of an order one by one moves the VAT, in either direction, from the VAT of the
-- whole by at most one halala for each payment after the first.
pub split_inclusive_drift :
    (a : ℕ) (rest : List ℕ)
    → let whole = split_inclusive (pos (amount_of (a ∷ rest))) ksa_vat_rate in
      (whole.vat ≤ℤ vat_of (a ∷ rest) +ℤ pos (length rest))
      × (vat_of (a ∷ rest) ≤ℤ whole.vat +ℤ pos (length rest))
split_inclusive_drift a [] =
    let same : (split_inclusive (pos (a + 0)) ksa_vat_rate).vat
        ≡ (split_inclusive (pos a) ksa_vat_rate).vat =
      ap (λ n. (split_inclusive (pos n) ksa_vat_rate).vat) (omega arith) in
    omega (int_laws, parts_of_eq same)
split_inclusive_drift a (b ∷ rest) =
    let (over, under) = split_inclusive_drift b rest in
    let (over', under') = split_in_two a (amount_of (b ∷ rest)) in
    (omega (int_laws, over, over'), omega (int_laws, under, under'))

-- A larger amount holds at least as much VAT.
pub split_inclusive_vat_mono :
    (a b : ℕ)
    → (split_inclusive (pos a) ksa_vat_rate).vat ≤ℤ (split_inclusive (pos (a + b)) ksa_vat_rate).vat
unfolding split_inclusive
split_inclusive_vat_mono a b = omega int_laws
