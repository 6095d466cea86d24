-- ===== src/Appointments/Slots.antt =====
-- The slots of a day: that the loop ends, and which slots it lists.
use tailor_erp.Prelude.{
  ℕ, zero, suc, ◌+◌, ◌*◌, ◌≡◌, Option, none, some, List, [], ◌∷◌, leb, if◌then◌else◌,
}
use tailor_erp.Appointments.{Appointment, Slot, minutes, slot_minutes, slot_at}

-- The list at a position.
abbrev pub get_elem? {ℓ} : {A : Type ℓ} → List A → ℕ → Option A
get_elem? [] n = none
get_elem? (x ∷ xs) zero = some x
get_elem? (x ∷ xs) (suc n) = get_elem? xs n

module _ (existing : List Appointment) (now duration day_end : ℕ) where
  -- The slot that starts a number of half hours after the first, if it ends within the day.
  abbrev pub expected : ℕ → ℕ → Option Slot
  expected first n =
      let start = first + n * minutes slot_minutes in
      if leb (start + minutes duration) day_end
      then some (slot_at existing now duration start)
      else none

  IsDay : ℕ → Option (List Slot) → Type 0
  IsDay first result =
      (slots : List Slot) × (result ≡ some slots) × ((n : ℕ) → get_elem? slots n ≡ expected first n)
