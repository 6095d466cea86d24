-- ===== src/Appointments/Tests.antt =====
-- A shop with an appointment from 1800 to 3600 seconds: a free slot, a booking, and the slots of a
-- morning.
use tailor_erp.Prelude.{
  ℕ, ◌+◌, ◌*◌, ◌≡◌, refl, true, false, none, some, List, [], ◌∷◌, arith, if◌then◌else◌, bad_request,
  ok, err, any,
}
use tailor_erp.Appointments.{
  active, Appointment, Store, Slot, slots_loop, day_slots, window_slots, get_slots,
  assert_slot_free, BookAppointment, booking, book,
}
use tailor_erp.Appointments.Clashes.{IsBook, is_taken_by, assert_slot_free_decides}
use tailor_erp.Appointments.Booked.{booked, Run, empty, next, Run-IsBook}

abbrev shop : Store
shop = record {
  id = 1;
  organization_id = 9;
  status = active;
  operating_hours = λ day. some (record { opening = some (0, 30); closing = some (2, 0) });
}

abbrev first_request : BookAppointment
first_request = record { store_id = 1; scheduled_at = 1800000; duration_minutes = none }

abbrev first_booking : Appointment
first_booking = booking 5 44 first_request

abbrev one_booked : List Appointment
one_booked = first_booking ∷ []

one_booked-Run : Run one_booked
unfolding book assert_slot_free
one_booked-Run =
    next [] one_booked empty
      (booked (shop ∷ []) 0 5 44 9 first_request [] one_booked (omega arith) refl)

Run-IsBook_example : IsBook one_booked
Run-IsBook_example = Run-IsBook one_booked-Run

assert_slot_free_decides_example :
    assert_slot_free 1 3000000 30 none one_booked
    ≡ (if any (is_taken_by 1 3000000 30 none) one_booked then err bad_request else ok tt)
assert_slot_free_decides_example =
    assert_slot_free_decides 1 3000000 30 none one_booked (Run-IsBook one_booked-Run)

taken_slot : assert_slot_free 1 3000000 30 none one_booked ≡ err bad_request
unfolding assert_slot_free
taken_slot = refl

abbrev clock : ℕ → ℕ × ℕ → ℕ
clock date (h, m) = date + h * 3600000 + m * 60000

abbrev same_day : ℕ → ℕ
same_day date = 0

abbrev morning : List Slot
morning =
    record { time = 1800000; available = false }
    ∷ record { time = 3600000; available = true }
    ∷ record { time = 5400000; available = true }
    ∷ []

morning_slots : get_slots clock same_day (shop ∷ []) one_booked 0 1 (some 0) 30 ≡ ok (some morning)
unfolding get_slots window_slots day_slots slots_loop
morning_slots = refl
