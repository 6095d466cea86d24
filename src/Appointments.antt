-- ===== src/Appointments.antt =====
-- apps/api/src/appointments: availability.service.ts and appointments.service.ts.
-- A time is a number of milliseconds. `set_hours`, the reading of a date and its weekday are the Date
-- library's, so they are parameters. Notes and the reason of a cancellation are not modelled.
pub mod Slots
pub mod Clashes
pub mod Rewriting
pub mod Booked
mod Tests
use tailor_erp.Prelude.{
  ℕ, zero, suc, ◌+◌, ◌-◌, ◌*◌, ◌/◌, Bool, true, false, not, ◌&&◌, Option, none, some, List, [], ◌∷◌,
  ltb, leb, ◌==◌, if◌then◌else◌, bad_request, forbidden, not_found, Result, ok, err, ◌>>=◌, ◌>>◌,
  guard, or_throw, keep, find, any, unique_violation, update_where,
}

pub data AppointmentStatus : Type 0 where
  scheduled confirmed in_progress completed cancelled no_show : AppointmentStatus

pub data StoreStatus : Type 0 where
  active paused closed : StoreStatus

-- A row of appointments.
pub record Appointment : Type 0 where
  pub id : ℕ
  pub customer_id : ℕ
  pub store_id : ℕ
  pub assigned_tailor_id : Option ℕ
  pub scheduled_at : ℕ
  pub duration_minutes : ℕ
  pub status : AppointmentStatus

-- A text "09:00" is its hours and minutes.
pub record OperatingWindow : Type 0 where
  pub opening : Option (ℕ × ℕ)
  pub closing : Option (ℕ × ℕ)

pub record Store : Type 0 where
  pub id : ℕ
  pub organization_id : ℕ
  pub status : StoreStatus
  pub operating_hours : ℕ → Option OperatingWindow

-- `['scheduled', 'confirmed', 'in_progress'].includes(status)`
abbrev pub is_occupying : AppointmentStatus → Bool
is_occupying scheduled = true
is_occupying confirmed = true
is_occupying in_progress = true
is_occupying completed = false
is_occupying cancelled = false
is_occupying no_show = false

abbrev pub is_open : StoreStatus → Bool
is_open active = true
is_open paused = false
is_open closed = false

abbrev pub minutes : ℕ → ℕ
minutes n = n * 60000

abbrev pub end_of : Appointment → ℕ
end_of a = a.scheduled_at + minutes a.duration_minutes

-- SLOT_MINUTES
abbrev pub slot_minutes : ℕ
slot_minutes = 30

pub record Slot : Type 0 where
  pub time : ℕ
  pub available : Bool

-- `existing.some(…)`
abbrev pub overlaps : ℕ → ℕ → Appointment → Bool
overlaps slot slot_end a = ltb slot (end_of a) && ltb a.scheduled_at slot_end

abbrev pub slot_at : List Appointment → ℕ → ℕ → ℕ → Slot
slot_at existing now duration slot = record {
  time = slot;
  available = not (any (overlaps slot (slot + minutes duration)) existing) && ltb now slot;
}

abbrev pub with_slot : Slot → Option (List Slot) → Option (List Slot)
with_slot slot none = none
with_slot slot (some slots) = some (slot ∷ slots)

-- The loop of getSlots, on fuel; `none` is a loop that has run out of it.
unfoldable pub slots_loop : ℕ → List Appointment → ℕ → ℕ → ℕ → ℕ → Option (List Slot)
slots_loop zero existing now duration day_end slot = none
slots_loop (suc fuel) existing now duration day_end slot =
    let rest = slots_loop fuel existing now duration day_end (slot + minutes slot_minutes) in
    if leb (slot + minutes duration) day_end
    then with_slot (slot_at existing now duration slot) rest
    else some []

-- The query of the day's appointments.
abbrev pub is_in_day : ℕ → ℕ → ℕ → Appointment → Bool
is_in_day store day_start day_end a =
    (a.store_id == store)
    && is_occupying a.status
    && leb day_start a.scheduled_at
    && ltb a.scheduled_at day_end

module _ (set_hours : ℕ → ℕ × ℕ → ℕ) (weekday : ℕ → ℕ) where
  unfoldable pub day_slots :
      Store → ℕ → ℕ → ℕ → List Appointment → Option (ℕ × ℕ) → Option (ℕ × ℕ) → Option (List Slot)
  unfolding slots_loop
  day_slots store date duration now rows (some opening) (some closing) =
      let day_start = set_hours date opening in
      let day_end = set_hours date closing in
      slots_loop (suc ((day_end - day_start) / minutes slot_minutes + 1))
        (keep (is_in_day store.id day_start day_end) rows) now duration day_end day_start
  day_slots store date duration now rows (some opening) none = some []
  day_slots store date duration now rows none closing = some []

  unfoldable pub window_slots :
      Store → ℕ → ℕ → ℕ → List Appointment → Option OperatingWindow → Option (List Slot)
  unfolding day_slots
  window_slots store date duration now rows none = some []
  window_slots store date duration now rows (some w) =
      day_slots store date duration now rows w.opening w.closing

  -- getSlots: an absent store or an invalid date throws; the inner `none` is a loop without fuel.
  unfoldable pub get_slots :
      List Store → List Appointment → ℕ → ℕ → Option ℕ → ℕ → Result (Option (List Slot))
  unfolding window_slots
  get_slots stores rows now store_id date duration = do
    store ← or_throw (find (λ (s : Store). s.id == store_id) stores) not_found
    if is_open store.status
        then (do
          day ← or_throw date bad_request
          ok (window_slots store day duration now rows (store.operating_hours (weekday day))))
        else ok (some [])

-- The candidates of assertSlotFree.
abbrev pub not_excluded : Option ℕ → Appointment → Bool
not_excluded none a = true
not_excluded (some id) a = not (a.id == id)

abbrev pub starts_before : ℕ → ℕ → Option ℕ → Appointment → Bool
starts_before store end exclude a =
    (a.store_id == store)
    && not_excluded exclude a
    && is_occupying a.status
    && ltb a.scheduled_at end

abbrev pub later : Appointment → Option Appointment → Option Appointment
later a none = some a
later a (some b) = if ltb a.scheduled_at b.scheduled_at then some b else some a

-- `orderBy: { scheduledAt: 'desc' }` of findFirst
abbrev pub latest : List Appointment → Option Appointment
latest [] = none
latest (a ∷ rows) = later a (latest rows)

abbrev pub free_after : ℕ → Option Appointment → Result (Unit {0})
free_after at none = ok tt
free_after at (some clash) = if ltb at (end_of clash) then err bad_request else ok tt

-- assertSlotFree
unfoldable pub assert_slot_free : ℕ → ℕ → ℕ → Option ℕ → List Appointment → Result (Unit {0})
assert_slot_free store at duration exclude rows =
    free_after at (latest (keep (starts_before store (at + minutes duration) exclude) rows))

pub record BookAppointment : Type 0 where
  pub store_id : ℕ
  pub scheduled_at : ℕ
  pub duration_minutes : Option ℕ

-- `dto.durationMinutes ?? 30`
abbrev pub or_thirty : Option ℕ → ℕ
or_thirty none = 30
or_thirty (some d) = d

abbrev pub duration_of : BookAppointment → ℕ
duration_of dto = or_thirty dto.duration_minutes

abbrev pub is_bookable : ℕ → ℕ → Store → Bool
is_bookable store org s = (s.id == store) && (s.organization_id == org) && is_open s.status

abbrev pub booking : ℕ → ℕ → BookAppointment → Appointment
booking id customer dto = record {
  id = id;
  customer_id = customer;
  store_id = dto.store_id;
  assigned_tailor_id = none;
  scheduled_at = dto.scheduled_at;
  duration_minutes = duration_of dto;
  status = scheduled;
}

-- book; the id of the new row is the database's, and its key refuses one that is taken.
unfoldable pub book :
    List Store → ℕ → ℕ → ℕ → ℕ → BookAppointment → List Appointment → Result (List Appointment)
unfolding assert_slot_free
book stores now id customer org dto rows = do
  store ← or_throw (find (is_bookable dto.store_id org) stores) bad_request
  guard (not (ltb dto.scheduled_at now)) bad_request
  assert_slot_free dto.store_id dto.scheduled_at (duration_of dto) none rows
  guard (not (any (λ (a : Appointment). a.id == id) rows)) unique_violation
  ok (booking id customer dto ∷ rows)

pub record RescheduleAppointment : Type 0 where
  pub scheduled_at : Option ℕ
  pub is_cancelled : Bool

abbrev pub is_changeable : AppointmentStatus → Bool
is_changeable scheduled = true
is_changeable confirmed = true
is_changeable in_progress = false
is_changeable completed = false
is_changeable cancelled = false
is_changeable no_show = false

abbrev pub with_status : AppointmentStatus → Appointment → Appointment
with_status status a = record a { status = status }

abbrev pub moved_to : ℕ → Appointment → Appointment
moved_to time a = record a { scheduled_at = time; status = scheduled }

abbrev pub has_id : ℕ → Appointment → Bool
has_id id a = a.id == id

unfoldable pub reschedule :
    ℕ → Appointment → Option ℕ → List Appointment → Result (List Appointment)
unfolding assert_slot_free update_where
reschedule now a none rows = err bad_request
reschedule now a (some time) rows = do
  guard (not (ltb time now)) bad_request
  assert_slot_free a.store_id time a.duration_minutes (some a.id) rows
  ok (update_where (has_id a.id) (moved_to time) rows)

-- updateForCustomer
unfoldable pub update_for_customer :
    ℕ → ℕ → ℕ → RescheduleAppointment → List Appointment → Result (List Appointment)
unfolding reschedule update_where
update_for_customer now customer id dto rows = do
  a ← or_throw (find (has_id id) rows) not_found
  guard (a.customer_id == customer) not_found
  guard (is_changeable a.status) forbidden
  if dto.is_cancelled
      then ok (update_where (has_id id) (with_status cancelled) rows)
      else reschedule now a dto.scheduled_at rows

abbrev pub in_store : ℕ → ℕ → Appointment → Bool
in_store id store a = (a.id == id) && (a.store_id == store)

abbrev pub assigned : AppointmentStatus → Option ℕ → Appointment → Appointment
assigned status none a = with_status status a
assigned status (some tailor) a = record a { status = status; assigned_tailor_id = some tailor }

-- updateForStaff
unfoldable pub update_for_staff :
    ℕ → ℕ → AppointmentStatus → Option ℕ → List Appointment → Result (List Appointment)
unfolding update_where
update_for_staff store id status tailor rows = do
  a ← or_throw (find (in_store id store) rows) not_found
  ok (update_where (has_id id) (assigned status tailor) rows)
