-- ===== src/Appointments/Booked.antt =====
-- The book of appointments through bookings, changes by customers and changes by the staff.
use tailor_erp.Prelude.{
  ℕ, ◌<◌, ◌≡◌, refl, inl, inr, Bool, true, false, not, ◌&&◌, Option, none, some, List, [], arith,
  ltb, ◌==◌, bad_request, forbidden, not_found, ok, ok_inj, guard, or_throw, >>=-eq-ok, find, any,
  All, err_ne_ok, All-zip, All-mono, or_throw-eq-ok, guard-eq-ok, if-eq-ok, unique_violation,
  update_where, All-find, subst, any-All,
}
use tailor_erp.Appointments.{
  AppointmentStatus, cancelled, Appointment, Store, is_occupying, assert_slot_free, BookAppointment,
  duration_of, is_bookable, booking, book, RescheduleAppointment, is_changeable, with_status,
  moved_to, has_id, reschedule, update_for_customer, in_store, assigned, update_for_staff,
}
use tailor_erp.Appointments.Clashes.{collide, AreApart, IsBook, is_taken_by}
use tailor_erp.Appointments.Rewriting.{
  IsBook-one, IsClear, free_of, update_idle-IsBook, rewrite-IsBook,
}

same_row : (a x : Appointment) → AreApart a x → has_id a.id x ≡ true → a ≡ x
same_row a x (inl (_, same)) h = same
same_row a x (inr (differ, _)) h = absurd (ground arith)

moved_clear :
    (a b : Appointment) (time : ℕ)
    → is_taken_by a.store_id time a.duration_minutes (some a.id) b ≡ false
    → has_id a.id b ≡ false
    → collide (moved_to time a) b ≡ false
moved_clear a b time free other = ground arith

reschedule-IsBook :
    (now id : ℕ) (a : Appointment) (time : Option ℕ) (rows : List Appointment)
    {after : List Appointment}
    → find (has_id id) rows ≡ some a
    → reschedule now a time rows ≡ ok after
    → IsBook rows
    → IsBook after
unfolding reschedule
reschedule-IsBook now id a none rows found done book = absurd (err_ne_ok done)
reschedule-IsBook now id a (some time) rows found done book =
    let (_, _, h1) = >>=-eq-ok (guard (not (ltb time now)) bad_request) _ done in
    let (_, free, h2) =
      >>=-eq-ok (assert_slot_free a.store_id time a.duration_minutes (some a.id) rows) _ h1 in
    let (near, _) = All-find (λ b. All (AreApart b) rows) (has_id id) rows book.0 found in
    let clear = free_of a.store_id time a.duration_minutes (some a.id) rows book free in
    subst IsBook (ok_inj h2) (
      rewrite-IsBook a.id (moved_to time) (λ x. (refl, refl)) rows
        (All-mono (AreApart a) (λ x. All (IsClear a.id (moved_to time) (λ y. (refl, refl)) x) rows)
          rows
          (λ x near_x.
            All-mono (λ b. is_taken_by a.store_id time a.duration_minutes (some a.id) b ≡ false)
              (IsClear a.id (moved_to time) (λ y. (refl, refl)) x) rows
              (λ b free_b h k.
                subst (λ y. collide (moved_to time y) b ≡ false) (same_row a x near_x h)
                  (moved_clear a b time free_b k))
              clear)
          near)
        book)

update_for_customer-IsBook :
    (now customer id : ℕ) (dto : RescheduleAppointment) (rows : List Appointment)
    {after : List Appointment}
    → update_for_customer now customer id dto rows ≡ ok after
    → IsBook rows
    → IsBook after
unfolding update_for_customer
update_for_customer-IsBook now customer id dto rows done book =
    let (a, found, h1) = >>=-eq-ok (or_throw (find (has_id id) rows) not_found) _ done in
    let (_, _, h2) = >>=-eq-ok (guard (a.customer_id == customer) not_found) _ h1 in
    let (_, _, h3) = >>=-eq-ok (guard (is_changeable a.status) forbidden) _ h2 in
    elim (if-eq-ok dto.is_cancelled (ok (update_where (has_id id) (with_status cancelled) rows))
      (reschedule now a dto.scheduled_at rows) h3) [
        | inl (_, gone) ↦ subst IsBook (ok_inj gone) (
            update_idle-IsBook id (with_status cancelled) rows (λ x. (refl, refl)) (λ x. refl) book)
        | inr (_, moved) ↦
            reschedule-IsBook now id a dto.scheduled_at rows
              (or_throw-eq-ok (find (has_id id) rows) not_found found) moved book
      ]

new_clear :
    (stores : List Store) (id customer : ℕ) (dto : BookAppointment) (b : Appointment)
    → is_taken_by dto.store_id dto.scheduled_at (duration_of dto) none b ≡ false
    → (b.id == id) ≡ false
    → AreApart (booking id customer dto) b
new_clear stores id customer dto b free fresh = inr (ground arith, ground arith)

not-true : (b : Bool) → not b ≡ true → b ≡ false
not-true b h = ground arith

book-IsBook :
    (stores : List Store) (now id customer org : ℕ) (dto : BookAppointment)
    (rows : List Appointment) {after : List Appointment}
    → 0 < duration_of dto
    → book stores now id customer org dto rows ≡ ok after
    → IsBook rows
    → IsBook after
unfolding book
book-IsBook stores now id customer org dto rows lasts done valid =
    let (_, _, h1) =
      >>=-eq-ok (or_throw (find (is_bookable dto.store_id org) stores) bad_request) _ done in
    let (_, _, h2) = >>=-eq-ok (guard (not (ltb dto.scheduled_at now)) bad_request) _ h1 in
    let (_, free, h3) =
      >>=-eq-ok (assert_slot_free dto.store_id dto.scheduled_at (duration_of dto) none rows) _ h2 in
    let (_, fresh, h4) = >>=-eq-ok (guard (not (any (has_id id) rows)) unique_violation) _ h3 in
    let clear = free_of dto.store_id dto.scheduled_at (duration_of dto) none rows valid free in
    let others = any-All (has_id id) rows (
      not-true (any (has_id id) rows)
        (guard-eq-ok (not (any (has_id id) rows)) unique_violation fresh)) in
    subst IsBook (ok_inj h4) (
      IsBook-one (booking id customer dto) rows lasts
        (All-zip (λ b. is_taken_by dto.store_id dto.scheduled_at (duration_of dto) none b ≡ false)
          (λ b. has_id id b ≡ false) (AreApart (booking id customer dto)) rows
          (λ b x y. new_clear stores id customer dto b x y) clear others)
        valid)

-- A change of status by the staff that makes an idle appointment occupy its time again.
abbrev pub revives : AppointmentStatus → ℕ → Appointment → Bool
revives status id a = has_id id a && is_occupying status && not (is_occupying a.status)

still_clear :
    (status : AppointmentStatus) (tailor : Option ℕ) (id : ℕ) (a b : Appointment)
    → revives status id a ≡ false
    → AreApart a b
    → has_id id a ≡ true
    → has_id id b ≡ false
    → collide (assigned status tailor a) b ≡ false
still_clear status none id a b kept (inl (e, same)) h k = absurd (ground (arith, e))
still_clear status (some t) id a b kept (inl (e, same)) h k = absurd (ground (arith, e))
still_clear status none id a b kept (inr (differ, clear)) h k = ground arith
still_clear status (some t) id a b kept (inr (differ, clear)) h k = ground arith

keeps_assigned :
    (status : AppointmentStatus) (tailor : Option ℕ) (a : Appointment)
    → ((assigned status tailor a).id ≡ a.id)
      × ((assigned status tailor a).duration_minutes ≡ a.duration_minutes)
keeps_assigned status none a = (refl, refl)
keeps_assigned status (some t) a = (refl, refl)

update_for_staff-IsBook :
    (store id : ℕ) (status : AppointmentStatus) (tailor : Option ℕ) (rows : List Appointment)
    {after : List Appointment}
    → any (revives status id) rows ≡ false
    → update_for_staff store id status tailor rows ≡ ok after
    → IsBook rows
    → IsBook after
unfolding update_for_staff
update_for_staff-IsBook store id status tailor rows kept done valid =
    let (_, _, h) = >>=-eq-ok (or_throw (find (in_store id store) rows) not_found) _ done in
    subst IsBook (ok_inj h) (
      rewrite-IsBook id (assigned status tailor) (keeps_assigned status tailor) rows
        (All-zip (λ a. revives status id a ≡ false) (λ a. All (AreApart a) rows)
          (λ a. All (IsClear id (assigned status tailor) (keeps_assigned status tailor) a) rows)
          rows
          (λ a x near.
            All-mono (AreApart a)
              (IsClear id (assigned status tailor) (keeps_assigned status tailor) a) rows
              (λ b r h k. still_clear status tailor id a b x r h k) near)
          (any-All (revives status id) rows kept) valid.0)
        valid)

-- The requests that change the book.
pub data Step : List Appointment → List Appointment → Type 0 where
  booked :
      (stores : List Store) (now id customer org : ℕ) (dto : BookAppointment)
      (rows after : List Appointment)
      → 0 < duration_of dto
      → book stores now id customer org dto rows ≡ ok after
      → Step rows after
  by_customer :
      (now customer id : ℕ) (dto : RescheduleAppointment) (rows after : List Appointment)
      → update_for_customer now customer id dto rows ≡ ok after
      → Step rows after
  by_staff :
      (store id : ℕ) (status : AppointmentStatus) (tailor : Option ℕ)
      (rows after : List Appointment)
      → any (revives status id) rows ≡ false
      → update_for_staff store id status tailor rows ≡ ok after
      → Step rows after

pub data Run : List Appointment → Type 0 where
  empty : Run []
  next : (rows after : List Appointment) → Run rows → Step rows after → Run after

Step-IsBook : {rows after : List Appointment} → Step rows after → IsBook rows → IsBook after
Step-IsBook (booked stores now id customer org dto rows after lasts done) valid =
    book-IsBook stores now id customer org dto rows lasts done valid
Step-IsBook (by_customer now customer id dto rows after done) valid =
    update_for_customer-IsBook now customer id dto rows done valid
Step-IsBook (by_staff store id status tailor rows after kept done) valid =
    update_for_staff-IsBook store id status tailor rows kept done valid

-- However bookings of positive length, changes by customers and changes by the staff follow each other
-- from an empty book, no two appointments of one store that occupy their time overlap, each lasting
-- some minutes. The changes by the staff are those that leave an idle appointment idle.
pub Run-IsBook : {rows : List Appointment} → Run rows → IsBook rows
Run-IsBook empty = (tt, tt)
Run-IsBook (next rows after run step) = Step-IsBook step (Run-IsBook run)
