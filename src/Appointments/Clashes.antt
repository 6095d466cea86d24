-- ===== src/Appointments/Clashes.antt =====
-- The check of a free slot against its reference: no occupying appointment of the store overlaps it.
use tailor_erp.Prelude.{
  ℕ, ◌+◌, ◌≤◌, ◌<◌, ◌≡◌, ◌⊎◌, refl, sym, inl, inr, Bool, true, false, ◌&&◌, Option, none, some,
  List, [], ◌∷◌, arith, ltb, ◌==◌, if◌then◌else◌, Bool-cases, Option-cases, some_inj, bad_request,
  ok, err, keep, find, any, All, All-zip, All-mono, All-keep, keep_sound, All-find, subst, All-kept,
  any-find, any-All,
}
use tailor_erp.Appointments.{
  Appointment, is_occupying, end_of, minutes, not_excluded, starts_before, latest, free_after,
  assert_slot_free, overlaps,
}

-- Two appointments of one store that take place at one time.
abbrev pub collide : Appointment → Appointment → Bool
collide a b =
    (a.store_id == b.store_id)
    && is_occupying a.status
    && is_occupying b.status
    && ltb a.scheduled_at (end_of b)
    && ltb b.scheduled_at (end_of a)

-- Rows with one id are one row; others do not clash.
abbrev pub AreApart : Appointment → Appointment → Type 0
AreApart a b = ((a.id ≡ b.id) × (a ≡ b)) ⊎ (((a.id == b.id) ≡ false) × (collide a b ≡ false))

abbrev pub IsBook : List Appointment → Type 0
IsBook rows =
    All (λ a. All (AreApart a) rows) rows × All (λ (a : Appointment). 0 < a.duration_minutes) rows

-- The slot is taken by the appointment.
abbrev pub is_taken_by : ℕ → ℕ → ℕ → Option ℕ → Appointment → Bool
is_taken_by store at duration exclude a =
    (a.store_id == store)
    && not_excluded exclude a
    && is_occupying a.status
    && overlaps at (at + minutes duration) a

-- Rows that start no later than a time.
abbrev AreBefore : ℕ → List Appointment → Type 0
AreBefore t rows = All (λ (b : Appointment). b.scheduled_at ≤ t) rows

latest-none : (rows : List Appointment) → latest rows ≡ none → rows ≡ []
latest-none [] found = refl
latest-none (a ∷ rows) found = elim (Option-cases (latest rows)) [
  | inl e ↦ let bad = rw e at found in cc
  | inr (b, e) ↦
      let bad = rw e at found in
      elim (Bool-cases (ltb a.scheduled_at b.scheduled_at)) [
        | inl t ↦ let worse = rw t at bad in cc
        | inr t ↦ let worse = rw t at bad in cc
      ]
]

latest-All {κ} :
    (P : Appointment → Type κ) (rows : List Appointment) {c : Appointment}
    → latest rows ≡ some c
    → All P rows
    → P c × AreBefore c.scheduled_at rows
latest-All P [] found h = cc
latest-All P (a ∷ rows) {c} found h = elim (Option-cases (latest rows)) [
  | inl e ↦
      let here : a ≡ c = some_inj (rw e at found) in
      (
        subst P here h.0,
        subst (λ d. AreBefore d.scheduled_at (a ∷ rows)) here
            (omega arith, subst (AreBefore a.scheduled_at) (sym (latest-none rows e)) tt),
      )
  | inr (b, e) ↦
      let (pb, before) = latest-All P rows e h.1 in
      let chosen = rw e at found in
      elim (Bool-cases (ltb a.scheduled_at b.scheduled_at)) [
        | inl t ↦
            let here : b ≡ c = some_inj (rw t at chosen) in
            (
              subst P here pb,
              subst (λ d. AreBefore d.scheduled_at (a ∷ rows)) here (ground arith, before),
            )
        | inr t ↦
            let here : a ≡ c = some_inj (rw t at chosen) in
            (
              subst P here h.0,
              subst (λ d. AreBefore d.scheduled_at (a ∷ rows)) here
                  (
                    omega arith,
                    All-mono (λ (d : Appointment). d.scheduled_at ≤ b.scheduled_at)
                        (λ (d : Appointment). d.scheduled_at ≤ a.scheduled_at) rows
                        (λ d le. ground arith) before,
                  ),
            )
      ]
]

module _ (store at duration : ℕ) (exclude : Option ℕ) where
  abbrev candidate : Appointment → Bool
  candidate = starts_before store (at + minutes duration) exclude

  abbrev taken : Appointment → Bool
  taken = is_taken_by store at duration exclude

  taken-candidate :
      (a : Appointment) → taken a ≡ true → (candidate a ≡ true) × (ltb at (end_of a) ≡ true)
  taken-candidate a h = ground arith

  candidate-taken :
      (a : Appointment) → candidate a ≡ true → taken a ≡ false → ltb at (end_of a) ≡ false
  candidate-taken a h k = ground arith

  taken_by_latest :
      (a c : Appointment)
      → taken a ≡ true
      → candidate c ≡ true
      → a.scheduled_at ≤ c.scheduled_at
      → 0 < c.duration_minutes
      → AreApart a c
      → ltb at (end_of c) ≡ true
  taken_by_latest a c h k le lasts (inl (_, same)) =
      subst (λ d. ltb at (end_of d) ≡ true) same ((taken-candidate a h).1)
  taken_by_latest a c h k le lasts (inr (_, clear)) = ground arith

  free_lem :
      (rows : List Appointment) (o : Option Appointment)
      → latest (keep candidate rows) ≡ o
      → any taken rows ≡ false
      → free_after at o ≡ ok tt
  free_lem rows none found clear = refl
  free_lem rows (some c) found clear =
      let rows_clear = any-All taken rows clear in
      let both =
        All-zip (λ a. taken a ≡ false) (λ a. candidate a ≡ true) (λ a. ltb at (end_of a) ≡ false)
          (keep candidate rows) (λ a k h. candidate-taken a h k)
          (All-keep (λ a. taken a ≡ false) candidate rows rows_clear) (keep_sound candidate rows) in
      let (ended, _) =
        latest-All (λ a. ltb at (end_of a) ≡ false) (keep candidate rows) found both in
      rw ended refl

  taken_lem :
      (rows : List Appointment) (o : Option Appointment)
      → latest (keep candidate rows) ≡ o
      → IsBook rows
      → any taken rows ≡ true
      → free_after at o ≡ err bad_request
  taken_lem rows o found book hit =
      let (a, there) = any-find taken rows hit in
      let (near, overlap) = All-find (λ b. All (AreApart b) rows) taken rows book.0 there in
      let (is_candidate, _) = taken-candidate a overlap in
      taken_at rows a o overlap is_candidate near there found book
    where
      in_candidates :
          (Q : Appointment → Type 0) (rows : List Appointment) (a : Appointment)
          → candidate a ≡ true
          → find taken rows ≡ some a
          → All Q (keep candidate rows)
          → Q a
      in_candidates Q rows a is_candidate there h =
          let (q, _) =
            All-find (λ b. candidate b ≡ true → Q b) taken rows (All-kept Q candidate rows h)
              there in
          q is_candidate

      taken_at :
          (rows : List Appointment) (a : Appointment) (o : Option Appointment)
          → taken a ≡ true
          → candidate a ≡ true
          → All (AreApart a) rows
          → find taken rows ≡ some a
          → latest (keep candidate rows) ≡ o
          → IsBook rows
          → free_after at o ≡ err bad_request
      taken_at rows a none overlap is_candidate near there found book = absurd (
          in_candidates (λ b. ⊥) rows a is_candidate there
            (subst (All (λ b. ⊥)) (sym (latest-none (keep candidate rows) found)) tt))
      taken_at rows a (some c) overlap is_candidate near there found book =
          let facts =
            All-zip (AreApart a) (λ (b : Appointment). 0 < b.duration_minutes)
              (λ b. AreApart a b × (0 < b.duration_minutes)) rows (λ b x y. (x, y)) near book.1 in
          let kept =
            All-zip (λ b. AreApart a b × (0 < b.duration_minutes)) (λ b. candidate b ≡ true)
              (λ b. AreApart a b × (0 < b.duration_minutes) × (candidate b ≡ true))
              (keep candidate rows) (λ b x y. (x.0, x.1, y))
              (All-keep (λ b. AreApart a b × (0 < b.duration_minutes)) candidate rows facts)
              (keep_sound candidate rows) in
          let ((apart, lasts, chosen), before) =
            latest-All (λ b. AreApart a b × (0 < b.duration_minutes) × (candidate b ≡ true))
              (keep candidate rows) found kept in
          let le =
            in_candidates (λ b. b.scheduled_at ≤ c.scheduled_at) rows a is_candidate there before in
          rw (taken_by_latest a c overlap chosen le lasts apart) refl

  -- While the appointments of a book do not clash, the check of a slot, which looks at the latest start
  -- alone, agrees with the search of all: it throws exactly if some occupying appointment of
  -- the store, other than the excluded one, overlaps the slot.
  pub assert_slot_free_decides :
      (rows : List Appointment)
      → IsBook rows
      → assert_slot_free store at duration exclude rows
        ≡ (if any (is_taken_by store at duration exclude) rows then err bad_request else ok tt)
  unfolding assert_slot_free
  assert_slot_free_decides rows book = elim (Bool-cases (any taken rows)) [
    | inl hit ↦ rw hit (taken_lem rows (latest (keep candidate rows)) refl book hit)
    | inr clear ↦ rw clear (free_lem rows (latest (keep candidate rows)) refl clear)
  ]
