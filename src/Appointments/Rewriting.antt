-- ===== src/Appointments/Rewriting.antt =====
-- Writes to rows of the book, and when they keep appointments apart.
use tailor_erp.Prelude.{
  ℕ, ◌<◌, ◌≡◌, refl, sym, ap, ◌∙◌, inl, inr, true, false, Option, List, ◌∷◌, arith, ◌==◌,
  Bool-cases, ok, any, All, err_ne_ok, All-zip, All-mono, update_where, All-update_where, subst,
  any-All, All-update_where_by, All_const, All-swap,
}
use tailor_erp.Appointments.{Appointment, is_occupying, assert_slot_free, book, has_id}
use tailor_erp.Appointments.Clashes.{
  collide, AreApart, IsBook, is_taken_by, assert_slot_free_decides,
}

AreApart-sym : (a b : Appointment) → AreApart a b → AreApart b a
AreApart-sym a b (inl (e, same)) = inl (sym e, sym same)
AreApart-sym a b (inr (differ, clear)) = inr (ground arith, ground arith)

pub IsBook-one :
    (a : Appointment) (rows : List Appointment)
    → 0 < a.duration_minutes
    → All (AreApart a) rows
    → IsBook rows
    → IsBook (a ∷ rows)
IsBook-one a rows lasts near book = (
  (
    (inl (refl, refl), near),
    All-zip (AreApart a) (λ b. All (AreApart b) rows) (λ b. AreApart b a × All (AreApart b) rows)
        rows (λ b x y. (AreApart-sym a b x, y)) near book.0,
  ),
  (lasts, book.1),
)

module _ (id : ℕ) (f : Appointment → Appointment)
    (keeps : (a : Appointment)
      → ((f a).id ≡ a.id) × ((f a).duration_minutes ≡ a.duration_minutes)) where
  -- The written row does not clash with the rows that keep their values.
  abbrev pub IsClear : Appointment → Appointment → Type 0
  IsClear a b = has_id id a ≡ true → has_id id b ≡ false → collide (f a) b ≡ false

  hit_hit :
      (a b : Appointment)
      → AreApart a b
      → has_id id a ≡ true
      → has_id id b ≡ true
      → AreApart (f a) (f b)
  hit_hit a b (inl (_, same)) h k = inl (subst (λ c. (f a).id ≡ (f c).id) same refl, ap f same)
  hit_hit a b (inr (differ, clear)) h k = absurd (both a.id b.id id h k differ)
    where
      both : (x y z : ℕ) → (x == z) ≡ true → (y == z) ≡ true → (x == y) ≡ false → ⊥
      both x y z h k d = ground arith

  hit_miss :
      (a b : Appointment)
      → collide (f a) b ≡ false
      → has_id id a ≡ true
      → has_id id b ≡ false
      → AreApart (f a) b
  hit_miss a b clear h k = inr (rw (keeps a).0 (ids a.id b.id id h k), clear)
    where
      ids : (x y z : ℕ) → (x == z) ≡ true → (y == z) ≡ false → (x == y) ≡ false
      ids x y z h k = ground arith

  abbrev Both : Appointment → Appointment → Type 0
  Both a b = AreApart a b × IsClear a b

  hit_row :
      (rows : List Appointment) (a : Appointment)
      → All (Both a) rows
      → has_id id a ≡ true
      → All (AreApart (f a)) (update_where (has_id id) f rows)
  hit_row rows a h hit =
      All-update_where_by (AreApart (f a)) (has_id id) f rows
        (All-mono (Both a) (λ b. has_id id b ≡ true → AreApart (f a) (f b)) rows
          (λ b r k. hit_hit a b r.0 hit k) h)
        (All-mono (Both a) (λ b. has_id id b ≡ false → AreApart (f a) b) rows
          (λ b r k. hit_miss a b (r.1 hit k) hit k) h)

  miss_row :
      (rows : List Appointment) (a : Appointment)
      → All (λ b. Both b a) rows
      → has_id id a ≡ false
      → All (AreApart a) (update_where (has_id id) f rows)
  miss_row rows a h miss =
      All-update_where_by (AreApart a) (has_id id) f rows
        (All-mono (λ b. Both b a) (λ b. has_id id b ≡ true → AreApart a (f b)) rows
          (λ b r k. AreApart-sym (f b) a (hit_miss b a (r.1 k miss) k miss)) h)
        (All-mono (λ b. Both b a) (λ b. has_id id b ≡ false → AreApart a b) rows
          (λ b r k. AreApart-sym b a r.0) h)

  pub rewrite-IsBook :
      (rows : List Appointment)
      → All (λ a. All (IsClear a) rows) rows
      → IsBook rows
      → IsBook (update_where (has_id id) f rows)
  rewrite-IsBook rows clear book =
      let pairs =
        All-zip (λ a. All (AreApart a) rows) (λ a. All (IsClear a) rows) (λ a. All (Both a) rows)
          rows (λ a x y. All-zip (AreApart a) (IsClear a) (Both a) rows (λ b u v. (u, v)) x y)
          book.0 clear in
      (
        All-update_where_by (λ a. All (AreApart a) (update_where (has_id id) f rows)) (has_id id) f
            rows
            (All-mono (λ a. All (Both a) rows)
              (λ a. has_id id a ≡ true → All (AreApart (f a)) (update_where (has_id id) f rows))
              rows (λ a. hit_row rows a) pairs)
            (All-mono (λ a. All (λ b. Both b a) rows)
              (λ a. has_id id a ≡ false → All (AreApart a) (update_where (has_id id) f rows)) rows
              (λ a. miss_row rows a) (All-swap Both rows rows pairs)),
        All-update_where (λ (a : Appointment). 0 < a.duration_minutes) (has_id id) f rows
            (λ a lasts. rw (keeps a).1 lasts) book.1,
      )

pub free_of :
    (store at duration : ℕ) (exclude : Option ℕ) (rows : List Appointment) {u : Unit {0}}
    → IsBook rows
    → assert_slot_free store at duration exclude rows ≡ ok u
    → All (λ a. is_taken_by store at duration exclude a ≡ false) rows
free_of store at duration exclude rows book free =
    elim (Bool-cases (any (is_taken_by store at duration exclude) rows)) [
      | inl hit ↦ absurd (
          err_ne_ok
            (sym (rw hit at (assert_slot_free_decides store at duration exclude rows book)) ∙ free))
      | inr clear ↦ any-All (is_taken_by store at duration exclude) rows clear
    ]

-- An appointment that does not occupy its time clashes with none.
idle_clear : (a b : Appointment) → is_occupying a.status ≡ false → collide a b ≡ false
idle_clear a b idle = ground arith

pub update_idle-IsBook :
    (id : ℕ) (f : Appointment → Appointment) (rows : List Appointment)
    → ((a : Appointment) → ((f a).id ≡ a.id) × ((f a).duration_minutes ≡ a.duration_minutes))
    → ((a : Appointment) → is_occupying (f a).status ≡ false)
    → IsBook rows
    → IsBook (update_where (has_id id) f rows)
update_idle-IsBook id f rows keeps idle book =
    rewrite-IsBook id f keeps rows
      (All_const (λ a. All (IsClear id f keeps a) rows) rows
        (λ a. All_const (IsClear id f keeps a) rows (λ b h k. idle_clear (f a) b (idle a))))
      book
