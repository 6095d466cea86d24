-- ===== src/Prelude/Lists.antt =====
-- Lists measured and searched with native numbers and Boolean tests.
use Prim.Native.Nat.{ℕ, suc, ◌+◌}
use mathlib.Core.Path.{◌≡◌, refl, sym, ap, subst, ◌∙◌}
use mathlib.Core.Bool.{Bool, true, false, ◌&&◌, ◌||◌}
use mathlib.Core.List.{List, [], ◌∷◌, ◌++◌}
use mathlib.Core.Option.{Option, none, some}
use native.Mathlib.Omega.{arith}
use mathlib.Core.Logic.{◌⊎◌, inl, inr}
use tailor_erp.Prelude.Tests.{if◌then◌else◌, Bool-cases, some_inj, true_ne_false}
use tailor_erp.Prelude.Int.{ℤ, pos, ◌+ℤ◌, int_laws}

module _ {ℓ} {A : Type ℓ} where
  abbrev pub length : List A → ℕ
  length [] = 0
  length (x ∷ xs) = suc (length xs)

  -- `Array.filter`
  abbrev pub keep : (A → Bool) → List A → List A
  keep p [] = []
  keep p (x ∷ xs) = let rest = keep p xs in if p x then x ∷ rest else rest

  -- `Array.find`, `findFirst`
  abbrev pub find : (A → Bool) → List A → Option A
  find p [] = none
  find p (x ∷ xs) = if p x then some x else find p xs

  -- `Array.some`
  abbrev pub any : (A → Bool) → List A → Bool
  any p [] = false
  any p (x ∷ xs) = p x || any p xs

  -- `Array.every`
  abbrev pub every : (A → Bool) → List A → Bool
  every p [] = true
  every p (x ∷ xs) = p x && every p xs

  -- The sum of one amount of each entry.
  abbrev pub sum_of : (A → ℤ) → List A → ℤ
  sum_of f [] = pos 0
  sum_of f (x ∷ xs) = f x +ℤ sum_of f xs

  -- `Array.reduce((sum, x) => sum.add(f(x)), acc)`
  abbrev pub sum_from : (A → ℤ) → ℤ → List A → ℤ
  sum_from f acc [] = acc
  sum_from f acc (x ∷ xs) = sum_from f (acc +ℤ f x) xs

  -- Every entry satisfies the predicate.
  abbrev pub All {κ} : (A → Type κ) → List A → Type κ
  All P [] = Unit
  All P (x ∷ xs) = P x × All P xs

  pub length-append : (xs ys : List A) → length (xs ++ ys) ≡ length xs + length ys
  length-append [] ys = omega arith
  length-append (x ∷ xs) ys = omega (arith, length-append xs ys)

module _ {ℓ} {A : Type ℓ} where
  pub sum_of-append :
      (f : A → ℤ) (xs ys : List A) → sum_of f (xs ++ ys) ≡ sum_of f xs +ℤ sum_of f ys
  sum_of-append f [] ys = omega int_laws
  sum_of-append f (x ∷ xs) ys = rw (sum_of-append f xs ys) (omega int_laws)

  pub sum_from-sum_of : (f : A → ℤ) (acc : ℤ) (xs : List A) → sum_from f acc xs ≡ acc +ℤ sum_of f xs
  sum_from-sum_of f acc [] = omega int_laws
  sum_from-sum_of f acc (x ∷ xs) = rw (sum_from-sum_of f (acc +ℤ f x) xs) (omega int_laws)

module _ {ℓ} {A : Type ℓ} where
  pub All-zip {κ} :
      (P Q R : A → Type κ) (xs : List A)
      → ((x : A) → P x → Q x → R x)
      → All P xs
      → All Q xs
      → All R xs
  All-zip P Q R [] f ps qs = tt
  All-zip P Q R (x ∷ xs) f ps qs = (f x ps.0 qs.0, All-zip P Q R xs f ps.1 qs.1)

  pub All-mono {κ} : (P Q : A → Type κ) (xs : List A) → ((x : A) → P x → Q x) → All P xs → All Q xs
  All-mono P Q [] f ps = tt
  All-mono P Q (x ∷ xs) f ps = (f x ps.0, All-mono P Q xs f ps.1)

  pub All-keep {κ} : (P : A → Type κ) (t : A → Bool) (xs : List A) → All P xs → All P (keep t xs)
  All-keep P t [] h = tt
  All-keep P t (x ∷ xs) h = elim (Bool-cases (t x)) [
    | inl kept ↦ rw kept (h.0, All-keep P t xs h.1)
    | inr dropped ↦ rw dropped (All-keep P t xs h.1)
  ]

  -- Every entry that a filter keeps passes its test.
  pub keep_sound : (t : A → Bool) (xs : List A) → All (λ x. t x ≡ true) (keep t xs)
  keep_sound t [] = tt
  keep_sound t (x ∷ xs) = elim (Bool-cases (t x)) [
    | inl kept ↦ rw kept (kept, keep_sound t xs)
    | inr dropped ↦ rw dropped (keep_sound t xs)
  ]

module _ {ℓ} {A : Type ℓ} where
  -- `UPDATE … SET … WHERE …`, `updateMany`
  unfoldable pub update_where : (A → Bool) → (A → A) → List A → List A
  update_where p f [] = []
  update_where p f (x ∷ xs) = let rest = update_where p f xs in if p x then f x ∷ rest else x ∷ rest

  -- A search that the written rows cannot answer is not changed by the write.
  pub find-update_where_ne :
      (q p : A → Bool) (f : A → A) (xs : List A)
      → ((x : A) → p x ≡ true → (q x ≡ false) × (q (f x) ≡ false))
      → find q (update_where p f xs) ≡ find q xs
  unfolding update_where
  find-update_where_ne q p f [] apart = refl
  find-update_where_ne q p f (x ∷ xs) apart =
      let rest = find-update_where_ne q p f xs apart in
      elim (Bool-cases (p x)) [
        | inl hit ↦ let (before, after) = apart x hit in rw (hit, before, after) rest
        | inr miss ↦ rw (miss, rest) refl
      ]

  -- A search for the written rows gives the first of them, written.
  pub find-update_where_self :
      (p : A → Bool) (f : A → A) (xs : List A) {a : A}
      → ((x : A) → p x ≡ true → p (f x) ≡ true)
      → find p xs ≡ some a
      → find p (update_where p f xs) ≡ some (f a)
  unfolding update_where
  find-update_where_self p f [] keeps found = cc
  find-update_where_self p f (x ∷ xs) keeps found = elim (Bool-cases (p x)) [
    | inl hit ↦
        let here = some_inj (rw hit at found) in rw (hit, keeps x hit) (ap (λ y. some (f y)) here)
    | inr miss ↦ rw (miss, miss) (find-update_where_self p f xs keeps (rw miss at found))
  ]

  pub All-update_where {κ} :
      (P : A → Type κ) (p : A → Bool) (f : A → A) (xs : List A)
      → ((x : A) → P x → P (f x))
      → All P xs
      → All P (update_where p f xs)
  unfolding update_where
  All-update_where P p f [] step h = tt
  All-update_where P p f (x ∷ xs) step h = elim (Bool-cases (p x)) [
    | inl hit ↦ rw hit (step x h.0, All-update_where P p f xs step h.1)
    | inr miss ↦ rw miss (h.0, All-update_where P p f xs step h.1)
  ]

  pub All-append {κ} : (P : A → Type κ) (xs ys : List A) → All P xs → All P ys → All P (xs ++ ys)
  All-append P [] ys h k = k
  All-append P (x ∷ xs) ys h k = (h.0, All-append P xs ys h.1 k)

  -- What a search finds passes its test and has what all entries have.
  pub All-find {κ} :
      (P : A → Type κ) (p : A → Bool) (xs : List A) {a : A}
      → All P xs
      → find p xs ≡ some a
      → P a × (p a ≡ true)
  All-find P p [] h found = cc
  All-find P p (x ∷ xs) h found = elim (Bool-cases (p x)) [
    | inl here ↦
        let e = some_inj (rw here at found) in subst (λ y. P y × (p y ≡ true)) e (h.0, here)
    | inr there ↦ All-find P p xs h.1 (rw there at found)
  ]

pub All-kept {ℓ κ} :
    {A : Type ℓ} (Q : A → Type κ) (p : A → Bool) (xs : List A)
    → All Q (keep p xs)
    → All (λ x. p x ≡ true → Q x) xs
All-kept Q p [] h = tt
All-kept Q p (x ∷ xs) h = elim (Bool-cases (p x)) [
  | inl hit ↦ let k = rw hit at h in ((λ _. k.0), All-kept Q p xs k.1)
  | inr miss ↦
      let k = rw miss at h in ((λ t. absurd (true_ne_false (sym t ∙ miss))), All-kept Q p xs k)
]

pub any-find {ℓ} :
    {A : Type ℓ} (p : A → Bool) (xs : List A) → any p xs ≡ true → (a : A) × (find p xs ≡ some a)
any-find p [] h = absurd (true_ne_false (sym h))
any-find p (x ∷ xs) h = elim (Bool-cases (p x)) [
  | inl here ↦ (x, rw here refl)
  | inr there ↦ let (a, found) = any-find p xs (rw there at h) in (a, rw there found)
]

pub any-All {ℓ} :
    {A : Type ℓ} (p : A → Bool) (xs : List A) → any p xs ≡ false → All (λ x. p x ≡ false) xs
any-All p [] h = tt
any-All p (x ∷ xs) h = elim (Bool-cases (p x)) [
  | inl here ↦ absurd (true_ne_false (rw here at h))
  | inr there ↦ (there, any-All p xs (rw there at h))
]

pub All-update_where_by {ℓ κ} :
    {A : Type ℓ} (Q : A → Type κ) (p : A → Bool) (f : A → A) (xs : List A)
    → All (λ x. p x ≡ true → Q (f x)) xs
    → All (λ x. p x ≡ false → Q x) xs
    → All Q (update_where p f xs)
unfolding update_where
All-update_where_by Q p f [] hits misses = tt
All-update_where_by Q p f (x ∷ xs) hits misses = elim (Bool-cases (p x)) [
  | inl hit ↦ rw hit (hits.0 hit, All-update_where_by Q p f xs hits.1 misses.1)
  | inr miss ↦ rw miss (misses.0 miss, All-update_where_by Q p f xs hits.1 misses.1)
]

pub All_const {ℓ κ} : {A : Type ℓ} (P : A → Type κ) (xs : List A) → ((x : A) → P x) → All P xs
All_const P [] h = tt
All_const P (x ∷ xs) h = (h x, All_const P xs h)

-- What holds between every entry of one list and every entry of another holds the other way about.
pub All-swap {ℓ κ} :
    {A : Type ℓ} (R : A → A → Type κ) (xs ys : List A)
    → All (λ x. All (R x) ys) xs
    → All (λ y. All (λ x. R x y) xs) ys
All-swap R [] ys h = All_const (λ y. Unit) ys (λ y. tt)
All-swap R (x ∷ xs) ys h =
    All-zip (R x) (λ y. All (λ z. R z y) xs) (λ y. R x y × All (λ z. R z y) xs) ys (λ y a b. (a, b))
      h.0 (All-swap R xs ys h.1)

-- An element of a list.
abbrev pub Among : {A : Type 0} → A → List A → Type 0
Among a [] = ⊥
Among a (x ∷ xs) = (x ≡ a) ⊎ Among a xs

pub find-Among :
    {A : Type 0} (p : A → Bool) (xs : List A) {a : A}
    → find p xs ≡ some a
    → Among a xs × (p a ≡ true)
find-Among p [] h = absurd (cc)
find-Among p (x ∷ xs) h = elim (Bool-cases (p x)) [
  | inl hit ↦ let here = some_inj (rw hit at h) in (inl here, rw here at hit)
  | inr miss ↦ let (there, holds) = find-Among p xs (rw miss at h) in (inr there, holds)
]

pub Among-keep :
    {A : Type 0} (p : A → Bool) (xs : List A) {a : A}
    → Among a (keep p xs)
    → Among a xs × (p a ≡ true)
Among-keep p [] h = absurd h
Among-keep p (x ∷ xs) {a} h = elim (Bool-cases (p x)) [
  | inl kept ↦
      let either : (x ≡ a) ⊎ Among a (keep p xs) = rw kept at h in
      elim either [
        | inl here ↦ (inl here, rw here at kept)
        | inr there ↦ let (later, holds) = Among-keep p xs there in (inr later, holds)
      ]
  | inr dropped ↦ let (later, holds) = Among-keep p xs (rw dropped at h) in (inr later, holds)
]

pub All-Among {κ} :
    {A : Type 0} (P : A → Type κ) (xs : List A) {a : A} → All P xs → Among a xs → P a
All-Among P [] h there = absurd there
All-Among P (x ∷ xs) h (inl here) = subst P here h.0
All-Among P (x ∷ xs) h (inr there) = All-Among P xs h.1 there
