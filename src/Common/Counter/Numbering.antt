-- ===== src/Common/Counter/Numbering.antt =====
-- The numbers that a sequence gives.
use tailor_erp.Prelude.{
  ℕ, ◌+◌, ◌≡◌, refl, sym, ◌∙◌, inl, inr, Bool, true, false, List, [], ◌∷◌, arith, leb,
  if◌then◌else◌, Bool-cases,
}
use tailor_erp.Common.Counter.{Draw, Counter, matches, new_counter, upsert, next, seed_from}

-- The last number of a sequence, 0 before its first.
unfoldable pub value_of : Draw → List Counter → ℕ
value_of p [] = 0
value_of p (c ∷ cs) = let rest = value_of p cs in if matches p c then c.value else rest

-- Two draws of one sequence.
unfoldable pub same_sequence : Draw → Draw → Bool
same_sequence p q = matches p (new_counter q 0)

-- The numbers of a run of draws, in order.
unfoldable pub draw_all : List Draw → List Counter → List (Draw × ℕ)
draw_all [] cs = []
draw_all (p ∷ ps) cs = (p, (next p cs).0) ∷ draw_all ps (next p cs).1

-- Those that one sequence has given.
unfoldable pub numbers_of : Draw → List (Draw × ℕ) → List ℕ
numbers_of p [] = []
numbers_of p (d ∷ ds) =
    let rest = numbers_of p ds in if same_sequence p d.0 then d.1 ∷ rest else rest

-- from + 1, from + 2, … for each of the draws that belongs to the sequence.
unfoldable pub count_up : Draw → ℕ → List Draw → List ℕ
count_up p from [] = []
count_up p from (q ∷ qs) =
    if same_sequence p q then (from + 1) ∷ count_up p (from + 1) qs else count_up p from qs

-- A row is found by a sequence exactly if the draw that it belongs to is of that sequence.
matches-agree : (p q : Draw) (c : Counter) → matches q c ≡ true → matches p c ≡ same_sequence p q
unfolding matches same_sequence
matches-agree p q c h = ground arith

matches-meet :
    (p q : Draw) (c : Counter)
    → matches p c ≡ true
    → matches q c ≡ false
    → same_sequence p q ≡ false
unfolding matches same_sequence
matches-meet p q c h k = ground arith

matches-value : (p : Draw) (c : Counter) (n : ℕ) → matches p (record c { value = n }) ≡ matches p c
unfolding matches
matches-value p c n = refl

matches-new_counter : (p q : Draw) (n : ℕ) → matches p (new_counter q n) ≡ same_sequence p q
unfolding matches same_sequence
matches-new_counter p q n = refl

value_of-cons :
    (p : Draw) (c : Counter) (cs : List Counter)
    → value_of p (c ∷ cs) ≡ (if matches p c then c.value else value_of p cs)
unfolding value_of
value_of-cons p c cs = refl

-- What a write to one sequence does to the value of another, or of the same.
abbrev written : Draw → Draw → (ℕ → ℕ) → List Counter → ℕ
written p q f cs = if same_sequence p q then f (value_of q cs) else value_of p cs

if_if : (b : Bool) (x y z : ℕ) → (if b then x else (if b then y else z)) ≡ (if b then x else z)
if_if true x y z = refl
if_if false x y z = refl

kept :
    (p q : Draw) (f : ℕ → ℕ) (c : Counter) (cs rest : List Counter)
    → matches q c ≡ false
    → value_of p rest ≡ written p q f cs
    → value_of p (c ∷ rest) ≡ (
        if same_sequence p q
        then f (value_of q cs)
        else (if matches p c then c.value else value_of p cs))
kept p q f c cs rest other after = elim (Bool-cases (matches p c)) [
  | inl mine ↦ value_of-cons p c rest ∙ rw (mine, matches-meet p q c mine other) refl
  | inr apart ↦ value_of-cons p c rest ∙ rw apart after
]

upsert-cons :
    (q : Draw) (first : ℕ) (f : ℕ → ℕ) (c : Counter) (cs : List Counter)
    → upsert q first f (c ∷ cs) ≡ (
        if matches q c
        then (f c.value, record c { value = f c.value } ∷ cs)
        else ((upsert q first f cs).0, c ∷ (upsert q first f cs).1))
unfolding upsert
upsert-cons q first f c cs = refl

upsert-nil :
    (p q : Draw) (first : ℕ) (f : ℕ → ℕ)
    → first ≡ f 0
    → (value_of p (upsert q first f []).1 ≡ written p q f [])
      × ((upsert q first f []).0 ≡ f (value_of q []))
unfolding upsert value_of
upsert-nil p q first f h = rw (matches-new_counter p q first, h) (refl, refl)

upsert-value :
    (p q : Draw) (first : ℕ) (f : ℕ → ℕ) (cs : List Counter)
    → first ≡ f 0
    → (value_of p (upsert q first f cs).1 ≡ written p q f cs)
      × ((upsert q first f cs).0 ≡ f (value_of q cs))
upsert-value p q first f [] h = upsert-nil p q first f h
upsert-value p q first f (c ∷ cs) h =
    let (after, drawn) = upsert-value p q first f cs h in
    elim (Bool-cases (matches q c)) [
      | inl mine ↦
          rw
            (
              upsert-cons q first f c cs,
              value_of-cons q c cs,
              value_of-cons p c cs,
              mine,
              matches-agree p q c mine,
            )
            (
              value_of-cons p (record c { value = f c.value }) cs
                  ∙ rw (matches-value p c (f c.value), matches-agree p q c mine)
                      (sym (if_if (same_sequence p q) (f c.value) c.value (value_of p cs))),
              refl,
            )
      | inr other ↦
          rw (upsert-cons q first f c cs, value_of-cons q c cs, value_of-cons p c cs, other)
            (kept p q f c cs (upsert q first f cs).1 other after, drawn)
    ]

matches-same : (p q : Draw) (c : Counter) → same_sequence p q ≡ true → matches p c ≡ matches q c
unfolding matches same_sequence
matches-same p q c h = ground arith

value_of-same :
    (p q : Draw) (cs : List Counter) → same_sequence p q ≡ true → value_of p cs ≡ value_of q cs
value_of-same p q [] h = unfold value_of in refl
value_of-same p q (c ∷ cs) h =
    value_of-cons p c cs
    ∙ rw (matches-same p q c h, value_of-same p q cs h) (sym (value_of-cons q c cs))

draw_step :
    (p q : Draw) (qs : List Draw) (drawn after before before_q : ℕ) (rest : List ℕ)
    → rest ≡ count_up p after qs
    → drawn ≡ before_q + 1
    → after ≡ (if same_sequence p q then before_q + 1 else before)
    → (same_sequence p q ≡ true → before ≡ before_q)
    → (if same_sequence p q then drawn ∷ rest else rest) ≡ (
        if same_sequence p q
        then (before + 1) ∷ count_up p (before + 1) qs
        else count_up p before qs)
draw_step p q qs drawn after before before_q rest e d a same_value =
    elim (Bool-cases (same_sequence p q)) [
      | inl same ↦ rw (same, e, d, rw same at a, same_value same) refl
      | inr apart ↦ rw (apart, e, rw apart at a) refl
    ]

-- The numbers that any run of draws gives a sequence, draws of other sequences in between, are the
-- consecutive ones after its last number, without a gap or a repetition.
pub draw_all_consecutive :
    (p : Draw) (ps : List Draw) (cs : List Counter)
    → numbers_of p (draw_all ps cs) ≡ count_up p (value_of p cs) ps
unfolding draw_all numbers_of count_up next
draw_all_consecutive p [] cs = refl
draw_all_consecutive p (q ∷ qs) cs =
    let (after, drawn) = upsert-value p q 1 (λ v. v + 1) cs refl in
    let rest = draw_all_consecutive p qs (next q cs).1 in
    draw_step p q qs (next q cs).0 (value_of p (next q cs).1) (value_of p cs) (value_of q cs) _ rest
      drawn after (value_of-same p q cs)

-- Seeding sets a sequence to the greater of its last number and the given one, and leaves every other
-- sequence alone.
pub seed_from_raises :
    (p q : Draw) (n : ℕ) (cs : List Counter)
    → value_of p (seed_from q n cs) ≡ (
        if same_sequence p q
        then (if leb (value_of q cs) n then n else value_of q cs)
        else value_of p cs)
unfolding seed_from
seed_from_raises p q n cs = (upsert-value p q n (λ v. if leb v n then n else v) cs (ground arith)).0
