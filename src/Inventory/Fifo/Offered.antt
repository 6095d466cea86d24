-- ===== src/Inventory/Fifo/Offered.antt =====
-- The rows that the query of apps/api/src/inventory/fifo.service.ts is meant to give, described
-- without it.
use mathlib.Core.List.{Perm}
use mathlib.Core.List.Perm
use tailor_erp.Prelude.{
  ◌≤◌, ◌<◌, ◌≡◌, ◌⊎◌, refl, sym, ap, ◌∙◌, inl, inr, true, false, ◌&&◌, List, [], ◌∷◌, arith, ◌==◌,
  ==_iff, Bool-cases, pos, ◌+ℤ◌, ◌<ℤ◌, ltb_ℤ, int_laws, parts_of_eq, ltb_ℤ→lt, keep, All,
  sum_from-sum_of, All-mono, lt→ltb_ℤ, &&-eq-true, true_ne_false, subst, Among, All-Among,
}
use tailor_erp.Inventory.{Batch, available, depleted, quarantined, BatchStatus, is_available}
use tailor_erp.Inventory.Rows.{stock_total}
use tailor_erp.Inventory.Fifo.{
  Request, is_candidate, is_older, insert_by_age, sort_by_age, total_available, candidates,
}
use tailor_erp.Inventory.Fifo.Age.{All-insert_by_age, All-sort_by_age}

-- A roll of the fabric in the store that is available and has metres on it.
abbrev pub IsOffered : Request → Batch → Type 0
IsOffered p b =
    (b.store_id ≡ p.store_id)
    × (b.fabric_name ≡ p.fabric_name)
    × (b.status ≡ available)
    × (pos 0 <ℤ b.current_quantity)

-- The rows of a table that are offered, in the order of the table.
pub data Offers (p : Request) : List Batch → List Batch → Type 0 where
  no_rows : Offers p [] []
  offered :
      (b : Batch) (rows picked : List Batch)
      → IsOffered p b
      → Offers p rows picked
      → Offers p (b ∷ rows) (b ∷ picked)
  passed_over :
      (b : Batch) (rows picked : List Batch)
      → ¬ (IsOffered p b)
      → Offers p rows picked
      → Offers p (b ∷ rows) picked

available_status : (s : BatchStatus) → is_available s ≡ true → s ≡ available
available_status available h = refl
available_status depleted h = cc
available_status quarantined h = cc

pub candidate-IsOffered : (p : Request) (b : Batch) → is_candidate p b ≡ true → IsOffered p b
candidate-IsOffered p b h =
    let store_test = b.store_id == p.store_id in
    let fabric_test = b.fabric_name == p.fabric_name in
    let (h1, metres) =
      &&-eq-true (store_test && fabric_test && is_available b.status)
        (ltb_ℤ (pos 0) b.current_quantity) h in
    let (h2, status) = &&-eq-true (store_test && fabric_test) (is_available b.status) h1 in
    let (store, fabric) = &&-eq-true store_test fabric_test h2 in
    (
      (==_iff b.store_id p.store_id).0 store,
      (==_iff b.fabric_name p.fabric_name).0 fabric,
      available_status b.status status,
      ltb_ℤ→lt (pos 0) b.current_quantity metres,
    )

is_candidate-of_IsOffered : (p : Request) (b : Batch) → IsOffered p b → is_candidate p b ≡ true
is_candidate-of_IsOffered p b (store, fabric, status, metres) =
    rw
      (
        (==_iff b.store_id p.store_id).1 store,
        (==_iff b.fabric_name p.fabric_name).1 fabric,
        status,
        lt→ltb_ℤ (pos 0) b.current_quantity metres,
      )
      refl

pub keep-Offers : (p : Request) (rows : List Batch) → Offers p rows (keep (is_candidate p) rows)
keep-Offers p [] = no_rows
keep-Offers p (b ∷ rows) = elim (Bool-cases (is_candidate p b)) [
  | inl kept ↦ rw kept (
      offered b rows (keep (is_candidate p) rows) (candidate-IsOffered p b kept)
        (keep-Offers p rows))
  | inr dropped ↦ rw dropped (
      passed_over b rows (keep (is_candidate p) rows)
        (λ o. true_ne_false (sym (is_candidate-of_IsOffered p b o) ∙ dropped)) (keep-Offers p rows))
]

pub Offers-keep :
    (p : Request) {rows picked : List Batch}
    → Offers p rows picked
    → picked ≡ keep (is_candidate p) rows
Offers-keep p no_rows = refl
Offers-keep p (offered b rows picked o rest) =
    rw (is_candidate-of_IsOffered p b o) (ap (λ l. b ∷ l) (Offers-keep p rest))
Offers-keep p (passed_over b rows picked not_offered rest) = elim (Bool-cases (is_candidate p b)) [
  | inl kept ↦ absurd (not_offered (candidate-IsOffered p b kept))
  | inr dropped ↦ rw dropped (Offers-keep p rest)
]

-- By the day of purchase, then by the time the row was made.
abbrev pub NotNewer : Batch → Batch → Type 0
NotNewer a b =
    (a.purchase_date < b.purchase_date)
    ⊎ ((a.purchase_date ≡ b.purchase_date) × (a.created_at ≤ b.created_at))

abbrev pub Older : Batch → Batch → Type 0
Older a b =
    (a.purchase_date < b.purchase_date)
    ⊎ ((a.purchase_date ≡ b.purchase_date) × (a.created_at < b.created_at))

-- Each row stands before those that are not older.
abbrev pub Ascending : List Batch → Type 0
Ascending [] = Unit
Ascending (b ∷ bs) = All (NotNewer b) bs × Ascending bs

older_is_NotNewer : (a b : Batch) → is_older a b ≡ true → NotNewer a b
older_is_NotNewer a b h = ground arith

newer_is_NotNewer : (a b : Batch) → is_older a b ≡ false → NotNewer b a
newer_is_NotNewer a b h = ground arith

NotNewer-trans : (a b c : Batch) → NotNewer a b → NotNewer b c → NotNewer a c
NotNewer-trans a b c h k = ground arith

pub Older-irrefl : (a b : Batch) → Older a b → NotNewer b a → ⊥
Older-irrefl a b h k = ground arith

pub Older-self : (a : Batch) → Older a a → ⊥
Older-self a h = ground arith

insert-Ascending : (a : Batch) (bs : List Batch) → Ascending bs → Ascending (insert_by_age a bs)
unfolding insert_by_age
insert-Ascending a [] h = (tt, tt)
insert-Ascending a (b ∷ bs) h = elim (Bool-cases (is_older b a)) [
  | inl older ↦ rw older (
    All-insert_by_age (NotNewer b) a bs (older_is_NotNewer b a older) h.0,
    insert-Ascending a bs h.1,
  )
  | inr newer ↦
      let first = newer_is_NotNewer b a newer in
      rw newer (
        (first, All-mono (NotNewer b) (NotNewer a) bs (λ c k. NotNewer-trans a b c first k) h.0),
        h,
      )
]

sort-Ascending : (bs : List Batch) → Ascending (sort_by_age bs)
unfolding sort_by_age
sort-Ascending [] = tt
sort-Ascending (b ∷ bs) = insert-Ascending b (sort_by_age bs) (sort-Ascending bs)

insert-Perm : (a : Batch) (bs : List Batch) → Perm (insert_by_age a bs) (a ∷ bs)
unfolding insert_by_age
insert-Perm a [] = Perm.rfl
insert-Perm a (b ∷ bs) = elim (Bool-cases (is_older b a)) [
  | inl older ↦ rw older (Perm.trans (Perm.cons b (insert-Perm a bs)) (Perm.swap a b bs))
  | inr newer ↦ rw newer Perm.rfl
]

sort-Perm : (bs : List Batch) → Perm (sort_by_age bs) bs
unfolding sort_by_age
sort-Perm [] = Perm.rfl
sort-Perm (b ∷ bs) = Perm.trans (insert-Perm b (sort_by_age bs)) (Perm.cons b (sort-Perm bs))

pub candidates-Ascending : (p : Request) (rows : List Batch) → Ascending (candidates p rows)
unfolding candidates
candidates-Ascending p rows = sort-Ascending (keep (is_candidate p) rows)

pub candidates-Perm :
    (p : Request) (rows : List Batch) → Perm (candidates p rows) (keep (is_candidate p) rows)
unfolding candidates
candidates-Perm p rows = sort-Perm (keep (is_candidate p) rows)

insert_total :
    (a : Batch) (bs : List Batch)
    → stock_total (insert_by_age a bs) ≡ a.current_quantity +ℤ stock_total bs
unfolding insert_by_age
insert_total a [] = refl
insert_total a (b ∷ bs) = elim (Bool-cases (is_older b a)) [
  | inl older ↦ let rest = insert_total a bs in rw older (omega (int_laws, parts_of_eq rest))
  | inr newer ↦ rw newer refl
]

sort_total : (bs : List Batch) → stock_total (sort_by_age bs) ≡ stock_total bs
unfolding sort_by_age
sort_total [] = refl
sort_total (b ∷ bs) =
    let first = insert_total b (sort_by_age bs) in
    let rest = sort_total bs in omega (int_laws, parts_of_eq first, parts_of_eq rest)

-- The metres that the code counts are those of the rows that are offered.
pub total_available_lem :
    (p : Request) {rows picked : List Batch}
    → Offers p rows picked
    → total_available (candidates p rows) ≡ stock_total picked
unfolding candidates
total_available_lem p {rows} {picked} offers =
    let kept = Offers-keep p offers in
    let whole = sum_from-sum_of (λ (b : Batch). b.current_quantity) (pos 0) (candidates p rows) in
    let sorted = sort_total (keep (is_candidate p) rows) in
    let same = ap stock_total kept in
    omega (int_laws, parts_of_eq whole, parts_of_eq sorted, parts_of_eq same)

Among-insert_by_age :
    (a : Batch) (bs : List Batch) {c : Batch} → Among c (a ∷ bs) → Among c (insert_by_age a bs)
unfolding insert_by_age
Among-insert_by_age a [] h = h
Among-insert_by_age a (b ∷ bs) h = elim (Bool-cases (is_older b a)) [
  | inr newer ↦ rw newer h
  | inl older ↦ rw older (elim h [
    | inl here ↦ inr (Among-insert_by_age a bs (inl here))
    | inr there ↦ elim there [
      | inl next ↦ inl next
      | inr later ↦ inr (Among-insert_by_age a bs (inr later))
    ]
  ])
]

Among-sort_by_age : (c : Batch) (bs : List Batch) → Among c bs → Among c (sort_by_age bs)
unfolding sort_by_age
Among-sort_by_age c [] there = absurd there
Among-sort_by_age c (b ∷ bs) (inl here) = Among-insert_by_age b (sort_by_age bs) (inl here)
Among-sort_by_age c (b ∷ bs) (inr there) =
    Among-insert_by_age b (sort_by_age bs) (inr (Among-sort_by_age c bs there))

first_of :
    (b : Batch) (rows : List Batch)
    → Ascending rows
    → Among b rows
    → All (λ a. (a ≡ b) ⊎ Older b a) rows
    → (rest : List Batch) × (rows ≡ b ∷ rest)
first_of b [] sorted there oldest = absurd there
first_of b (a ∷ rest) sorted there oldest = elim oldest.0 [
  | inl same ↦ (rest, ap (λ x. x ∷ rest) same)
  | inr older ↦ elim there [
    | inl here ↦ absurd (Older-self b (subst (Older b) here older))
    | inr later ↦ absurd (Older-irrefl b a older (All-Among (NotNewer a) rest sorted.0 later))
  ]
]

-- A row that is offered and older than the others comes first.
pub oldest_first :
    (p : Request) (b : Batch) {rows picked : List Batch}
    → Offers p rows picked
    → Among b picked
    → All (λ a. (a ≡ b) ⊎ Older b a) picked
    → (rest : List Batch) × (candidates p rows ≡ b ∷ rest)
unfolding candidates
oldest_first p b {rows} {picked} offers there oldest =
    let kept = Offers-keep p offers in
    first_of b (sort_by_age (keep (is_candidate p) rows))
      (sort-Ascending (keep (is_candidate p) rows))
      (Among-sort_by_age b (keep (is_candidate p) rows) (subst (Among b) kept there))
      (All-sort_by_age (λ a. (a ≡ b) ⊎ Older b a) (keep (is_candidate p) rows)
        (subst (All (λ a. (a ≡ b) ⊎ Older b a)) kept oldest))
