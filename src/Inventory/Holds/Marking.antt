-- ===== src/Inventory/Holds/Marking.antt =====
-- The holds of a garment when each of them is marked as consumed.
use tailor_erp.Prelude.{
  ℕ, ◌≡◌, ◌⊎◌, refl, inl, inr, true, false, List, [], ◌∷◌, arith, ◌==◌, Bool-cases, keep, any, All,
  All-mono,
}
use mathlib.Core.Path.{subst}
use tailor_erp.Inventory.{Reservation, Stock, consumed}
use tailor_erp.Inventory.Holds.{set_status, held_for}

-- No metres are held for the garment.
abbrev pub NoneHeld : ℕ → Stock → Type 0
NoneHeld item s = any (held_for item) s.reservations ≡ false

-- The holds after each of the listed ones was consumed.
unfoldable pub set_all : List Reservation → List Reservation → List Reservation
set_all [] rows = rows
set_all (r ∷ rs) rows = set_all rs (set_status r.id consumed rows)

-- Not held for the garment, or among the reservations that are listed.
abbrev pub Covered : ℕ → List Reservation → Reservation → Type 0
Covered item found x = (held_for item x ≡ false) ⊎ (any (λ f. f.id == x.id) found ≡ true)

set_status-Covered :
    (item : ℕ) (r : Reservation) (found rows : List Reservation)
    → All (Covered item (r ∷ found)) rows
    → All (Covered item found) (set_status r.id consumed rows)
unfolding set_status
set_status-Covered item r found [] h = tt
set_status-Covered item r found (x ∷ rows) h =
    let rest = set_status-Covered item r found rows h.1 in
    elim (Bool-cases (x.id == r.id)) [
      | inl same ↦ rw same (inl (ground arith), rest)
      | inr other ↦ rw other (ground arith, rest)
    ]

pub set_all_clears :
    (item : ℕ) (found rows : List Reservation)
    → All (Covered item found) rows
    → any (held_for item) (set_all found rows) ≡ false
unfolding set_all
set_all_clears item [] [] h = refl
set_all_clears item [] (x ∷ rows) h = elim h.0 [
  | inl free ↦ rw (free, set_all_clears item [] rows h.1) refl
  | inr listed ↦ cc
]
set_all_clears item (r ∷ found) rows h =
    set_all_clears item found (set_status r.id consumed rows)
      (set_status-Covered item r found rows h)

Covered-cons :
    (item : ℕ) (r : Reservation) (found : List Reservation) (x : Reservation)
    → Covered item found x
    → Covered item (r ∷ found) x
Covered-cons item r found x (inl free) = inl free
Covered-cons item r found x (inr listed) = inr (rw listed (ground arith))

pub keep-Covered :
    (item : ℕ) (rows found : List Reservation)
    → keep (held_for item) rows ≡ found
    → All (Covered item found) rows
keep-Covered item [] found e = tt
keep-Covered item (x ∷ rows) found e = elim (Bool-cases (held_for item x)) [
  | inl kept ↦
      let e' : x ∷ keep (held_for item) rows ≡ found = rw kept at e in
      let listed : Covered item (x ∷ keep (held_for item) rows) x = inr (ground arith) in
      (
        subst (λ ys. Covered item ys x) e' listed,
        All-mono _ _ rows
            (λ y c.
              subst (λ ys. Covered item ys y) e'
                (Covered-cons item x (keep (held_for item) rows) y c))
            (keep-Covered item rows (keep (held_for item) rows) refl),
      )
  | inr dropped ↦
      let e' : keep (held_for item) rows ≡ found = rw dropped at e in
      (inl dropped, keep-Covered item rows found e')
]

set_status_keeps_none :
    (item id : ℕ) (rows : List Reservation)
    → any (held_for item) rows ≡ false
    → any (held_for item) (set_status id consumed rows) ≡ false
unfolding set_status
set_status_keeps_none item id [] h = refl
set_status_keeps_none item id (x ∷ rows) h = ground (arith, set_status_keeps_none item id rows)

pub set_all_keeps_none :
    (item : ℕ) (found rows : List Reservation)
    → any (held_for item) rows ≡ false
    → any (held_for item) (set_all found rows) ≡ false
unfolding set_all
set_all_keeps_none item [] rows h = h
set_all_keeps_none item (r ∷ found) rows h =
    set_all_keeps_none item found (set_status r.id consumed rows)
      (set_status_keeps_none item r.id rows h)
