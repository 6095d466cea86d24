-- ===== src/Inventory/Trail.antt =====
-- The movements of a roll as the record of its quantity.
pub mod Writes
pub mod Moves
pub mod History
use tailor_erp.Prelude.{
  ℕ, ◌≡◌, ◌≢◌, refl, sym, ap, ◌∙◌, inl, inr, true, false, ◌&&◌, Option, none, some, List, [], ◌∷◌,
  ◌++◌, arith, ◌==◌, ==_iff, if◌then◌else◌, Bool-cases, ℤ, Decimal, pos, ◌+ℤ◌, ◌-ℤ◌, ltb_ℤ, eqb_ℤ,
  int_laws, ltb_ℤ→lt, le→ltb_ℤ, lt→ltb_ℤ,
}
use tailor_erp.Inventory.{Batch, Movement, Stock, find_batch}
use tailor_erp.Inventory.Warehouse.{abs_ℤ}

-- A movement follows a balance if it starts from it and its quantity is the size of the change.
abbrev pub follow : Movement → Option Decimal → Option Decimal
follow m none = none
follow m (some balance) =
    if eqb_ℤ m.previous_balance balance && eqb_ℤ m.quantity (abs_ℤ (m.new_balance -ℤ balance))
    then some m.new_balance
    else none

-- The balance that the movements of one roll lead to.
unfoldable pub replay : ℕ → Option Decimal → List Movement → Option Decimal
replay id balance [] = balance
replay id balance (m ∷ ms) = replay id (if m.batch_id == id then follow m balance else balance) ms

abbrev pub balance_of : Option Batch → Decimal
balance_of none = pos 0
balance_of (some b) = b.current_quantity

-- The movements of each roll lead from zero, each from where the last one ended, to the quantity of
-- the roll.
abbrev pub IsDocumented : Stock → Type 0
IsDocumented s =
    (id : ℕ) → replay id (some (pos 0)) s.movements ≡ some (balance_of (find_batch id s.batches))

pub replay-append :
    (id : ℕ) (balance : Option Decimal) (ms : List Movement) (m : Movement)
    → replay id balance (ms ++ (m ∷ []))
      ≡ (if m.batch_id == id then follow m (replay id balance ms) else replay id balance ms)
unfolding replay
replay-append id balance [] m = refl
replay-append id balance (n ∷ ms) m =
    replay-append id (if n.batch_id == id then follow n balance else balance) ms m

eqb_ℤ_refl : (a : ℤ) → eqb_ℤ a a ≡ true
eqb_ℤ_refl a = ground arith

-- What a movement says of a roll before and after it.
abbrev pub IsChange : Movement → Decimal → Decimal → Type 0
IsChange m previous balance =
    (m.previous_balance ≡ previous)
    × (m.new_balance ≡ balance)
    × (m.quantity ≡ abs_ℤ (balance -ℤ previous))

follow-IsChange :
    (m : Movement) (previous balance : Decimal)
    → IsChange m previous balance
    → follow m (some previous) ≡ some balance
follow-IsChange m previous balance (starts, ends, sized) =
    rw (starts, ends, sized, eqb_ℤ_refl previous, eqb_ℤ_refl (abs_ℤ (balance -ℤ previous))) refl

pub abs_pos : (q : ℤ) → ltb_ℤ (pos 0) q ≡ true → abs_ℤ q ≡ q
abs_pos q h =
    let e : ltb_ℤ q (pos 0) ≡ false = le→ltb_ℤ q (pos 0) (omega (int_laws, ltb_ℤ→lt (pos 0) q h)) in
    rw e refl

pub abs_change : (c d : ℤ) → abs_ℤ d ≡ abs_ℤ ((c +ℤ d) -ℤ c)
abs_change c d = let e : (c +ℤ d) -ℤ c ≡ d = omega int_laws in rw e refl

pub abs_in : (c q : ℤ) → ltb_ℤ (pos 0) q ≡ true → q ≡ abs_ℤ ((c +ℤ q) -ℤ c)
abs_in c q h = sym (abs_pos q h) ∙ abs_change c q

pub abs_out : (c q : ℤ) → ltb_ℤ (pos 0) q ≡ true → q ≡ abs_ℤ ((c -ℤ q) -ℤ c)
abs_out c q h =
    let e : (c -ℤ q) -ℤ c ≡ pos 0 -ℤ q = omega int_laws in
    let below : ltb_ℤ (pos 0 -ℤ q) (pos 0) ≡ true =
      lt→ltb_ℤ (pos 0 -ℤ q) (pos 0) (omega (int_laws, ltb_ℤ→lt (pos 0) q h)) in
    let back : pos 0 -ℤ (pos 0 -ℤ q) ≡ q = omega int_laws in rw (e, below) (sym back)

-- A new movement of a roll that follows its balance documents the roll's new one.
pub IsDocumented-append :
    (s s2 : Stock) (id : ℕ) (m : Movement) (balance : Decimal)
    → m.batch_id ≡ id
    → s2.movements ≡ s.movements ++ (m ∷ [])
    → IsChange m (balance_of (find_batch id s.batches)) balance
    → balance_of (find_batch id s2.batches) ≡ balance
    → ((j : ℕ) → j ≢ id → find_batch j s2.batches ≡ find_batch j s.batches)
    → IsDocumented s
    → IsDocumented s2
IsDocumented-append s s2 id m balance of_roll made change here others documented j =
    let more : replay j (some (pos 0)) s2.movements ≡ (
        if m.batch_id == j
        then follow m (replay j (some (pos 0)) s.movements)
        else replay j (some (pos 0)) s.movements) =
      rw made (replay-append j (some (pos 0)) s.movements m) in
    elim (Bool-cases (m.batch_id == j)) [
      | inl same ↦
          let e : j ≡ id = sym ((==_iff m.batch_id j).0 same) ∙ of_roll in
          (rw same at more)
          ∙ ap (follow m) (documented j ∙ ap (λ k. some (balance_of (find_batch k s.batches))) e)
          ∙ follow-IsChange m _ balance change
          ∙ ap some (sym here ∙ ap (λ k. balance_of (find_batch k s2.batches)) (sym e))
      | inr other ↦
          (rw other at more)
          ∙ documented j
          ∙ ap (λ o. some (balance_of o))
              (sym (others j (λ e. differ m.batch_id j other (of_roll ∙ sym e))))
    ]
  where
    differ : (a b : ℕ) → (a == b) ≡ false → a ≡ b → ⊥
    differ a b h e = ground (arith, e)

pub abs_new : (q : ℤ) → ltb_ℤ (pos 0) q ≡ true → q ≡ abs_ℤ (q -ℤ pos 0)
abs_new q h = let e : q -ℤ pos 0 ≡ q = omega int_laws in rw e (sym (abs_pos q h))
