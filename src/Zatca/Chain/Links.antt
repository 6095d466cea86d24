-- ===== src/Zatca/Chain/Links.antt =====
-- What the verification of a chain tells.
use tailor_erp.Prelude.{
  ℕ, ◌+◌, ◌≡◌, ◌≢◌, ◌⊎◌, refl, sym, ap, ◌∙◌, inl, inr, true, false, Option, none, some, List, [],
  ◌∷◌, ◌++◌, arith, ==_iff, Bool-cases, pos, negsuc, length, true_ne_false,
}
use tailor_erp.Zatca.Chain.{Invoice, same_hash, chain_loop, find_chain_break}

-- Each invoice carries the hash of the one before it, the first one the given hash.
abbrev pub IsChain : Option ℕ → List Invoice → Type 0
IsChain expected [] = Unit
IsChain expected (x ∷ xs) = (x.previous_hash ≡ expected) × IsChain x.invoice_hash xs

-- The hash that the invoice after these carries in a chain.
abbrev pub last_hash : Option ℕ → List Invoice → Option ℕ
last_hash expected [] = expected
last_hash expected (x ∷ xs) = last_hash x.invoice_hash xs

-- The invoices up to the first one whose link is broken.
abbrev pub BrokenAt : Option ℕ → List Invoice → ℕ → Type 0
BrokenAt expected xs n =
    (intact : List Invoice) × (broken : Invoice) × (later : List Invoice) × (xs
      ≡ intact ++ broken ∷ later)
    × IsChain expected intact
    × (broken.previous_hash ≢ last_hash expected intact)
    × (length intact ≡ n)

same_hash-eq : (a b : Option ℕ) → same_hash a b ≡ true → a ≡ b
same_hash-eq none none h = refl
same_hash-eq (some a) (some b) h = ap some ((==_iff a b).0 h)
same_hash-eq none (some b) h = cc
same_hash-eq (some a) none h = cc

same_hash_refl : (a : Option ℕ) → same_hash a a ≡ true
same_hash_refl none = refl
same_hash_refl (some a) = (==_iff a a).1 refl

same_hash-ne : (a b : Option ℕ) → same_hash a b ≡ false → a ≢ b
same_hash-ne a b h e = true_ne_false (sym (same_hash_refl b) ∙ rw e at h)

chain_loop_decides :
    (i : ℕ) (expected : Option ℕ) (xs : List Invoice)
    → (IsChain expected xs × (chain_loop i expected xs ≡ negsuc 0))
      ⊎ ((n : ℕ) × BrokenAt expected xs n × (chain_loop i expected xs ≡ pos (i + n)))
unfolding chain_loop
chain_loop_decides i expected [] = inl (tt, refl)
chain_loop_decides i expected (x ∷ xs) = elim (Bool-cases (same_hash x.previous_hash expected)) [
  | inl linked ↦
      let here = same_hash-eq x.previous_hash expected linked in
      elim (chain_loop_decides (i + 1) x.invoice_hash xs) [
        | inl (chain, e) ↦ inl ((here, chain), rw linked e)
        | inr (n, (intact, broken, later, rows, chain, breaks, count), e) ↦ inr (
          n + 1,
          (
            x ∷ intact,
            broken,
            later,
            ap (λ l. x ∷ l) rows,
            (here, chain),
            breaks,
            omega (arith, count),
          ),
          rw linked (e ∙ ap pos (omega arith)),
        )
      ]
  | inr broken ↦ inr (
    0,
    ([], x, xs, refl, tt, same_hash-ne x.previous_hash expected broken, refl),
    rw broken (ap pos (omega arith)),
  )
]

-- The verification of a chain of invoices gives -1 exactly if every invoice carries the hash of its
-- predecessor, the first one the genesis hash; otherwise it gives the index of the first invoice that
-- does not.
pub find_chain_break_decides :
    (genesis : ℕ) (xs : List Invoice)
    → (IsChain (some genesis) xs × (find_chain_break genesis xs ≡ negsuc 0))
      ⊎ ((n : ℕ) × BrokenAt (some genesis) xs n × (find_chain_break genesis xs ≡ pos n))
unfolding find_chain_break
find_chain_break_decides genesis xs = elim (chain_loop_decides 0 (some genesis) xs) [
  | inl intact ↦ inl intact
  | inr (n, broken, e) ↦ inr (n, broken, e ∙ ap pos (omega arith))
]
