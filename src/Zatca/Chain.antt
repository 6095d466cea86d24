-- ===== src/Zatca/Chain.antt =====
-- apps/api/src/zatca/zatca-hash.ts: the chain of the invoice hashes.
-- A hash is a text that is only compared, so it is a number; `none` is null.
pub mod Links
use tailor_erp.Prelude.{
  ℕ, ◌+◌, Bool, true, false, not, Option, none, some, List, [], ◌∷◌, ◌==◌, if◌then◌else◌, ℤ, pos,
  negsuc,
}

pub record Invoice : Type 0 where
  pub invoice_hash : Option ℕ
  pub previous_hash : Option ℕ

abbrev pub same_hash : Option ℕ → Option ℕ → Bool
same_hash none none = true
same_hash (some a) (some b) = a == b
same_hash _ _ = false

-- The `for` loop of findChainBreak at index `i`; `expected` is the hash that the next link carries.
unfoldable pub chain_loop : ℕ → Option ℕ → List Invoice → ℤ
chain_loop i expected [] = negsuc 0
chain_loop i expected (x ∷ xs) =
    let rest = chain_loop (i + 1) x.invoice_hash xs in
    if not (same_hash x.previous_hash expected) then pos i else rest

-- findChainBreak; `genesis` is GENESIS_PIH.
unfoldable pub find_chain_break : ℕ → List Invoice → ℤ
find_chain_break genesis xs = chain_loop 0 (some genesis) xs
