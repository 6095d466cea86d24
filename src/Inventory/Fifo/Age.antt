-- ===== src/Inventory/Fifo/Age.antt =====
-- The query's ORDER BY keeps the rows, with their keys distinct.
use tailor_erp.Prelude.{◌≢◌, sym, inl, inr, List, [], ◌∷◌, Bool-cases, keep, All, All-keep}
use tailor_erp.Inventory.{Batch}
use tailor_erp.Inventory.Keys.{Distinct, Stored, Distinct-keep, Stored-self}
use tailor_erp.Inventory.Fifo.{
  Request, is_older, is_candidate, insert_by_age, sort_by_age, candidates,
}

module _ (P : Batch → Type 0) where
  pub All-insert_by_age :
      (b : Batch) (bs : List Batch) → P b → All P bs → All P (insert_by_age b bs)
  unfolding insert_by_age
  All-insert_by_age b [] p h = (p, tt)
  All-insert_by_age b (c ∷ bs) p h = elim (Bool-cases (is_older c b)) [
    | inl older ↦ rw older (h.0, All-insert_by_age b bs p h.1)
    | inr newer ↦ rw newer (p, h)
  ]

  pub All-sort_by_age : (bs : List Batch) → All P bs → All P (sort_by_age bs)
  unfolding sort_by_age
  All-sort_by_age [] h = tt
  All-sort_by_age (b ∷ bs) h = All-insert_by_age b (sort_by_age bs) h.0 (All-sort_by_age bs h.1)

  pub All-candidates :
      (p : Request) (rows : List Batch)
      → All P (keep (is_candidate p) rows)
      → All P (candidates p rows)
  unfolding candidates
  All-candidates p rows = All-sort_by_age (keep (is_candidate p) rows)

Distinct-insert_by_age :
    (b : Batch) (bs : List Batch)
    → All (λ c. c.id ≢ b.id) bs
    → Distinct bs
    → Distinct (insert_by_age b bs)
unfolding insert_by_age
Distinct-insert_by_age b [] ne h = (tt, tt)
Distinct-insert_by_age b (c ∷ bs) ne h = elim (Bool-cases (is_older c b)) [
  | inl older ↦ rw older (
    All-insert_by_age (λ d. d.id ≢ c.id) b bs (λ e. ne.0 (sym e)) h.0,
    Distinct-insert_by_age b bs ne.1 h.1,
  )
  | inr newer ↦ rw newer (ne, h)
]

Distinct-sort_by_age : (bs : List Batch) → Distinct bs → Distinct (sort_by_age bs)
unfolding sort_by_age
Distinct-sort_by_age [] h = tt
Distinct-sort_by_age (b ∷ bs) h =
    Distinct-insert_by_age b (sort_by_age bs) (All-sort_by_age (λ c. c.id ≢ b.id) bs h.0)
      (Distinct-sort_by_age bs h.1)

pub Distinct-candidates :
    (p : Request) (table : List Batch) → Distinct table → Distinct (candidates p table)
unfolding candidates
Distinct-candidates p table h =
    Distinct-sort_by_age (keep (is_candidate p) table) (Distinct-keep (is_candidate p) table h)

pub Stored-candidates :
    (p : Request) (table : List Batch) → Distinct table → Stored table (candidates p table)
Stored-candidates p table h =
    All-candidates _ p table (All-keep _ (is_candidate p) table (Stored-self table h))
