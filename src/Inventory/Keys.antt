-- ===== src/Inventory/Keys.antt =====
-- Rows with distinct primary keys, and what their lookups give.
use tailor_erp.Prelude.{
  ℕ, ◌≡◌, ◌≢◌, refl, ◌∙◌, inl, inr, Bool, some, List, [], ◌∷◌, arith, ==_iff, Bool-cases, keep, All,
  All-zip, All-keep,
}
use tailor_erp.Inventory.{Batch, find_batch}
use tailor_erp.Inventory.Rows.{KeepsId, replace_row, find_batch-replace_row_ne}

-- The primary key of a table.
abbrev pub Distinct : List Batch → Type 0
Distinct [] = Unit
Distinct (b ∷ bs) = All (λ c. c.id ≢ b.id) bs × Distinct bs

-- Each of the rows is what the table holds under its key.
abbrev pub Stored : List Batch → List Batch → Type 0
Stored table rows = All (λ b. find_batch b.id table ≡ some b) rows

pub Distinct-keep : (t : Batch → Bool) (rows : List Batch) → Distinct rows → Distinct (keep t rows)
Distinct-keep t [] h = tt
Distinct-keep t (b ∷ bs) h = elim (Bool-cases (t b)) [
  | inl kept ↦ rw kept (All-keep (λ c. c.id ≢ b.id) t bs h.0, Distinct-keep t bs h.1)
  | inr dropped ↦ rw dropped (Distinct-keep t bs h.1)
]

find_batch-cons_ne :
    (b c : Batch) (bs : List Batch)
    → c.id ≢ b.id
    → find_batch c.id bs ≡ some c
    → find_batch c.id (b ∷ bs) ≡ some c
unfolding find_batch
find_batch-cons_ne b c bs ne found = ground arith

find_batch-cons_self : (b : Batch) (bs : List Batch) → find_batch b.id (b ∷ bs) ≡ some b
unfolding find_batch
find_batch-cons_self b bs = rw ((==_iff b.id b.id).1 refl)

-- A table with distinct keys holds each of its rows.
pub Stored-self : (table : List Batch) → Distinct table → Stored table table
Stored-self [] h = tt
Stored-self (b ∷ bs) h = (
  find_batch-cons_self b bs,
  All-zip (λ c. c.id ≢ b.id) (λ c. find_batch c.id bs ≡ some c)
      (λ c. find_batch c.id (b ∷ bs) ≡ some c) bs (λ c ne found. find_batch-cons_ne b c bs ne found)
      h.0 (Stored-self bs h.1),
)

-- A write to one row leaves the others stored.
pub Stored-replace_row :
    (table rows : List Batch) (id : ℕ) (f : Batch → Batch)
    → KeepsId f
    → All (λ c. c.id ≢ id) rows
    → Stored table rows
    → Stored (replace_row id f table) rows
Stored-replace_row table rows id f keeps =
    All-zip (λ c. c.id ≢ id) (λ c. find_batch c.id table ≡ some c)
      (λ c. find_batch c.id (replace_row id f table) ≡ some c) rows
      (λ c ne found. find_batch-replace_row_ne id f keeps table c.id ne ∙ found)
