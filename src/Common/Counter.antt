-- ===== src/Common/Counter.antt =====
-- apps/api/src/common/counter.service.ts: the numbering of documents.
-- A scope text is only compared, so it is a number. A `Draw` names a sequence as the callers do.
pub mod Numbering
use tailor_erp.Prelude.{
  ℕ, ◌+◌, Bool, ◌&&◌, Option, none, some, List, [], ◌∷◌, leb, ◌==◌, if◌then◌else◌,
}

pub data DocumentKind : Type 0 where
  order invoice ticket : DocumentKind

abbrev pub kind_number : DocumentKind → ℕ
kind_number order = 0
kind_number invoice = 1
kind_number ticket = 2

-- The parameters of `next`.
pub record Draw : Type 0 where
  pub organization_id : ℕ
  pub store_id : Option ℕ
  pub kind : DocumentKind
  pub scope : Option ℕ

-- A row of document_counters. The store of a sequence of the whole organisation is the sentinel 0, and
-- the scope that is left out is the empty text, 0.
pub record Counter : Type 0 where
  pub organization_id : ℕ
  pub store_key : ℕ
  pub kind : DocumentKind
  pub scope : ℕ
  pub value : ℕ

-- `??`
abbrev pub or_default : Option ℕ → ℕ → ℕ
or_default none d = d
or_default (some a) d = a

-- The unique index of ON CONFLICT.
unfoldable pub matches : Draw → Counter → Bool
matches p c =
    (c.organization_id == p.organization_id)
    && (c.store_key == or_default p.store_id 0)
    && (kind_number c.kind == kind_number p.kind)
    && (c.scope == or_default p.scope 0)

abbrev pub new_counter : Draw → ℕ → Counter
new_counter p value = record {
  organization_id = p.organization_id;
  store_key = or_default p.store_id 0;
  kind = p.kind;
  scope = or_default p.scope 0;
  value = value;
}

-- INSERT … ON CONFLICT DO UPDATE SET value = f(value)
unfoldable pub upsert : Draw → ℕ → (ℕ → ℕ) → List Counter → ℕ × List Counter
upsert p first f [] = (first, new_counter p first ∷ [])
upsert p first f (c ∷ cs) =
    let rest = upsert p first f cs in
    if matches p c then (f c.value, record c { value = f c.value } ∷ cs) else (rest.0, c ∷ rest.1)

-- next
unfoldable pub next : Draw → List Counter → ℕ × List Counter
unfolding upsert matches
next p cs = upsert p 1 (λ v. v + 1) cs

-- seedFrom
unfoldable pub seed_from : Draw → ℕ → List Counter → List Counter
unfolding upsert matches
seed_from p current_max cs =
    (upsert p current_max (λ v. if leb v current_max then current_max else v) cs).1
