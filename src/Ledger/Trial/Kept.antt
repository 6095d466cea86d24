-- ===== src/Ledger/Trial/Kept.antt =====
-- Books whose lines stand on accounts of their own organisation, and the operations that keep them so.
use tailor_erp.Prelude.{
  ℕ, ◌≡◌, ◌≢◌, refl, sym, ap, ◌∙◌, inl, inr, Bool, true, false, not, ◌&&◌, ◌||◌, some, List, [],
  ◌∷◌, ◌++◌, arith, ◌==◌, ==_iff, Bool-cases, Option-cases, some_inj, bad_request, ok, ok_inj,
  guard, or_throw, >>=-eq-ok, length, any, All, All-mono, All-keep, or_throw-eq-ok, &&-eq-true,
  guard-eq-ok, if-eq-ok, unique_violation, All-append, subst, any-All,
}
use tailor_erp.Ledger.{
  AccountCode, same_code, JournalSource, Account, PostLine, LedgerLine, JournalEntry, Books,
  by_code, resolve, is_nonzero, new_entry, post,
}
use tailor_erp.Ledger.Journal.{IsBooked, post-eq-ok, post-IsBooked}
use tailor_erp.Ledger.Trial.{missing_codes, create_accounts, ensure_chart_of_accounts}
use tailor_erp.Ledger.Trial.Sums.{DistinctIds, owns, AreHome, not_owned}

-- Books whose entries balance and stand on accounts of their own organisation, with distinct keys.
pub record IsKept (books : Books) : Type 0 where
  pub booked : All IsBooked books.entries
  pub keys : DistinctIds books.accounts
  pub home :
      All (λ (e : JournalEntry). AreHome books.accounts e.organization_id e.lines) books.entries

by_code-owns :
    (org : ℕ) (code : AccountCode) (accounts : List Account) {id : ℕ}
    → by_code org code accounts ≡ some id
    → owns org id accounts ≡ true
unfolding by_code owns
by_code-owns org code [] h = cc
by_code-owns org code (a ∷ accounts) {id} h = elim (Option-cases (by_code org code accounts)) [
  | inr (k, e) ↦
      let same : k ≡ id = some_inj (rw (e, by_code) at h) in
      let rest = by_code-owns org code accounts (e ∙ ap some same) in ground (arith, rest)
  | inl e ↦ elim (Bool-cases ((a.organization_id == org) && same_code a.code code)) [
    | inr miss ↦ let bad = rw (e, by_code, miss) at h in cc
    | inl hit ↦
        let same : a.id ≡ id = some_inj (rw (e, by_code, hit) at h) in
        let (mine_a, _) = &&-eq-true (a.organization_id == org) (same_code a.code code) hit in
        ground (arith, mine_a, same)
  ]
]

-- An account belongs to one organisation.
owns_one :
    (org id : ℕ) (accounts : List Account)
    → DistinctIds accounts
    → owns org id accounts ≡ true
    → (x : ℕ) → owns x id accounts ≡ (org == x)
unfolding owns
owns_one org id [] keys h x = cc
owns_one org id (a ∷ accounts) keys h x = elim (Bool-cases (id == a.id)) [
  | inr miss ↦
      let rest =
        owns_one org id accounts keys.1 (later a.organization_id org (id == a.id) _ miss h) x in
      drop a.organization_id x (id == a.id) _ (org == x) miss rest
  | inl hit ↦
      let same = (==_iff id a.id).0 hit in
      let alone = subst (λ k. All (λ (c : Account). c.id ≢ k) accounts) (sym same) keys.0 in
      here a.organization_id org x (id == a.id) _ _ hit (not_owned org id accounts alone)
        (not_owned x id accounts alone) h
]
  where
    later : (a b : ℕ) (t u : Bool) → t ≡ false → (((a == b) && t) || u) ≡ true → u ≡ true
    later a b t u e h = ground arith

    drop : (a x : ℕ) (t u v : Bool) → t ≡ false → u ≡ v → (((a == x) && t) || u) ≡ v
    drop a x t u v e h = ground arith

    here :
        (a b x : ℕ) (t u v : Bool)
        → t ≡ true
        → u ≡ false
        → v ≡ false
        → (((a == b) && t) || u) ≡ true
        → (((a == x) && t) || v) ≡ (b == x)
    here a b x t u v e f g h = ground arith

resolve-AreHome :
    (org : ℕ) (accounts : List Account) (ls : List PostLine) {rs : List LedgerLine}
    → DistinctIds accounts
    → resolve org accounts ls ≡ ok rs
    → AreHome accounts org rs
unfolding resolve
resolve-AreHome org accounts [] keys h = subst (AreHome accounts org) (ok_inj h) tt
resolve-AreHome org accounts (l ∷ ls) keys h =
    let (id, found, h1) = >>=-eq-ok (or_throw (by_code org l.code accounts) bad_request) _ h in
    let (rest, done, h2) = >>=-eq-ok (resolve org accounts ls) _ h1 in
    let owned =
      by_code-owns org l.code accounts
        (or_throw-eq-ok (by_code org l.code accounts) bad_request found) in
    subst (AreHome accounts org) (ok_inj h2)
      (owns_one org id accounts keys owned, resolve-AreHome org accounts ls keys done)

pub post-IsKept :
    (org : ℕ) (source : JournalSource) (reference : ℕ) (ls : List PostLine) (books : Books)
    {after : Books}
    → post org source reference ls books ≡ ok after
    → IsKept books
    → IsKept after
unfolding new_entry
post-IsKept org source reference ls books done kept =
    let (booked, _, same, _) = post-IsBooked org source reference ls books kept.booked done in
    let (rs, resolved, _, _, e) = post-eq-ok org source reference ls books done in
    let lines =
      All-keep _ is_nonzero rs (resolve-AreHome org books.accounts ls kept.keys resolved) in
    record {
      booked = booked;
      keys = subst DistinctIds (sym same) kept.keys;
      home =
          subst
            (λ (b : Books).
              All (λ (e : JournalEntry). AreHome b.accounts e.organization_id e.lines) b.entries)
            (sym e)
            (All-append (λ (e : JournalEntry). AreHome books.accounts e.organization_id e.lines)
              books.entries _ kept.home (lines, tt));
    }

DistinctIds-append :
    (accounts : List Account) (b : Account)
    → All (λ (a : Account). (a.id == b.id) ≡ false) accounts
    → DistinctIds accounts
    → DistinctIds (accounts ++ (b ∷ []))
DistinctIds-append [] b fresh keys = (tt, tt)
DistinctIds-append (a ∷ accounts) b fresh keys = (
  All-append (λ (c : Account). c.id ≢ a.id) accounts (b ∷ []) keys.0
      ((λ e. differ a.id b.id fresh.0 (sym e)), tt),
  DistinctIds-append accounts b fresh.1 keys.1,
)
  where
    differ : (x y : ℕ) → (x == y) ≡ false → x ≡ y → ⊥
    differ x y h e = ground (arith, e)

-- An account that is there keeps its owner when another one is added.
owns-append :
    (x id : ℕ) (accounts : List Account) (b : Account)
    → (id == b.id) ≡ false
    → owns x id (accounts ++ (b ∷ [])) ≡ owns x id accounts
unfolding owns
owns-append x id [] b miss = ground arith
owns-append x id (a ∷ accounts) b miss =
    ap (λ t. ((a.organization_id == x) && (id == a.id)) || t) (owns-append x id accounts b miss)

owned_apart :
    (org id : ℕ) (accounts : List Account) (k : ℕ)
    → All (λ (a : Account). (a.id == k) ≡ false) accounts
    → owns org id accounts ≡ true
    → (id == k) ≡ false
unfolding owns
owned_apart org id [] k fresh h = cc
owned_apart org id (a ∷ accounts) k fresh h = elim (Bool-cases (id == a.id)) [
  | inl hit ↦ apart id a.id k hit fresh.0
  | inr miss ↦
      owned_apart org id accounts k fresh.1 (later a.organization_id org (id == a.id) _ miss h)
]
  where
    apart : (i a k : ℕ) → (i == a) ≡ true → (a == k) ≡ false → (i == k) ≡ false
    apart i a k h f = ground arith

    later : (a b : ℕ) (t u : Bool) → t ≡ false → (((a == b) && t) || u) ≡ true → u ≡ true
    later a b t u e h = ground arith

AreHome-append :
    (org : ℕ) (accounts : List Account) (b : Account) (lines : List LedgerLine)
    → All (λ (a : Account). (a.id == b.id) ≡ false) accounts
    → AreHome accounts org lines
    → AreHome (accounts ++ (b ∷ [])) org lines
AreHome-append org accounts b lines fresh =
    All-mono (λ (l : LedgerLine). (x : ℕ) → owns x l.account_id accounts ≡ (org == x))
      (λ (l : LedgerLine). (x : ℕ) → owns x l.account_id (accounts ++ (b ∷ [])) ≡ (org == x)) lines
      (λ l home x.
        owns-append x l.account_id accounts b
          (owned_apart org l.account_id accounts b.id fresh (home org ∙ (==_iff org org).1 refl))
        ∙ home x)

create_accounts-IsKept :
    (org : ℕ) (draw : AccountCode → ℕ) (codes : List AccountCode) (entries : List JournalEntry)
    (accounts : List Account) {after : List Account}
    → create_accounts org draw codes accounts ≡ ok after
    → IsKept (record { accounts = accounts; entries = entries })
    → IsKept (record { accounts = after; entries = entries })
unfolding create_accounts
create_accounts-IsKept org draw [] entries accounts done kept =
    subst (λ l. IsKept (record { accounts = l; entries = entries })) (ok_inj done) kept
create_accounts-IsKept org draw (c ∷ codes) entries accounts done kept =
    let b : Account = record { id = draw c; organization_id = org; code = c } in
    let (_, free, rest) =
      >>=-eq-ok (guard (not (any (λ (a : Account). a.id == draw c) accounts)) unique_violation) _
        done in
    let fresh =
      any-All (λ (a : Account). a.id == draw c) accounts
        (not_true _ (
          guard-eq-ok (not (any (λ (a : Account). a.id == draw c) accounts)) unique_violation
            free)) in
    create_accounts-IsKept org draw codes entries (accounts ++ (b ∷ [])) rest (record {
      booked = kept.booked;
      keys = DistinctIds-append accounts b fresh kept.keys;
      home =
          All-mono (λ (e : JournalEntry). AreHome accounts e.organization_id e.lines)
            (λ (e : JournalEntry). AreHome (accounts ++ (b ∷ [])) e.organization_id e.lines) entries
            (λ e home. AreHome-append e.organization_id accounts b e.lines fresh home) kept.home;
    })
  where
    not_true : (t : Bool) → not t ≡ true → t ≡ false
    not_true t h = ground arith

pub ensure_chart_of_accounts-IsKept :
    (org : ℕ) (draw : AccountCode → ℕ) (books : Books) {r : ℕ × Books}
    → ensure_chart_of_accounts org draw books ≡ ok r
    → IsKept books
    → IsKept (r.1)
unfolding ensure_chart_of_accounts
ensure_chart_of_accounts-IsKept org draw books done kept =
    elim (if-eq-ok (length (missing_codes org books.accounts) == 0) _ _ done) [
      | inl (_, e) ↦ subst (λ (r : ℕ × Books). IsKept (r.1)) (ok_inj e) kept
      | inr (_, h) ↦
          let (accounts, made, e) =
            >>=-eq-ok (create_accounts org draw (missing_codes org books.accounts) books.accounts) _
              h in
          subst (λ (r : ℕ × Books). IsKept (r.1)) (ok_inj e)
            (create_accounts-IsKept org draw (missing_codes org books.accounts) books.entries
              books.accounts made kept)
    ]
