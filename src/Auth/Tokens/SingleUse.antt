-- ===== src/Auth/Tokens/SingleUse.antt =====
-- A refresh token is used once.
use tailor_erp.Prelude.{
  ℕ, ◌≡◌, refl, ap, ◌∙◌, inl, inr, Bool, true, false, not, some, List, [], ◌∷◌, ◌++◌, arith, ◌==◌,
  Bool-cases, some_inj, unauthorized, ok, err, ok_inj, guard, or_throw, >>=-eq-ok, find, any,
  or_throw-eq-ok, unique_violation, update_where, subst,
}
use tailor_erp.Auth.Tokens.{
  PrincipalType, RefreshToken, type_number, has_hash, has_id, is_live, revoke_at, is_valid,
  issue_refresh_token, rotate_refresh_token, revoke_refresh_token,
}

-- The token of a hash is there, and revoked.
abbrev pub IsSpent : ℕ → List RefreshToken → Type 0
IsSpent h rows =
    (t : RefreshToken) × (find (has_hash h) rows ≡ some t) × (is_live t.revoked_at ≡ false)

find-append {ℓ} :
    {A : Type ℓ} (p : A → Bool) (xs ys : List A) {a : A}
    → find p xs ≡ some a
    → find p (xs ++ ys) ≡ some a
find-append p [] ys h = cc
find-append p (x ∷ xs) ys h = elim (Bool-cases (p x)) [
  | inl here ↦ rw here (rw here at h)
  | inr there ↦ rw there (find-append p xs ys (rw there at h))
]

-- Revoking rows leaves a spent token spent.
revoked-IsSpent :
    (h now : ℕ) (p : RefreshToken → Bool) (rows : List RefreshToken)
    → IsSpent h rows
    → IsSpent h (update_where p (revoke_at now) rows)
unfolding update_where
revoked-IsSpent h now p [] (t, found, spent) = cc
revoked-IsSpent h now p (x ∷ rows) (t, found, spent) = elim (Bool-cases (has_hash h x)) [
  | inl here ↦
      let same : x ≡ t = some_inj (rw here at found) in
      elim (Bool-cases (p x)) [
        | inl hit ↦ rw hit (revoke_at now x, rw here refl, refl)
        | inr miss ↦ rw miss (x, rw here refl, rw same spent)
      ]
  | inr there ↦
      let (u, later, over) = revoked-IsSpent h now p rows (t, rw there at found, spent) in
      elim (Bool-cases (p x)) [
        | inl hit ↦ rw hit (u, rw there later, over)
        | inr miss ↦ rw miss (u, rw there later, over)
      ]
]

-- A write that revokes the token of a hash spends it.
spend :
    (h now : ℕ) (p : RefreshToken → Bool) (rows : List RefreshToken) (t : RefreshToken)
    → find (has_hash h) rows ≡ some t
    → p t ≡ true
    → IsSpent h (update_where p (revoke_at now) rows)
unfolding update_where
spend h now p [] t found hit = cc
spend h now p (x ∷ rows) t found hit = elim (Bool-cases (has_hash h x)) [
  | inl here ↦
      let same : x ≡ t = some_inj (rw here at found) in
      let taken : p x ≡ true = rw same hit in rw taken (revoke_at now x, rw here refl, refl)
  | inr there ↦
      let (u, later, over) = spend h now p rows t (rw there at found) hit in
      elim (Bool-cases (p x)) [
        | inl hit_x ↦ rw hit_x (u, rw there later, over)
        | inr miss ↦ rw miss (u, rw there later, over)
      ]
]

same_refl : (a : ℕ) → (a == a) ≡ true
same_refl a = ground arith

module _ (hash : ℕ → ℕ) (ttl_seconds : PrincipalType → ℕ) where
  issue-IsSpent :
      (h id raw now : ℕ) (type : PrincipalType) (subject : ℕ) (rows : List RefreshToken)
      {after : List RefreshToken}
      → issue_refresh_token hash ttl_seconds id raw now type subject rows ≡ ok after
      → IsSpent h rows
      → IsSpent h after
  unfolding issue_refresh_token
  issue-IsSpent h id raw now type subject rows done (t, found, over) =
      let (_, _, h1) = >>=-eq-ok (guard (not (any (has_id id) rows)) unique_violation) _ done in
      let (_, _, e) =
        >>=-eq-ok (guard (not (any (has_hash (hash raw)) rows)) unique_violation) _ h1 in
      subst (IsSpent h) (ok_inj e) (t, find-append (has_hash h) rows _ found, over)

  rotation :
      (id fresh now raw : ℕ) (expected : PrincipalType) (rows : List RefreshToken)
      {r : ℕ × List RefreshToken}
      → rotate_refresh_token hash ttl_seconds id fresh now raw expected rows ≡ ok r
      → (t : RefreshToken) × (find (has_hash (hash raw)) rows ≡ some t)
        × (issue_refresh_token hash ttl_seconds id fresh now expected t.subject_id
              (update_where (has_id t.id) (revoke_at now) rows)
            ≡ ok (r.1))
  unfolding rotate_refresh_token
  rotation id fresh now raw expected rows done =
      let (t, found, h1) =
        >>=-eq-ok (or_throw (find (has_hash (hash raw)) rows) unauthorized) _ done in
      let (_, _, h2) = >>=-eq-ok (guard (is_valid expected now t) unauthorized) _ h1 in
      let (after, issued, e) =
        >>=-eq-ok
          (issue_refresh_token hash ttl_seconds id fresh now expected t.subject_id
            (update_where (has_id t.id) (revoke_at now) rows))
          _ h2 in
      (
        t,
        or_throw-eq-ok (find (has_hash (hash raw)) rows) unauthorized found,
        issued ∙ ap (λ (p : ℕ × List RefreshToken). ok (p.1)) (ok_inj e),
      )

  -- What the service does to the table.
  pub data Step : List RefreshToken → List RefreshToken → Type 0 where
    issued :
        (id raw now : ℕ) (type : PrincipalType) (subject : ℕ) (rows after : List RefreshToken)
        → issue_refresh_token hash ttl_seconds id raw now type subject rows ≡ ok after
        → Step rows after
    rotated :
        (id fresh now raw : ℕ) (expected : PrincipalType) (rows : List RefreshToken) (subject : ℕ)
        (after : List RefreshToken)
        → rotate_refresh_token hash ttl_seconds id fresh now raw expected rows ≡ ok (subject, after)
        → Step rows after
    revoked :
        (now raw : ℕ) (rows : List RefreshToken)
        → Step rows (revoke_refresh_token hash ttl_seconds now raw rows)

  pub data Run : List RefreshToken → List RefreshToken → Type 0 where
    start : (rows : List RefreshToken) → Run rows rows
    next :
        (first rows after : List RefreshToken) → Run first rows → Step rows after → Run first after

  Step-IsSpent :
      (h : ℕ) {rows after : List RefreshToken} → Step rows after → IsSpent h rows → IsSpent h after
  unfolding revoke_refresh_token
  Step-IsSpent h (issued id raw now type subject rows after done) spent =
      issue-IsSpent h id raw now type subject rows done spent
  Step-IsSpent h (rotated id fresh now raw expected rows subject after done) spent =
      let (t, _, made) = rotation id fresh now raw expected rows done in
      issue-IsSpent h id fresh now expected t.subject_id
        (update_where (has_id t.id) (revoke_at now) rows) made
        (revoked-IsSpent h now (has_id t.id) rows spent)
  Step-IsSpent h (revoked now raw rows) spent = revoked-IsSpent h now _ rows spent

  Run-IsSpent :
      (h : ℕ) {rows after : List RefreshToken} → Run rows after → IsSpent h rows → IsSpent h after
  Run-IsSpent h (start rows) spent = spent
  Run-IsSpent h (next first rows after run step) spent =
      Step-IsSpent h step (Run-IsSpent h run spent)

  spent_refused :
      (id fresh now raw : ℕ) (expected : PrincipalType) (rows : List RefreshToken)
      → IsSpent (hash raw) rows
      → rotate_refresh_token hash ttl_seconds id fresh now raw expected rows ≡ err unauthorized
  unfolding rotate_refresh_token
  spent_refused id fresh now raw expected rows (t, found, over) =
      elim (Bool-cases (type_number t.subject_type == type_number expected)) [
        | inl same ↦ rw (found, same, over) refl
        | inr other ↦ rw (found, other) refl
      ]

-- A refresh token that a rotation has taken is never taken again: whatever tokens are issued, rotated
-- and revoked afterwards, and at whatever time, presenting it once more gives 401, for any
-- kind of principal.
pub rotate_refresh_token_once :
    (hash : ℕ → ℕ) (ttl_seconds : PrincipalType → ℕ) (id fresh now raw : ℕ)
    (expected : PrincipalType) (rows : List RefreshToken) (subject : ℕ)
    (after later : List RefreshToken)
    → rotate_refresh_token hash ttl_seconds id fresh now raw expected rows ≡ ok (subject, after)
    → Run hash ttl_seconds after later
    → (id' fresh' now' : ℕ) (expected' : PrincipalType)
    → rotate_refresh_token hash ttl_seconds id' fresh' now' raw expected' later ≡ err unauthorized
rotate_refresh_token_once hash ttl id fresh now raw expected rows subject after later done run id'
      fresh' now' expected' =
    let (t, found, made) = rotation hash ttl id fresh now raw expected rows done in
    let spent = spend (hash raw) now (has_id t.id) rows t found (same_refl t.id) in
    spent_refused hash ttl id' fresh' now' raw expected' later (
      Run-IsSpent hash ttl (hash raw) run (
        issue-IsSpent hash ttl (hash raw) id fresh now expected t.subject_id
          (update_where (has_id t.id) (revoke_at now) rows) made spent))
