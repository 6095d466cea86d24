-- ===== src/Auth/Tokens.antt =====
-- apps/api/src/auth/token.service.ts: refresh tokens.
-- The hash of a token and the time to live of the configuration are parameters; the random text and the
-- key of a new row are arguments. Signing the access token is the JWT library's.
pub mod SingleUse
mod Tests
use tailor_erp.Prelude.{
  ℕ, ◌+◌, ◌*◌, Bool, true, false, not, ◌&&◌, Option, none, some, List, [], ◌∷◌, ◌++◌, leb, ◌==◌,
  unauthorized, Result, ok, ◌>>=◌, ◌>>◌, guard, or_throw, find, any, unique_violation, update_where,
}

pub data PrincipalType : Type 0 where
  staff customer platform : PrincipalType

-- A row of refresh_tokens; times are milliseconds.
pub record RefreshToken : Type 0 where
  pub id : ℕ
  pub subject_type : PrincipalType
  pub subject_id : ℕ
  pub token_hash : ℕ
  pub expires_at : ℕ
  pub revoked_at : Option ℕ

abbrev pub type_number : PrincipalType → ℕ
type_number staff = 0
type_number customer = 1
type_number platform = 2

abbrev pub has_hash : ℕ → RefreshToken → Bool
has_hash h t = t.token_hash == h

abbrev pub has_id : ℕ → RefreshToken → Bool
has_id id t = t.id == id

abbrev pub is_live : Option ℕ → Bool
is_live none = true
is_live (some t) = false

abbrev pub revoke_at : ℕ → RefreshToken → RefreshToken
revoke_at now t = record t { revoked_at = some now }

-- The negation of the condition that makes the token invalid.
abbrev pub is_valid : PrincipalType → ℕ → RefreshToken → Bool
is_valid expected now t =
    (type_number t.subject_type == type_number expected)
    && is_live t.revoked_at
    && leb now t.expires_at

module _ (hash : ℕ → ℕ) (ttl_seconds : PrincipalType → ℕ) where
  abbrev pub new_token : ℕ → ℕ → ℕ → PrincipalType → ℕ → RefreshToken
  new_token id raw now subject_type subject = record {
    id = id;
    subject_type = subject_type;
    subject_id = subject;
    token_hash = hash raw;
    expires_at = now + ttl_seconds subject_type * 1000;
    revoked_at = none;
  }

  -- issueRefreshToken: the keys of the table refuse an id or a hash that is taken.
  unfoldable pub issue_refresh_token :
      ℕ → ℕ → ℕ → PrincipalType → ℕ → List RefreshToken → Result (List RefreshToken)
  issue_refresh_token id raw now subject_type subject rows = do
    guard (not (any (has_id id) rows)) unique_violation
    guard (not (any (has_hash (hash raw)) rows)) unique_violation
    ok (rows ++ (new_token id raw now subject_type subject ∷ []))

  -- rotateRefreshToken: the subject, and the table after it. `now` is read once.
  unfoldable pub rotate_refresh_token :
      ℕ → ℕ → ℕ → ℕ → PrincipalType → List RefreshToken → Result (ℕ × List RefreshToken)
  unfolding issue_refresh_token update_where
  rotate_refresh_token id fresh now raw expected rows = do
    token ← or_throw (find (has_hash (hash raw)) rows) unauthorized
    guard (is_valid expected now token) unauthorized
    let revoked = update_where (has_id token.id) (revoke_at now) rows
    rows' ← issue_refresh_token id fresh now expected token.subject_id revoked
    ok (token.subject_id, rows')

  -- revokeRefreshToken
  unfoldable pub revoke_refresh_token : ℕ → ℕ → List RefreshToken → List RefreshToken
  unfolding update_where
  revoke_refresh_token now raw rows =
      update_where (λ (t : RefreshToken). has_hash (hash raw) t && is_live t.revoked_at)
        (revoke_at now) rows
