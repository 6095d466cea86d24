-- ===== src/Auth/Tokens/Tests.antt =====
-- A token that is rotated, and presented again after its successor is revoked.
use tailor_erp.Prelude.{ℕ, ◌+◌, ◌≡◌, refl, List, [], ◌∷◌, unauthorized, ok, err, update_where}
use tailor_erp.Auth.Tokens.{
  PrincipalType, staff, RefreshToken, revoke_at, new_token, issue_refresh_token,
  rotate_refresh_token, revoke_refresh_token,
}
use tailor_erp.Auth.Tokens.SingleUse.{revoked, start, next, rotate_refresh_token_once}

abbrev plus_hundred : ℕ → ℕ
plus_hundred raw = raw + 100

abbrev a_week : PrincipalType → ℕ
a_week kind = 604800

abbrev signed_in : List RefreshToken
signed_in = new_token plus_hundred a_week 1 7 0 staff 42 ∷ []

abbrev rotated_once : List RefreshToken
rotated_once =
    revoke_at 5 (new_token plus_hundred a_week 1 7 0 staff 42)
    ∷ new_token plus_hundred a_week 2 8 5 staff 42
    ∷ []

rotates : rotate_refresh_token plus_hundred a_week 2 8 5 7 staff signed_in ≡ ok (42, rotated_once)
unfolding rotate_refresh_token issue_refresh_token update_where
rotates = refl

abbrev signed_out : List RefreshToken
signed_out = revoke_refresh_token plus_hundred a_week 6 8 rotated_once

rotate_refresh_token_once_example :
    rotate_refresh_token plus_hundred a_week 3 9 7 7 staff signed_out ≡ err unauthorized
rotate_refresh_token_once_example =
    rotate_refresh_token_once plus_hundred a_week 2 8 5 7 staff signed_in 42 rotated_once signed_out
      rotates
      (next rotated_once rotated_once signed_out (start rotated_once) (revoked 6 8 rotated_once)) 3
      9 7 staff
