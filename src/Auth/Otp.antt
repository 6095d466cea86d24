-- ===== src/Auth/Otp.antt =====
-- apps/api/src/auth/otp.service.ts: the sign-in of a customer by a one-time code. Redis is a
-- parameter: its states and its commands. The hash of a code, the limits and times of the
-- configuration, and the key of the feature pwa are parameters; the random code, the time and the text
-- of a new token are arguments. Phones, codes and hashes are numbers; an organisation that is not
-- given or empty is none. The answer leaves out the code that it shows in development.
pub mod Attempts
mod Tests
use tailor_erp.Prelude.{
  ℕ, Bool, true, false, ◌&&◌, Option, none, some, List, [], ◌∷◌, ltb, ◌==◌, if◌then◌else◌,
  unauthorized, conflict, too_many_requests, Result, ok, err, ◌>>=◌, ◌>>◌, guard, or_throw, keep,
  find,
}
use tailor_erp.Platform.{Platform, assert_feature}
use tailor_erp.Auth.Tokens.{
  PrincipalType, customer, RefreshToken, issue_refresh_token, rotate_refresh_token,
}

-- The columns of customers that the service reads.
pub record CustomerAccount : Type 0 where
  pub id : ℕ
  pub organization_id : ℕ
  pub phone : ℕ
  pub is_active : Bool

pub data Key : Type 0 where
  code_key attempts_key requests_key : ℕ → Key

pub record OtpConfig : Type 0 where
  pub request_window_seconds : ℕ
  pub max_requests_per_window : ℕ
  pub ttl_seconds : ℕ
  pub max_verify_attempts : ℕ
  pub pwa : ℕ

abbrev pub in_organization : Option ℕ → CustomerAccount → Bool
in_organization none c = true
in_organization (some org) c = c.organization_id == org

abbrev pub at_most_one : List CustomerAccount → Result (Option CustomerAccount)
at_most_one [] = ok none
at_most_one (c ∷ []) = ok (some c)
at_most_one (c ∷ d ∷ cs) = err conflict

-- resolveCustomer
unfoldable pub resolve_customer :
    ℕ → Option ℕ → List CustomerAccount → Result (Option CustomerAccount)
resolve_customer phone org customers = at_most_one (
    keep (λ (c : CustomerAccount). (c.phone == phone) && c.is_active && in_organization org c)
      customers)

module _ (Redis : Type 0) (incr : Key → Redis → ℕ × Redis) (expire : Key → ℕ → Redis → Redis)
    (get : Key → Redis → Option ℕ) (set_ex : Key → ℕ → ℕ → Redis → Redis)
    (del : Key → Redis → Redis) (hash : ℕ → ℕ) (ttl_seconds : PrincipalType → ℕ)
    (config : OtpConfig) where
  -- incr, and expire when the counter is new
  unfoldable pub count_up : Key → ℕ → Redis → ℕ × Redis
  count_up key seconds redis =
      let (n, counted) = incr key redis in
      (n, if n == 1 then expire key seconds counted else counted)

  -- The end of requestOtp.
  unfoldable pub send_code :
      ℕ → ℕ → Redis → Result (Option CustomerAccount) → Result (Unit {0}) × Redis
  send_code phone code redis (err e) = (err e, redis)
  send_code phone code redis (ok none) = (ok tt, redis)
  send_code phone code redis (ok (some c)) = (
    ok tt,
    del (attempts_key phone) (set_ex (code_key phone) (hash code) config.ttl_seconds redis),
  )

  -- requestOtp
  unfoldable pub request_otp :
      ℕ → ℕ → Option ℕ → List CustomerAccount → Redis → Result (Unit {0}) × Redis
  unfolding count_up send_code resolve_customer
  request_otp code phone org customers redis =
      let (requests, counted) = count_up (requests_key phone) config.request_window_seconds redis in
      if ltb config.max_requests_per_window requests
      then (err too_many_requests, counted)
      else send_code phone code counted (resolve_customer phone org customers)

  abbrev pub has_stored : Option ℕ → ℕ → Bool
  has_stored none code = false
  has_stored (some stored) code = stored == hash code

  abbrev pub signed_in :
      ℕ
      → CustomerAccount
      → Redis
      → Platform
      → List RefreshToken
      → Result (List RefreshToken)
      → Result CustomerAccount × Redis × Platform × List RefreshToken
  signed_in phone c redis platform rows (err e) =
      (err e, del (attempts_key phone) (del (code_key phone) redis), platform, rows)
  signed_in phone c redis platform rows (ok after) =
      (ok c, del (attempts_key phone) (del (code_key phone) redis), platform, after)

  abbrev pub admitted :
      ℕ
      → ℕ
      → ℕ
      → ℕ
      → CustomerAccount
      → Redis
      → List RefreshToken
      → Result (Unit {0})
      → Platform
      → Result CustomerAccount × Redis × Platform × List RefreshToken
  admitted id raw now phone c redis rows (err e) platform = (err e, redis, platform, rows)
  admitted id raw now phone c redis rows (ok done) platform =
      signed_in phone c redis platform rows
        (issue_refresh_token hash ttl_seconds id raw now customer c.id rows)

  -- verifyOtp after the comparison of the code
  unfoldable pub sign_in :
      ℕ
      → ℕ
      → ℕ
      → ℕ
      → Redis
      → Platform
      → List RefreshToken
      → Result (Option CustomerAccount)
      → Result CustomerAccount × Redis × Platform × List RefreshToken
  sign_in id raw now phone redis platform rows (err e) = (err e, redis, platform, rows)
  sign_in id raw now phone redis platform rows (ok none) = (err unauthorized, redis, platform, rows)
  sign_in id raw now phone redis platform rows (ok (some c)) =
      let (gate, after) = assert_feature c.organization_id config.pwa platform in
      admitted id raw now phone c redis rows gate after

  -- verifyOtp
  unfoldable pub verify_otp :
      ℕ
      → ℕ
      → ℕ
      → ℕ
      → ℕ
      → Option ℕ
      → List CustomerAccount
      → Redis
      → Platform
      → List RefreshToken
      → Result CustomerAccount × Redis × Platform × List RefreshToken
  unfolding count_up sign_in resolve_customer
  verify_otp id raw now phone code org customers redis platform rows =
      let (attempts, counted) = count_up (attempts_key phone) 900 redis in
      if ltb config.max_verify_attempts attempts
      then (err unauthorized, del (code_key phone) counted, platform, rows)
      else if has_stored (get (code_key phone) counted) code
      then sign_in id raw now phone counted platform rows (resolve_customer phone org customers)
      else (err unauthorized, counted, platform, rows)

  -- customerRefresh after the rotation, which stays when the account is refused
  abbrev pub refreshed :
      List CustomerAccount
      → List RefreshToken
      → Result (ℕ × List RefreshToken)
      → Result CustomerAccount × List RefreshToken
  refreshed customers rows (err e) = (err e, rows)
  refreshed customers rows (ok (subject, after)) = (
    do
      c ← or_throw (find (λ (c : CustomerAccount). c.id == subject) customers) unauthorized
      guard c.is_active unauthorized
      ok c,
    after,
  )

  -- customerRefresh
  unfoldable pub customer_refresh :
      ℕ
      → ℕ
      → ℕ
      → ℕ
      → List CustomerAccount
      → List RefreshToken
      → Result CustomerAccount × List RefreshToken
  customer_refresh id fresh now raw customers rows =
      refreshed customers rows
        (rotate_refresh_token hash ttl_seconds id fresh now raw customer rows)
