-- ===== src/Auth/Otp/Tests.antt =====
-- A phone that is tried with two wrong codes, on a table of counters and a table of texts.
use tailor_erp.Prelude.{
  ℕ, suc, ◌+◌, ◌≡◌, refl, Bool, true, false, Option, none, some, List, [], ◌∷◌, arith, ◌==◌,
  if◌then◌else◌, unauthorized, Result, err, payment_required,
}
use tailor_erp.Platform.{Platform, entitlements, answer, get_features, assert_feature}
use tailor_erp.Auth.Tokens.{PrincipalType, RefreshToken}
use tailor_erp.Auth.Otp.{
  CustomerAccount, Key, code_key, attempts_key, requests_key, OtpConfig, resolve_customer, count_up,
  send_code, request_otp, sign_in, verify_otp,
}
use tailor_erp.Auth.Otp.Attempts.{verify, Guesses, no_guess, one_more, verify_otp_locks}

abbrev same_key : Key → Key → Bool
same_key (code_key p) (code_key q) = p == q
same_key (code_key p) (attempts_key q) = false
same_key (code_key p) (requests_key q) = false
same_key (attempts_key p) (code_key q) = false
same_key (attempts_key p) (attempts_key q) = p == q
same_key (attempts_key p) (requests_key q) = false
same_key (requests_key p) (code_key q) = false
same_key (requests_key p) (attempts_key q) = false
same_key (requests_key p) (requests_key q) = p == q

same_key_refl : (k : Key) → same_key k k ≡ true
same_key_refl (code_key p) = ground arith
same_key_refl (attempts_key p) = ground arith
same_key_refl (requests_key p) = ground arith

record Tables : Type 0 where
  numbers : Key → ℕ
  texts : Key → Option ℕ

abbrev incr_table : Key → Tables → ℕ × Tables
incr_table k t = (
  suc (t.numbers k),
  record {
    numbers = λ j. if same_key j k then suc (t.numbers k) else t.numbers j;
    texts = t.texts;
  },
)

abbrev expire_table : Key → ℕ → Tables → Tables
expire_table k n t = t

abbrev get_table : Key → Tables → Option ℕ
get_table k t = t.texts k

abbrev set_table : Key → ℕ → ℕ → Tables → Tables
set_table k v n t = record {
  numbers = t.numbers;
  texts = λ j. if same_key j k then some v else t.texts j;
}

abbrev del_table : Key → Tables → Tables
del_table k t = record {
  numbers = λ j. if same_key j k then 0 else t.numbers j;
  texts = λ j. if same_key j k then none else t.texts j;
}

abbrev plus_hundred : ℕ → ℕ
plus_hundred raw = raw + 100

abbrev a_week : PrincipalType → ℕ
a_week kind = 604800

abbrev two_attempts : OtpConfig
two_attempts = record {
  request_window_seconds = 900;
  max_requests_per_window = 3;
  ttl_seconds = 300;
  max_verify_attempts = 2;
  pwa = 4;
}

abbrev empty_platform : Platform
empty_platform = record { plans = []; organizations = []; subscriptions = []; cache = [] }

abbrev somebody : CustomerAccount
somebody = record { id = 1; organization_id = 2; phone = 55; is_active = true }

abbrev try : ℕ → Tables → Result CustomerAccount × Tables × Platform × List RefreshToken
try code t =
    verify Tables incr_table expire_table get_table set_table del_table plus_hundred a_week
      two_attempts 1 7 0 55 code none (somebody ∷ []) t empty_platform []

abbrev asked : Tables
asked =
    (request_otp Tables incr_table expire_table get_table set_table del_table plus_hundred a_week
      two_attempts 1234 55 none (somebody ∷ []) (record { numbers = λ j. 0; texts = λ j. none })).1

asked-Guesses :
    Guesses Tables incr_table expire_table get_table set_table del_table plus_hundred a_week
      two_attempts 55 2 asked
      (try 9 (try 8 asked).1).1
unfolding request_otp send_code resolve_customer verify_otp count_up
asked-Guesses =
    one_more 1 1 7 0 9 none (somebody ∷ []) asked (try 8 asked).1 empty_platform []
      (one_more 0 1 7 0 8 none (somebody ∷ []) asked asked empty_platform [] (no_guess asked) refl)
      refl

-- A right code signs in while there are attempts left, here as far as the plan allows it.
right_code_needs_plan : (try 1234 asked).0 ≡ err payment_required
unfolding request_otp send_code resolve_customer verify_otp count_up sign_in assert_feature
    get_features answer entitlements
right_code_needs_plan = refl

verify_otp_locks_example :
    ((try 1234 (try 9 (try 8 asked).1).1).0 ≡ err unauthorized)
    × (get_table (code_key 55) (try 1234 (try 9 (try 8 asked).1).1).1 ≡ none)
verify_otp_locks_example =
    verify_otp_locks Tables incr_table expire_table get_table set_table del_table plus_hundred
      a_week two_attempts (λ k t. t.numbers k) (λ k t. refl) (λ k t. rw (same_key_refl k) refl)
      (λ j k n t. refl) (λ p t. refl) (λ p t. refl) (λ j k n t. refl)
      (λ k t. rw (same_key_refl k) refl) 55 2 1 7 0 1234 none (somebody ∷ []) asked
      (try 9 (try 8 asked).1).1 empty_platform [] asked-Guesses (omega arith)
