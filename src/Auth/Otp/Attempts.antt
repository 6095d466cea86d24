-- ===== src/Auth/Otp/Attempts.antt =====
-- The limit on the guesses of a one-time code.
use tailor_erp.Prelude.{
  ℕ, suc, ◌+◌, ◌≤◌, ◌≡◌, refl, ◌∙◌, inl, inr, Bool, true, false, Option, none, List, arith, ltb,
  ◌==◌, Bool-cases, unauthorized, Result, err,
}
use tailor_erp.Platform.{Platform}
use tailor_erp.Auth.Tokens.{PrincipalType, RefreshToken}
use tailor_erp.Auth.Otp.{
  Key, code_key, attempts_key, CustomerAccount, OtpConfig, count_up, has_stored, verify_otp,
}

module _ (Redis : Type 0) (incr : Key → Redis → ℕ × Redis) (expire : Key → ℕ → Redis → Redis)
    (get : Key → Redis → Option ℕ) (set_ex : Key → ℕ → ℕ → Redis → Redis)
    (del : Key → Redis → Redis) (hash : ℕ → ℕ) (ttl_seconds : PrincipalType → ℕ)
    (config : OtpConfig) where
  abbrev pub verify :
      ℕ
      → ℕ
      → ℕ
      → ℕ
      → ℕ
      → Option ℕ
      → List CustomerAccount
      → Redis
      → Platform
      → List RefreshToken
      → Result CustomerAccount × Redis × Platform × List RefreshToken
  verify = verify_otp Redis incr expire get set_ex del hash ttl_seconds config

  abbrev pub is_code : Option ℕ → ℕ → Bool
  is_code = has_stored Redis incr expire get set_ex del hash ttl_seconds config

  -- Verifications of a phone with codes that are not the stored one.
  pub data Guesses (phone : ℕ) : ℕ → Redis → Redis → Type 0 where
    no_guess : (r : Redis) → Guesses phone 0 r r
    one_more :
        (n id raw now code : ℕ) (org : Option ℕ) (customers : List CustomerAccount)
        (first r : Redis) (platform : Platform) (rows : List RefreshToken)
        → Guesses phone n first r
        → is_code (get (code_key phone) r) code ≡ false
        → Guesses phone (suc n) first (verify id raw now phone code org customers r platform rows).1

  module _ (count : Key → Redis → ℕ)
      (incr-counts : (k : Key) (r : Redis) → (incr k r).0 ≡ suc (count k r))
      (count-incr : (k : Key) (r : Redis) → count k (incr k r).1 ≡ suc (count k r))
      (count-expire : (j k : Key) (n : ℕ) (r : Redis) → count j (expire k (suc n) r) ≡ count j r)
      (count-del : (p : ℕ) (r : Redis)
        → count (attempts_key p) (del (code_key p) r) ≡ count (attempts_key p) r)
      (get-incr : (p : ℕ) (r : Redis)
        → get (code_key p) (incr (attempts_key p) r).1 ≡ get (code_key p) r)
      (get-expire : (j k : Key) (n : ℕ) (r : Redis) → get j (expire k (suc n) r) ≡ get j r)
      (get-del : (k : Key) (r : Redis) → get k (del k r) ≡ none) where
    up : Key → Redis → ℕ × Redis
    up key r = count_up Redis incr expire get set_ex del hash ttl_seconds config key 900 r

    up_number : (k : Key) (r : Redis) → (up k r).0 ≡ suc (count k r)
    unfolding count_up up
    up_number k r = incr-counts k r

    up_count : (k : Key) (r : Redis) → count k (up k r).1 ≡ suc (count k r)
    unfolding count_up up
    up_count k r = elim (Bool-cases ((incr k r).0 == 1)) [
      | inl new ↦ rw new (count-expire k k 899 (incr k r).1 ∙ count-incr k r)
      | inr old ↦ rw old (count-incr k r)
    ]

    up_code : (p : ℕ) (r : Redis) → get (code_key p) (up (attempts_key p) r).1 ≡ get (code_key p) r
    unfolding count_up up
    up_code p r = elim (Bool-cases ((incr (attempts_key p) r).0 == 1)) [
      | inl new ↦
          rw new (
            get-expire (code_key p) (attempts_key p) 899 (incr (attempts_key p) r).1 ∙ get-incr p r)
      | inr old ↦ rw old (get-incr p r)
    ]

    -- A wrong code is refused and counted.
    wrong :
        (id raw now phone code : ℕ) (org : Option ℕ) (customers : List CustomerAccount) (r : Redis)
        (platform : Platform) (rows : List RefreshToken)
        → is_code (get (code_key phone) r) code ≡ false
        → count (attempts_key phone) (verify id raw now phone code org customers r platform rows).1
          ≡ suc (count (attempts_key phone) r)
    unfolding verify_otp up
    wrong id raw now phone code org customers r platform rows miss =
        elim (Bool-cases (ltb config.max_verify_attempts (up (attempts_key phone) r).0)) [
          | inl over ↦
              rw over
                (count-del phone (up (attempts_key phone) r).1 ∙ up_count (attempts_key phone) r)
          | inr under ↦ rw (under, up_code phone r, miss) (up_count (attempts_key phone) r)
        ]

    counted :
        (phone n : ℕ) {first r : Redis}
        → Guesses phone n first r
        → count (attempts_key phone) r ≡ n + count (attempts_key phone) first
    counted phone n (no_guess r) = omega arith
    counted phone n (one_more m id raw now code org customers first r platform rows before miss) =
        let now_counted = wrong id raw now phone code org customers r platform rows miss in
        let earlier = counted phone m before in omega (arith, now_counted, earlier)

    over_limit : (m n c : ℕ) → m ≤ n → ltb m (suc (n + c)) ≡ true
    over_limit m n c h = ground arith

    -- After as many verifications of a phone with wrong codes as the configuration allows, one after
    -- the other and before a key expires, the next verification is refused with 401 whatever code it
    -- presents, the right one too, and the code is deleted. Of Redis it is assumed that INCR adds one
    -- and gives the sum, that INCR of a counter and EXPIRE with a positive time leave what the keys
    -- hold else, and that DEL removes its key and leaves the counter.
    pub verify_otp_locks :
        (phone n id raw now code : ℕ) (org : Option ℕ) (customers : List CustomerAccount)
        (first r : Redis) (platform : Platform) (rows : List RefreshToken)
        → Guesses phone n first r
        → config.max_verify_attempts ≤ n
        → ((verify id raw now phone code org customers r platform rows).0 ≡ err unauthorized)
          × (get (code_key phone) (verify id raw now phone code org customers r platform rows).1
              ≡ none)
    unfolding verify_otp up
    verify_otp_locks phone n id raw now code org customers first r platform rows tried enough =
        let over : ltb config.max_verify_attempts (up (attempts_key phone) r).0 ≡ true =
          rw (up_number (attempts_key phone) r, counted phone n tried)
            (over_limit config.max_verify_attempts n (count (attempts_key phone) first) enough) in
        rw over (refl, get-del (code_key phone) (up (attempts_key phone) r).1)
