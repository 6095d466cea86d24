-- ===== src/Prelude/Errors.antt =====
-- Handlers that throw, and the database they run against. An error keeps the class of the NestJS
-- exception; its text is not modelled. `check_violation` is a write that a CHECK constraint of the
-- schema refuses, `missing_record` an update whose row is not there,
-- `foreign_key_violation` and `unique_violation` a row that the keys of its table refuse.
use mathlib.Core.Path.{◌≡◌, refl}
use mathlib.Core.Bool.{Bool, true, false}
use mathlib.Core.Logic.{◌⊎◌, inl, inr}
use tailor_erp.Prelude.Tests.{if◌then◌else◌}
use mathlib.Core.Option.{Option, none, some}

pub data Failure : Type 0 where
  bad_request unauthorized forbidden not_found conflict unprocessable : Failure
  too_many_requests payment_required service_unavailable check_violation : Failure
  missing_record foreign_key_violation unique_violation : Failure

pub data Result {κ} (Value : Type κ) : Type κ where
  err : Failure → Result Value
  ok : Value → Result Value

-- `if (!row) throw …`
abbrev pub or_throw {κ} : {Value : Type κ} → Option Value → Failure → Result Value
or_throw (some row) failure = ok row
or_throw none failure = err failure

-- `if (!test) throw …`
abbrev pub guard : Bool → Failure → Result (Unit {0})
guard false failure = err failure
guard true failure = ok tt

-- `await` in a handler: a rejection passes through. The precedence is that of a statement.
infixl 5 ◌>>=◌
abbrev pub ◌>>=◌ {κ μ} :
    {Value : Type κ} {Next : Type μ} → Result Value → (Value → Result Next) → Result Next
err failure >>= next = err failure
ok value >>= next = next value

infixl 5 ◌>>◌
abbrev pub ◌>>◌ {κ} : {Next : Type κ} → Result (Unit {0}) → Result Next → Result Next
first >> next = first >>= λ _. next

pub Result-cases {ℓ} :
    {A : Type ℓ} (m : Result A) → ((a : A) × (m ≡ ok a)) ⊎ ((e : Failure) × (m ≡ err e))
Result-cases (ok a) = inl (a, refl)
Result-cases (err e) = inr (e, refl)

-- A handler that returns has had a value from its first step.
pub >>=-eq-ok {κ μ} :
    {Value : Type κ} {Next : Type μ} (step : Result Value) (next : Value → Result Next) {end : Next}
    → (step >>= next) ≡ ok end
    → (value : Value) × (step ≡ ok value) × (next value ≡ ok end)
>>=-eq-ok (err failure) next h = cc
>>=-eq-ok (ok value) next h = (value, refl, h)

pub ok_inj {ℓ} : {A : Type ℓ} {a b : A} → ok a ≡ ok b → a ≡ b
ok_inj h = cc

pub err_ne_ok {ℓ} : {A : Type ℓ} {e : Failure} {a : A} → err e ≡ ok a → ⊥
err_ne_ok h = cc

pub or_throw-eq-ok {ℓ} :
    {A : Type ℓ} (o : Option A) (e : Failure) {a : A} → or_throw o e ≡ ok a → o ≡ some a
or_throw-eq-ok none e h = cc
or_throw-eq-ok (some a) e h = cc

pub guard-eq-ok : (b : Bool) (e : Failure) {u : Unit {0}} → guard b e ≡ ok u → b ≡ true
guard-eq-ok true e h = refl
guard-eq-ok false e h = cc

pub if-eq-ok {ℓ} :
    {A : Type ℓ} (b : Bool) (m n : Result A) {a : A}
    → (if b then m else n) ≡ ok a
    → ((b ≡ true) × (m ≡ ok a)) ⊎ ((b ≡ false) × (n ≡ ok a))
if-eq-ok true m n h = inl (refl, h)
if-eq-ok false m n h = inr (refl, h)
