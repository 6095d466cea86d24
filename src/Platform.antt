-- ===== src/Platform.antt =====
-- apps/api/src/platform/feature-gate.service.ts, apps/api/src/billing/stripe.service.ts (the webhook)
-- and the subscriptions of apps/api/src/platform/platform.service.ts.
-- Identifiers, codes and feature names are numbers, and 0 is the empty text. Redis is a table of the
-- keys `features:<organisation>`; the expiry of a key is a step of its own.
pub mod Freshness
pub mod Entitlements
pub mod Webhook
mod Billing
mod Tests
use tailor_erp.Prelude.{
  ℕ, zero, suc, Bool, true, false, not, Option, none, some, List, [], ◌∷◌, ◌++◌, ◌==◌,
  if◌then◌else◌, bad_request, not_found, Result, ok, ◌>>=◌, ◌>>◌, guard, or_throw, keep, find, any,
  payment_required, foreign_key_violation, update_where,
}

pub data SubscriptionStatus : Type 0 where
  trialing active past_due suspended cancelled : SubscriptionStatus

-- A row of subscription_plans.
pub record Plan : Type 0 where
  pub id : ℕ
  pub code : ℕ
  pub features : List ℕ
  pub stripe_monthly_price_id : Option ℕ
  pub stripe_yearly_price_id : Option ℕ

-- A row of organization_subscriptions; times are milliseconds.
pub record Subscription : Type 0 where
  pub organization_id : ℕ
  pub plan_id : ℕ
  pub status : SubscriptionStatus
  pub trial_ends_at : Option ℕ
  pub current_period_start : ℕ
  pub current_period_end : ℕ
  pub cancel_at_period_end : Bool
  pub stripe_subscription_id : Option ℕ

-- A key of Redis with its list of features.
pub record CacheEntry : Type 0 where
  pub organization_id : ℕ
  pub features : List ℕ

pub data OrgStatus : Type 0 where
  active suspended : OrgStatus

pub record Organization : Type 0 where
  pub id : ℕ
  pub name : ℕ
  pub status : OrgStatus

pub record Platform : Type 0 where
  pub organizations : List Organization
  pub plans : List Plan
  pub subscriptions : List Subscription
  pub cache : List CacheEntry

abbrev pub of_organization : ℕ → Subscription → Bool
of_organization org s = s.organization_id == org

abbrev pub has_id : ℕ → Plan → Bool
has_id plan p = p.id == plan

abbrev pub cached_for : ℕ → CacheEntry → Bool
cached_for org e = e.organization_id == org

-- `['active', 'trialing'].includes(status)`
abbrev pub is_entitling : SubscriptionStatus → Bool
is_entitling trialing = true
is_entitling active = true
is_entitling past_due = false
is_entitling suspended = false
is_entitling cancelled = false

-- `(subscription.plan.features as string[]) ?? []`
abbrev pub features_of : Option Plan → List ℕ
features_of none = []
features_of (some p) = p.features

abbrev pub entitled_by : List Plan → Option Subscription → List ℕ
entitled_by plans none = []
entitled_by plans (some s) =
    if is_entitling s.status then features_of (find (has_id s.plan_id) plans) else []

-- What the tables give an organisation: the read of getFeatures on a miss.
unfoldable pub entitlements : ℕ → Platform → List ℕ
entitlements org s = entitled_by s.plans (find (of_organization org) s.subscriptions)

-- `redis.del`
unfoldable pub invalidate : ℕ → Platform → Platform
invalidate org s = record s {
  cache = keep (λ (e : CacheEntry). not (e.organization_id == org)) s.cache;
}

-- `redis.set`
unfoldable pub set_features : ℕ → List ℕ → Platform → Platform
unfolding invalidate
set_features org features s = record s {
  cache = record { organization_id = org; features = features } ∷ (invalidate org s).cache;
}

unfoldable pub answer : ℕ → Platform → Option CacheEntry → List ℕ × Platform
unfolding entitlements set_features
answer org s (some e) = (e.features, s)
answer org s none = let features = entitlements org s in (features, set_features org features s)

-- getFeatures
unfoldable pub get_features : ℕ → Platform → List ℕ × Platform
unfolding answer
get_features org s = answer org s (find (cached_for org) s.cache)

-- assertFeature; the read stays in the cache when the check throws.
unfoldable pub assert_feature : ℕ → ℕ → Platform → Result (Unit {0}) × Platform
unfolding get_features
assert_feature org feature s =
    let (features, after) = get_features org s in
    (guard (any (λ f. f == feature) features) payment_required, after)

-- A text or a number that is missing, empty or 0 is falsy.
abbrev pub truthy : Option ℕ → Option ℕ
truthy none = none
truthy (some zero) = none
truthy (some (suc n)) = some (suc n)

abbrev pub or_else {ℓ} : {A : Type ℓ} → Option A → A → A
or_else none d = d
or_else (some a) d = a

pub record ChangeSubscription : Type 0 where
  pub plan_id : Option ℕ
  pub plan_code : Option ℕ
  pub status : Option SubscriptionStatus
  pub current_period_end : Option ℕ
  pub trial_ends_at : Option ℕ

abbrev pub plan_of_code : Option ℕ → List Plan → Result (Option ℕ)
plan_of_code none plans = ok none
plan_of_code (some code) plans = do
  plan ← or_throw (find (λ (p : Plan). p.code == code) plans) bad_request
  ok (some plan.id)

abbrev pub chosen_plan : Option ℕ → Option ℕ → List Plan → Result (Option ℕ)
chosen_plan (some plan) code plans = ok (some plan)
chosen_plan none code plans = plan_of_code code plans

abbrev pub or_kept : Option ℕ → Option ℕ → Option ℕ
or_kept none kept = kept
or_kept (some a) kept = some a

abbrev pub change : Option ℕ → ChangeSubscription → Subscription → Subscription
change plan dto s = record s {
  plan_id = or_else (truthy plan) s.plan_id;
  status = or_else dto.status s.status;
  current_period_end = or_else dto.current_period_end s.current_period_end;
  trial_ends_at = or_kept dto.trial_ends_at s.trial_ends_at;
}

-- The foreign key of a subscription's plan.
abbrev pub is_plan : ℕ → List Plan → Bool
is_plan plan plans = any (has_id plan) plans

-- changeSubscription
unfoldable pub change_subscription : ℕ → ChangeSubscription → Platform → Result Platform
unfolding invalidate update_where
change_subscription org dto s = do
  subscription ← or_throw (find (of_organization org) s.subscriptions) not_found
  plan ← chosen_plan (truthy dto.plan_id) (truthy dto.plan_code) s.plans
  guard (is_plan (change plan dto subscription).plan_id s.plans) foreign_key_violation
  ok (
      invalidate org (record s {
        subscriptions = update_where (of_organization org) (change plan dto) s.subscriptions;
      }))

pub record UpdateOrganization : Type 0 where
  pub name : Option ℕ
  pub status : Option OrgStatus

abbrev pub revise : UpdateOrganization → Organization → Organization
revise dto o = record o { name = or_else dto.name o.name; status = or_else dto.status o.status }

-- updateOrganization
unfoldable pub update_organization : ℕ → UpdateOrganization → Platform → Result Platform
unfolding invalidate update_where
update_organization org dto s = do
  guard (any (λ (o : Organization). o.id == org) s.organizations) not_found
  ok (
      invalidate org (record s {
        organizations =
            update_where (λ (o : Organization). o.id == org) (revise dto) s.organizations;
      }))

-- upsertPlan; the id of a new plan is the database's.
unfoldable pub upsert_plan : Plan → Platform → Platform
unfolding update_where
upsert_plan dto s =
    let same = λ (p : Plan). p.code == dto.code in
    if any same s.plans
    then record s { plans = update_where same (λ p. record dto { id = p.id }) s.plans }
    else record s { plans = s.plans ++ (dto ∷ []) }
