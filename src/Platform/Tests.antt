-- ===== src/Platform/Tests.antt =====
-- An organisation on trial of a plan with two features; Stripe then reports it as active, and as
-- cancelled.
use tailor_erp.Prelude.{
  ℕ, ◌≡◌, refl, false, none, some, [], ◌∷◌, ◌==◌, if◌then◌else◌, not_found, Result, ok, err, guard,
  find, any, payment_required,
}
use tailor_erp.Platform.{
  answer, set_features, invalidate, SubscriptionStatus, Plan, Platform, OrgStatus, entitlements,
  get_features, assert_feature, cached_for, features_of, has_id,
}
use tailor_erp.Platform.Webhook.{StripeStatus, StripeSubscription, sync_subscription}
use tailor_erp.Platform.Billing.{is_paid, sync_subscription-entitlements}
use tailor_erp.Platform.Entitlements.{asked, start, next, get_features_current}

abbrev pro : Plan
pro = record {
  id = 3;
  code = 30;
  features = 7 ∷ 8 ∷ [];
  stripe_monthly_price_id = some 71;
  stripe_yearly_price_id = none;
}

abbrev on_trial : Platform
on_trial = record {
  organizations = record { id = 1; name = 11; status = OrgStatus.active } ∷ [];
  plans = pro ∷ [];
  subscriptions =
      record {
        organization_id = 1;
        plan_id = 3;
        status = SubscriptionStatus.trialing;
        trial_ends_at = some 900;
        current_period_start = 0;
        current_period_end = 1000;
        cancel_at_period_end = false;
        stripe_subscription_id = none;
      }
      ∷ [];
  cache = [];
}

abbrev unknown_subscription : ℕ → Result StripeSubscription
unknown_subscription id = err not_found

abbrev bought : StripeSubscription
bought = record {
  id = 55;
  metadata_organization_id = some 1;
  metadata_plan_id = none;
  items = record { price = 71; current_period_start = some 5; current_period_end = some 6 } ∷ [];
  status = StripeStatus.canceled;
  cancel_at_period_end = false;
  trial_end = none;
}

abbrev read_once : Platform
read_once = (get_features 1 on_trial).1

get_features_current_example :
    ((get_features 1 read_once).0 ≡ entitlements 1 read_once)
    × ((get_features 1 read_once).1.subscriptions ≡ read_once.subscriptions)
    × ((get_features 1 read_once).1.plans ≡ read_once.plans)
    × ((assert_feature 1 7 read_once).0
        ≡ guard (any (λ f. f == 7) (entitlements 1 read_once)) payment_required)
get_features_current_example =
    get_features_current unknown_subscription on_trial read_once 1 7 refl
      (next on_trial on_trial read_once (start on_trial) (asked 1 on_trial))

trial_features : (get_features 1 read_once).0 ≡ 7 ∷ 8 ∷ []
unfolding get_features answer entitlements set_features invalidate
trial_features = refl

sync_subscription-entitlements_example :
    (t : Platform) × (sync_subscription bought on_trial ≡ ok t)
    × (entitlements 1 t
        ≡ (if is_paid bought.status then features_of (find (has_id 3) on_trial.plans) else []))
    × (find (cached_for 1) t.cache ≡ none)
sync_subscription-entitlements_example =
    sync_subscription-entitlements bought on_trial 1 3 (5, 6) refl refl refl refl refl
