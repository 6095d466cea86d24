-- ===== src/Platform/Entitlements.antt =====
-- The cache of the feature gate: that it never hides what the tables give.
use tailor_erp.Prelude.{
  ℕ, ◌≡◌, refl, ap, Bool, Option, none, some, [], ◌==◌, Result, ok, err, ok_inj, guard, >>=-eq-ok,
  any, err_ne_ok, payment_required, subst,
}
use tailor_erp.Platform.{
  Platform, entitlements, invalidate, get_features, assert_feature, truthy, ChangeSubscription,
  change_subscription, UpdateOrganization, update_organization,
}
use tailor_erp.Platform.Webhook.{
  StripeSubscription, Event, subscription_created, subscription_updated, subscription_deleted,
  invoice_paid, invoice_payment_failed, unhandled, synced, sync_subscription, sync_linked, handled,
  handle_event,
}
use tailor_erp.Platform.Freshness.{
  IsFresh, invalidate-IsFresh, get_features-IsRead, change_subscription-IsFresh,
  update_organization-IsFresh, sync_subscription-IsFresh,
}

module _ (retrieve : ℕ → Result StripeSubscription) where
  handled-IsFresh :
      (m : Result Platform) {r : Bool × Platform}
      → handled retrieve m ≡ ok r
      → ((t : Platform) → m ≡ ok t → IsFresh t)
      → IsFresh (r.1)
  handled-IsFresh (err e) done keeps = absurd (err_ne_ok done)
  handled-IsFresh (ok t) done keeps = subst (λ p. IsFresh (p.1)) (ok_inj done) (keeps t refl)

  sync_linked-IsFresh :
      (link : Option ℕ) (s t : Platform)
      → sync_linked retrieve link s ≡ ok t
      → IsFresh s
      → IsFresh t
  unfolding sync_linked
  sync_linked-IsFresh none s t done fresh = subst IsFresh (ok_inj done) fresh
  sync_linked-IsFresh (some id) s t done fresh =
      let (sub, _, synced) = >>=-eq-ok (retrieve id) _ done in
      sync_subscription-IsFresh sub s synced fresh

  handle_event-IsFresh :
      (event : Event) (s : Platform) {r : Bool × Platform}
      → handle_event retrieve event s ≡ ok r
      → IsFresh s
      → IsFresh (r.1)
  unfolding handle_event
  handle_event-IsFresh (subscription_created sub) s done fresh =
      handled-IsFresh (sync_subscription sub s) done
        (λ t h. sync_subscription-IsFresh sub s h fresh)
  handle_event-IsFresh (subscription_updated sub) s done fresh =
      handled-IsFresh (sync_subscription sub s) done
        (λ t h. sync_subscription-IsFresh sub s h fresh)
  handle_event-IsFresh (subscription_deleted sub) s done fresh =
      handled-IsFresh (sync_subscription sub s) done
        (λ t h. sync_subscription-IsFresh sub s h fresh)
  handle_event-IsFresh (invoice_paid link) s done fresh =
      handled-IsFresh (sync_linked retrieve (truthy link) s) done
        (λ t h. sync_linked-IsFresh (truthy link) s t h fresh)
  handle_event-IsFresh (invoice_payment_failed link) s done fresh =
      handled-IsFresh (sync_linked retrieve (truthy link) s) done
        (λ t h. sync_linked-IsFresh (truthy link) s t h fresh)
  handle_event-IsFresh unhandled s done fresh = subst (λ p. IsFresh (p.1)) (ok_inj done) fresh

  -- What reaches the service: reads of the gate, the administration's writes, events of Stripe, and the
  -- expiry of a key.
  pub data Step : Platform → Platform → Type 0 where
    asked : (org : ℕ) (s : Platform) → Step s (get_features org s).1
    checked : (org feature : ℕ) (s : Platform) → Step s (assert_feature org feature s).1
    changed :
        (org : ℕ) (dto : ChangeSubscription) (s t : Platform)
        → change_subscription org dto s ≡ ok t
        → Step s t
    revised :
        (org : ℕ) (dto : UpdateOrganization) (s t : Platform)
        → update_organization org dto s ≡ ok t
        → Step s t
    notified :
        (event : Event) (b : Bool) (s t : Platform)
        → handle_event retrieve event s ≡ ok (b, t)
        → Step s t
    expired : (org : ℕ) (s : Platform) → Step s (invalidate org s)

  pub data Run : Platform → Platform → Type 0 where
    start : (s : Platform) → Run s s
    next : (r s t : Platform) → Run r s → Step s t → Run r t

  Step-IsFresh : {s t : Platform} → Step s t → IsFresh s → IsFresh t
  unfolding assert_feature
  Step-IsFresh (asked org s) fresh = let (_, _, _, after) = get_features-IsRead org s fresh in after
  Step-IsFresh (checked org feature s) fresh =
      let (_, _, _, after) = get_features-IsRead org s fresh in after
  Step-IsFresh (changed org dto s t done) fresh = change_subscription-IsFresh org dto s done fresh
  Step-IsFresh (revised org dto s t done) fresh = update_organization-IsFresh org dto s done fresh
  Step-IsFresh (notified event b s t done) fresh = handle_event-IsFresh event s done fresh
  Step-IsFresh (expired org s) fresh = invalidate-IsFresh org s s refl (λ other h. refl) fresh

  Run-IsFresh : {r t : Platform} → Run r t → IsFresh r → IsFresh t
  Run-IsFresh (start s) fresh = fresh
  Run-IsFresh (next r s t run step) fresh = Step-IsFresh step (Run-IsFresh run fresh)

-- The gate refines the tables: however reads, subscription changes, events of Stripe and expiries
-- follow each other from an empty cache, the features that the gate then gives an organisation are
-- those of its plan if its subscription is active or on trial, and none otherwise; the answer does not
-- depend on the cache, the tables are left as they are, and a check passes exactly for those features,
-- with 402 for any other.
pub get_features_current :
    (retrieve : ℕ → Result StripeSubscription) (r s : Platform) (org feature : ℕ)
    → r.cache ≡ []
    → Run retrieve r s
    → ((get_features org s).0 ≡ entitlements org s)
      × ((get_features org s).1.subscriptions ≡ s.subscriptions)
      × ((get_features org s).1.plans ≡ s.plans)
      × ((assert_feature org feature s).0
          ≡ guard (any (λ f. f == feature) (entitlements org s)) payment_required)
unfolding assert_feature
get_features_current retrieve r s org feature empty run =
    let (current, subscriptions, plans, _) =
      get_features-IsRead org s (Run-IsFresh retrieve run (rw empty tt)) in
    (
      current,
      subscriptions,
      plans,
      ap (λ l. guard (any (λ f. f == feature) l) payment_required) current,
    )
