-- ===== src/Platform/Webhook.antt =====
-- apps/api/src/billing/stripe.service.ts: what an event of Stripe does to a subscription.
-- The client of Stripe, which gives a subscription by its id or throws, is a parameter.
use tailor_erp.Prelude.{
  ℕ, ◌*◌, Bool, true, false, ◌||◌, Option, none, some, List, [], ◌∷◌, ◌++◌, ◌==◌, if◌then◌else◌,
  Result, ok, err, ◌>>=◌, ◌>>◌, guard, find, any, foreign_key_violation, update_where,
}
use tailor_erp.Platform.{
  SubscriptionStatus, Plan, Subscription, Platform, Organization, of_organization, truthy, or_kept,
  is_plan, invalidate,
}

-- Stripe.Subscription.Status
pub data StripeStatus : Type 0 where
  active canceled incomplete incomplete_expired past_due paused trialing unpaid : StripeStatus

pub record StripeItem : Type 0 where
  pub price : ℕ
  pub current_period_start : Option ℕ
  pub current_period_end : Option ℕ

-- The fields of Stripe.Subscription that are read; times are seconds.
pub record StripeSubscription : Type 0 where
  pub id : ℕ
  pub metadata_organization_id : Option ℕ
  pub metadata_plan_id : Option ℕ
  pub items : List StripeItem
  pub status : StripeStatus
  pub cancel_at_period_end : Bool
  pub trial_end : Option ℕ

pub data Event : Type 0 where
  subscription_created subscription_updated subscription_deleted : StripeSubscription → Event
  invoice_paid invoice_payment_failed : Option ℕ → Event
  unhandled : Event

-- mapStatus
unfoldable pub map_status : StripeStatus → SubscriptionStatus
map_status trialing = SubscriptionStatus.trialing
map_status active = SubscriptionStatus.active
map_status past_due = SubscriptionStatus.past_due
map_status unpaid = SubscriptionStatus.past_due
map_status canceled = SubscriptionStatus.cancelled
map_status incomplete_expired = SubscriptionStatus.cancelled
map_status incomplete = SubscriptionStatus.suspended
map_status paused = SubscriptionStatus.suspended

abbrev pub sells : ℕ → Option ℕ → Bool
sells price none = false
sells price (some p) = p == price

-- `findFirst({ where: { OR: [monthly, yearly] } })`
abbrev pub has_price : ℕ → Plan → Bool
has_price price p = sells price p.stripe_monthly_price_id || sells price p.stripe_yearly_price_id

abbrev pub id_of : Option Plan → Option ℕ
id_of none = none
id_of (some p) = some p.id

abbrev pub plan_of_price : Option ℕ → List Plan → Option ℕ
plan_of_price none plans = none
plan_of_price (some price) plans = id_of (find (has_price price) plans)

abbrev pub first_item : List StripeItem → Option StripeItem
first_item [] = none
first_item (item ∷ items) = some item

abbrev pub price_of : Option StripeItem → Option ℕ
price_of none = none
price_of (some item) = some item.price

-- The plan recorded at checkout, or that of the price.
abbrev pub resolve_plan : Option ℕ → List StripeItem → List Plan → Option ℕ
resolve_plan (some plan) items plans = some plan
resolve_plan none items plans = truthy (plan_of_price (truthy (price_of (first_item items))) plans)

-- The billing period of the only item.
abbrev pub period_from : Option ℕ → Option ℕ → Option (ℕ × ℕ)
period_from (some start) (some end) = some (start, end)
period_from (some start) none = none
period_from none end = none

abbrev pub period_of : Option StripeItem → Option (ℕ × ℕ)
period_of none = none
period_of (some item) =
    period_from (truthy item.current_period_start) (truthy item.current_period_end)

abbrev pub in_milliseconds : Option ℕ → Option ℕ
in_milliseconds none = none
in_milliseconds (some seconds) = some (seconds * 1000)

-- `data` of syncSubscription, over the trial end that the row has.
abbrev pub synced : StripeSubscription → ℕ → ℕ → ℕ × ℕ → Option ℕ → Subscription
synced sub org plan period trial = record {
  organization_id = org;
  plan_id = plan;
  status = map_status sub.status;
  trial_ends_at = or_kept (in_milliseconds (truthy sub.trial_end)) trial;
  current_period_start = period.0 * 1000;
  current_period_end = period.1 * 1000;
  cancel_at_period_end = sub.cancel_at_period_end;
  stripe_subscription_id = some sub.id;
}

-- `organizationSubscription.upsert`; a new row has to name an organisation.
unfoldable pub upsert_subscription :
    StripeSubscription
    → ℕ
    → ℕ
    → ℕ × ℕ
    → List Organization
    → List Subscription
    → Result (List Subscription)
unfolding update_where
upsert_subscription sub org plan period organizations rows =
    if any (of_organization org) rows
    then ok (
        update_where (of_organization org)
          (λ (r : Subscription). synced sub org plan period r.trial_ends_at) rows)
    else (do
      guard (any (λ (o : Organization). o.id == org) organizations) foreign_key_violation
      ok (rows ++ (synced sub org plan period none ∷ [])))

unfoldable pub sync_period :
    StripeSubscription → ℕ → ℕ → Option (ℕ × ℕ) → Platform → Result Platform
unfolding upsert_subscription invalidate
sync_period sub org plan none s = ok s
sync_period sub org plan (some period) s = do
  guard (is_plan plan s.plans) foreign_key_violation
  rows ← upsert_subscription sub org plan period s.organizations s.subscriptions
  ok (invalidate org (record s { subscriptions = rows }))

unfoldable pub sync_plan : StripeSubscription → ℕ → Option ℕ → Platform → Result Platform
unfolding sync_period
sync_plan sub org none s = ok s
sync_plan sub org (some plan) s = sync_period sub org plan (period_of (first_item sub.items)) s

unfoldable pub sync_organization : StripeSubscription → Option ℕ → Platform → Result Platform
unfolding sync_plan
sync_organization sub none s = ok s
sync_organization sub (some org) s =
    sync_plan sub org (resolve_plan (truthy sub.metadata_plan_id) sub.items s.plans) s

-- syncSubscription
unfoldable pub sync_subscription : StripeSubscription → Platform → Result Platform
unfolding sync_organization
sync_subscription sub s = sync_organization sub (truthy sub.metadata_organization_id) s

module _ (retrieve : ℕ → Result StripeSubscription) where
  unfoldable pub sync_linked : Option ℕ → Platform → Result Platform
  unfolding sync_subscription
  sync_linked none s = ok s
  sync_linked (some id) s = do subscription ← retrieve id; sync_subscription subscription s

  abbrev pub handled : Result Platform → Result (Bool × Platform)
  handled (err e) = err e
  handled (ok s) = ok (true, s)

  -- handleEvent: whether the event is handled, and the state after it.
  unfoldable pub handle_event : Event → Platform → Result (Bool × Platform)
  unfolding sync_linked sync_subscription
  handle_event (subscription_created sub) s = handled (sync_subscription sub s)
  handle_event (subscription_updated sub) s = handled (sync_subscription sub s)
  handle_event (subscription_deleted sub) s = handled (sync_subscription sub s)
  handle_event (invoice_paid link) s = handled (sync_linked (truthy link) s)
  handle_event (invoice_payment_failed link) s = handled (sync_linked (truthy link) s)
  handle_event unhandled s = ok (false, s)
