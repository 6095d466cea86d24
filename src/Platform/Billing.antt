-- ===== src/Platform/Billing.antt =====
-- What an event of Stripe gives an organisation.
use tailor_erp.Prelude.{
  ℕ, ◌≡◌, refl, inl, inr, Bool, true, false, not, Option, none, some, List, [], ◌∷◌, ◌++◌, arith,
  ◌==◌, if◌then◌else◌, Bool-cases, ok, keep, find, any, true_ne_false, update_where,
  find-update_where_self, any-find,
}
use tailor_erp.Platform.{
  Subscription, CacheEntry, Platform, Organization, of_organization, has_id, features_of,
  is_entitling, entitlements, invalidate, truthy, is_plan, cached_for,
}
use tailor_erp.Platform.Webhook.{
  StripeStatus, StripeSubscription, synced, upsert_subscription, sync_period, sync_plan,
  sync_organization, sync_subscription, resolve_plan, period_of, first_item, map_status, active,
  canceled, incomplete, incomplete_expired, past_due, paused, trialing, unpaid,
}

-- The states of Stripe in which a subscription is paid for or on trial.
abbrev pub is_paid : StripeStatus → Bool
is_paid active = true
is_paid trialing = true
is_paid canceled = false
is_paid incomplete = false
is_paid incomplete_expired = false
is_paid past_due = false
is_paid paused = false
is_paid unpaid = false

map_status-is_paid : (st : StripeStatus) → is_entitling (map_status st) ≡ is_paid st
unfolding map_status
map_status-is_paid active = refl
map_status-is_paid trialing = refl
map_status-is_paid canceled = refl
map_status-is_paid incomplete = refl
map_status-is_paid incomplete_expired = refl
map_status-is_paid past_due = refl
map_status-is_paid paused = refl
map_status-is_paid unpaid = refl

same_refl : (a : ℕ) → (a == a) ≡ true
same_refl a = ground arith

find-append_self :
    (org : ℕ) (rows : List Subscription) (r : Subscription)
    → any (of_organization org) rows ≡ false
    → r.organization_id ≡ org
    → find (of_organization org) (rows ++ (r ∷ [])) ≡ some r
find-append_self org [] r absent e = rw (e, same_refl org) refl
find-append_self org (x ∷ rows) r absent e = elim (Bool-cases (x.organization_id == org)) [
  | inl there ↦ absurd (true_ne_false (rw there at absent))
  | inr other ↦ rw other (find-append_self org rows r (rw other at absent) e)
]

-- The upsert succeeds for an organisation that is there, and its row then carries the values of Stripe.
upsert_self :
    (sub : StripeSubscription) (org plan : ℕ) (period : ℕ × ℕ) (organizations : List Organization)
    (rows : List Subscription)
    → any (λ (o : Organization). o.id == org) organizations ≡ true
    → (after : List Subscription) × (trial : Option ℕ) × (upsert_subscription sub org plan period
          organizations rows
        ≡ ok after)
      × (find (of_organization org) after ≡ some (synced sub org plan period trial))
unfolding upsert_subscription
upsert_self sub org plan period organizations rows known =
    let write = λ (r : Subscription). synced sub org plan period r.trial_ends_at in
    elim (Bool-cases (any (of_organization org) rows)) [
      | inl there ↦
          let (r, found) = any-find (of_organization org) rows there in
          (
            update_where (of_organization org) write rows,
            r.trial_ends_at,
            rw there refl,
            find-update_where_self (of_organization org) write rows (λ x h. same_refl org) found,
          )
      | inr absent ↦ (
        rows ++ (synced sub org plan period none ∷ []),
        none,
        rw (absent, known) refl,
        find-append_self org rows (synced sub org plan period none) absent refl,
      )
    ]

not_cached :
    (org : ℕ) (l : List CacheEntry)
    → find (cached_for org) (keep (λ (e : CacheEntry). not (e.organization_id == org)) l) ≡ none
not_cached org [] = refl
not_cached org (e ∷ l) = elim (Bool-cases (e.organization_id == org)) [
  | inl hit ↦ rw hit (not_cached org l)
  | inr miss ↦ rw (miss, miss) (not_cached org l)
]

-- A subscription of Stripe that names an organisation and a plan that are there and has a billing
-- period is recorded: the organisation then has the features of that plan exactly if Stripe has the
-- subscription active or on trial, and none in every other state, and the gate reads them anew.
pub sync_subscription-entitlements :
    (sub : StripeSubscription) (s : Platform) (org plan : ℕ) (period : ℕ × ℕ)
    → truthy sub.metadata_organization_id ≡ some org
    → resolve_plan (truthy sub.metadata_plan_id) sub.items s.plans ≡ some plan
    → period_of (first_item sub.items) ≡ some period
    → is_plan plan s.plans ≡ true
    → any (λ (o : Organization). o.id == org) s.organizations ≡ true
    → (t : Platform) × (sync_subscription sub s ≡ ok t)
      × (entitlements org t
          ≡ (if is_paid sub.status then features_of (find (has_id plan) s.plans) else []))
      × (find (cached_for org) t.cache ≡ none)
unfolding sync_subscription sync_organization sync_plan sync_period invalidate entitlements
sync_subscription-entitlements sub s org plan period named resolved billed priced known =
    let (after, trial, written, found) =
      upsert_self sub org plan period s.organizations s.subscriptions known in
    (
      invalidate org (record s { subscriptions = after }),
      rw (named, resolved, billed, priced, written) refl,
      rw (found, map_status-is_paid sub.status) refl,
      not_cached org s.cache,
    )
