-- ===== src/Platform/Freshness.antt =====
-- Writes to the tables of the platform, and when they keep the cached features fresh.
use tailor_erp.Prelude.{
  ℕ, ◌≡◌, refl, sym, ap, ◌∙◌, inl, inr, true, false, not, Option, none, some, List, [], ◌∷◌, ◌++◌,
  arith, ◌==◌, not_found, ok, ok_inj, guard, or_throw, >>=-eq-ok, keep, find, any, All, All-zip,
  All-keep, keep_sound, if-eq-ok, foreign_key_violation, update_where, find-update_where_ne,
  All-find, subst,
}
use tailor_erp.Platform.{
  Subscription, CacheEntry, Organization, Platform, of_organization, cached_for, entitled_by,
  entitlements, invalidate, set_features, answer, get_features, truthy, ChangeSubscription,
  chosen_plan, change, is_plan, change_subscription, UpdateOrganization, revise,
  update_organization,
}
use tailor_erp.Platform.Webhook.{
  StripeSubscription, first_item, resolve_plan, period_of, synced, upsert_subscription, sync_period,
  sync_plan, sync_organization, sync_subscription,
}

-- Every cached list is what the tables give its organisation.
abbrev pub IsFresh : Platform → Type 0
unfolding entitlements
IsFresh s = All (λ (e : CacheEntry). e.features ≡ entitlements e.organization_id s) s.cache

sym_miss : (a b : ℕ) → (b == a) ≡ false → (a == b) ≡ false
sym_miss a b h = ground arith

apart : (a b c : ℕ) → (a == b) ≡ true → (c == b) ≡ false → (a == c) ≡ false
apart a b c h k = ground arith

same_id : (a b : ℕ) → (a == b) ≡ true → a ≡ b
same_id a b h = ground arith

other_than : (a b : ℕ) → not (a == b) ≡ true → (a == b) ≡ false
other_than a b h = ground arith

-- A write for one organisation that is followed by an invalidation keeps the cache fresh.
pub invalidate-IsFresh :
    (org : ℕ) (s t : Platform)
    → t.cache ≡ s.cache
    → ((other : ℕ) → (other == org) ≡ false → entitlements other t ≡ entitlements other s)
    → IsFresh s
    → IsFresh (invalidate org t)
unfolding entitlements invalidate
invalidate-IsFresh org s t same others fresh =
    let test = λ (e : CacheEntry). not (e.organization_id == org) in
    rw same (
      All-zip (λ e. e.features ≡ entitlements e.organization_id s) (λ e. test e ≡ true)
        (λ e. e.features ≡ entitlements e.organization_id t) (keep test s.cache)
        (λ e old kept. old ∙ sym (others e.organization_id (other_than e.organization_id org kept)))
        (All-keep (λ e. e.features ≡ entitlements e.organization_id s) test s.cache fresh)
        (keep_sound test s.cache))

set_features-IsFresh :
    (org : ℕ) (s : Platform) → IsFresh s → IsFresh (set_features org (entitlements org s) s)
unfolding set_features IsFresh
set_features-IsFresh org s fresh = (refl, invalidate-IsFresh org s s refl (λ other h. refl) fresh)

abbrev pub IsRead : ℕ → Platform → List ℕ × Platform → Type 0
IsRead org s r =
    (r.0 ≡ entitlements org s)
    × (r.1.subscriptions ≡ s.subscriptions)
    × (r.1.plans ≡ s.plans)
    × IsFresh r.1

answer-IsRead :
    (org : ℕ) (s : Platform) (o : Option CacheEntry)
    → find (cached_for org) s.cache ≡ o
    → IsFresh s
    → IsRead org s (answer org s o)
unfolding answer set_features
answer-IsRead org s none found fresh = (refl, refl, refl, set_features-IsFresh org s fresh)
answer-IsRead org s (some e) found fresh =
    let (current, same) =
      All-find (λ (e : CacheEntry). e.features ≡ entitlements e.organization_id s) (cached_for org)
        s.cache fresh found in
    (current ∙ ap (λ o. entitlements o s) (same_id e.organization_id org same), refl, refl, fresh)

pub get_features-IsRead : (org : ℕ) (s : Platform) → IsFresh s → IsRead org s (get_features org s)
unfolding get_features
get_features-IsRead org s fresh = answer-IsRead org s (find (cached_for org) s.cache) refl fresh

-- A write to the subscription of one organisation does not change what another has.
update-others :
    (org other : ℕ) (f : Subscription → Subscription) (rows : List Subscription)
    → ((r : Subscription) → (f r).organization_id ≡ r.organization_id)
    → (other == org) ≡ false
    → find (of_organization other) (update_where (of_organization org) f rows)
      ≡ find (of_organization other) rows
update-others org other f rows keeps differ =
    find-update_where_ne (of_organization other) (of_organization org) f rows (λ r hit.
      let miss = apart r.organization_id org other hit differ in (miss, rw (keeps r) miss))

pub change_subscription-IsFresh :
    (org : ℕ) (dto : ChangeSubscription) (s : Platform) {t : Platform}
    → change_subscription org dto s ≡ ok t
    → IsFresh s
    → IsFresh t
unfolding change_subscription entitlements
change_subscription-IsFresh org dto s {t} done fresh =
    let (row, _, h1) =
      >>=-eq-ok (or_throw (find (of_organization org) s.subscriptions) not_found) _ done in
    let (plan, _, h2) =
      >>=-eq-ok (chosen_plan (truthy dto.plan_id) (truthy dto.plan_code) s.plans) _ h1 in
    let (_, _, h3) =
      >>=-eq-ok (guard (is_plan (change plan dto row).plan_id s.plans) foreign_key_violation) _
        h2 in
    let after = record s {
      subscriptions = update_where (of_organization org) (change plan dto) s.subscriptions;
    } in
    subst IsFresh (ok_inj h3) (
      invalidate-IsFresh org s after refl
        (λ other differ.
          ap (entitled_by s.plans)
            (update-others org other (change plan dto) s.subscriptions (λ r. refl) differ))
        fresh)

pub update_organization-IsFresh :
    (org : ℕ) (dto : UpdateOrganization) (s : Platform) {t : Platform}
    → update_organization org dto s ≡ ok t
    → IsFresh s
    → IsFresh t
unfolding update_organization entitlements
update_organization-IsFresh org dto s done fresh =
    let (_, _, h) =
      >>=-eq-ok (guard (any (λ (o : Organization). o.id == org) s.organizations) not_found) _
        done in
    let after = record s {
      organizations = update_where (λ (o : Organization). o.id == org) (revise dto) s.organizations;
    } in
    subst IsFresh (ok_inj h) (invalidate-IsFresh org s after refl (λ other differ. refl) fresh)

find-append_ne :
    (other : ℕ) (rows : List Subscription) (r : Subscription)
    → (r.organization_id == other) ≡ false
    → find (of_organization other) (rows ++ (r ∷ [])) ≡ find (of_organization other) rows
find-append_ne other [] r miss = rw miss refl
find-append_ne other (x ∷ rows) r miss = rw (find-append_ne other rows r miss) refl

upsert-others :
    (sub : StripeSubscription) (org plan : ℕ) (period : ℕ × ℕ) (organizations : List Organization)
    (rows : List Subscription) (other : ℕ) {after : List Subscription}
    → upsert_subscription sub org plan period organizations rows ≡ ok after
    → (other == org) ≡ false
    → find (of_organization other) after ≡ find (of_organization other) rows
unfolding upsert_subscription
upsert-others sub org plan period organizations rows other done differ =
    let write = λ (r : Subscription). synced sub org plan period r.trial_ends_at in
    elim (if-eq-ok (any (of_organization org) rows) _ _ done) [
      | inl (_, updated) ↦
          subst (λ l. find (of_organization other) l ≡ find (of_organization other) rows)
            (ok_inj updated)
            (find-update_where_ne (of_organization other) (of_organization org) write rows
              (λ r hit. (apart r.organization_id org other hit differ, sym_miss org other differ)))
      | inr (_, created) ↦
          let (_, _, h) =
            >>=-eq-ok
              (guard (any (λ (o : Organization). o.id == org) organizations) foreign_key_violation)
              _ created in
          subst (λ l. find (of_organization other) l ≡ find (of_organization other) rows) (ok_inj h)
            (find-append_ne other rows (synced sub org plan period none)
              (sym_miss org other differ))
    ]

sync_period-IsFresh :
    (sub : StripeSubscription) (org plan : ℕ) (period : Option (ℕ × ℕ)) (s : Platform)
    {t : Platform}
    → sync_period sub org plan period s ≡ ok t
    → IsFresh s
    → IsFresh t
unfolding entitlements sync_period
sync_period-IsFresh sub org plan none s done fresh = subst IsFresh (ok_inj done) fresh
sync_period-IsFresh sub org plan (some period) s done fresh =
    let (_, _, h1) = >>=-eq-ok (guard (is_plan plan s.plans) foreign_key_violation) _ done in
    let (rows, written, h2) =
      >>=-eq-ok (upsert_subscription sub org plan period s.organizations s.subscriptions) _ h1 in
    subst IsFresh (ok_inj h2) (
      invalidate-IsFresh org s (record s { subscriptions = rows }) refl
        (λ other differ.
          ap (entitled_by s.plans) (
            upsert-others sub org plan period s.organizations s.subscriptions other written differ))
        fresh)

sync_plan-IsFresh :
    (sub : StripeSubscription) (org : ℕ) (plan : Option ℕ) (s : Platform) {t : Platform}
    → sync_plan sub org plan s ≡ ok t
    → IsFresh s
    → IsFresh t
unfolding sync_plan
sync_plan-IsFresh sub org none s done fresh = subst IsFresh (ok_inj done) fresh
sync_plan-IsFresh sub org (some plan) s done fresh =
    sync_period-IsFresh sub org plan (period_of (first_item sub.items)) s done fresh

sync_organization-IsFresh :
    (sub : StripeSubscription) (org : Option ℕ) (s : Platform) {t : Platform}
    → sync_organization sub org s ≡ ok t
    → IsFresh s
    → IsFresh t
unfolding sync_organization
sync_organization-IsFresh sub none s done fresh = subst IsFresh (ok_inj done) fresh
sync_organization-IsFresh sub (some org) s done fresh =
    sync_plan-IsFresh sub org (resolve_plan (truthy sub.metadata_plan_id) sub.items s.plans) s done
      fresh

pub sync_subscription-IsFresh :
    (sub : StripeSubscription) (s : Platform) {t : Platform}
    → sync_subscription sub s ≡ ok t
    → IsFresh s
    → IsFresh t
unfolding sync_subscription
sync_subscription-IsFresh sub s done fresh =
    sync_organization-IsFresh sub (truthy sub.metadata_organization_id) s done fresh
