-- ===== src/Auth/Guard/Access.antt =====
-- What a request that passes the guard has shown.
use tailor_erp.Prelude.{
  ℕ, suc, ◌≡◌, ◌⊎◌, refl, sym, inl, inr, Bool, true, false, not, Option, none, some, List, [], ◌∷◌,
  arith, ltb, ◌==◌, ==_iff, if◌then◌else◌, Bool-cases, unauthorized, forbidden, ok, ok_inj, guard,
  or_throw, >>=-eq-ok, length, keep, find, All, err_ne_ok, or_throw-eq-ok, &&-eq-true, guard-eq-ok,
  if-eq-ok, Among, find-Among, Among-keep,
}
use tailor_erp.Shared.Permissions.{Permission, has, compute_effective_permissions}
use tailor_erp.Auth.Guard.{
  Principal, Assignment, User, Store, Request, Context, belongs, admit_hq_admin, active_roles,
  admit_store_role, organization_of, can_activate,
}

-- An HQ admin of the organisation, who asks for no store or for one of the organisation.
abbrev pub IsHqAccess : ℕ → Option ℕ → List Store → Type 0
IsHqAccess org none stores = Unit
IsHqAccess org (some store) stores =
    (s : Store) × Among s stores × (s.id ≡ store) × (s.organization_id ≡ org)

-- A member of the staff with a role in the store, active, that has every permission asked for.
abbrev pub IsStoreAccess : List Permission → User → Option ℕ → Type 0
IsStoreAccess required user none = ⊥
IsStoreAccess required user (some store) =
    (a : Assignment) × Among a user.store_roles
    × (a.store_id ≡ store)
    × (a.is_active ≡ true)
    × All (λ p. has (compute_effective_permissions a.role a.permissions) p ≡ true) required

-- The description of the access that a token of the staff gives in an organisation.
pub record HasAccess (required : List Permission) (req : Request) (users : List User)
    (stores : List Store) (c : Context) : Type 0 where
  pub principal : Principal
  pub user : User
  pub org : ℕ
  pub signed_in : req.principal ≡ some principal
  pub staff : principal.is_staff ≡ true
  pub known : Among user users
  pub subject : user.id ≡ principal.sub
  pub active : user.is_active ≡ true
  pub member : user.organization_id ≡ some org
  pub scope : c ≡ record { store_id = req.store_header; org_id = some org }
  pub right :
      ((user.is_hq_admin ≡ true) × IsHqAccess org req.store_header stores)
      ⊎ ((user.is_hq_admin ≡ false) × IsStoreAccess required user req.store_header)

positive : (n : ℕ) → ltb 0 (suc n) ≡ false → ⊥
positive n h = ground arith

none_missing :
    (f : Permission → Bool) (ps : List Permission)
    → ltb 0 (length (keep (λ p. not (f p)) ps)) ≡ false
    → All (λ p. f p ≡ true) ps
none_missing f [] h = tt
none_missing f (p ∷ ps) h = elim (Bool-cases (f p)) [
  | inl there ↦ (there, none_missing f ps (rw there at h))
  | inr absent ↦ absurd (positive _ (rw absent at h))
]

admit_hq_admin_sound :
    (org : ℕ) (header : Option ℕ) (stores : List Store) {c : Context}
    → admit_hq_admin org header stores ≡ ok c
    → (c ≡ record { store_id = header; org_id = some org }) × IsHqAccess org header stores
unfolding admit_hq_admin
admit_hq_admin_sound org none stores h = (sym (ok_inj h), tt)
admit_hq_admin_sound org (some store) stores h =
    let (s, found, e) = >>=-eq-ok (or_throw (find (belongs store org) stores) forbidden) _ h in
    let (there, mine) =
      find-Among (belongs store org) stores
        (or_throw-eq-ok (find (belongs store org) stores) forbidden found) in
    let (same, home) = &&-eq-true (s.id == store) (s.organization_id == org) mine in
    (sym (ok_inj e), (s, there, (==_iff s.id store).0 same, (==_iff s.organization_id org).0 home))

organization_of_active :
    (u : User) {org : ℕ}
    → organization_of u ≡ some org
    → (u.is_active ≡ true) × (u.organization_id ≡ some org)
organization_of_active u h = elim (Bool-cases u.is_active) [
  | inl active ↦ (active, rw active at h)
  | inr closed ↦ cc
]

passed : (b : Bool) {u : Unit {0}} → guard (not b) forbidden ≡ ok u → b ≡ false
passed true h = absurd (err_ne_ok h)
passed false h = refl

admit_store_role_sound :
    (required : List Permission) (user : User) (org : ℕ) (header : Option ℕ) {c : Context}
    → admit_store_role required user org header ≡ ok c
    → (c ≡ record { store_id = header; org_id = some org }) × IsStoreAccess required user header
unfolding admit_store_role
admit_store_role_sound required user org none h = absurd (err_ne_ok h)
admit_store_role_sound required user org (some store) h =
    let row = find (λ (a : Assignment). a.store_id == store) (active_roles user) in
    let (a, found, h1) = >>=-eq-ok (or_throw row forbidden) _ h in
    let effective = compute_effective_permissions a.role a.permissions in
    let (_, complete, e) =
      >>=-eq-ok
        (guard (not (ltb 0 (length (keep (λ p. not (has effective p)) required)))) forbidden) _
        h1 in
    let (kept, same) =
      find-Among (λ (r : Assignment). r.store_id == store) (active_roles user)
        (or_throw-eq-ok row forbidden found) in
    let (there, active) = Among-keep (λ (r : Assignment). r.is_active) user.store_roles kept in
    (
      sym (ok_inj e),
      (
        a,
        there,
        (==_iff a.store_id store).0 same,
        active,
        none_missing (has effective) required (passed _ complete),
      ),
    )

admitted :
    (required : List Permission) (req : Request) (u : User) (org : ℕ) (stores : List Store)
    {c : Context}
    → (if u.is_hq_admin
        then admit_hq_admin org req.store_header stores
        else admit_store_role required u org req.store_header)
      ≡ ok c
    → (c ≡ record { store_id = req.store_header; org_id = some org })
      × (((u.is_hq_admin ≡ true) × IsHqAccess org req.store_header stores)
          ⊎ ((u.is_hq_admin ≡ false) × IsStoreAccess required u req.store_header))
admitted required req u org stores h =
    elim (if-eq-ok u.is_hq_admin (admit_hq_admin org req.store_header stores)
      (admit_store_role required u org req.store_header) h) [
        | inl (hq, done) ↦
            let (scope, right) = admit_hq_admin_sound org req.store_header stores done in
            (scope, inl (hq, right))
        | inr (other, done) ↦
            let (scope, right) = admit_store_role_sound required u org req.store_header done in
            (scope, inr (other, right))
      ]

-- A request for a handler that asks for permissions passes only with a token of the staff, of an
-- active user of an organisation who is either its HQ admin, with a store of that organisation if the
-- request names one, or has an active role in the store that the request names, with every permission
-- asked for. The handler then gets that store and that organisation.
pub can_activate-HasAccess :
    (q : Permission) (required : List Permission) (req : Request) (users : List User)
    (stores : List Store) {c : Context}
    → can_activate (q ∷ required) req users stores ≡ ok c
    → HasAccess (q ∷ required) req users stores c
unfolding can_activate
can_activate-HasAccess q required req users stores h =
    let (p, signed_in, h1) = >>=-eq-ok (or_throw req.principal unauthorized) _ h in
    let (_, staff, h2) = >>=-eq-ok (guard p.is_staff forbidden) _ h1 in
    let row = find (λ (u : User). u.id == p.sub) users in
    let (u, known, h3) = >>=-eq-ok (or_throw row forbidden) _ h2 in
    let (org, member, h4) = >>=-eq-ok (or_throw (organization_of u) forbidden) _ h3 in
    let (scope, right) = admitted (q ∷ required) req u org stores h4 in
    let (there, same) =
      find-Among (λ (u : User). u.id == p.sub) users (or_throw-eq-ok row forbidden known) in
    let (active, home) =
      organization_of_active u (or_throw-eq-ok (organization_of u) forbidden member) in
    record {
      principal = p;
      user = u;
      org = org;
      signed_in = or_throw-eq-ok req.principal unauthorized signed_in;
      staff = guard-eq-ok p.is_staff forbidden staff;
      known = there;
      subject = (==_iff u.id p.sub).0 same;
      active = active;
      member = home;
      scope = scope;
      right = right;
    }
