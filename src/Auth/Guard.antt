-- ===== src/Auth/Guard.antt =====
-- apps/api/src/auth/guards/permissions.guard.ts: the check before every staff handler.
-- A UUID is a number; a header or an attachment that is missing is `none`.
pub mod Access
use tailor_erp.Prelude.{
  ℕ, Bool, not, ◌&&◌, Option, none, some, List, [], ◌∷◌, ltb, ◌==◌, if◌then◌else◌, unauthorized,
  forbidden, Result, ok, ◌>>=◌, ◌>>◌, guard, or_throw, length, keep, find,
}
use tailor_erp.Shared.Permissions.{
  StaffRole, Permission, PermissionOverrides, has, compute_effective_permissions,
}

-- AccessTokenPayload: the subject, and whether `typ` is 'staff'
pub record Principal : Type 0 where
  pub sub : ℕ
  pub is_staff : Bool

-- A row of user_store_roles
pub record Assignment : Type 0 where
  pub store_id : ℕ
  pub role : StaffRole
  pub is_active : Bool
  pub permissions : Option PermissionOverrides

pub record User : Type 0 where
  pub id : ℕ
  pub is_active : Bool
  pub organization_id : Option ℕ
  pub is_hq_admin : Bool
  pub store_roles : List Assignment

pub record Store : Type 0 where
  pub id : ℕ
  pub organization_id : ℕ

pub record Request : Type 0 where
  pub principal : Option Principal
  pub store_header : Option ℕ

-- What the guard attaches to the request.
pub record Context : Type 0 where
  pub store_id : Option ℕ
  pub org_id : Option ℕ

abbrev pub belongs : ℕ → ℕ → Store → Bool
belongs store org s = (s.id == store) && (s.organization_id == org)

-- HQ admin: every store of the organisation
unfoldable pub admit_hq_admin : ℕ → Option ℕ → List Store → Result Context
admit_hq_admin org none stores = ok (record { store_id = none; org_id = some org })
admit_hq_admin org (some store) stores = do
  _ ← or_throw (find (belongs store org) stores) forbidden
  ok (record { store_id = some store; org_id = some org })

-- `user.storeRoles`, loaded with `where: { isActive: true }`
abbrev pub active_roles : User → List Assignment
active_roles u = keep (λ (a : Assignment). a.is_active) u.store_roles

-- Store-scoped roles
unfoldable pub admit_store_role : List Permission → User → ℕ → Option ℕ → Result Context
admit_store_role required user org header = do
  store ← or_throw header forbidden
  assignment ←
      or_throw (find (λ (a : Assignment). a.store_id == store) (active_roles user)) forbidden
  let effective = compute_effective_permissions assignment.role assignment.permissions
  let missing = keep (λ p. not (has effective p)) required
  guard (not (ltb 0 (length missing))) forbidden
  ok (record { store_id = some store; org_id = some org })

-- `!user || !user.isActive || !user.organizationId`
abbrev pub organization_of : User → Option ℕ
organization_of u = if u.is_active then u.organization_id else none

abbrev pub no_context : Context
no_context = record { store_id = none; org_id = none }

-- canActivate
unfoldable pub can_activate : List Permission → Request → List User → List Store → Result Context
unfolding admit_hq_admin admit_store_role
can_activate [] req users stores = ok no_context
can_activate (q ∷ required) req users stores = do
  principal ← or_throw req.principal unauthorized
  guard principal.is_staff forbidden
  user ← or_throw (find (λ (u : User). u.id == principal.sub) users) forbidden
  org ← or_throw (organization_of user) forbidden
  if user.is_hq_admin
      then admit_hq_admin org req.store_header stores
      else admit_store_role (q ∷ required) user org req.store_header
