-- ===== src/Auth/Tests.antt =====
-- A cashier of store 4 of organisation 1 who may also see the dashboard.
use tailor_erp.Prelude.{◌≡◌, refl, true, false, not, ◌&&◌, ◌||◌, some, [], ◌∷◌, ok}
use tailor_erp.Shared.Permissions.{
  cashier, use_pos, view_dashboard, view_orders, PermissionOverrides, role_default_permissions,
  same_permission, has, add, delete, compute_effective_permissions,
}
use tailor_erp.Shared.Permissions.Effective.{compute_effective_permissions_decides}
use tailor_erp.Auth.Guard.{User, Request, Context, admit_store_role, can_activate}
use tailor_erp.Auth.Guard.Access.{HasAccess, can_activate-HasAccess}

abbrev overrides : PermissionOverrides
overrides = record { grant = view_dashboard ∷ []; revoke = view_orders ∷ [] }

abbrev cashier_user : User
cashier_user = record {
  id = 21;
  is_active = true;
  organization_id = some 1;
  is_hq_admin = false;
  store_roles =
      record { store_id = 4; role = cashier; is_active = true; permissions = some overrides } ∷ [];
}

abbrev at_counter : Request
at_counter = record {
  principal = some (record { sub = 21; is_staff = true });
  store_header = some 4;
}

abbrev counter_context : Context
counter_context = record { store_id = some 4; org_id = some 1 }

admitted :
    can_activate (use_pos ∷ view_dashboard ∷ []) at_counter (cashier_user ∷ []) []
    ≡ ok counter_context
unfolding can_activate admit_store_role compute_effective_permissions role_default_permissions has
    add delete same_permission
admitted = refl

can_activate-HasAccess_example :
    HasAccess (use_pos ∷ view_dashboard ∷ []) at_counter (cashier_user ∷ []) [] counter_context
can_activate-HasAccess_example =
    can_activate-HasAccess use_pos (view_dashboard ∷ []) at_counter (cashier_user ∷ []) [] admitted

compute_effective_permissions_decides_example :
    has (compute_effective_permissions cashier (some overrides)) view_orders ≡ (
      (has (role_default_permissions cashier) view_orders || has (view_dashboard ∷ []) view_orders)
      && not (has (view_orders ∷ []) view_orders))
compute_effective_permissions_decides_example =
    compute_effective_permissions_decides cashier (some overrides) view_orders
