-- ===== src/Shared/Permissions.antt =====
-- packages/shared/src/permissions.ts and the roles of packages/shared/src/roles.ts.
pub mod Effective
use tailor_erp.Prelude.{
  ℕ, Bool, not, Option, none, some, List, [], ◌∷◌, ◌++◌, ◌==◌, if◌then◌else◌, keep, any,
}

pub data StaffRole : Type 0 where
  hq_admin regional_manager store_manager tailor cashier : StaffRole

-- PERMISSIONS
pub data Permission : Type 0 where
  view_dashboard view_orders create_orders manage_orders update_order_status : Permission
  process_payments view_customers manage_customers view_measurements : Permission
  view_measurement_history manage_measurements view_inventory manage_inventory : Permission
  select_batches transfer_inventory manage_appointments manage_roles manage_stores : Permission
  manage_organization use_pos pos_checkout pos_settle view_workshop manage_workshop : Permission

abbrev pub permission_number : Permission → ℕ
permission_number view_dashboard = 0
permission_number view_orders = 1
permission_number create_orders = 2
permission_number manage_orders = 3
permission_number update_order_status = 4
permission_number process_payments = 5
permission_number view_customers = 6
permission_number manage_customers = 7
permission_number view_measurements = 8
permission_number view_measurement_history = 9
permission_number manage_measurements = 10
permission_number view_inventory = 11
permission_number manage_inventory = 12
permission_number select_batches = 13
permission_number transfer_inventory = 14
permission_number manage_appointments = 15
permission_number manage_roles = 16
permission_number manage_stores = 17
permission_number manage_organization = 18
permission_number use_pos = 19
permission_number pos_checkout = 20
permission_number pos_settle = 21
permission_number view_workshop = 22
permission_number manage_workshop = 23

unfoldable pub same_permission : Permission → Permission → Bool
same_permission p q = permission_number p == permission_number q

unfoldable pub permissions : List Permission
permissions =
    view_dashboard ∷ view_orders ∷ create_orders ∷ manage_orders ∷ update_order_status
    ∷ process_payments ∷ view_customers ∷ manage_customers ∷ view_measurements
    ∷ view_measurement_history ∷ manage_measurements ∷ view_inventory ∷ manage_inventory
    ∷ select_batches ∷ transfer_inventory ∷ manage_appointments ∷ manage_roles ∷ manage_stores
    ∷ manage_organization ∷ use_pos ∷ pos_checkout ∷ pos_settle ∷ view_workshop ∷ manage_workshop
    ∷ []

-- ROLE_DEFAULT_PERMISSIONS
unfoldable pub role_default_permissions : StaffRole → List Permission
unfolding permissions
role_default_permissions hq_admin = permissions
role_default_permissions regional_manager =
    view_dashboard ∷ view_orders ∷ view_inventory ∷ view_customers ∷ manage_customers
    ∷ view_measurements ∷ view_measurement_history ∷ view_workshop ∷ []
role_default_permissions store_manager =
    view_dashboard ∷ view_orders ∷ create_orders ∷ manage_orders ∷ update_order_status
    ∷ process_payments ∷ view_customers ∷ manage_customers ∷ view_measurements
    ∷ view_measurement_history ∷ manage_measurements ∷ view_inventory ∷ manage_inventory
    ∷ select_batches ∷ manage_appointments ∷ use_pos ∷ pos_checkout ∷ pos_settle ∷ view_workshop
    ∷ manage_workshop ∷ []
role_default_permissions tailor =
    view_orders ∷ update_order_status ∷ select_batches ∷ view_measurements
    ∷ view_measurement_history ∷ view_inventory ∷ view_workshop ∷ manage_workshop ∷ []
role_default_permissions cashier =
    view_orders ∷ create_orders ∷ process_payments ∷ view_customers ∷ manage_customers
    ∷ view_measurements ∷ manage_measurements ∷ view_inventory ∷ use_pos ∷ pos_checkout ∷ pos_settle
    ∷ []

pub record PermissionOverrides : Type 0 where
  pub grant : List Permission
  pub revoke : List Permission

-- `Set.has`, `Set.add` and `Set.delete`
unfoldable pub has : List Permission → Permission → Bool
has ps p = any (same_permission p) ps

unfoldable pub add : List Permission → Permission → List Permission
add ps p = if has ps p then ps else ps ++ p ∷ []

unfoldable pub delete : List Permission → Permission → List Permission
delete ps p = keep (λ q. not (same_permission p q)) ps

abbrev pub for_each :
    (List Permission → Permission → List Permission)
    → List Permission
    → List Permission
    → List Permission
for_each f ps [] = ps
for_each f ps (q ∷ qs) = for_each f (f ps q) qs

-- computeEffectivePermissions
unfoldable pub compute_effective_permissions :
    StaffRole → Option PermissionOverrides → List Permission
unfolding role_default_permissions has add delete same_permission
compute_effective_permissions role none = role_default_permissions role
compute_effective_permissions role (some o) =
    for_each delete (for_each add (role_default_permissions role) o.grant) o.revoke
