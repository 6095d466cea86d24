-- ===== src/Shared/Permissions/Effective.antt =====
-- The effective permissions against their description.
use tailor_erp.Prelude.{
  ◌≡◌, refl, sym, ap, ◌∙◌, inl, inr, Bool, true, false, not, ◌&&◌, ◌||◌, Option, none, some, List,
  [], ◌∷◌, ◌++◌, ◌==◌, ==_iff, if◌then◌else◌, Bool-cases, true_ne_false,
}
use tailor_erp.Shared.Permissions.{
  StaffRole, Permission, same_permission, permission_number, role_default_permissions,
  PermissionOverrides, has, add, delete, for_each, compute_effective_permissions,
}

-- A permission is compared by its key.
same_permission-left :
    (p q r : Permission) → same_permission p q ≡ true → same_permission p r ≡ same_permission q r
unfolding same_permission
same_permission-left p q r h =
    ap (λ n. n == permission_number r) ((==_iff (permission_number p) (permission_number q)).0 h)

same_permission-right :
    (p q r : Permission) → same_permission q r ≡ true → same_permission p q ≡ same_permission p r
unfolding same_permission
same_permission-right p q r h =
    ap (λ n. permission_number p == n) ((==_iff (permission_number q) (permission_number r)).0 h)

has-cons :
    (r : Permission) (ps : List Permission) (p : Permission)
    → has (r ∷ ps) p ≡ (same_permission p r || has ps p)
unfolding has
has-cons r ps p = refl

has-nil : (p : Permission) → has [] p ≡ false
unfolding has
has-nil p = refl

||-assoc : (a b c : Bool) → ((a || b) || c) ≡ (a || (b || c))
||-assoc true b c = refl
||-assoc false b c = refl

||-false : (a : Bool) → (a || false) ≡ a
||-false true = refl
||-false false = refl

has-append : (ps qs : List Permission) (p : Permission) → has (ps ++ qs) p ≡ (has ps p || has qs p)
has-append [] qs p = rw (has-nil p) refl
has-append (r ∷ ps) qs p =
    has-cons r (ps ++ qs) p
    ∙ ap (λ b. same_permission p r || b) (has-append ps qs p)
    ∙ sym (||-assoc (same_permission p r) (has ps p) (has qs p))
    ∙ ap (λ b. b || has qs p) (sym (has-cons r ps p))

has-same :
    (ps : List Permission) (p q : Permission) → same_permission p q ≡ true → has ps p ≡ has ps q
has-same [] p q h = has-nil p ∙ sym (has-nil q)
has-same (r ∷ ps) p q h =
    has-cons r ps p ∙ rw (same_permission-left p q r h, has-same ps p q h) (sym (has-cons r ps q))

has-add :
    (ps : List Permission) (q p : Permission) → has (add ps q) p ≡ (has ps p || same_permission p q)
unfolding add
has-add ps q p = elim (Bool-cases (has ps q)) [
  | inl there ↦ elim (Bool-cases (same_permission p q)) [
    | inl same ↦ rw (there, same, has-same ps p q same, there) refl
    | inr other ↦ rw (there, other) (sym (||-false (has ps p)))
  ]
  | inr absent ↦ rw absent (
      has-append ps (q ∷ []) p
      ∙ ap (λ b. has ps p || b) (has-cons q [] p ∙ rw (has-nil p) (||-false (same_permission p q))))
]

delete-cons :
    (q r : Permission) (ps : List Permission)
    → delete (r ∷ ps) q ≡ (if not (same_permission q r) then r ∷ delete ps q else delete ps q)
unfolding delete
delete-cons q r ps = refl

delete_bits :
    (pr pq qr h : Bool)
    → (qr ≡ true → pq ≡ pr)
    → (pq ≡ true → pr ≡ qr)
    → (if not qr then pr || (h && not pq) else h && not pq) ≡ ((pr || h) && not pq)
delete_bits true true true true a b = refl
delete_bits true true true false a b = refl
delete_bits true true false h a b = absurd (true_ne_false (b refl))
delete_bits true false true h a b = absurd (true_ne_false (sym (a refl)))
delete_bits true false false h a b = refl
delete_bits false true true h a b = absurd (true_ne_false (a refl))
delete_bits false true false true a b = refl
delete_bits false true false false a b = refl
delete_bits false false true h a b = refl
delete_bits false false false h a b = refl

has-if :
    (c : Bool) (xs ys : List Permission) (p : Permission)
    → has (if c then xs else ys) p ≡ (if c then has xs p else has ys p)
has-if true xs ys p = refl
has-if false xs ys p = refl

has-delete_nil : (q p : Permission) → has (delete [] q) p ≡ (has [] p && not (same_permission p q))
unfolding has delete
has-delete_nil q p = refl

has-delete :
    (ps : List Permission) (q p : Permission)
    → has (delete ps q) p ≡ (has ps p && not (same_permission p q))
has-delete [] q p = has-delete_nil q p
has-delete (r ∷ ps) q p =
    ap (λ l. has l p) (delete-cons q r ps)
    ∙ has-if (not (same_permission q r)) (r ∷ delete ps q) (delete ps q) p
    ∙ rw (has-cons r (delete ps q) p, has-cons r ps p, has-delete ps q p)
        (delete_bits (same_permission p r) (same_permission p q) (same_permission q r) (has ps p)
          (same_permission-right p q r) (same_permission-left p q r))

delete_all_bits : (h s t : Bool) → ((h && not s) && not t) ≡ (h && not (s || t))
delete_all_bits true true t = refl
delete_all_bits true false t = refl
delete_all_bits false s t = refl

&&-true : (a : Bool) → a ≡ (a && true)
&&-true true = refl
&&-true false = refl

has-for_each-add :
    (qs ps : List Permission) (p : Permission) → has (for_each add ps qs) p ≡ (has ps p || has qs p)
has-for_each-add [] ps p = rw (has-nil p) (sym (||-false (has ps p)))
has-for_each-add (q ∷ qs) ps p =
    has-for_each-add qs (add ps q) p
    ∙ rw (has-add ps q p, has-cons q qs p) (||-assoc (has ps p) (same_permission p q) (has qs p))

has-for_each-delete :
    (qs ps : List Permission) (p : Permission)
    → has (for_each delete ps qs) p ≡ (has ps p && not (has qs p))
has-for_each-delete [] ps p = rw (has-nil p) (&&-true (has ps p))
has-for_each-delete (q ∷ qs) ps p =
    has-for_each-delete qs (delete ps q) p
    ∙ rw (has-delete ps q p, has-cons q qs p)
        (delete_all_bits (has ps p) (same_permission p q) (has qs p))

-- What the overrides of a member of the staff grant and revoke; a row without overrides does neither.
abbrev pub granted : Option PermissionOverrides → Permission → Bool
granted none p = false
granted (some o) p = has o.grant p

abbrev pub revoked : Option PermissionOverrides → Permission → Bool
revoked none p = false
revoked (some o) p = has o.revoke p

-- A permission is effective exactly if it is a default of the role or granted, and not revoked: a
-- revocation wins over a grant, and the order of the overrides does not matter. Without overrides the
-- effective permissions are the defaults.
pub compute_effective_permissions_decides :
    (role : StaffRole) (overrides : Option PermissionOverrides) (p : Permission)
    → has (compute_effective_permissions role overrides) p ≡ (
        (has (role_default_permissions role) p || granted overrides p) && not (revoked overrides p))
unfolding compute_effective_permissions
compute_effective_permissions_decides role none p =
    sym (||-false (has (role_default_permissions role) p))
    ∙ &&-true (has (role_default_permissions role) p || false)
compute_effective_permissions_decides role (some o) p =
    has-for_each-delete o.revoke (for_each add (role_default_permissions role) o.grant) p
    ∙ rw (has-for_each-add o.grant (role_default_permissions role) p) refl
