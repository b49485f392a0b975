-- ===== src/Auth/Permissions.antt =====
-- Who has a permission, and what the permission guard lets through.
use feature_asset_inventory.Base.{
  String, ◌≡◌, ◌⊎◌, ◌↔◌, refl, inl, inr, Bool, true, false, not, Option, none, some, ◌||◌, ◌&&◌,
  List, [], ◌∷◌, ◌++◌, arith, is_blank, is_empty, str_eq, eq_iff, has_char, any, member,
  member-append, member-sorted_set, Dict, lookup, Bool-cases,
}
use feature_asset_inventory.Python.Json.{Json, Fields}
use feature_asset_inventory.Auth.Settings.{
  Settings, auth_role_permission_map, auth_scope_permission_map,
}
use feature_asset_inventory.Auth.Claims.{
  granted_by, itself, normalize_direct_permissions, extract_scopes, expand_permissions_from_values,
  not_blank, normalize_permissions,
}
use feature_asset_inventory.Auth.Context.{Context, granted, denied, forbidden}
use feature_asset_inventory.Auth.Guards.{intersects, require_any_permission}

abbrev pub is_listed : String → Option (List String) → Bool
is_listed p none = false
is_listed p (some permissions) = member p permissions

-- A role or scope grants a permission: by the map, or because it is that permission.
abbrev pub grants : Dict (List String) → String → String → Bool
grants permission_map p v =
    is_listed p (lookup v permission_map) || (str_eq p v && (str_eq v "*" || has_char b'.' v))

member-itself :
    (p v : String) → member p (itself v) ≡ (str_eq p v && (str_eq v "*" || has_char b'.' v))
unfolding member
member-itself p v = ground arith

member-granted_by :
    (p : String) (o : Option (List String)) → member p (granted_by o) ≡ is_listed p o
unfolding member
member-granted_by p none = refl
member-granted_by p (some permissions) = refl

member-expand :
    (p : String) (vs : List String) (m : Dict (List String))
    → member p (expand_permissions_from_values vs m) ≡ any (grants m p) vs
unfolding expand_permissions_from_values member any
member-expand p [] m = refl
member-expand p (v ∷ vs) m = ground (
  arith,
  member-append p (granted_by (lookup v m) ++ itself v) (expand_permissions_from_values vs m),
  member-append p (granted_by (lookup v m)) (itself v),
  member-granted_by p (lookup v m),
  member-itself p v,
  member-expand p vs m,
)

member-not_blank :
    (p : String) (vs : List String) → member p (not_blank vs) ≡ (not (is_blank p) && member p vs)
unfolding member
member-not_blank p [] = ground arith
member-not_blank p (v ∷ vs) = elim (Bool-cases (is_blank v)) [
  | inl e ↦ rw e (ground (arith, eq_iff p v, eq_iff v "", eq_iff p "", member-not_blank p vs))
  | inr e ↦ rw e (ground (arith, eq_iff p v, eq_iff v "", eq_iff p "", member-not_blank p vs))
]

module _ (show : Json → String) where
  -- The permissions of a context, by the lists that they are gathered from.
  pub normalize_permissions_lem :
      (s : Settings) (claims : Fields) (roles : List String) (p : String)
      → member p (normalize_permissions show s claims roles) ≡ (
          not (is_blank p)
          && (member p (normalize_direct_permissions show claims)
              || (any (grants (auth_role_permission_map s) p) roles
                  || any (grants (auth_scope_permission_map s) p) (extract_scopes show claims))))
  unfolding normalize_permissions
  normalize_permissions_lem s claims roles p =
      let direct = normalize_direct_permissions show claims in
      let by_role = expand_permissions_from_values roles (auth_role_permission_map s) in
      let by_scope =
        expand_permissions_from_values (extract_scopes show claims) (auth_scope_permission_map s) in
      rw (member-sorted_set p (not_blank (direct ++ (by_role ++ by_scope)))) (
        rw (member-not_blank p (direct ++ (by_role ++ by_scope))) (
          rw (member-append p direct (by_role ++ by_scope)) (
            rw (member-append p by_role by_scope) (
              rw
                (
                  member-expand p roles (auth_role_permission_map s),
                  member-expand p (extract_scopes show claims) (auth_scope_permission_map s),
                )
                refl))))

-- What the guard asks for: nothing, the wildcard, or a permission in common.
pub data IsPermitted (have required : List String) : Type 0 where
  unguarded : is_empty required ≡ true → IsPermitted have required
  wildcard : member "*" have ≡ true → IsPermitted have required
  shared :
      (p : String) → member p have ≡ true → member p required ≡ true → IsPermitted have required

intersects-shared :
    (a b : List String)
    → intersects a b ≡ true
    → (p : String) × (member p a ≡ true) × (member p b ≡ true)
unfolding any member
intersects-shared [] b h = absurd (cc)
intersects-shared (v ∷ vs) b h = elim (Bool-cases (member v b)) [
  | inl e ↦ (v, ground (arith, eq_iff v v), e)
  | inr e ↦ let (p, f, g) = intersects-shared vs b (ground arith) in (p, ground arith, g)
]

shared-intersects :
    (a b : List String) (p : String) → member p a ≡ true → member p b ≡ true → intersects a b ≡ true
unfolding any member
shared-intersects [] b p h k = cc
shared-intersects (v ∷ vs) b p h k = elim (Bool-cases (str_eq p v)) [
  | inl e ↦ let same : p ≡ v = (eq_iff p v).0 e in ground arith
  | inr e ↦ ground (arith, shared-intersects vs b p)
]

-- The permission guard lets a context through exactly if no permission is asked for, the context has
-- the permission "*", or it has one of those that are asked for; else it answers 403.
pub require_any_permission_iff :
    (c : Context) (required : List String)
    → ((require_any_permission c required ≡ granted c) ↔ IsPermitted c.permissions required)
      × ((require_any_permission c required ≡ granted c)
          ⊎ (require_any_permission c required ≡ denied forbidden))
unfolding require_any_permission
require_any_permission_iff c required = ((there, back), ground arith)
  where
    there : require_any_permission c required ≡ granted c → IsPermitted c.permissions required
    there h = elim (Bool-cases (is_empty required)) [
      | inl e ↦ unguarded e
      | inr e ↦ elim (Bool-cases (member "*" c.permissions)) [
        | inl f ↦ wildcard f
        | inr f ↦
            let (p, a, b) = intersects-shared c.permissions required (ground arith) in shared p a b
      ]
    ]

    back : IsPermitted c.permissions required → require_any_permission c required ≡ granted c
    back (unguarded e) = ground arith
    back (wildcard e) = ground arith
    back (shared p a b) = ground (arith, shared-intersects c.permissions required p a b)
