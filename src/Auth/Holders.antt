-- ===== src/Auth/Holders.antt =====
-- Who holds a permission, told by the claims of the token alone.
use feature_asset_inventory.Base.{
  String, ◌≡◌, ◌↔◌, ◌∙◌, inl, inr, Bool, true, false, ◌||◌, List, [], ◌∷◌, arith, is_blank, str_eq,
  eq_iff, any, member, Bool-cases,
}
use feature_asset_inventory.Python.Json.{Json, Fields}
use feature_asset_inventory.Auth.Settings.{
  Settings, auth_role_permission_map, auth_scope_permission_map,
}
use feature_asset_inventory.Auth.Claims.{
  claim, normalize_roles, normalize_direct_permissions, extract_scopes, normalize_permissions,
}
use feature_asset_inventory.Auth.Context.{build_context_from_claims}
use feature_asset_inventory.Auth.Permissions.{grants, normalize_permissions_lem}
use feature_asset_inventory.Auth.Values.{
  is_word_of, is_item_of, is_role, member-roles, member-scopes, member-direct,
}

module _ (show : Json → String) where
  -- A token holds a permission by naming it, by a role or by a scope.
  pub data Holds (s : Settings) (claims : Fields) (p : String) : Type 0 where
    named : is_item_of show (claim "permissions" claims) p ≡ true → Holds s claims p
    spelled_out : is_word_of b',' (claim "permissions_csv" claims) p ≡ true → Holds s claims p
    by_role :
        (r : String)
        → is_blank r ≡ false
        → is_role show claims r ≡ true
        → grants (auth_role_permission_map s) p r ≡ true
        → Holds s claims p
    by_scope :
        (r : String)
        → is_blank r ≡ false
        → is_word_of b' ' (claim "scp" claims) r ≡ true
        → grants (auth_scope_permission_map s) p r ≡ true
        → Holds s claims p

any-found :
    (f : String → Bool) (vs : List String)
    → any f vs ≡ true
    → (v : String) × (member v vs ≡ true) × (f v ≡ true)
unfolding any member
any-found f [] h = absurd (cc)
any-found f (v ∷ vs) h = elim (Bool-cases (f v)) [
  | inl e ↦ (v, ground (arith, eq_iff v v), e)
  | inr e ↦ let (w, m, g) = any-found f vs (ground arith) in (w, ground arith, g)
]

found-any :
    (f : String → Bool) (vs : List String) (v : String)
    → member v vs ≡ true
    → f v ≡ true
    → any f vs ≡ true
unfolding any member
found-any f [] v m h = cc
found-any f (w ∷ vs) v m h = elim (Bool-cases (str_eq v w)) [
  | inl e ↦ let same : v ≡ w = (eq_iff v w).0 e in let k : f w ≡ true = rw same at h in ground arith
  | inr e ↦ ground (arith, found-any f vs v)
]

module _ (show : Json → String) (s : Settings) (claims : Fields) (p : String) where
  abbrev in_direct : Bool
  in_direct = member p (normalize_direct_permissions show claims)

  abbrev from_roles : Bool
  from_roles = any (grants (auth_role_permission_map s) p) (normalize_roles show claims)

  abbrev from_scopes : Bool
  from_scopes = any (grants (auth_scope_permission_map s) p) (extract_scopes show claims)

  holds :
      is_blank p ≡ false → (in_direct || (from_roles || from_scopes)) ≡ true → Holds show s claims p
  holds b h = elim (Bool-cases in_direct) [
    | inl e ↦ elim (Bool-cases (is_item_of show (claim "permissions" claims) p)) [
      | inl f ↦ named f
      | inr f ↦ spelled_out (ground (arith, member-direct show claims p b))
    ]
    | inr e ↦ elim (Bool-cases from_roles) [
      | inl f ↦
          let (r, m, g) =
            any-found (grants (auth_role_permission_map s) p) (normalize_roles show claims) f in
          by_role r (ground (arith, member-roles show claims r))
            (ground (arith, member-roles show claims r)) g
      | inr f ↦
          let (r, m, g) =
            any-found (grants (auth_scope_permission_map s) p) (extract_scopes show claims)
              (ground arith) in
          by_scope r (ground (arith, member-scopes show claims r))
            (ground (arith, member-scopes show claims r)) g
    ]
  ]

  held :
      is_blank p ≡ false → Holds show s claims p → (in_direct || (from_roles || from_scopes)) ≡ true
  held b (named h) = ground (arith, member-direct show claims p b)
  held b (spelled_out h) = ground (arith, member-direct show claims p b)
  held b (by_role r n m g) = ground (
    arith,
    found-any (grants (auth_role_permission_map s) p) (normalize_roles show claims) r
        (ground (arith, member-roles show claims r)) g,
  )
  held b (by_scope r n m g) = ground (
    arith,
    found-any (grants (auth_scope_permission_map s) p) (extract_scopes show claims) r
        (ground (arith, member-scopes show claims r)) g,
  )

  -- The context that is built from the claims of a token has a permission exactly if the permission is
  -- not empty and the claims hold it: they name it in the list "permissions" or in the text
  -- "permissions_csv", or a role in the list "roles" or in the text "scp" grants it by the map of
  -- roles, or a scope in the text "scp" grants it by the map of scopes. A role or scope also grants
  -- itself, if it is "*" or has a dot.
  pub build_context_from_claims-permissions :
      (raw_token auth_mode : String)
      → (member p (build_context_from_claims show s claims raw_token auth_mode).permissions ≡ true)
        ↔ ((is_blank p ≡ false) × Holds show s claims p)
  unfolding build_context_from_claims
  build_context_from_claims-permissions raw_token auth_mode =
      let gathered = normalize_permissions_lem show s claims (normalize_roles show claims) p in
      (
        λ h.
            let e : member p (normalize_permissions show s claims (normalize_roles show claims))
                ≡ true =
              h in
            let b : is_blank p ≡ false = ground arith in (b, holds b (ground arith)),
        λ h. let k = held h.0 h.1 in gathered ∙ (ground arith),
      )
