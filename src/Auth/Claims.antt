-- ===== src/Auth/Claims.antt =====
-- The claims of an access token, normalised: roles, groups, scopes and permissions.
use feature_asset_inventory.Base.{
  ℕ, String, ◌||◌, Option, none, some, List, [], ◌∷◌, ◌++◌, is_blank, str_eq, words, has_char,
  stripped, sorted_set, if◌then◌else◌, Dict, lookup,
}
use feature_asset_inventory.Python.Json.{Json, text, array, Fields, items, find_field, or_null}
use feature_asset_inventory.Auth.Settings.{
  Settings, auth_role_permission_map, auth_scope_permission_map,
}

abbrev pub claim : String → Fields → Json
claim key claims = or_null (find_field key claims)

abbrev pub granted_by : Option (List String) → List String
granted_by none = []
granted_by (some permissions) = permissions

-- A value that is `*` or has a dot stands for itself.
abbrev pub itself : String → List String
itself v = if str_eq v "*" || has_char b'.' v then v ∷ [] else []

unfoldable pub expand_permissions_from_values : List String → Dict (List String) → List String
expand_permissions_from_values [] permission_map = []
expand_permissions_from_values (v ∷ vs) permission_map =
    (granted_by (lookup v permission_map) ++ itself v)
    ++ expand_permissions_from_values vs permission_map

abbrev pub not_blank : List String → List String
not_blank [] = []
not_blank (v ∷ vs) = if is_blank v then not_blank vs else v ∷ not_blank vs

module _ (show : Json → String) where
  -- `str(item)` of each item
  abbrev pub shown : List Json → List String
  shown [] = []
  shown (j ∷ js) = show j ∷ shown js

  -- The items of a list; anything else has none.
  abbrev pub listed : Json → List String
  listed (array js) = stripped (shown (items js))
  listed _ = []

  -- The words of a text; anything else has none.
  abbrev pub spelled : ℕ → Json → List String
  spelled d (text s) = words d s
  spelled d _ = []

  unfoldable pub normalize_roles : Fields → List String
  normalize_roles claims =
      sorted_set (listed (claim "roles" claims) ++ spelled b' ' (claim "scp" claims))

  unfoldable pub normalize_groups : Fields → List String
  normalize_groups claims = sorted_set (listed (claim "groups" claims))

  unfoldable pub normalize_direct_permissions : Fields → List String
  normalize_direct_permissions claims =
      listed (claim "permissions" claims) ++ spelled b',' (claim "permissions_csv" claims)

  unfoldable pub extract_scopes : Fields → List String
  extract_scopes claims = spelled b' ' (claim "scp" claims)

  unfoldable pub normalize_permissions : Settings → Fields → List String → List String
  normalize_permissions s claims roles = sorted_set (
      not_blank (
        normalize_direct_permissions claims
        ++ (expand_permissions_from_values roles (auth_role_permission_map s)
            ++ expand_permissions_from_values (extract_scopes claims)
                (auth_scope_permission_map s))))
