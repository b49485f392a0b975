-- ===== src/Tests/Auth.antt =====
-- Authentication with production settings, and a token of a reader.
use Prim.Native.String
use feature_asset_inventory.Base.{
  String, ◌≡◌, ◌⊎◌, ◌↔◌, refl, true, false, none, some, [], ◌∷◌, any, is_blank, member, strip,
  lower, prepend, lookup, insert, split_at, stripped, has_char, sorted_set,
}
use feature_asset_inventory.Python.Json.{Json, text, array, nil, cons, Fields, empty, field}
use feature_asset_inventory.Auth.Settings.{
  Settings, is_local_environment, normalized_auth_mode, parse_permission_map,
  effective_entra_audiences, effective_entra_issuers, effective_entra_jwks_url,
  validate_runtime_safety,
}
use feature_asset_inventory.Auth.Claims.{
  expand_permissions_from_values, normalize_roles, normalize_direct_permissions, extract_scopes,
  normalize_permissions,
}
use feature_asset_inventory.Auth.Context.{
  Context, granted, denied, forbidden, decoded, Decoder, Headers, none_context,
  extract_bearer_token, build_context_from_claims, validate_entra_token, extract_entra_context,
  extract_auth_context,
}
use feature_asset_inventory.Auth.Guards.{require_any_permission}
use feature_asset_inventory.Auth.Permissions.{IsPermitted, require_any_permission_iff}
use feature_asset_inventory.Auth.Holders.{Holds, by_role, build_context_from_claims-permissions}
use feature_asset_inventory.Auth.Tokens.{
  IsFromToken, extract_auth_context-IsFromToken, extract_bearer_token-bearer,
}

abbrev pub production : Settings
production = record {
  app_environment = "production";
  auth_mode = "entra";
  auth_debug_headers_enabled = false;
  auth_default_dev_user_id = "";
  auth_default_dev_user_name = "";
  auth_default_dev_email = "";
  auth_default_dev_roles_raw = "";
  auth_required_permissions_raw = "";
  auth_role_permission_map_raw = "reader:assets.view";
  auth_scope_permission_map_raw = "";
  entra_tenant_id = "t";
  entra_client_id = "api";
  entra_audience = "";
  entra_allowed_audiences_raw = "";
  entra_jwks_url = "";
  entra_issuer = "issuer";
  entra_allowed_issuers_raw = "";
  entra_clock_skew_seconds = 60;
}

abbrev pub shown : Json → String
shown (text s) = s
shown _ = ""

abbrev reader_claims : Fields
reader_claims =
    field "iss" (text "issuer")
      (field "sub" (text "u1") (field "roles" (array (cons (text "reader") nil)) empty))

abbrev decoder : Decoder
decoder url audiences leeway token = decoded reader_claims

abbrev pub headers : Headers
headers = record {
  authorization = some "Bearer abc";
  debug_user_id = none;
  debug_user_name = none;
  debug_email = none;
  debug_roles = some "admin";
}

abbrev reader : Context
reader = build_context_from_claims shown production reader_claims "abc" "entra"

extract_auth_context-IsFromToken_example : IsFromToken shown production decoder headers reader
unfolding validate_runtime_safety is_local_environment normalized_auth_mode
    effective_entra_audiences effective_entra_issuers effective_entra_jwks_url extract_auth_context
    extract_entra_context validate_entra_token extract_bearer_token lower strip member split_at
    stripped prepend
extract_auth_context-IsFromToken_example =
    extract_auth_context-IsFromToken shown production decoder headers reader refl refl refl

extract_bearer_token-bearer_example :
    extract_bearer_token (some (String.◌++◌ "Bearer " "abc")) ≡ some "abc"
unfolding strip
extract_bearer_token-bearer_example = extract_bearer_token-bearer "abc" refl refl

build_context_from_claims-permissions_example :
    (member "assets.view" reader.permissions ≡ true)
    ↔ ((is_blank "assets.view" ≡ false) × Holds shown production reader_claims "assets.view")
build_context_from_claims-permissions_example =
    build_context_from_claims-permissions shown production reader_claims "assets.view" "abc" "entra"

reader-holds : Holds shown production reader_claims "assets.view"
unfolding any split_at stripped strip has_char insert lookup member parse_permission_map
reader-holds = by_role "reader" refl refl refl

reader-permissions : reader.permissions ≡ "assets.view" ∷ []
unfolding build_context_from_claims normalize_roles normalize_permissions
    normalize_direct_permissions extract_scopes expand_permissions_from_values parse_permission_map
    split_at stripped strip has_char insert lookup sorted_set
reader-permissions = refl

require_any_permission_iff_example :
    ((require_any_permission none_context ("assets.edit" ∷ []) ≡ granted none_context)
      ↔ IsPermitted none_context.permissions ("assets.edit" ∷ []))
    × ((require_any_permission none_context ("assets.edit" ∷ []) ≡ granted none_context)
        ⊎ (require_any_permission none_context ("assets.edit" ∷ []) ≡ denied forbidden))
require_any_permission_iff_example = require_any_permission_iff none_context ("assets.edit" ∷ [])
