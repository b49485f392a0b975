-- ===== src/Auth/Settings.antt =====
-- The settings of app/config.py on authentication, and what it derives from their raw texts.
use Prim.Native.String
use Prim.Native.Char.{code}
use feature_asset_inventory.Base.{
  ℕ, String, ◌≡◌, refl, Bool, not, ◌||◌, ◌&&◌, Option, none, some, List, [], ◌∷◌, ◌++◌, ◌==◌,
  is_blank, is_empty, str_eq, strip, lower, words, member, has_char, stripped, split_at,
  if◌then◌else◌, Dict, insert,
}

pub record Settings : Type 0 where
  pub app_environment : String
  pub auth_mode : String
  pub auth_debug_headers_enabled : Bool
  pub auth_default_dev_user_id : String
  pub auth_default_dev_user_name : String
  pub auth_default_dev_email : String
  pub auth_default_dev_roles_raw : String
  pub auth_required_permissions_raw : String
  pub auth_role_permission_map_raw : String
  pub auth_scope_permission_map_raw : String
  pub entra_tenant_id : String
  pub entra_client_id : String
  pub entra_audience : String
  pub entra_allowed_audiences_raw : String
  pub entra_jwks_url : String
  pub entra_issuer : String
  pub entra_allowed_issuers_raw : String
  pub entra_clock_skew_seconds : ℕ

abbrev local_environments : List String
local_environments = "local" ∷ "dev" ∷ "development" ∷ "test" ∷ []

abbrev pub or_text : String → String → String
or_text s t = if is_blank s then t else s

unfoldable pub is_local_environment : Settings → Bool
is_local_environment s =
    member (or_text (lower (strip s.app_environment)) "local") local_environments

unfoldable pub normalized_auth_mode : Settings → String
normalized_auth_mode s = lower (strip s.auth_mode)

abbrev pub auth_default_dev_roles : Settings → List String
auth_default_dev_roles s = words b',' s.auth_default_dev_roles_raw

abbrev pub auth_required_permissions : Settings → List String
auth_required_permissions s = words b',' s.auth_required_permissions_raw

-- `entry.split(":", 1)` of an entry with a colon: what stands before the first one, and after it.
abbrev cut : String → String × String
cut String.[] = ("", "")
cut (String.◌∷◌ c s) =
    let rest = cut s in if code c == b':' then ("", s) else (String.◌∷◌ c rest.0, rest.1)

pieces : List String → List String
pieces [] = []
pieces (p ∷ ps) = split_at b',' p ++ pieces ps

-- `raw.replace("|", ",").split(",")`: both characters separate.
abbrev split_both : String → List String
split_both raw = pieces (split_at b'|' raw)

add_entry : String → Dict (List String) → Dict (List String)
add_entry entry result =
    let key = strip (cut entry).0 in
    let permissions = stripped (split_both (cut entry).1) in
    if is_blank entry || not (has_char b':' entry)
    then result
    else if not (is_blank key) && not (is_empty permissions)
    then insert key permissions result
    else result

add_entries : List String → Dict (List String) → Dict (List String)
add_entries [] result = result
add_entries (e ∷ es) result = add_entries es (add_entry (strip e) result)

unfoldable pub parse_permission_map : String → Dict (List String)
unfolding pieces add_entry add_entries
parse_permission_map raw = add_entries (split_at b';' raw) []

abbrev pub auth_role_permission_map : Settings → Dict (List String)
auth_role_permission_map s = parse_permission_map s.auth_role_permission_map_raw

abbrev pub auth_scope_permission_map : Settings → Dict (List String)
auth_scope_permission_map s = parse_permission_map s.auth_scope_permission_map_raw

abbrev pub or_list : List String → List String → List String
or_list [] other = other
or_list (v ∷ vs) other = v ∷ vs

abbrev pub single : String → List String
single v = if is_blank v then [] else v ∷ []

unfoldable pub effective_entra_audiences : Settings → List String
effective_entra_audiences s =
    or_list (words b',' s.entra_allowed_audiences_raw)
      (or_list (single (strip s.entra_audience)) (single (strip s.entra_client_id)))

abbrev pub tenant_issuers : String → List String
tenant_issuers tenant_id =
    if is_blank tenant_id
    then []
    else String.◌++◌ "https://login.microsoftonline.com/" (String.◌++◌ tenant_id "/v2.0")
      ∷ String.◌++◌ "https://sts.windows.net/" (String.◌++◌ tenant_id "/")
      ∷ []

unfoldable pub effective_entra_issuers : Settings → List String
effective_entra_issuers s =
    or_list (words b',' s.entra_allowed_issuers_raw)
      (or_list (single (strip s.entra_issuer)) (tenant_issuers (strip s.entra_tenant_id)))

-- The URL strips the tenant only for the test.
unfoldable pub effective_entra_jwks_url : Settings → String
effective_entra_jwks_url s =
    if not (is_blank (strip s.entra_jwks_url))
    then strip s.entra_jwks_url
    else if is_blank (strip s.entra_tenant_id)
    then ""
    else String.◌++◌ "https://login.microsoftonline.com/"
        (String.◌++◌ s.entra_tenant_id "/discovery/v2.0/keys")

-- Why `validate_runtime_safety` raises; it reports all the missing settings at once.
pub data Unsafe : Type 0 where
  local_mode : Unsafe
  unsupported_mode : String → Unsafe
  missing_settings : Bool → Bool → Bool → Unsafe

unfoldable pub validate_runtime_safety : Settings → Option Unsafe
validate_runtime_safety s =
    let mode = normalized_auth_mode s in
    let audiences = is_empty (effective_entra_audiences s) in
    let issuers = is_empty (effective_entra_issuers s) in
    let jwks = is_blank (effective_entra_jwks_url s) in
    if is_local_environment s
    then none
    else if str_eq mode "none" || str_eq mode "mock"
    then some local_mode
    else if not (str_eq mode "entra")
    then some (unsupported_mode s.auth_mode)
    else if audiences || issuers || jwks
    then some (missing_settings audiences issuers jwks)
    else none

map_example :
    parse_permission_map "admin:*; reader : a.view|a.list ;x"
    ≡ ("admin", "*" ∷ []) ∷ ("reader", "a.view" ∷ "a.list" ∷ []) ∷ []
unfolding parse_permission_map split_at strip stripped has_char insert
map_example = refl
