-- ===== src/Auth/Context.antt =====
-- `extract_auth_context` of app/platform/auth_context.py in its three modes. What `jwt.decode` makes
-- of a token is an argument.
use feature_asset_inventory.Base.{
  ℕ, String, Bool, true, false, Option, none, some, List, [], ◌∷◌, is_blank, is_empty, or_none,
  str_eq, strip, lower, words, member, drop_chars, has_prefix, if◌then◌else◌,
}
use feature_asset_inventory.Python.Json.{
  Json, null, boolean, text, array, Fields, empty, field, values, truthy, or_else,
}
use feature_asset_inventory.Auth.Settings.{
  Settings, or_text, or_list, auth_default_dev_roles, effective_entra_audiences,
  effective_entra_issuers, effective_entra_jwks_url, normalized_auth_mode,
}
use feature_asset_inventory.Auth.Claims.{
  claim, normalize_roles, normalize_groups, normalize_permissions,
}

-- `RequestAuthContext`
pub record Context : Type 0 where
  pub is_authenticated : Bool
  pub user_id : Option String
  pub user_name : Option String
  pub email : Option String
  pub roles : List String
  pub groups : List String
  pub permissions : List String
  pub raw_token : Option String
  pub auth_mode : String
  pub claims : Fields

-- The details of the responses.
pub data Reason : Type 0 where
  bearer_required token_expired wrong_audience wrong_issuer invalid_token not_authenticated : Reason
  audience_missing issuer_missing jwks_missing : Reason
  unsupported_mode : String → Reason

-- 401, 403, 500, and an exception of the JWT library that nobody catches.
pub data AuthError : Type 0 where
  unauthorized internal : Reason → AuthError
  forbidden uncaught : AuthError

pub data Access {ℓ} (A : Type ℓ) : Type ℓ where
  granted : A → Access A
  denied : AuthError → Access A

infixl 5 ◌>>=◌
abbrev pub ◌>>=◌ {ℓ κ} : {A : Type ℓ} {B : Type κ} → Access A → (A → Access B) → Access B
granted a >>= f = f a
denied e >>= f = denied e

-- What fetching the signing key and `jwt.decode` come to: the claims, or the exception.
pub data Decoded : Type 0 where
  decoded : Fields → Decoded
  expired bad_audience bad_issuer bad_token no_key : Decoded

-- The JWKS URL, the audiences, the leeway and the token, as they are handed over.
abbrev pub Decoder : Type 0
Decoder = String → List String → ℕ → String → Decoded

abbrev pub bearer_of : String → Option String
bearer_of header =
    if has_prefix "bearer " (lower header) then or_none (strip (drop_chars 7 header)) else none

unfoldable pub extract_bearer_token : Option String → Option String
extract_bearer_token none = none
extract_bearer_token (some header) = bearer_of header

abbrev pub texts : List String → List Json
texts [] = []
texts (s ∷ ss) = text s ∷ texts ss

-- `a or b or …`: the first that counts as true, or the last.
abbrev pub first_of : List String → Fields → Json
first_of [] claims = null
first_of (key ∷ []) claims = claim key claims
first_of (key ∷ k ∷ keys) claims = or_else (claim key claims) (first_of (k ∷ keys) claims)

abbrev user_id_claims : List String
user_id_claims = "oid" ∷ "sub" ∷ "preferred_username" ∷ "unique_name" ∷ "appid" ∷ []

abbrev user_name_claims : List String
user_name_claims = "name" ∷ "preferred_username" ∷ "upn" ∷ "unique_name" ∷ "appid" ∷ []

abbrev email_claims : List String
email_claims = "preferred_username" ∷ "email" ∷ "upn" ∷ "unique_name" ∷ []

unfoldable pub none_context : Context
none_context = record {
  is_authenticated = true;
  user_id = some "anonymous";
  user_name = some "anonymous";
  email = none;
  roles = [];
  groups = [];
  permissions = [];
  raw_token = none;
  auth_mode = "none";
  claims = empty;
}

-- The headers of a request that bear on authentication.
pub record Headers : Type 0 where
  pub authorization : Option String
  pub debug_user_id : Option String
  pub debug_user_name : Option String
  pub debug_email : Option String
  pub debug_roles : Option String

-- `header or default`, where debug headers are enabled.
abbrev pub debug_value : Bool → Option String → String → String
debug_value enabled none default_value = default_value
debug_value enabled (some v) default_value =
    if enabled then or_text v default_value else default_value

abbrev pub csv : Option String → List String
csv none = []
csv (some v) = words b',' v

module _ (show : Json → String) where
  abbrev pub named : Json → Option String
  named j = if truthy j then some (show j) else none

  unfoldable pub build_context_from_claims : Settings → Fields → String → String → Context
  build_context_from_claims s claims raw_token auth_mode = record {
    is_authenticated = true;
    user_id = named (first_of user_id_claims claims);
    user_name = named (first_of user_name_claims claims);
    email = named (first_of email_claims claims);
    roles = normalize_roles show claims;
    groups = normalize_groups show claims;
    permissions = normalize_permissions show s claims (normalize_roles show claims);
    raw_token = some raw_token;
    auth_mode = auth_mode;
    claims = claims;
  }

  unfoldable pub mock_context : Settings → Headers → Context
  unfolding extract_bearer_token
  mock_context s h =
      let enabled = s.auth_debug_headers_enabled in
      let roles =
        if enabled
        then or_list (csv h.debug_roles) (auth_default_dev_roles s)
        else auth_default_dev_roles s in
      let claims =
        field "dev_mode" (boolean true) (field "roles" (array (values (texts roles))) empty) in
      record {
        is_authenticated = true;
        user_id = some (debug_value enabled h.debug_user_id s.auth_default_dev_user_id);
        user_name = some (debug_value enabled h.debug_user_name s.auth_default_dev_user_name);
        email = some (debug_value enabled h.debug_email s.auth_default_dev_email);
        roles = roles;
        groups = [];
        permissions = normalize_permissions show s claims roles;
        raw_token = extract_bearer_token h.authorization;
        auth_mode = "mock";
        claims = claims;
      }

  -- `claims.get("iss") in allowed_issuers`
  abbrev pub is_allowed : List String → Json → Bool
  is_allowed issuers (text iss) = member iss issuers
  is_allowed issuers _ = false

  -- `_validate_issuer`, with what the handler around it makes of its exception.
  abbrev pub validate_issuer : Settings → Fields → Access Fields
  validate_issuer s claims =
      let issuers = effective_entra_issuers s in
      if is_empty issuers
      then denied (internal issuer_missing)
      else if is_allowed issuers (claim "iss" claims)
      then granted claims
      else denied (unauthorized wrong_issuer)

  abbrev pub read_decoded : Settings → Decoded → Access Fields
  read_decoded s (decoded claims) = validate_issuer s claims
  read_decoded s expired = denied (unauthorized token_expired)
  read_decoded s bad_audience = denied (unauthorized wrong_audience)
  read_decoded s bad_issuer = denied (unauthorized wrong_issuer)
  read_decoded s bad_token = denied (unauthorized invalid_token)
  read_decoded s no_key = denied uncaught

  unfoldable pub validate_entra_token : Settings → Decoder → String → Access Fields
  validate_entra_token s decode raw_token =
      let audiences = effective_entra_audiences s in
      let url = effective_entra_jwks_url s in
      if is_empty audiences
      then denied (internal audience_missing)
      else if is_blank url
      then denied (internal jwks_missing)
      else read_decoded s (decode url audiences s.entra_clock_skew_seconds raw_token)

  abbrev pub entra_of : Settings → Decoder → Option String → Access Context
  entra_of s decode none = denied (unauthorized bearer_required)
  entra_of s decode (some raw_token) = do
    claims ← validate_entra_token s decode raw_token
    granted (build_context_from_claims s claims raw_token "entra")

  unfoldable pub extract_entra_context : Settings → Decoder → Option String → Access Context
  extract_entra_context s decode authorization =
      entra_of s decode (extract_bearer_token authorization)

  unfoldable pub extract_auth_context : Settings → Decoder → Headers → Access Context
  extract_auth_context s decode h =
      let mode = normalized_auth_mode s in
      if str_eq mode "none"
      then granted none_context
      else if str_eq mode "mock"
      then granted (mock_context s h)
      else if str_eq mode "entra"
      then extract_entra_context s decode h.authorization
      else denied (internal (unsupported_mode mode))
