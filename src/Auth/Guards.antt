-- ===== src/Auth/Guards.antt =====
-- The guards: `require_authenticated_user`, `require_any_role` and `require_any_permission` of
-- app/platform/auth_context.py, and the dependencies that app/dependencies.py builds from them.
use feature_asset_inventory.Base.{
  String, Bool, not, List, [], ◌∷◌, any, is_empty, member, stripped, if◌then◌else◌,
}
use feature_asset_inventory.Python.Json.{Json}
use feature_asset_inventory.Auth.Settings.{Settings}
use feature_asset_inventory.Auth.Context.{
  Context, Access, granted, denied, unauthorized, forbidden, not_authenticated, Decoder, Headers,
  extract_auth_context, ◌>>=◌,
}

unfoldable pub require_authenticated_user : Context → Access Context
require_authenticated_user c =
    if not c.is_authenticated then denied (unauthorized not_authenticated) else granted c

-- `set(a).intersection(b)` is not empty.
abbrev pub intersects : List String → List String → Bool
intersects a b = any (λ v. member v b) a

unfoldable pub require_any_role : Context → List String → Access Context
require_any_role c required_roles =
    if is_empty required_roles
    then granted c
    else if intersects c.roles required_roles
    then granted c
    else denied forbidden

unfoldable pub require_any_permission : Context → List String → Access Context
require_any_permission c required_permissions =
    if is_empty required_permissions
    then granted c
    else if member "*" c.permissions
    then granted c
    else if intersects c.permissions required_permissions
    then granted c
    else denied forbidden

module _ (show : Json → String) (s : Settings) (decode : Decoder) (h : Headers) where
  unfoldable pub require_auth : Access Context
  require_auth = extract_auth_context show s decode h >>= require_authenticated_user

  unfoldable pub require_roles : List String → Access Context
  unfolding require_auth
  require_roles roles = require_auth >>= λ c. require_any_role c (stripped roles)

  unfoldable pub require_permissions : List String → Access Context
  unfolding require_auth
  require_permissions permissions =
      require_auth >>= λ c. require_any_permission c (stripped permissions)

  abbrev pub require_admin : Access Context
  require_admin = require_roles ("admin" ∷ [])

  abbrev pub require_developer : Access Context
  require_developer = require_roles ("admin" ∷ "developer" ∷ [])

  abbrev pub require_reader : Access Context
  require_reader = require_roles ("admin" ∷ "developer" ∷ "reader" ∷ [])

  abbrev pub require_operator : Access Context
  require_operator = require_roles ("admin" ∷ "operator" ∷ [])
