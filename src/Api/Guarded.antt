-- ===== src/Api/Guarded.antt =====
-- The guards that the routers of app/api share, and what a route does with them.
use feature_asset_inventory.Base.{ℕ, String, Option, List, [], ◌∷◌}
use feature_asset_inventory.Base.Http.{Result, ok}
use feature_asset_inventory.Store.{Store}
use feature_asset_inventory.Store.Types.{Carrier}
use feature_asset_inventory.Store.Table.{Database}
use feature_asset_inventory.Store.Session.{Action, request}
use feature_asset_inventory.Python.Json.{Json}
use feature_asset_inventory.Tracking.{TrackingResult}
use feature_asset_inventory.Auth.Settings.{Settings, auth_required_permissions}
use feature_asset_inventory.Auth.Context.{
  Context, Access, granted, denied, AuthError, Decoder, Headers,
}
use feature_asset_inventory.Auth.Guards.{require_permissions}

-- What the routes run on: the settings, the JWT library, `str` of a claim, the keys of new rows, the
-- carriers, and the setting `tracking_auto_refresh_minutes`.
pub record Server : Type 0 where
  pub settings : Settings
  pub decode : Decoder
  pub show : Json → String
  pub database : Database
  pub fetch : Carrier → String → TrackingResult
  pub auto_refresh_minutes : ℕ

-- A request that the guard refuses does not reach the service.
pub data Answer (A : Type 0) : Type 0 where
  turned_away : AuthError → Answer A
  served : Result A → Answer A

abbrev pub guarded : {A : Type 0} → Access Context → (Context → Action A) → Store → Answer A × Store
guarded (denied e) op db = (turned_away e, db)
guarded (granted auth) op db = let (r, db') = request (op auth) db in (served r, db')

-- `try: … except Exception: pass`
abbrev pub ignoring : {A : Type 0} → Action A → Action (Unit {0})
ignoring op s = let (r, s') = op s in (ok tt, s')

-- `getattr(auth, "user_upn", None) or getattr(auth, "email", None)`: there is no `user_upn`.
abbrev pub actor : Context → Option String
actor auth = auth.email

abbrev pub write_permissions : List String
write_permissions = "asset-inventory.write" ∷ []

abbrev pub manage_permissions : List String
manage_permissions = "asset-inventory.manage" ∷ []

module _ (server : Server) (headers : Headers) where
  abbrev pub require : List String → Access Context
  require permissions =
      require_permissions server.show server.settings server.decode headers permissions

  abbrev pub require_view : Access Context
  require_view = require (auth_required_permissions server.settings)

  abbrev pub require_write : Access Context
  require_write = require write_permissions

  abbrev pub require_manage : Access Context
  require_manage = require manage_permissions
