-- ===== src/Api/Allowed.antt =====
-- Whoever changes the database through the routes has the permission that the route asks for.
use feature_asset_inventory.Base.{
  ℕ, String, ◌≡◌, ◌≢◌, refl, inl, inr, Bool, Option, List, arith, stripped,
}
use feature_asset_inventory.Store.{Store}
use feature_asset_inventory.Store.Types.{Direction}
use feature_asset_inventory.Store.Session.{Action}
use feature_asset_inventory.Shipments.Check.{ShipmentCreate}
use feature_asset_inventory.Deployments.Create.{DeploymentCreate, DeploymentUpdate}
use feature_asset_inventory.Deployments.Items.{ItemRequest}
use feature_asset_inventory.Auth.Settings.{auth_required_permissions}
use feature_asset_inventory.Auth.Context.{Context, granted, Headers, extract_auth_context}
use feature_asset_inventory.Auth.Guards.{
  require_auth, require_authenticated_user, require_permissions,
}
use feature_asset_inventory.Auth.Permissions.{IsPermitted, require_any_permission_iff}
use feature_asset_inventory.Auth.Tokens.{Access-cases}
use feature_asset_inventory.Api.Guarded.{
  Server, guarded, require, write_permissions, manage_permissions,
}
use feature_asset_inventory.Api

-- One request to the routes of shipments and deployments, a listing or detect-carrier aside, which
-- change nothing.
pub data Route : Type 0 where
  create_shipment : ShipmentCreate → Route
  get_shipment : Bool → ℕ → Route
  update_shipment : ℕ → Option String → Option String → Option Direction → Route
  refresh_shipment resolve_shipment cancel_shipment archive_shipment unarchive_shipment
        delete_shipment :
      ℕ → Route
  add_shipment_item remove_shipment_item : ℕ → ℕ → Route
  create_deployment : DeploymentCreate → Route
  get_deployment : ℕ → Route
  update_deployment : ℕ → DeploymentUpdate → Route
  add_deployment_item : ℕ → ItemRequest → Route
  remove_deployment_item : ℕ → ℕ → Route
  start_deployment complete_deployment cancel_deployment archive_deployment unarchive_deployment
        delete_deployment :
      ℕ → Route
  create_deployment_shipment : ℕ → ShipmentCreate → Route
  link_existing_shipment unlink_shipment : ℕ → ℕ → Route

-- The context that the request's headers give has one of the permissions, or all.
pub record IsAllowed (server : Server) (headers : Headers) (permissions : List String)
    : Type 0 where
  pub auth : Context
  pub authenticated :
      extract_auth_context server.show server.settings server.decode headers ≡ granted auth
  pub permitted : IsPermitted auth.permissions (stripped permissions)

module _ (server : Server) (headers : Headers) where
  auth_of :
      (c : Context)
      → require_auth server.show server.settings server.decode headers ≡ granted c
      → extract_auth_context server.show server.settings server.decode headers ≡ granted c
  unfolding require_auth require_authenticated_user
  auth_of c h =
      elim (Access-cases (extract_auth_context server.show server.settings server.decode headers)) [
        | inl (b, e) ↦ ground arith
        | inr (x, e) ↦ absurd (ground arith)
      ]

  granted-IsAllowed :
      (permissions : List String) (c : Context)
      → require server headers permissions ≡ granted c
      → IsAllowed server headers permissions
  unfolding require_permissions
  granted-IsAllowed permissions c h =
      elim (Access-cases (require_auth server.show server.settings server.decode headers)) [
        | inr (x, e) ↦ absurd (ground arith)
        | inl (b, e) ↦ elim ((require_any_permission_iff b (stripped permissions)).1) [
          | inl g ↦ record {
            auth = b;
            authenticated = auth_of b e;
            permitted = (require_any_permission_iff b (stripped permissions)).0.0 g;
          }
          | inr g ↦ absurd (ground arith)
        ]
      ]

  change-IsAllowed :
      {A : Type 0} (permissions : List String) (op : Context → Action A) (db : Store)
      → (guarded (require server headers permissions) op db).1 ≢ db
      → IsAllowed server headers permissions
  change-IsAllowed permissions op db n = elim (Access-cases (require server headers permissions)) [
    | inl (c, e) ↦ granted-IsAllowed permissions c e
    | inr (x, e) ↦ absurd (n (rw e refl))
  ]

-- The permissions of which a route asks for one.
abbrev pub needed : Server → Route → List String
needed server (create_shipment _) = write_permissions
needed server (get_shipment _ _) = auth_required_permissions server.settings
needed server (update_shipment _ _ _ _) = write_permissions
needed server (refresh_shipment _) = auth_required_permissions server.settings
needed server (resolve_shipment _) = write_permissions
needed server (cancel_shipment _) = manage_permissions
needed server (archive_shipment _) = manage_permissions
needed server (unarchive_shipment _) = manage_permissions
needed server (delete_shipment _) = manage_permissions
needed server (add_shipment_item _ _) = write_permissions
needed server (remove_shipment_item _ _) = write_permissions
needed server (create_deployment _) = write_permissions
needed server (get_deployment _) = auth_required_permissions server.settings
needed server (update_deployment _ _) = write_permissions
needed server (add_deployment_item _ _) = write_permissions
needed server (remove_deployment_item _ _) = write_permissions
needed server (start_deployment _) = write_permissions
needed server (complete_deployment _) = write_permissions
needed server (cancel_deployment _) = manage_permissions
needed server (archive_deployment _) = manage_permissions
needed server (unarchive_deployment _) = manage_permissions
needed server (delete_deployment _) = manage_permissions
needed server (create_deployment_shipment _ _) = write_permissions
needed server (link_existing_shipment _ _) = write_permissions
needed server (unlink_shipment _ _) = write_permissions

module _ (server : Server) (headers : Headers) (now : ℕ) where
  -- The database after a request.
  abbrev pub handled : Route → Store → Store
  handled (create_shipment p) db = (Api.Shipments.create_shipment server headers now p db).1
  handled (get_shipment auto k) db = (Api.Shipments.get_shipment server headers now auto k db).1
  handled (update_shipment k text notes dir) db =
      (Api.Shipments.update_shipment server headers now k text notes dir db).1
  handled (refresh_shipment k) db = (Api.Shipments.refresh_shipment server headers now k db).1
  handled (resolve_shipment k) db = (Api.Shipments.resolve_shipment server headers now k db).1
  handled (cancel_shipment k) db = (Api.Shipments.cancel_shipment server headers now k db).1
  handled (archive_shipment k) db = (Api.Shipments.archive_shipment server headers now k db).1
  handled (unarchive_shipment k) db = (Api.Shipments.unarchive_shipment server headers now k db).1
  handled (delete_shipment k) db = (Api.Shipments.delete_shipment server headers now k db).1
  handled (add_shipment_item k a) db = (Api.Shipments.add_shipment_item server headers now k a db).1
  handled (remove_shipment_item k i) db =
      (Api.Shipments.remove_shipment_item server headers now k i db).1
  handled (create_deployment p) db = (Api.Deployments.create_deployment server headers now p db).1
  handled (get_deployment k) db = (Api.Deployments.get_deployment server headers now k db).1
  handled (update_deployment k u) db =
      (Api.Deployments.update_deployment server headers now k u db).1
  handled (add_deployment_item k r) db =
      (Api.Deployments.add_deployment_item server headers now k r db).1
  handled (remove_deployment_item k i) db =
      (Api.Deployments.remove_deployment_item server headers now k i db).1
  handled (start_deployment k) db = (Api.Deployments.start_deployment server headers now k db).1
  handled (complete_deployment k) db =
      (Api.Deployments.complete_deployment server headers now k db).1
  handled (cancel_deployment k) db = (Api.Deployments.cancel_deployment server headers now k db).1
  handled (archive_deployment k) db = (Api.Deployments.archive_deployment server headers now k db).1
  handled (unarchive_deployment k) db =
      (Api.Deployments.unarchive_deployment server headers now k db).1
  handled (delete_deployment k) db = (Api.Deployments.delete_deployment server headers now k db).1
  handled (create_deployment_shipment k p) db =
      (Api.Deployments.create_deployment_shipment server headers now k p db).1
  handled (link_existing_shipment k i) db =
      (Api.Deployments.link_existing_shipment server headers now k i db).1
  handled (unlink_shipment k i) db = (Api.Deployments.unlink_shipment server headers now k i db).1

  -- Whoever changes the database by a request to a route of shipments or deployments is, by the
  -- request's headers, authenticated, and permitted by the route's permissions: none is asked for,
  -- one of them is held, or "*" is.
  pub changed_by-IsAllowed :
      (r : Route) (db : Store) → handled r db ≢ db → IsAllowed server headers (needed server r)
  unfolding Api.Shipments.create_shipment Api.Shipments.get_shipment Api.Shipments.update_shipment
      Api.Shipments.refresh_shipment Api.Shipments.resolve_shipment Api.Shipments.cancel_shipment
      Api.Shipments.archive_shipment Api.Shipments.unarchive_shipment Api.Shipments.delete_shipment
      Api.Shipments.add_shipment_item Api.Shipments.remove_shipment_item
      Api.Deployments.create_deployment Api.Deployments.get_deployment
      Api.Deployments.update_deployment Api.Deployments.add_deployment_item
      Api.Deployments.remove_deployment_item Api.Deployments.start_deployment
      Api.Deployments.complete_deployment Api.Deployments.cancel_deployment
      Api.Deployments.archive_deployment Api.Deployments.unarchive_deployment
      Api.Deployments.delete_deployment Api.Deployments.create_deployment_shipment
      Api.Deployments.link_existing_shipment Api.Deployments.unlink_shipment
  changed_by-IsAllowed (create_shipment p) db n =
      change-IsAllowed server headers (write_permissions) _ db n
  changed_by-IsAllowed (get_shipment auto k) db n =
      change-IsAllowed server headers (auth_required_permissions server.settings) _ db n
  changed_by-IsAllowed (update_shipment k text notes dir) db n =
      change-IsAllowed server headers (write_permissions) _ db n
  changed_by-IsAllowed (refresh_shipment k) db n =
      change-IsAllowed server headers (auth_required_permissions server.settings) _ db n
  changed_by-IsAllowed (resolve_shipment k) db n =
      change-IsAllowed server headers (write_permissions) _ db n
  changed_by-IsAllowed (cancel_shipment k) db n =
      change-IsAllowed server headers (manage_permissions) _ db n
  changed_by-IsAllowed (archive_shipment k) db n =
      change-IsAllowed server headers (manage_permissions) _ db n
  changed_by-IsAllowed (unarchive_shipment k) db n =
      change-IsAllowed server headers (manage_permissions) _ db n
  changed_by-IsAllowed (delete_shipment k) db n =
      change-IsAllowed server headers (manage_permissions) _ db n
  changed_by-IsAllowed (add_shipment_item k a) db n =
      change-IsAllowed server headers (write_permissions) _ db n
  changed_by-IsAllowed (remove_shipment_item k i) db n =
      change-IsAllowed server headers (write_permissions) _ db n
  changed_by-IsAllowed (create_deployment p) db n =
      change-IsAllowed server headers (write_permissions) _ db n
  changed_by-IsAllowed (get_deployment k) db n =
      change-IsAllowed server headers (auth_required_permissions server.settings) _ db n
  changed_by-IsAllowed (update_deployment k u) db n =
      change-IsAllowed server headers (write_permissions) _ db n
  changed_by-IsAllowed (add_deployment_item k r) db n =
      change-IsAllowed server headers (write_permissions) _ db n
  changed_by-IsAllowed (remove_deployment_item k i) db n =
      change-IsAllowed server headers (write_permissions) _ db n
  changed_by-IsAllowed (start_deployment k) db n =
      change-IsAllowed server headers (write_permissions) _ db n
  changed_by-IsAllowed (complete_deployment k) db n =
      change-IsAllowed server headers (write_permissions) _ db n
  changed_by-IsAllowed (cancel_deployment k) db n =
      change-IsAllowed server headers (manage_permissions) _ db n
  changed_by-IsAllowed (archive_deployment k) db n =
      change-IsAllowed server headers (manage_permissions) _ db n
  changed_by-IsAllowed (unarchive_deployment k) db n =
      change-IsAllowed server headers (manage_permissions) _ db n
  changed_by-IsAllowed (delete_deployment k) db n =
      change-IsAllowed server headers (manage_permissions) _ db n
  changed_by-IsAllowed (create_deployment_shipment k p) db n =
      change-IsAllowed server headers (write_permissions) _ db n
  changed_by-IsAllowed (link_existing_shipment k i) db n =
      change-IsAllowed server headers (write_permissions) _ db n
  changed_by-IsAllowed (unlink_shipment k i) db n =
      change-IsAllowed server headers (write_permissions) _ db n
