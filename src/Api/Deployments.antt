-- ===== src/Api/Deployments.antt =====
-- The routes of app/api/deployments.py that read or change one deployment.
use feature_asset_inventory.Base.{ℕ, not, some}
use feature_asset_inventory.Base.Http.{raise_if, conflict, closed_deployment}
use feature_asset_inventory.Store.{Store}
use feature_asset_inventory.Store.Rows.{Shipment, Deployment}
use feature_asset_inventory.Store.Session.{Action, query, ◌>>=◌, ◌>>◌}
use feature_asset_inventory.Reservation.{is_deployment_active}
use feature_asset_inventory.Shipments.Check.{ShipmentCreate}
use feature_asset_inventory.Deployments
use feature_asset_inventory.Deployments.Create.{DeploymentCreate, DeploymentUpdate}
use feature_asset_inventory.Deployments.Items.{ItemRequest, AddedItem}
use feature_asset_inventory.Auth.Context.{Headers}
use feature_asset_inventory.Api.Guarded.{
  Server, Answer, guarded, actor, require_view, require_write, require_manage,
}
use feature_asset_inventory.Api.Shipments.{created_and_polled}

module _ (server : Server) (headers : Headers) (now : ℕ) where
  unfoldable pub create_deployment : DeploymentCreate → Store → Answer Deployment × Store
  create_deployment payload = guarded (require_write server headers) (λ auth.
      Deployments.Create.create_deployment server.database
        (record payload { actor_upn = actor auth }))

  unfoldable pub get_deployment : ℕ → Store → Answer Deployment × Store
  get_deployment deployment_id =
      guarded (require_view server headers)
        (λ _. query (Deployments.Check.get_deployment deployment_id))

  unfoldable pub update_deployment : ℕ → DeploymentUpdate → Store → Answer Deployment × Store
  update_deployment deployment_id payload = guarded (require_write server headers) (λ auth.
      Deployments.Create.update_deployment deployment_id
        (record payload { actor_upn = actor auth }))

  unfoldable pub add_deployment_item : ℕ → ItemRequest → Store → Answer AddedItem × Store
  add_deployment_item deployment_id payload = guarded (require_write server headers) (λ auth.
      Deployments.Items.add_item server.database deployment_id
        (record payload { actor_upn = actor auth }))

  unfoldable pub remove_deployment_item : ℕ → ℕ → Store → Answer (Unit {0}) × Store
  remove_deployment_item deployment_id item_id =
      guarded (require_write server headers)
        (λ auth. Deployments.Items.remove_item deployment_id item_id (actor auth))

  unfoldable pub start_deployment : ℕ → Store → Answer Deployment × Store
  start_deployment deployment_id =
      guarded (require_write server headers)
        (λ auth. Deployments.Lifecycle.start_deployment deployment_id now (actor auth))

  unfoldable pub complete_deployment : ℕ → Store → Answer Deployment × Store
  complete_deployment deployment_id = guarded (require_write server headers) (λ auth.
      Deployments.Lifecycle.complete_deployment server.database deployment_id now (actor auth))

  unfoldable pub cancel_deployment : ℕ → Store → Answer Deployment × Store
  cancel_deployment deployment_id =
      guarded (require_manage server headers)
        (λ auth. Deployments.Lifecycle.cancel_deployment deployment_id now (actor auth))

  unfoldable pub archive_deployment : ℕ → Store → Answer Deployment × Store
  archive_deployment deployment_id =
      guarded (require_manage server headers)
        (λ auth. Deployments.Lifecycle.archive_deployment deployment_id now (actor auth))

  unfoldable pub unarchive_deployment : ℕ → Store → Answer Deployment × Store
  unarchive_deployment deployment_id =
      guarded (require_manage server headers)
        (λ auth. Deployments.Lifecycle.unarchive_deployment deployment_id (actor auth))

  unfoldable pub delete_deployment : ℕ → Store → Answer (Unit {0}) × Store
  delete_deployment deployment_id =
      guarded (require_manage server headers)
        (λ _. Deployments.Lifecycle.delete_deployment deployment_id)

  abbrev pub created_for : ℕ → ShipmentCreate → Action Shipment
  created_for deployment_id p = do
    deployment ← query (Deployments.Check.get_deployment deployment_id)
    query (λ db. raise_if (not (is_deployment_active deployment)) (conflict closed_deployment))
    created_and_polled server headers now p

  unfoldable pub create_deployment_shipment : ℕ → ShipmentCreate → Store → Answer Shipment × Store
  create_deployment_shipment deployment_id payload = guarded (require_write server headers) (λ auth.
      created_for deployment_id
        (record payload { deployment_id = some deployment_id; actor_upn = actor auth }))

  unfoldable pub link_existing_shipment : ℕ → ℕ → Store → Answer Shipment × Store
  link_existing_shipment deployment_id shipment_id =
      guarded (require_write server headers)
        (λ auth. Deployments.Links.link_shipment deployment_id shipment_id (actor auth))

  unfoldable pub unlink_shipment : ℕ → ℕ → Store → Answer (Unit {0}) × Store
  unlink_shipment deployment_id shipment_id =
      guarded (require_write server headers)
        (λ auth. Deployments.Links.unlink_shipment deployment_id shipment_id (actor auth))
