-- ===== src/Deployments/Check.antt =====
-- The reservation checks of app/services/deployment_service.py: `_release_asset_from_planning_deployment`,
-- `assert_asset_available_for_deployment`, `_pick_assets_for_auto_assign` and `get_deployment`.
use feature_asset_inventory.Base.{
  ℕ, Bool, ◌&&◌, not, Option, none, some, List, ◌==◌, first, select, if◌then◌else◌,
}
use feature_asset_inventory.Base.Http.{
  Result, ok, err, or_raise, not_found, conflict, asset_on_shipment, asset_on_deployment,
  deployment_planning, deployment_not_found,
}
use feature_asset_inventory.Store.{Store}
use feature_asset_inventory.Store.Types.{is_planning, is_in_progress}
use feature_asset_inventory.Store.Table.{get_row}
use feature_asset_inventory.Store.Rows.{Asset, Deployment, DeploymentItem, deployment_row}
use feature_asset_inventory.Store.Session.{Action, pure, query, modify, ◌>>=◌, ◌>>◌}
use feature_asset_inventory.Reservation.{
  on_deployment, active_deployment_for_asset, active_shipment_for_asset, reserved_by_shipment,
  reserved_by_deployment, available_clauses,
}
use feature_asset_inventory.Reservation.AutoAssign.{AutoAssign, pick_assets}

abbrev pub get_deployment : ℕ → Store → Result Deployment
get_deployment deployment_id db =
    or_raise (get_row deployment_id db.deployments) (not_found deployment_not_found)

-- Another deployment in `planning` that lists the asset.
unfoldable pub other_planning : Store → ℕ → ℕ → Option Deployment
other_planning db asset_id exclude_deployment_id =
    first
      (λ d.
        on_deployment db.deployment_items d.id asset_id
        && not (d.id == exclude_deployment_id)
        && is_planning d.status)
      db.deployments

-- `DELETE FROM deployment_items` for one deployment and one asset.
unfoldable pub without_item : ℕ → ℕ → List DeploymentItem → List DeploymentItem
without_item deployment_id asset_id =
    select (λ i. not (i.deployment_id == deployment_id && i.asset_id == asset_id))

release_from : Option Deployment → ℕ → Action (Option ℕ)
release_from none asset_id = pure none
release_from (some other) asset_id = do
  modify (λ db. record db { deployment_items = without_item other.id asset_id db.deployment_items })
  pure (some other.id)

-- The id of the deployment that the asset was taken from, if there was one.
unfoldable pub release_asset_from_planning_deployment : ℕ → ℕ → Action (Option ℕ)
unfolding release_from
release_asset_from_planning_deployment asset_id exclude_deployment_id = do
  other ← query (λ db. ok (other_planning db asset_id exclude_deployment_id))
  release_from other asset_id

-- No active deployment but this one has the asset: an active shipment may still have it.
check_shipments : ℕ → Option ℕ → Store → Result (Option ℕ)
check_shipments asset_id deployment_id db =
    elim (active_shipment_for_asset db asset_id deployment_id) [
      | some other ↦ err (conflict (asset_on_shipment asset_id other.id other.tracking_number))
      | none ↦ ok none
    ]

-- `deployment_id or 0`
abbrev pub or_zero : Option ℕ → ℕ
or_zero none = 0
or_zero (some n) = n

check_deployment : Option Deployment → ℕ → Option ℕ → Bool → Action (Option ℕ)
unfolding release_asset_from_planning_deployment check_shipments
check_deployment none asset_id deployment_id force = query (check_shipments asset_id deployment_id)
check_deployment (some other) asset_id deployment_id force =
    if is_in_progress other.status
    then query (λ db. err (conflict (asset_on_deployment asset_id other.id other.name)))
    else if not force
    then query (λ db. err (conflict (deployment_planning other.id other.name)))
    else release_asset_from_planning_deployment asset_id (or_zero deployment_id)

-- The result is `released_from_deployment_id`. The caller does not read the other key, `conflict`.
unfoldable pub assert_asset_available_for_deployment : ℕ → Option ℕ → Bool → Action (Option ℕ)
unfolding check_deployment
assert_asset_available_for_deployment asset_id deployment_id force = do
  other_deploy ← query (λ db. ok (active_deployment_for_asset db asset_id deployment_id))
  check_deployment other_deploy asset_id deployment_id force

unfoldable pub pick_for_deployment : Store → AutoAssign → List Asset
pick_for_deployment db =
    pick_assets
      (λ a.
        not (reserved_by_deployment db a.id)
        && not (reserved_by_shipment db a.id)
        && available_clauses db a)
      db.assets
