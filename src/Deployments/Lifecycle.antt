-- ===== src/Deployments/Lifecycle.antt =====
-- `start_deployment`, `complete_deployment`, `cancel_deployment`, `archive_deployment`,
-- `unarchive_deployment` and `delete_deployment` of app/services/deployment_service.py.
use Prim.Native.String
use feature_asset_inventory.Base.{
  ℕ, String, not, Option, none, some, List, [], ◌∷◌, ◌++◌, map, ◌==◌, opt_eq, str, select, is_some,
  is_empty, if◌then◌else◌,
}
use feature_asset_inventory.Base.Http.{
  raise_if, bad_request, conflict, cannot_start, cannot_complete, empty_deployment,
}
use feature_asset_inventory.Store.{Store}
use feature_asset_inventory.Store.Types.{
  DeploymentStatus, HistoryEvent, is_planning, is_in_progress,
}
use feature_asset_inventory.Store.Table.{Database, get_row, put_row, drop_row, ids}
use feature_asset_inventory.Store.Rows.{
  Asset, AssetHistory, Shipment, Deployment, DeploymentItem, asset_row, history_row, deployment_row,
}
use feature_asset_inventory.Store.Session.{Action, pure, query, modify, commit, ◌>>=◌, ◌>>◌}
use feature_asset_inventory.Deployments.Check.{get_deployment}
use feature_asset_inventory.Deployments.Create.{save_deployment, is_closed}

abbrev pub items_of : ℕ → Store → List DeploymentItem
items_of deployment_id db = select (λ i. i.deployment_id == deployment_id) db.deployment_items

unfoldable pub start_deployment : ℕ → ℕ → Option String → Action Deployment
unfolding save_deployment
start_deployment deployment_id now actor_upn = do
  d ← query (get_deployment deployment_id)
  query (λ db. raise_if (not (is_planning d.status)) (conflict cannot_start))
  query (λ db. raise_if (is_empty (items_of d.id db)) (bad_request empty_deployment))
  save_deployment (record d {
    status = DeploymentStatus.in_progress;
    started_at = some now;
    updated_by_upn = actor_upn;
  })

-- The assets and their history, as the loop of `complete_deployment` rewrites them.
abbrev pub Moved : Type 0
Moved = List Asset × List AssetHistory

-- `str(prev_location) if prev_location else None`
abbrev pub shown : Option ℕ → Option String
shown none = none
shown (some n) = if n == 0 then none else some (str n)

module _ (db : Database) where
  abbrev pub move_entry : Asset → ℕ → Deployment → Option String → List AssetHistory → AssetHistory
  move_entry a target d actor_upn history = record {
    id = db.fresh (ids history);
    asset_id = a.id;
    event_type = HistoryEvent.location_change;
    from_value = shown a.location_id;
    to_value = some (str target);
    performed_by_upn = actor_upn;
    notes = some (String.◌++◌ "Deployment '" (String.◌++◌ d.name "' completed"));
  }

  unfoldable pub move_asset : ℕ → Deployment → Option String → ℕ → Moved → Moved
  move_asset target d actor_upn asset_id (assets, history) = elim (get_row asset_id assets) [
    | none ↦ (assets, history)
    | some a ↦
        if is_some a.archived_at
        then (assets, history)
        else if opt_eq a.location_id (some target)
        then (assets, history)
        else (
          put_row (record a { location_id = some target }) assets,
          history ++ move_entry a target d actor_upn history ∷ [],
        )
  ]

  unfoldable pub move_assets : ℕ → Deployment → Option String → List DeploymentItem → Moved → Moved
  move_assets target d actor_upn [] moved = moved
  move_assets target d actor_upn (i ∷ items) moved =
      move_assets target d actor_upn items (move_asset target d actor_upn i.asset_id moved)

  -- `if target_loc_id is not None:` and the loop.
  unfoldable pub settle : Option ℕ → Deployment → Option String → Store → Store
  settle none d actor_upn s = s
  settle (some target) d actor_upn s =
      let moved = move_assets target d actor_upn (items_of d.id s) (s.assets, s.asset_history) in
      record s { assets = moved.0; asset_history = moved.1 }

  unfoldable pub complete_deployment : ℕ → ℕ → Option String → Action Deployment
  unfolding save_deployment
  complete_deployment deployment_id now actor_upn = do
    d ← query (get_deployment deployment_id)
    query (λ s. raise_if (not (is_in_progress d.status)) (conflict cannot_complete))
    modify (settle d.target_location_id d actor_upn)
    save_deployment (record d {
      status = DeploymentStatus.completed;
      completed_at = some now;
      completed_by_upn = actor_upn;
      updated_by_upn = actor_upn;
    })

unfoldable pub cancel_deployment : ℕ → ℕ → Option String → Action Deployment
unfolding save_deployment
cancel_deployment deployment_id now actor_upn = do
  d ← query (get_deployment deployment_id)
  if is_closed d.status
      then pure d
      else save_deployment (record d {
        status = DeploymentStatus.cancelled;
        cancelled_at = some now;
        cancelled_by_upn = actor_upn;
        updated_by_upn = actor_upn;
      })

unfoldable pub archive_deployment : ℕ → ℕ → Option String → Action Deployment
unfolding save_deployment
archive_deployment deployment_id now actor_upn = do
  d ← query (get_deployment deployment_id)
  if is_some d.archived_at
      then pure d
      else save_deployment (record d {
        archived_at = some now;
        archived_by_upn = actor_upn;
        updated_by_upn = actor_upn;
      })

unfoldable pub unarchive_deployment : ℕ → Option String → Action Deployment
unfolding save_deployment
unarchive_deployment deployment_id actor_upn = do
  d ← query (get_deployment deployment_id)
  save_deployment
      (record d { archived_at = none; archived_by_upn = none; updated_by_upn = actor_upn })

-- `for s in d.shipments: s.deployment_id = None`
unfoldable pub unlink_all : ℕ → List Shipment → List Shipment
unlink_all deployment_id = map (λ s.
    if opt_eq s.deployment_id (some deployment_id) then record s { deployment_id = none } else s)

unfoldable pub without_deployment : ℕ → Store → Store
without_deployment deployment_id db = record db {
  shipments = unlink_all deployment_id db.shipments;
  deployments = drop_row deployment_id db.deployments;
  deployment_items = select (λ i. not (i.deployment_id == deployment_id)) db.deployment_items;
}

unfoldable pub delete_deployment : ℕ → Action (Unit {0})
unfolding without_deployment
delete_deployment deployment_id = do
  d ← query (get_deployment deployment_id)
  modify (without_deployment d.id)
  commit
