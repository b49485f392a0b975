-- ===== src/Deployments/Complete.antt =====
-- The completion of a deployment: where its assets are afterwards.
use feature_asset_inventory.Base.{
  ℕ, String, ◌≡◌, refl, ap, ◌∙◌, inl, inr, true, Option, some, List, [], ◌∷◌, arith, ◌==◌,
  if◌then◌else◌, opt_eq_iff, any, Option-cases,
}
use feature_asset_inventory.Store.{Store}
use feature_asset_inventory.Store.Types.{DeploymentStatus, is_in_progress}
use feature_asset_inventory.Store.Table.{Database, get_row, put_row, get_row-put_row, id_of-get_row}
use feature_asset_inventory.Store.Rows.{
  Asset, Deployment, DeploymentItem, asset_row, deployment_row,
}
use feature_asset_inventory.Store.Session.{after}
use feature_asset_inventory.Shipments.Refresh.Delivery.{arrived, arrived_twice}
use feature_asset_inventory.Deployments.Lifecycle.{
  Moved, items_of, move_asset, move_assets, settle, complete_deployment,
}

-- The row of an asset as the completion of a deployment with `items` at `l` leaves it.
abbrev pub settled_row : ℕ → List DeploymentItem → ℕ → Asset → Asset
settled_row l items key a = if any (λ i. i.asset_id == key) items then arrived l a else a

module _ (d : Database) (dep : Deployment) (actor : Option String) where
  get_row-move_asset :
      (l b key : ℕ) (moved : Moved) {a : Asset}
      → get_row key moved.0 ≡ some a
      → get_row key (move_asset d l dep actor b moved).0
        ≡ some (if b == key then arrived l a else a)
  unfolding move_asset
  get_row-move_asset l b key (assets, history) {a} e = elim (Option-cases (get_row b assets)) [
    | inl n ↦ ground arith
    | inr (c, f) ↦ ground (
      arith,
      id_of-get_row b assets f,
      opt_eq_iff c.location_id (some l),
      get_row-put_row key (record c { location_id = some l }) assets,
    )
  ]

  get_row-move_assets :
      (l key : ℕ) (items : List DeploymentItem) (moved : Moved) {a : Asset}
      → get_row key moved.0 ≡ some a
      → get_row key (move_assets d l dep actor items moved).0 ≡ some (settled_row l items key a)
  unfolding move_assets any
  get_row-move_assets l key [] moved e = e
  get_row-move_assets l key (i ∷ items) moved {a} e =
      get_row-move_assets l key items (move_asset d l dep actor i.asset_id moved)
        (get_row-move_asset l i.asset_id key moved e)
      ∙ ap some (ground (arith, arrived_twice l a))

-- The row of a deployment that has been completed.
abbrev pub completed_row : ℕ → Option String → Deployment → Deployment
completed_row now actor dep = record dep {
  status = DeploymentStatus.completed;
  completed_at = some now;
  completed_by_upn = actor;
  updated_by_upn = actor;
}

module _ (d : Database) (k now : ℕ) (actor : Option String) (db : Store) (dep : Deployment) where
  assets-complete_deployment :
      (l : ℕ)
      → get_row k db.deployments ≡ some dep
      → is_in_progress dep.status ≡ true
      → dep.target_location_id ≡ some l
      → ((after (complete_deployment d k now actor) db).assets
          ≡ (move_assets d l dep actor (items_of dep.id db) (db.assets, db.asset_history)).0)
        × ((after (complete_deployment d k now actor) db).deployments
            ≡ put_row (completed_row now actor dep) db.deployments)
  unfolding complete_deployment settle
  assets-complete_deployment l e p t = rw (e, t, p, after, complete_deployment, settle) (refl, refl)

  -- Let a deployment be in progress, with a target location. After its completion the deployment is
  -- completed, the row of every asset that it lists and that is not archived has the target location
  -- and is else as before, and every other asset's row is as before.
  pub complete_deployment-rows :
      (l key : ℕ) {a : Asset}
      → get_row k db.deployments ≡ some dep
      → is_in_progress dep.status ≡ true
      → dep.target_location_id ≡ some l
      → get_row key db.assets ≡ some a
      → (get_row key (after (complete_deployment d k now actor) db).assets
          ≡ some (settled_row l (items_of k db) key a))
        × (get_row k (after (complete_deployment d k now actor) db).deployments
            ≡ some (completed_row now actor dep))
  complete_deployment-rows l key {a} e p t f =
      let (assets, rows) = assets-complete_deployment l e p t in
      rw (assets, rows)
        (
          ground (
            arith,
            id_of-get_row k db.deployments e,
            get_row-move_assets d dep actor l key (items_of dep.id db) (db.assets, db.asset_history)
                f,
          ),
          ground (
            arith,
            id_of-get_row k db.deployments e,
            get_row-put_row k (completed_row now actor dep) db.deployments,
          ),
        )
