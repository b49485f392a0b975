-- ===== src/Deployments/Forced.antt =====
-- A forced move: `add_item` with `force` of an asset that another deployment in planning has.
use feature_asset_inventory.Base.{
  ℕ, ◌≡◌, ◌&&◌, inl, inr, true, false, none, some, arith, ◌==◌, ==-refl, any-first, Option-cases,
}
use feature_asset_inventory.Store.{Store}
use feature_asset_inventory.Store.Types.{is_planning, is_in_progress}
use feature_asset_inventory.Store.Table.{Database, get_row, id_of-get_row, get_row-put_row}
use feature_asset_inventory.Store.Rows.{
  Asset, Shipment, Deployment, DeploymentItem, asset_row, deployment_row, deployment_item_row,
}
use feature_asset_inventory.Store.Session.{after}
use feature_asset_inventory.Reservation.{active_deployment_for_asset, active_shipment_for_asset}
use feature_asset_inventory.Reservation.Reserve.{holds, lists}
use feature_asset_inventory.Deployments.Check.{
  other_planning, without_item, assert_asset_available_for_deployment,
}
use feature_asset_inventory.Deployments.Create.{add_deployment_item}
use feature_asset_inventory.Deployments.Items.{ItemRequest, find_item, touch_deployment, add_item}
use feature_asset_inventory.Deployments.Reserve.{
  deploy_holds, DeploymentsReserved, on_deployment-add_item,
}
use feature_asset_inventory.Deployments.Release.{planning_found, released_free}

module _ (d : Database) (k : ℕ) (r : ItemRequest) (db : Store) (row : Deployment) where
  -- The database after the move from the deployment `o`.
  abbrev moved : ℕ → Store
  moved o = touch_deployment row r.actor_upn (record db {
    deployment_items =
        add_deployment_item d k r.asset_id r.role r.notes
          (without_item o r.asset_id db.deployment_items);
  })

  module _ (e : get_row k db.deployments ≡ some row) (p : is_planning row.status ≡ true)
      (o : Deployment) (released : other_planning db r.asset_id k ≡ some o)
      (v : DeploymentsReserved db) where
    not_listed : find_item (without_item o.id r.asset_id db.deployment_items) k r.asset_id ≡ none
    unfolding find_item holds lists
    not_listed =
        elim (Option-cases
          (find_item (without_item o.id r.asset_id db.deployment_items) k r.asset_id)) [
            | inl n ↦ n
            | inr (i, f) ↦ absurd (
                released_free db r.asset_id k v o released k (
                  ground (
                    arith,
                    any-first
                        (λ (x : DeploymentItem). x.deployment_id == k && x.asset_id == r.asset_id)
                        (without_item o.id r.asset_id db.deployment_items) f,
                  )))
          ]

    after-forced :
        (other : Deployment) (asset : Asset)
        → get_row r.asset_id db.assets ≡ some asset
        → active_deployment_for_asset db r.asset_id (some k) ≡ some other
        → is_in_progress other.status ≡ false
        → r.force ≡ true
        → after (add_item d k r) db ≡ moved o.id
    unfolding add_item assert_asset_available_for_deployment
    after-forced other asset there held waiting forced = ground (arith, not_listed)

  -- Let an asset be on another deployment in planning and on an active shipment that is not of the
  -- deployment `k`, where `k` is in planning and the deployments keep the reservation rule. A forced
  -- `add_item` to `k` puts the asset on `k`, and it stays on that active shipment.
  pub forced_move_ignores_shipments :
      (other : Deployment) (asset : Asset) (s : Shipment)
      → DeploymentsReserved db
      → get_row k db.deployments ≡ some row
      → is_planning row.status ≡ true
      → get_row r.asset_id db.assets ≡ some asset
      → active_deployment_for_asset db r.asset_id (some k) ≡ some other
      → is_planning other.status ≡ true
      → active_shipment_for_asset db r.asset_id (some k) ≡ some s
      → r.force ≡ true
      → (deploy_holds (after (add_item d k r) db) k r.asset_id ≡ true)
        × (active_shipment_for_asset (after (add_item d k r) db) r.asset_id (some k) ≡ some s)
  unfolding active_shipment_for_asset holds
  forced_move_ignores_shipments other asset s v e p there held planned shipped forced =
      elim (Option-cases (other_planning db r.asset_id k)) [
        | inl n ↦ absurd (planning_found db r.asset_id k other held (ground arith) n)
        | inr (o, released) ↦
            rw (after-forced e p o released v other asset there held (ground arith) forced) (
              ground (
                arith,
                id_of-get_row k db.deployments e,
                ==-refl k,
                ==-refl r.asset_id,
                get_row-put_row k (record row { updated_by_upn = r.actor_upn }) db.deployments,
                on_deployment-add_item d k r.asset_id r.role r.notes
                    (without_item o.id r.asset_id db.deployment_items) k r.asset_id,
              ),
              shipped,
            )
      ]
