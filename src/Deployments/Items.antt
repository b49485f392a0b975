-- ===== src/Deployments/Items.antt =====
-- `add_item` and `remove_item` of app/services/deployment_service.py.
use feature_asset_inventory.Base.{
  ℕ, String, Bool, ◌&&◌, not, Option, none, some, List, ◌==◌, first, is_none, if◌then◌else◌,
}
use feature_asset_inventory.Base.Http.{
  ok, raise_if, or_raise, not_found, conflict, asset_not_found, item_not_found, not_in_planning,
}
use feature_asset_inventory.Store.{Store}
use feature_asset_inventory.Store.Types.{is_planning}
use feature_asset_inventory.Store.Table.{Database, get_row, put_row, drop_row, ids}
use feature_asset_inventory.Store.Rows.{
  Deployment, DeploymentItem, asset_row, deployment_row, deployment_item_row,
}
use feature_asset_inventory.Store.Session.{Action, pure, query, modify, commit, ◌>>=◌, ◌>>◌}
use feature_asset_inventory.Deployments.Check.{
  get_deployment, assert_asset_available_for_deployment,
}
use feature_asset_inventory.Deployments.Create.{add_deployment_item}

unfoldable pub find_item : List DeploymentItem → ℕ → ℕ → Option DeploymentItem
find_item items deployment_id asset_id =
    first (λ i. i.deployment_id == deployment_id && i.asset_id == asset_id) items

-- `d.updated_by_upn = actor_upn`
abbrev pub touch_deployment : Deployment → Option String → Store → Store
touch_deployment d actor_upn db = record db {
  deployments = put_row (record d { updated_by_upn = actor_upn }) db.deployments;
}

-- What `add_item` is asked to write.
pub record ItemRequest : Type 0 where
  pub asset_id : ℕ
  pub role : Option String
  pub notes : Option String
  pub force : Bool
  pub actor_upn : Option String

-- The response: the item, and `released_from_deployment_id`.
pub record AddedItem : Type 0 where
  pub item : DeploymentItem
  pub released_from : Option ℕ

module _ (d : Database) where
  insert_item : ℕ → ItemRequest → Action DeploymentItem
  insert_item deployment_id r s = (
    ok (record {
      id = d.fresh (ids s.work.deployment_items);
      deployment_id = deployment_id;
      asset_id = r.asset_id;
      role = r.role;
      notes = r.notes;
    }),
    record s {
      work = record s.work {
        deployment_items =
            add_deployment_item d deployment_id r.asset_id r.role r.notes s.work.deployment_items;
      };
    },
  )

  -- An item that is there already is returned with no commit.
  add_if_new : Deployment → ℕ → ItemRequest → Option ℕ → Option DeploymentItem → Action AddedItem
  unfolding insert_item
  add_if_new deployment deployment_id r released (some existing) =
      pure (record { item = existing; released_from = released })
  add_if_new deployment deployment_id r released none = do
    item ← insert_item deployment_id r
    modify (touch_deployment deployment r.actor_upn)
    commit
    pure (record { item = item; released_from = released })

  unfoldable pub add_item : ℕ → ItemRequest → Action AddedItem
  unfolding add_if_new
  add_item deployment_id r = do
    deployment ← query (get_deployment deployment_id)
    query (λ db. raise_if (not (is_planning deployment.status)) (conflict not_in_planning))
    query (λ db.
        raise_if (is_none (get_row r.asset_id db.assets)) (not_found (asset_not_found r.asset_id)))
    released ← assert_asset_available_for_deployment r.asset_id (some deployment_id) r.force
    existing ← query (λ db. ok (find_item db.deployment_items deployment_id r.asset_id))
    add_if_new deployment deployment_id r released existing

abbrev pub item_of : ℕ → Option DeploymentItem → Option DeploymentItem
item_of deployment_id none = none
item_of deployment_id (some i) = if i.deployment_id == deployment_id then some i else none

unfoldable pub remove_item : ℕ → ℕ → Option String → Action (Unit {0})
remove_item deployment_id item_id actor_upn = do
  d ← query (get_deployment deployment_id)
  query (λ db. raise_if (not (is_planning d.status)) (conflict not_in_planning))
  item ← query (λ db.
      or_raise (item_of deployment_id (get_row item_id db.deployment_items))
        (not_found item_not_found))
  modify (λ db. record db { deployment_items = drop_row item.id db.deployment_items })
  modify (touch_deployment d actor_upn)
  commit
