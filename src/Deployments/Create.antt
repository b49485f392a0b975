-- ===== src/Deployments/Create.antt =====
-- `create_deployment` and `update_deployment` of app/services/deployment_service.py.
use feature_asset_inventory.Base.{
  ℕ, String, Bool, true, false, Option, none, some, List, [], ◌∷◌, ◌++◌, ◌==◌, strip, or_none,
  is_none, if◌then◌else◌,
}
use feature_asset_inventory.Base.Http.{
  ok, raise_if, not_found, conflict, asset_not_found, closed_deployment,
}
use feature_asset_inventory.Store.Types.{DeploymentStatus}
use feature_asset_inventory.Store.Table.{Database, get_row, put_row, ids}
use feature_asset_inventory.Store.Rows.{
  Address, no_address, Deployment, DeploymentItem, asset_row, deployment_row, deployment_item_row,
}
use feature_asset_inventory.Store.Session.{Action, pure, query, modify, commit, ◌>>=◌, ◌>>◌}
use feature_asset_inventory.Reservation.AutoAssign.{AutoAssign, auto_assign_ids, dedupe, clean}
use feature_asset_inventory.Deployments.Check.{
  get_deployment, assert_asset_available_for_deployment, pick_for_deployment,
}

-- The arguments of `create_deployment`.
pub record DeploymentCreate : Type 0 where
  pub name : String
  pub type : Option String
  pub description : Option String
  pub notes : Option String
  pub target_date : Option ℕ
  pub target_location_id : Option ℕ
  pub target_address : Option Address
  pub asset_ids : List ℕ
  pub auto_assign : List AutoAssign
  pub actor_upn : Option String

abbrev pub or_empty : Option Address → Address
or_empty none = no_address
or_empty (some a) = a

abbrev pub new_deployment : DeploymentCreate → ℕ → Deployment
new_deployment p id = record {
  id = id;
  name = strip p.name;
  type = clean p.type;
  status = DeploymentStatus.planning;
  target_date = p.target_date;
  description = p.description;
  notes = p.notes;
  target_location_id = p.target_location_id;
  target_address = or_empty p.target_address;
  started_at = none;
  completed_at = none;
  cancelled_at = none;
  archived_at = none;
  completed_by_upn = none;
  cancelled_by_upn = none;
  archived_by_upn = none;
  created_by_upn = p.actor_upn;
  updated_by_upn = p.actor_upn;
}

-- The checks of one asset at a time. The items are only pending until the commit (the session does
-- not flush before a query), so every check sees the tables without them.
unfoldable pub check_items : ℕ → List ℕ → Action (Unit {0})
check_items deployment_id [] = pure tt
check_items deployment_id (aid ∷ aids) =
    let rest = check_items deployment_id aids in
    do
      query (λ db. raise_if (is_none (get_row aid db.assets)) (not_found (asset_not_found aid)))
      assert_asset_available_for_deployment aid (some deployment_id) false
      rest

module _ (d : Database) where
  unfoldable pub add_deployment_item :
      ℕ → ℕ → Option String → Option String → List DeploymentItem → List DeploymentItem
  add_deployment_item deployment_id asset_id role notes items =
      items
      ++ record {
        id = d.fresh (ids items);
        deployment_id = deployment_id;
        asset_id = asset_id;
        role = role;
        notes = notes;
      }
        ∷ []

  unfoldable pub add_deployment_items : ℕ → List ℕ → List DeploymentItem → List DeploymentItem
  add_deployment_items deployment_id [] items = items
  add_deployment_items deployment_id (aid ∷ aids) items =
      add_deployment_items deployment_id aids
        (add_deployment_item deployment_id aid none none items)

  insert_deployment : DeploymentCreate → Action Deployment
  insert_deployment p s =
      let deployment = new_deployment p (d.fresh (ids s.work.deployments)) in
      (
        ok deployment,
        record s { work = record s.work { deployments = s.work.deployments ++ deployment ∷ [] } },
      )

  unfoldable pub create_deployment : DeploymentCreate → Action Deployment
  unfolding insert_deployment
  create_deployment p = do
    more ← query (λ db. auto_assign_ids (pick_for_deployment db) p.auto_assign)
    let unique_ids = dedupe (p.asset_ids ++ more)
    deployment ← insert_deployment p
    check_items deployment.id unique_ids
    modify (λ db. record db {
      deployment_items = add_deployment_items deployment.id unique_ids db.deployment_items;
    })
    commit
    pure deployment

-- The row of a deployment written back, and the commit.
unfoldable pub save_deployment : Deployment → Action Deployment
save_deployment deployment = do
  modify (λ db. record db { deployments = put_row deployment db.deployments })
  commit
  pure deployment

-- `status in ("completed", "cancelled")`
abbrev pub is_closed : DeploymentStatus → Bool
is_closed DeploymentStatus.completed = true
is_closed DeploymentStatus.cancelled = true
is_closed _ = false

-- The arguments of `update_deployment`: `none` leaves the column alone.
pub record DeploymentUpdate : Type 0 where
  pub name : Option String
  pub type : Option String
  pub description : Option String
  pub notes : Option String
  pub target_date : Option ℕ
  pub target_location_id : Option ℕ
  pub target_address : Option Address
  pub actor_upn : Option String

module _ {A B : Type 0} where
  -- `if x is not None: column = f(x)`
  abbrev pub set_by : (A → B) → Option A → B → B
  set_by f none column = column
  set_by f (some a) column = f a

abbrev pub updated : DeploymentUpdate → Deployment → Deployment
updated u d = record d {
  name = set_by strip u.name d.name;
  type = set_by (λ t. or_none (strip t)) u.type d.type;
  description = set_by or_none u.description d.description;
  notes = set_by or_none u.notes d.notes;
  target_date = set_by some u.target_date d.target_date;
  target_location_id =
      set_by (λ (n : ℕ). if n == 0 then none else some n) u.target_location_id d.target_location_id;
  target_address = set_by (λ a. a) u.target_address d.target_address;
  updated_by_upn = u.actor_upn;
}

unfoldable pub update_deployment : ℕ → DeploymentUpdate → Action Deployment
unfolding save_deployment
update_deployment deployment_id u = do
  d ← query (get_deployment deployment_id)
  query (λ db. raise_if (is_closed d.status) (conflict closed_deployment))
  save_deployment (updated u d)
