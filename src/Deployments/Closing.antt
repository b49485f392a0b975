-- ===== src/Deployments/Closing.antt =====
-- Every operation on a deployment as a whole keeps the reservation rule, whether it returns or raises.
use feature_asset_inventory.Base.{
  ℕ, String, ◌≡◌, refl, inl, inr, true, Option, none, some, arith, Option-cases,
}
use feature_asset_inventory.Store.{Store}
use feature_asset_inventory.Store.Types.{DeploymentStatus}
use feature_asset_inventory.Store.Table.{Database, get_row, id_of-get_row}
use feature_asset_inventory.Store.Rows.{Deployment, asset_row, deployment_row, deployment_item_row}
use feature_asset_inventory.Store.Session.{after}
use feature_asset_inventory.Reservation.{by_deployment, is_deployment_active}
use feature_asset_inventory.Reservation.Reserve.{drop-IsReserved, put-IsReserved}
use feature_asset_inventory.Deployments.Create.{
  DeploymentUpdate, save_deployment, update_deployment, updated,
}
use feature_asset_inventory.Deployments.Lifecycle.{
  start_deployment, complete_deployment, cancel_deployment, archive_deployment,
  unarchive_deployment, delete_deployment, settle,
}
use feature_asset_inventory.Deployments.Reserve.{DeploymentsReserved}

-- A row that is saved without becoming active keeps the rule.
save_deployment-reserves :
    (k : ℕ) (s t : Deployment) (db : Store)
    → get_row k db.deployments ≡ some s
    → t.id ≡ s.id
    → (is_deployment_active t ≡ true → is_deployment_active s ≡ true)
    → DeploymentsReserved db
    → DeploymentsReserved (after (save_deployment t) db)
unfolding save_deployment
save_deployment-reserves k s t db e same keep v =
    put-IsReserved by_deployment t db.deployments db.deployment_items
      (λ h. ground (arith, id_of-get_row k db.deployments e, keep h)) v

pub update_deployment-reserves :
    (k : ℕ) (u : DeploymentUpdate) (db : Store)
    → DeploymentsReserved db
    → DeploymentsReserved (after (update_deployment k u) db)
unfolding update_deployment
update_deployment-reserves k u db v = elim (Option-cases (get_row k db.deployments)) [
  | inl e ↦ ground arith
  | inr (s, e) ↦ ground (arith, save_deployment-reserves k s (updated u s) db e refl (λ h. h) v)
]

pub start_deployment-reserves :
    (k now : ℕ) (actor : Option String) (db : Store)
    → DeploymentsReserved db
    → DeploymentsReserved (after (start_deployment k now actor) db)
unfolding start_deployment
start_deployment-reserves k now actor db v = elim (Option-cases (get_row k db.deployments)) [
  | inl e ↦ ground arith
  | inr (s, e) ↦ ground (
    arith,
    save_deployment-reserves k s
        (record s {
          status = DeploymentStatus.in_progress;
          started_at = some now;
          updated_by_upn = actor;
        })
        db e refl,
  )
]

pub cancel_deployment-reserves :
    (k now : ℕ) (actor : Option String) (db : Store)
    → DeploymentsReserved db
    → DeploymentsReserved (after (cancel_deployment k now actor) db)
unfolding cancel_deployment
cancel_deployment-reserves k now actor db v = elim (Option-cases (get_row k db.deployments)) [
  | inl e ↦ ground arith
  | inr (s, e) ↦ ground (
    arith,
    save_deployment-reserves k s
        (record s {
          status = DeploymentStatus.cancelled;
          cancelled_at = some now;
          cancelled_by_upn = actor;
          updated_by_upn = actor;
        })
        db e refl (λ h. absurd (cc)) v,
  )
]

pub archive_deployment-reserves :
    (k now : ℕ) (actor : Option String) (db : Store)
    → DeploymentsReserved db
    → DeploymentsReserved (after (archive_deployment k now actor) db)
unfolding archive_deployment
archive_deployment-reserves k now actor db v = elim (Option-cases (get_row k db.deployments)) [
  | inl e ↦ ground arith
  | inr (s, e) ↦ ground (
    arith,
    save_deployment-reserves k s
        (record s { archived_at = some now; archived_by_upn = actor; updated_by_upn = actor }) db e
        refl (λ h. h) v,
  )
]

pub unarchive_deployment-reserves :
    (k : ℕ) (actor : Option String) (db : Store)
    → DeploymentsReserved db
    → DeploymentsReserved (after (unarchive_deployment k actor) db)
unfolding unarchive_deployment
unarchive_deployment-reserves k actor db v = elim (Option-cases (get_row k db.deployments)) [
  | inl e ↦ ground arith
  | inr (s, e) ↦ ground (
    arith,
    save_deployment-reserves k s
        (record s { archived_at = none; archived_by_upn = none; updated_by_upn = actor }) db e refl
        (λ h. h) v,
  )
]

pub delete_deployment-reserves :
    (k : ℕ) (db : Store)
    → DeploymentsReserved db
    → DeploymentsReserved (after (delete_deployment k) db)
unfolding delete_deployment
delete_deployment-reserves k db v = elim (Option-cases (get_row k db.deployments)) [
  | inl e ↦ ground arith
  | inr (s, e) ↦
      ground (arith, drop-IsReserved by_deployment s.id db.deployments db.deployment_items v)
]

module _ (d : Database) where
  -- Completing moves assets and leaves the items alone.
  complete_step :
      (row : Deployment) (actor : Option String) (db : Store)
      → ((settle d row.target_location_id row actor db).deployments ≡ db.deployments)
        × ((settle d row.target_location_id row actor db).deployment_items ≡ db.deployment_items)
  unfolding settle
  complete_step row actor db = ground arith

  pub complete_deployment-reserves :
      (k now : ℕ) (actor : Option String) (db : Store)
      → DeploymentsReserved db
      → DeploymentsReserved (after (complete_deployment d k now actor) db)
  unfolding complete_deployment
  complete_deployment-reserves k now actor db v = elim (Option-cases (get_row k db.deployments)) [
    | inl e ↦ ground arith
    | inr (s, e) ↦ ground (
      arith,
      complete_step s actor db,
      put-IsReserved by_deployment
          (record s {
            status = DeploymentStatus.completed;
            completed_at = some now;
            completed_by_upn = actor;
            updated_by_upn = actor;
          })
          db.deployments db.deployment_items (λ h. absurd (cc)) v,
    )
  ]
