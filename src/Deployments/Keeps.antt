-- ===== src/Deployments/Keeps.antt =====
-- The creation of a deployment and the operations on its items keep the reservation rule, whether
-- they return or raise.
use feature_asset_inventory.Base.{
  ℕ, String, ◌≡◌, refl, sym, ◌++◌, ==_iff, inl, inr, true, Option, some, List, [], ◌∷◌, arith, ◌==◌,
  mem, Option-cases,
}
use feature_asset_inventory.Base.Http.{ok, Result-cases}
use feature_asset_inventory.Store.{Store}
use feature_asset_inventory.Store.Table.{
  Database, get_row, drop_row, ids, id_of-get_row, get_row_new,
}
use feature_asset_inventory.Store.Rows.{Deployment, asset_row, deployment_row, deployment_item_row}
use feature_asset_inventory.Store.Session.{Session, after}
use feature_asset_inventory.Reservation.{by_deployment}
use feature_asset_inventory.Reservation.Reserve.{
  IsReserved, holds-insert, insert-IsReserved, grow-IsReserved, drop_item-IsReserved,
  put-IsReserved,
}
use feature_asset_inventory.Reservation.AutoAssign.{auto_assign_ids, dedupe}
use feature_asset_inventory.Deployments.Check.{
  pick_for_deployment, assert_asset_available_for_deployment,
}
use feature_asset_inventory.Deployments.Create.{
  DeploymentCreate, new_deployment, check_items, add_deployment_item, add_deployment_items,
  create_deployment,
}
use feature_asset_inventory.Deployments.Items.{
  ItemRequest, add_item, remove_item, item_of, touch_deployment,
}
use feature_asset_inventory.Deployments.Reserve.{
  deploy_holds, DeploymentsReserved, active_deployment-none, check_items-unchanged,
  check_items-free, on_deployment-add_item, on_deployment-add_items,
}
use feature_asset_inventory.Deployments.Release.{Passed, check-Passed, saved-check}

module _ (d : Database) where
  -- The session in which `create_deployment` checks its items.
  abbrev inserted : DeploymentCreate → Store → Session
  inserted p db = record {
    work = record db {
      deployments = db.deployments ++ new_deployment p (d.fresh (ids db.deployments)) ∷ [];
    };
    saved = db;
  }

  abbrev new_id : Store → ℕ
  new_id db = d.fresh (ids db.deployments)

  created_free :
      (p : DeploymentCreate) (db : Store) (aids : List ℕ)
      → (check_items (new_id db) aids (inserted p db)).0 ≡ ok tt
      → (a : ℕ) → mem a aids ≡ true
      → (j : ℕ) → deploy_holds db j a ≡ true
      → j ≡ new_id db
  created_free p db aids passed a m j held = ground (
    arith,
    active_deployment-none (inserted p db).work a (some (new_id db))
        (check_items-free (new_id db) aids (inserted p db) a passed m) j
        (holds-insert by_deployment (new_deployment p (new_id db)) db.deployments
          db.deployment_items j a held),
  )

  created_reserves :
      (p : DeploymentCreate) (db : Store) (aids : List ℕ)
      → DeploymentsReserved db
      → (check_items (new_id db) aids (inserted p db)).0 ≡ ok tt
      → IsReserved by_deployment
          (inserted p db).work.deployments
          (add_deployment_items d (new_id db) aids db.deployment_items)
  created_reserves p db aids v passed =
      insert-IsReserved by_deployment (new_id db) (λ a. mem a aids) db.deployments
        db.deployment_items (add_deployment_items d (new_id db) aids db.deployment_items)
        (on_deployment-add_items d (new_id db) aids db.deployment_items)
        (created_free p db aids passed) v (new_deployment p (new_id db)) refl
        (get_row_new (new_id db) db.deployments (d.fresh_is_new (ids db.deployments)))

  pub create_deployment-reserves :
      (p : DeploymentCreate) (db : Store)
      → DeploymentsReserved db
      → DeploymentsReserved (after (create_deployment d p) db)
  unfolding create_deployment
  create_deployment-reserves p db v =
      elim (Result-cases (auto_assign_ids (pick_for_deployment db) p.auto_assign)) [
        | inr (e, failed) ↦ ground arith
        | inl (more, found) ↦
            elim (Result-cases
              (check_items (new_id db) (dedupe (p.asset_ids ++ more)) (inserted p db)).0) [
                | inr (e, failed) ↦ ground (
                  arith,
                  check_items-unchanged (new_id db) (dedupe (p.asset_ids ++ more)) (inserted p db),
                )
                | inl (done, passed) ↦ ground (
                  arith,
                  check_items-unchanged (new_id db) (dedupe (p.asset_ids ++ more)) (inserted p db),
                  created_reserves p db (dedupe (p.asset_ids ++ more)) v passed,
                )
              ]
      ]

  -- The item and the touched row, in the session that the check has left.
  item_reserves :
      (k : ℕ) (r : ItemRequest) (row : Deployment) (s t : Session)
      → get_row k s.work.deployments ≡ some row
      → Passed r.asset_id k s t
      → IsReserved by_deployment
          (touch_deployment row r.actor_upn t.work).deployments
          (add_deployment_item d k r.asset_id r.role r.notes t.work.deployment_items)
  item_reserves k r row s t e p =
      put-IsReserved by_deployment (record row { updated_by_upn = r.actor_upn }) t.work.deployments
        (add_deployment_item d k r.asset_id r.role r.notes t.work.deployment_items)
        (λ h. ground (arith, id_of-get_row k s.work.deployments e, p.deployments))
        (grow-IsReserved by_deployment k (λ b. r.asset_id == b) t.work.deployments
          t.work.deployment_items
          (add_deployment_item d k r.asset_id r.role r.notes t.work.deployment_items)
          (on_deployment-add_item d k r.asset_id r.role r.notes t.work.deployment_items)
          (λ b m j held. p.free j (rw (sym ((==_iff r.asset_id b).0 m)) at held)) p.reserved
          (ground (arith, p.deployments)))

  pub add_item-reserves :
      (k : ℕ) (r : ItemRequest) (db : Store)
      → DeploymentsReserved db
      → DeploymentsReserved (after (add_item d k r) db)
  unfolding add_item
  add_item-reserves k r db v =
      let s : Session = record { work = db; saved = db } in
      elim (Option-cases (get_row k db.deployments)) [
        | inl e ↦ ground arith
        | inr (row, e) ↦
            elim (Result-cases
              (assert_asset_available_for_deployment r.asset_id (some k) r.force s).0) [
                | inr (x, failed) ↦ ground (arith, saved-check r.asset_id (some k) r.force s)
                | inl (released, passed) ↦ ground (
                  arith,
                  saved-check r.asset_id (some k) r.force s,
                  item_reserves k r row s
                      (assert_asset_available_for_deployment r.asset_id (some k) r.force s).1 e
                      (check-Passed r.asset_id k r.force s released v passed),
                )
              ]
      ]

pub remove_item-reserves :
    (k item_id : ℕ) (actor : Option String) (db : Store)
    → DeploymentsReserved db
    → DeploymentsReserved (after (remove_item k item_id actor) db)
unfolding remove_item
remove_item-reserves k item_id actor db v = elim (Option-cases (get_row k db.deployments)) [
  | inl e ↦ ground arith
  | inr (s, e) ↦ elim (Option-cases (item_of k (get_row item_id db.deployment_items))) [
    | inl f ↦ ground arith
    | inr (i, f) ↦ ground (
      arith,
      id_of-get_row k db.deployments e,
      put-IsReserved by_deployment (record s { updated_by_upn = actor }) db.deployments
          (drop_row i.id db.deployment_items),
      drop_item-IsReserved by_deployment i.id db.deployments db.deployment_items v,
    )
  ]
]
