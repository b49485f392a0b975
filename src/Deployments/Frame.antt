-- ===== src/Deployments/Frame.antt =====
-- No operation of the deployment service puts an asset on a shipment or makes a shipment active, and
-- only linking, unlinking and deleting touch a shipment at all.
use feature_asset_inventory.Base.{
  ℕ, String, ◌≡◌, refl, ◌++◌, Bool, Option, none, some, [], ◌∷◌, arith, inl, inr, Option-cases,
}
use feature_asset_inventory.Base.Http.{Result-cases}
use feature_asset_inventory.Store.{Store}
use feature_asset_inventory.Store.Table.{Database, get_row, put_row, ids, id_of-get_row}
use feature_asset_inventory.Store.Rows.{
  Shipment, Deployment, shipment_row, shipment_item_row, deployment_row,
}
use feature_asset_inventory.Store.Session.{Session, after}
use feature_asset_inventory.Reservation.{by_shipment, is_shipment_active}
use feature_asset_inventory.Reservation.Reserve.{IsReserved, put-IsReserved, map-IsReserved}
use feature_asset_inventory.Reservation.AutoAssign.{auto_assign_ids, dedupe}
use feature_asset_inventory.Shipments.Reserve.{ShipmentsReserved}
use feature_asset_inventory.Deployments.Check.{
  assert_asset_available_for_deployment, pick_for_deployment,
}
use feature_asset_inventory.Deployments.Create.{
  DeploymentCreate, DeploymentUpdate, new_deployment, create_deployment, update_deployment,
}
use feature_asset_inventory.Deployments.Items.{ItemRequest, add_item, remove_item}
use feature_asset_inventory.Deployments.Lifecycle.{
  settle, start_deployment, complete_deployment, cancel_deployment, archive_deployment,
  unarchive_deployment, delete_deployment, unlink_all,
}
use feature_asset_inventory.Deployments.Links.{link_shipment, unlink_shipment}
use feature_asset_inventory.Deployments.Release.{saved-check}
use feature_asset_inventory.Deployments.Reserve.{DeploymentsReserved, check_items-unchanged}

-- The tables of shipments are those of before.
abbrev pub SameShipments : Store → Store → Type 0
SameShipments old new = (new.shipments ≡ old.shipments) × (new.shipment_items ≡ old.shipment_items)

-- The check of an asset touches no shipment.
shipments-check :
    (a : ℕ) (exclude : Option ℕ) (force : Bool) (s : Session)
    → SameShipments s.work (assert_asset_available_for_deployment a exclude force s).1.work
unfolding assert_asset_available_for_deployment
shipments-check a exclude force s = ground arith

shipments-settle :
    (d : Database) (row : Deployment) (actor : Option String) (db : Store)
    → SameShipments db (settle d row.target_location_id row actor db)
unfolding settle
shipments-settle d row actor db = ground arith

module _ (d : Database) (db : Store) where
  pub shipments-create_deployment :
      (p : DeploymentCreate) → SameShipments db (after (create_deployment d p) db)
  unfolding create_deployment
  shipments-create_deployment p =
      elim (Result-cases (auto_assign_ids (pick_for_deployment db) p.auto_assign)) [
        | inr (e, failed) ↦ ground arith
        | inl (more, found) ↦
            let k = d.fresh (ids db.deployments) in
            let s : Session = record {
              work = record db { deployments = db.deployments ++ new_deployment p k ∷ [] };
              saved = db;
            } in
            ground (arith, check_items-unchanged k (dedupe (p.asset_ids ++ more)) s)
      ]

  pub shipments-update_deployment :
      (k : ℕ) (u : DeploymentUpdate) → SameShipments db (after (update_deployment k u) db)
  unfolding update_deployment
  shipments-update_deployment k u = ground arith

  pub shipments-add_item : (k : ℕ) (r : ItemRequest) → SameShipments db (after (add_item d k r) db)
  unfolding add_item
  shipments-add_item k r =
      let s : Session = record { work = db; saved = db } in
      elim (Option-cases (get_row k db.deployments)) [
        | inl e ↦ ground arith
        | inr (row, e) ↦ ground (
          arith,
          saved-check r.asset_id (some k) r.force s,
          shipments-check r.asset_id (some k) r.force s,
        )
      ]

  pub shipments-remove_item :
      (k i : ℕ) (actor : Option String) → SameShipments db (after (remove_item k i actor) db)
  unfolding remove_item
  shipments-remove_item k i actor = ground arith

  pub shipments-start_deployment :
      (k now : ℕ) (actor : Option String)
      → SameShipments db (after (start_deployment k now actor) db)
  unfolding start_deployment
  shipments-start_deployment k now actor = ground arith

  pub shipments-complete_deployment :
      (k now : ℕ) (actor : Option String)
      → SameShipments db (after (complete_deployment d k now actor) db)
  unfolding complete_deployment
  shipments-complete_deployment k now actor = elim (Option-cases (get_row k db.deployments)) [
    | inl e ↦ ground arith
    | inr (row, e) ↦ ground (arith, shipments-settle d row actor db)
  ]

  pub shipments-cancel_deployment :
      (k now : ℕ) (actor : Option String)
      → SameShipments db (after (cancel_deployment k now actor) db)
  unfolding cancel_deployment
  shipments-cancel_deployment k now actor = ground arith

  pub shipments-archive_deployment :
      (k now : ℕ) (actor : Option String)
      → SameShipments db (after (archive_deployment k now actor) db)
  unfolding archive_deployment
  shipments-archive_deployment k now actor = ground arith

  pub shipments-unarchive_deployment :
      (k : ℕ) (actor : Option String) → SameShipments db (after (unarchive_deployment k actor) db)
  unfolding unarchive_deployment
  shipments-unarchive_deployment k actor = ground arith

module _ (db : Store) (v : ShipmentsReserved db) where
  -- Deleting a deployment unlinks its shipments, and changes nothing else of them.
  pub delete_deployment-shipments : (k : ℕ) → ShipmentsReserved (after (delete_deployment k) db)
  unfolding delete_deployment unlink_all
  delete_deployment-shipments k = elim (Option-cases (get_row k db.deployments)) [
    | inl e ↦ ground arith
    | inr (row, e) ↦
        rw (e, after, delete_deployment)
          (map-IsReserved by_shipment _ (λ s. ground arith) (λ s. ground arith) db.shipments
            db.shipment_items v)
  ]

  relinked :
      (k : ℕ) (s t : Shipment)
      → get_row k db.shipments ≡ some s
      → t.id ≡ s.id
      → is_shipment_active t ≡ is_shipment_active s
      → IsReserved by_shipment (put_row t db.shipments) db.shipment_items
  relinked k s t e same keep =
      put-IsReserved by_shipment t db.shipments db.shipment_items
        (λ h. ground (arith, id_of-get_row k db.shipments e)) v

  pub link_shipment-reserves :
      (k i : ℕ) (actor : Option String) → ShipmentsReserved (after (link_shipment k i actor) db)
  unfolding link_shipment
  link_shipment-reserves k i actor = elim (Option-cases (get_row i db.shipments)) [
    | inl e ↦ ground arith
    | inr (s, e) ↦ ground (
      arith,
      relinked i s (record s { deployment_id = some k; updated_by_upn = actor }) e refl refl,
    )
  ]

  pub unlink_shipment-reserves :
      (k i : ℕ) (actor : Option String) → ShipmentsReserved (after (unlink_shipment k i actor) db)
  unfolding unlink_shipment
  unlink_shipment-reserves k i actor = elim (Option-cases (get_row i db.shipments)) [
    | inl e ↦ ground arith
    | inr (s, e) ↦ ground (
      arith,
      relinked i s (record s { deployment_id = none; updated_by_upn = actor }) e refl refl,
    )
  ]

module _ (db : Store) (v : DeploymentsReserved db) where
  -- Linking and unlinking change no deployment.
  pub link_shipment-deployments :
      (k i : ℕ) (actor : Option String) → DeploymentsReserved (after (link_shipment k i actor) db)
  unfolding link_shipment
  link_shipment-deployments k i actor = ground arith

  pub unlink_shipment-deployments :
      (k i : ℕ) (actor : Option String) → DeploymentsReserved (after (unlink_shipment k i actor) db)
  unfolding unlink_shipment
  unlink_shipment-deployments k i actor = ground arith
