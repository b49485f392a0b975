-- ===== src/Requests/Refused.antt =====
-- A request that raises: what it has written is rolled back.
use feature_asset_inventory.Base.{
  ℕ, String, ◌≡◌, inl, inr, Option, some, arith, [], ◌∷◌, ◌++◌, Option-cases,
}
use feature_asset_inventory.Base.Http.{HttpError, err, Result-cases}
use feature_asset_inventory.Store.{Store}
use feature_asset_inventory.Store.Table.{Database, get_row, ids}
use feature_asset_inventory.Store.Rows.{asset_row, shipment_row, deployment_row}
use feature_asset_inventory.Store.Session.{Session, after, reply}
use feature_asset_inventory.Reservation.AutoAssign.{auto_assign_ids, dedupe}
use feature_asset_inventory.Shipments.Check.{ShipmentCreate, check_assets, requested_ids}
use feature_asset_inventory.Shipments
use feature_asset_inventory.Deployments
use feature_asset_inventory.Deployments.Check.{pick_for_deployment}
use feature_asset_inventory.Deployments.Create.{DeploymentCreate, check_items, new_deployment}
use feature_asset_inventory.Deployments.Items.{ItemRequest}
use feature_asset_inventory.Deployments.Reserve.{check_items-unchanged}
use feature_asset_inventory.Deployments.Release.{saved-check}

module _ (d : Database) (db : Store) where
  create_shipment-unchanged :
      (p : ShipmentCreate) (e : HttpError)
      → reply (Shipments.Create.create_shipment d p) db ≡ err e
      → after (Shipments.Create.create_shipment d p) db ≡ db
  unfolding Shipments.Create.create_shipment
  create_shipment-unchanged p e h = elim (Result-cases (requested_ids db p)) [
    | inr (x, failed) ↦ ground arith
    | inl (aids, found) ↦ elim (Result-cases (check_assets db p.deployment_id (dedupe aids))) [
      | inr (x, failed) ↦ ground arith
      | inl (done, passed) ↦ ground arith
    ]
  ]

  abbrev start : DeploymentCreate → Session
  start p = record {
    work = record db {
      deployments = db.deployments ++ new_deployment p (d.fresh (ids db.deployments)) ∷ [];
    };
    saved = db;
  }

  create_deployment-unchanged :
      (p : DeploymentCreate) (e : HttpError)
      → reply (Deployments.Create.create_deployment d p) db ≡ err e
      → after (Deployments.Create.create_deployment d p) db ≡ db
  unfolding Deployments.Create.create_deployment
  create_deployment-unchanged p e h =
      elim (Result-cases (auto_assign_ids (pick_for_deployment db) p.auto_assign)) [
        | inr (x, failed) ↦ ground arith
        | inl (more, found) ↦ ground (
          arith,
          check_items-unchanged (d.fresh (ids db.deployments)) (dedupe (p.asset_ids ++ more))
              (start p),
        )
      ]

  add_to_shipment-unchanged :
      (k a : ℕ) (actor : Option String) (e : HttpError)
      → reply (Shipments.Items.add_item d k a actor) db ≡ err e
      → after (Shipments.Items.add_item d k a actor) db ≡ db
  unfolding Shipments.Items.add_item
  add_to_shipment-unchanged k a actor e h = elim (Option-cases (get_row k db.shipments)) [
    | inl n ↦ ground arith
    | inr (s, f) ↦ ground arith
  ]

  add_to_deployment-unchanged :
      (k : ℕ) (r : ItemRequest) (e : HttpError)
      → reply (Deployments.Items.add_item d k r) db ≡ err e
      → after (Deployments.Items.add_item d k r) db ≡ db
  unfolding Deployments.Items.add_item
  add_to_deployment-unchanged k r e h = elim (Option-cases (get_row k db.deployments)) [
    | inl n ↦ ground arith
    | inr (s, f) ↦
        ground (arith, saved-check r.asset_id (some k) r.force (record { work = db; saved = db }))
  ]

  -- A request that reserves assets and raises, with the database that it leaves.
  pub data Refused : Store → Type 0 where
    create_shipment :
        (p : ShipmentCreate) (e : HttpError)
        → reply (Shipments.Create.create_shipment d p) db ≡ err e
        → Refused (after (Shipments.Create.create_shipment d p) db)
    create_deployment :
        (p : DeploymentCreate) (e : HttpError)
        → reply (Deployments.Create.create_deployment d p) db ≡ err e
        → Refused (after (Deployments.Create.create_deployment d p) db)
    add_to_shipment :
        (k a : ℕ) (actor : Option String) (e : HttpError)
        → reply (Shipments.Items.add_item d k a actor) db ≡ err e
        → Refused (after (Shipments.Items.add_item d k a actor) db)
    add_to_deployment :
        (k : ℕ) (r : ItemRequest) (e : HttpError)
        → reply (Deployments.Items.add_item d k r) db ≡ err e
        → Refused (after (Deployments.Items.add_item d k r) db)

  -- Each request that reserves assets, the creation of a shipment or a deployment and the addition of
  -- an item to either, leaves the database as it is where it raises.
  pub Refused-unchanged : {db' : Store} → Refused db' → db' ≡ db
  Refused-unchanged (create_shipment p e h) = create_shipment-unchanged p e h
  Refused-unchanged (create_deployment p e h) = create_deployment-unchanged p e h
  Refused-unchanged (add_to_shipment k a actor e h) = add_to_shipment-unchanged k a actor e h
  Refused-unchanged (add_to_deployment k r e h) = add_to_deployment-unchanged k r e h
