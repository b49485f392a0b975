-- ===== src/Requests.antt =====
-- The two services over one database: a step is one request, of either service.
pub mod Refused
use feature_asset_inventory.Base.{ℕ, String, Option}
use feature_asset_inventory.Store.{Store}
use feature_asset_inventory.Store.Types.{Direction, Carrier}
use feature_asset_inventory.Store.Table.{Database}
use feature_asset_inventory.Store.Session.{after}
use feature_asset_inventory.Tracking.{TrackingResult}
use feature_asset_inventory.Shipments.Check.{ShipmentCreate}
use feature_asset_inventory.Shipments
use feature_asset_inventory.Shipments.Refresh.Keeps.{StaysFinal, refresh_shipment-reserves}
use feature_asset_inventory.Shipments.Refresh.Frame.{deployments-refresh_shipment}
use feature_asset_inventory.Shipments.Reserve.{ShipmentsReserved}
use feature_asset_inventory.Shipments.Keeps
use feature_asset_inventory.Shipments.Closing
use feature_asset_inventory.Shipments.Frame
use feature_asset_inventory.Shipments.Frame.{SameDeployments}
use feature_asset_inventory.Deployments
use feature_asset_inventory.Deployments.Create.{DeploymentCreate, DeploymentUpdate}
use feature_asset_inventory.Deployments.Items.{ItemRequest}
use feature_asset_inventory.Deployments.Reserve.{DeploymentsReserved}
use feature_asset_inventory.Deployments.Keeps as DeploymentKeeps
use feature_asset_inventory.Deployments.Closing as DeploymentClosing
use feature_asset_inventory.Deployments.Frame as DeploymentFrame
use feature_asset_inventory.Deployments.Frame.{SameShipments}

module _ (d : Database) where
  -- One request. A poll is a step where the carrier does not take a final status back.
  pub data Step (db : Store) : Store → Type 0 where
    create_shipment :
        (p : ShipmentCreate) → Step db (after (Shipments.Create.create_shipment d p) db)
    add_to_shipment :
        (k a : ℕ) (actor : Option String)
        → Step db (after (Shipments.Items.add_item d k a actor) db)
    remove_from_shipment :
        (k i : ℕ) (actor : Option String)
        → Step db (after (Shipments.Items.remove_item k i actor) db)
    resolve_shipment :
        (k now : ℕ) (actor : Option String)
        → Step db (after (Shipments.Header.resolve_shipment k now actor) db)
    cancel_shipment :
        (k now : ℕ) (actor : Option String)
        → Step db (after (Shipments.Header.cancel_shipment k now actor) db)
    archive_shipment :
        (k now : ℕ) (actor : Option String)
        → Step db (after (Shipments.Header.archive_shipment k now actor) db)
    unarchive_shipment :
        (k : ℕ) (actor : Option String)
        → Step db (after (Shipments.Header.unarchive_shipment k actor) db)
    delete_shipment : (k : ℕ) → Step db (after (Shipments.Header.delete_shipment k) db)
    update_shipment :
        (k : ℕ) (text notes : Option String) (dir : Option Direction) (actor : Option String)
        → Step db (after (Shipments.Header.update_shipment k text notes dir actor) db)
    refresh_shipment :
        (fetch : Carrier → String → TrackingResult) (k now : ℕ)
        → StaysFinal d fetch k db
        → Step db (after (Shipments.Refresh.refresh_shipment d fetch k now) db)
    create_deployment :
        (p : DeploymentCreate) → Step db (after (Deployments.Create.create_deployment d p) db)
    update_deployment :
        (k : ℕ) (u : DeploymentUpdate)
        → Step db (after (Deployments.Create.update_deployment k u) db)
    add_to_deployment :
        (k : ℕ) (r : ItemRequest) → Step db (after (Deployments.Items.add_item d k r) db)
    remove_from_deployment :
        (k i : ℕ) (actor : Option String)
        → Step db (after (Deployments.Items.remove_item k i actor) db)
    start_deployment :
        (k now : ℕ) (actor : Option String)
        → Step db (after (Deployments.Lifecycle.start_deployment k now actor) db)
    complete_deployment :
        (k now : ℕ) (actor : Option String)
        → Step db (after (Deployments.Lifecycle.complete_deployment d k now actor) db)
    cancel_deployment :
        (k now : ℕ) (actor : Option String)
        → Step db (after (Deployments.Lifecycle.cancel_deployment k now actor) db)
    archive_deployment :
        (k now : ℕ) (actor : Option String)
        → Step db (after (Deployments.Lifecycle.archive_deployment k now actor) db)
    unarchive_deployment :
        (k : ℕ) (actor : Option String)
        → Step db (after (Deployments.Lifecycle.unarchive_deployment k actor) db)
    delete_deployment : (k : ℕ) → Step db (after (Deployments.Lifecycle.delete_deployment k) db)
    link_shipment :
        (k i : ℕ) (actor : Option String)
        → Step db (after (Deployments.Links.link_shipment k i actor) db)
    unlink_shipment :
        (k i : ℕ) (actor : Option String)
        → Step db (after (Deployments.Links.unlink_shipment k i actor) db)

  -- Any number of requests, one after the other.
  pub data Reach (start : Store) : Store → Type 0 where
    here : Reach start start
    next : {db db' : Store} → Reach start db → Step db db' → Reach start db'

  -- The reservation rule of both kinds.
  pub record IsReservedDb (db : Store) : Type 0 where
    pub shipments : ShipmentsReserved db
    pub deployments : DeploymentsReserved db

  same_deployments :
      (db db' : Store) → SameDeployments db db' → DeploymentsReserved db → DeploymentsReserved db'
  same_deployments db db' (rows, items) v = rw (rows, items) v

  same_shipments :
      (db db' : Store) → SameShipments db db' → ShipmentsReserved db → ShipmentsReserved db'
  same_shipments db db' (rows, items) v = rw (rows, items) v

  step_reserves : {db db' : Store} → Step db db' → IsReservedDb db → IsReservedDb db'
  step_reserves {db} {db'} (create_shipment p) v = record {
    shipments = Keeps.create_shipment-reserves d p db v.shipments;
    deployments = same_deployments db db' (Frame.deployments-create_shipment d db p) v.deployments;
  }
  step_reserves {db} {db'} (add_to_shipment k a actor) v = record {
    shipments = Keeps.add_item-reserves d k a actor db v.shipments;
    deployments = same_deployments db db' (Frame.deployments-add_item d db k a actor) v.deployments;
  }
  step_reserves {db} {db'} (remove_from_shipment k i actor) v = record {
    shipments = Keeps.remove_item-reserves k i actor db v.shipments;
    deployments =
        same_deployments db db' (Frame.deployments-remove_item d db k i actor) v.deployments;
  }
  step_reserves {db} {db'} (resolve_shipment k now actor) v = record {
    shipments = Closing.resolve_shipment-reserves k now actor db v.shipments;
    deployments =
        same_deployments db db' (Frame.deployments-resolve_shipment d db k now actor) v.deployments;
  }
  step_reserves {db} {db'} (cancel_shipment k now actor) v = record {
    shipments = Closing.cancel_shipment-reserves k now actor db v.shipments;
    deployments =
        same_deployments db db' (Frame.deployments-cancel_shipment d db k now actor) v.deployments;
  }
  step_reserves {db} {db'} (archive_shipment k now actor) v = record {
    shipments = Closing.archive_shipment-reserves k now actor db v.shipments;
    deployments =
        same_deployments db db' (Frame.deployments-archive_shipment d db k now actor) v.deployments;
  }
  step_reserves {db} {db'} (unarchive_shipment k actor) v = record {
    shipments = Closing.unarchive_shipment-reserves k actor db v.shipments;
    deployments =
        same_deployments db db' (Frame.deployments-unarchive_shipment d db k actor) v.deployments;
  }
  step_reserves {db} {db'} (delete_shipment k) v = record {
    shipments = Closing.delete_shipment-reserves k db v.shipments;
    deployments = same_deployments db db' (Frame.deployments-delete_shipment d db k) v.deployments;
  }
  step_reserves {db} {db'} (update_shipment k text notes dir actor) v = record {
    shipments = Closing.update_shipment-reserves k text notes dir actor db v.shipments;
    deployments =
        same_deployments db db' (Frame.deployments-update_shipment d db k text notes dir actor)
          v.deployments;
  }
  step_reserves {db} {db'} (refresh_shipment fetch k now stays) v = record {
    shipments = refresh_shipment-reserves d fetch k now db stays v.shipments;
    deployments =
        same_deployments db db' (deployments-refresh_shipment d fetch now db k) v.deployments;
  }
  step_reserves {db} {db'} (create_deployment p) v = record {
    shipments =
        same_shipments db db' (DeploymentFrame.shipments-create_deployment d db p) v.shipments;
    deployments = DeploymentKeeps.create_deployment-reserves d p db v.deployments;
  }
  step_reserves {db} {db'} (update_deployment k u) v = record {
    shipments =
        same_shipments db db' (DeploymentFrame.shipments-update_deployment d db k u) v.shipments;
    deployments = DeploymentClosing.update_deployment-reserves k u db v.deployments;
  }
  step_reserves {db} {db'} (add_to_deployment k r) v = record {
    shipments = same_shipments db db' (DeploymentFrame.shipments-add_item d db k r) v.shipments;
    deployments = DeploymentKeeps.add_item-reserves d k r db v.deployments;
  }
  step_reserves {db} {db'} (remove_from_deployment k i actor) v = record {
    shipments =
        same_shipments db db' (DeploymentFrame.shipments-remove_item d db k i actor) v.shipments;
    deployments = DeploymentKeeps.remove_item-reserves k i actor db v.deployments;
  }
  step_reserves {db} {db'} (start_deployment k now actor) v = record {
    shipments =
        same_shipments db db' (DeploymentFrame.shipments-start_deployment d db k now actor)
          v.shipments;
    deployments = DeploymentClosing.start_deployment-reserves k now actor db v.deployments;
  }
  step_reserves {db} {db'} (complete_deployment k now actor) v = record {
    shipments =
        same_shipments db db' (DeploymentFrame.shipments-complete_deployment d db k now actor)
          v.shipments;
    deployments = DeploymentClosing.complete_deployment-reserves d k now actor db v.deployments;
  }
  step_reserves {db} {db'} (cancel_deployment k now actor) v = record {
    shipments =
        same_shipments db db' (DeploymentFrame.shipments-cancel_deployment d db k now actor)
          v.shipments;
    deployments = DeploymentClosing.cancel_deployment-reserves k now actor db v.deployments;
  }
  step_reserves {db} {db'} (archive_deployment k now actor) v = record {
    shipments =
        same_shipments db db' (DeploymentFrame.shipments-archive_deployment d db k now actor)
          v.shipments;
    deployments = DeploymentClosing.archive_deployment-reserves k now actor db v.deployments;
  }
  step_reserves {db} {db'} (unarchive_deployment k actor) v = record {
    shipments =
        same_shipments db db' (DeploymentFrame.shipments-unarchive_deployment d db k actor)
          v.shipments;
    deployments = DeploymentClosing.unarchive_deployment-reserves k actor db v.deployments;
  }
  step_reserves {db} {db'} (delete_deployment k) v = record {
    shipments = DeploymentFrame.delete_deployment-shipments db v.shipments k;
    deployments = DeploymentClosing.delete_deployment-reserves k db v.deployments;
  }
  step_reserves {db} {db'} (link_shipment k i actor) v = record {
    shipments = DeploymentFrame.link_shipment-reserves db v.shipments k i actor;
    deployments = DeploymentFrame.link_shipment-deployments db v.deployments k i actor;
  }
  step_reserves {db} {db'} (unlink_shipment k i actor) v = record {
    shipments = DeploymentFrame.unlink_shipment-reserves db v.shipments k i actor;
    deployments = DeploymentFrame.unlink_shipment-deployments db v.deployments k i actor;
  }

  -- Take any sequence of requests to the two services, in any order, from a database in which the
  -- keys of the shipments and of the deployments are distinct, every item belongs to a record that
  -- is there, no asset is on two active shipments and none on two active deployments. If no poll of
  -- the sequence takes a final carrier status back, all of this holds in the database at the end.
  pub Reach-reserves : {start db : Store} → Reach start db → IsReservedDb start → IsReservedDb db
  Reach-reserves here v = v
  Reach-reserves (next r st) v = step_reserves st (Reach-reserves r v)
