-- ===== src/Shipments/Frame.antt =====
-- No operation of the shipment service changes a deployment or its items.
use feature_asset_inventory.Base.{ℕ, String, ◌≡◌, Option, arith}
use feature_asset_inventory.Store.{Store}
use feature_asset_inventory.Store.Types.{Direction}
use feature_asset_inventory.Store.Table.{Database}
use feature_asset_inventory.Store.Rows.{shipment_row}
use feature_asset_inventory.Store.Session.{after}
use feature_asset_inventory.Shipments.Check.{ShipmentCreate}
use feature_asset_inventory.Shipments.Create.{create_shipment}
use feature_asset_inventory.Shipments.Items.{add_item, remove_item}
use feature_asset_inventory.Shipments.Header.{
  resolve_shipment, cancel_shipment, archive_shipment, unarchive_shipment, delete_shipment,
  update_shipment,
}

-- The tables of deployments are those of before.
abbrev pub SameDeployments : Store → Store → Type 0
SameDeployments old new =
    (new.deployments ≡ old.deployments) × (new.deployment_items ≡ old.deployment_items)

module _ (d : Database) (db : Store) where
  pub deployments-create_shipment :
      (p : ShipmentCreate) → SameDeployments db (after (create_shipment d p) db)
  unfolding create_shipment
  deployments-create_shipment p = ground arith

  pub deployments-add_item :
      (k a : ℕ) (actor : Option String) → SameDeployments db (after (add_item d k a actor) db)
  unfolding add_item
  deployments-add_item k a actor = ground arith

  pub deployments-remove_item :
      (k i : ℕ) (actor : Option String) → SameDeployments db (after (remove_item k i actor) db)
  unfolding remove_item
  deployments-remove_item k i actor = ground arith

  pub deployments-resolve_shipment :
      (k now : ℕ) (actor : Option String)
      → SameDeployments db (after (resolve_shipment k now actor) db)
  unfolding resolve_shipment
  deployments-resolve_shipment k now actor = ground arith

  pub deployments-cancel_shipment :
      (k now : ℕ) (actor : Option String)
      → SameDeployments db (after (cancel_shipment k now actor) db)
  unfolding cancel_shipment
  deployments-cancel_shipment k now actor = ground arith

  pub deployments-archive_shipment :
      (k now : ℕ) (actor : Option String)
      → SameDeployments db (after (archive_shipment k now actor) db)
  unfolding archive_shipment
  deployments-archive_shipment k now actor = ground arith

  pub deployments-unarchive_shipment :
      (k : ℕ) (actor : Option String) → SameDeployments db (after (unarchive_shipment k actor) db)
  unfolding unarchive_shipment
  deployments-unarchive_shipment k actor = ground arith

  pub deployments-delete_shipment : (k : ℕ) → SameDeployments db (after (delete_shipment k) db)
  unfolding delete_shipment
  deployments-delete_shipment k = ground arith

  pub deployments-update_shipment :
      (k : ℕ) (text notes : Option String) (dir : Option Direction) (actor : Option String)
      → SameDeployments db (after (update_shipment k text notes dir actor) db)
  unfolding update_shipment
  deployments-update_shipment k text notes dir actor = ground arith
