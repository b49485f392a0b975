-- ===== src/Store.antt =====
-- The database of app/db.py and app/models/inventory.py: its tables, and the `Session` that a
-- request works in.
pub mod Types
pub mod Table
pub mod Rows
pub mod Session
use feature_asset_inventory.Base.{List}
use Rows.{
  AssetStatus, Location, Asset, AssetHistory, Shipment, ShipmentItem, ShipmentEvent, Deployment,
  DeploymentItem, Network, NetworkVlan,
}

pub record Store : Type 0 where
  pub statuses : List AssetStatus
  pub locations : List Location
  pub assets : List Asset
  pub asset_history : List AssetHistory
  pub shipments : List Shipment
  pub shipment_items : List ShipmentItem
  pub shipment_events : List ShipmentEvent
  pub deployments : List Deployment
  pub deployment_items : List DeploymentItem
  pub networks : List Network
  pub network_vlans : List NetworkVlan
