-- ===== src/Reservation.antt =====
-- Which record reserves an asset: the queries that app/services/shipment_service.py,
-- app/services/deployment_service.py and app/services/inventory_service.py share or repeat.
pub mod AutoAssign
pub mod Exclusive
pub mod Reserve
use feature_asset_inventory.Base.{
  ℕ, String, Bool, true, false, ◌&&◌, ◌||◌, not, Option, none, some, List, ◌==◌, str_eq, opt_eq,
  any, first, is_none, is_some,
}
use Reserve.{Reserving, lists}
use feature_asset_inventory.Store.{Store}
use feature_asset_inventory.Store.Types.{
  DeploymentStatus, is_open, is_final, is_planning, is_in_progress, is_warehouse,
}
use feature_asset_inventory.Store.Table.{get_row}
use feature_asset_inventory.Store.Rows.{
  Asset, Shipment, ShipmentItem, Deployment, DeploymentItem, location_row, shipment_row,
  deployment_row,
}

-- `Shipment.resolution == "open"` and not delivered or in exception.
abbrev pub is_shipment_active : Shipment → Bool
is_shipment_active s = is_open s.resolution && not (is_final s.carrier_status)

abbrev pub is_active_status : DeploymentStatus → Bool
is_active_status st = is_planning st || is_in_progress st

abbrev pub is_deployment_active : Deployment → Bool
is_deployment_active d = is_active_status d.status

-- Shipments and deployments as records that reserve assets, and their joins with the items.
abbrev pub by_shipment : Reserving Shipment ShipmentItem
by_shipment = record {
  is_active = is_shipment_active;
  owner = λ i. i.shipment_id;
  asset = λ i. i.asset_id;
}

abbrev pub by_deployment : Reserving Deployment DeploymentItem
by_deployment = record {
  is_active = is_deployment_active;
  owner = λ i. i.deployment_id;
  asset = λ i. i.asset_id;
}

abbrev pub on_shipment : List ShipmentItem → ℕ → ℕ → Bool
on_shipment = lists by_shipment

abbrev pub on_deployment : List DeploymentItem → ℕ → ℕ → Bool
on_deployment = lists by_deployment

-- `.where(Model.id != exclude)`, added where an id to exclude is given.
abbrev pub not_excluded : ℕ → Option ℕ → Bool
not_excluded id exclude = elim exclude [ none ↦ true | some e ↦ not (id == e) ]

unfoldable pub other_active_shipment_for_asset : Store → ℕ → Option ℕ → Option Shipment
other_active_shipment_for_asset db asset_id exclude =
    first
      (λ s.
        on_shipment db.shipment_items s.id asset_id
        && is_shipment_active s
        && not_excluded s.id exclude)
      db.shipments

unfoldable pub active_deployment_for_asset : Store → ℕ → Option ℕ → Option Deployment
active_deployment_for_asset db asset_id exclude =
    first
      (λ d.
        on_deployment db.deployment_items d.id asset_id
        && is_deployment_active d
        && not_excluded d.id exclude)
      db.deployments

-- `Shipment.deployment_id IS NULL OR Shipment.deployment_id != exclude`
abbrev pub not_of_deployment : Shipment → Option ℕ → Bool
not_of_deployment s exclude = elim exclude [
  | none ↦ true
  | some d ↦ not (opt_eq s.deployment_id (some d))
]

unfoldable pub active_shipment_for_asset : Store → ℕ → Option ℕ → Option Shipment
active_shipment_for_asset db asset_id exclude =
    first
      (λ s.
        on_shipment db.shipment_items s.id asset_id
        && is_shipment_active s
        && not_of_deployment s exclude)
      db.shipments

-- The subqueries of reserved asset ids.
unfoldable pub reserved_by_shipment : Store → ℕ → Bool
reserved_by_shipment db asset_id =
    any
      (λ i. i.asset_id == asset_id && elim (get_row i.shipment_id db.shipments) [
        | none ↦ false
        | some s ↦ is_shipment_active s
      ])
      db.shipment_items

unfoldable pub reserved_by_deployment : Store → ℕ → Bool
reserved_by_deployment db asset_id =
    any
      (λ i. i.asset_id == asset_id && elim (get_row i.deployment_id db.deployments) [
        | none ↦ false
        | some d ↦ is_deployment_active d
      ])
      db.deployment_items

-- `_STOCK_UPNS`: accounts that mean that nobody has the asset.
abbrev pub is_stock : Option String → Bool
is_stock none = true
is_stock (some upn) = str_eq upn "join@hv.ltd"

-- The outer join with `locations`: the asset has no location, or one of type warehouse.
abbrev pub at_warehouse : Store → Asset → Bool
at_warehouse db a = elim a.location_id [
  | none ↦ true
  | some l ↦ elim (get_row l db.locations) [ none ↦ false | some loc ↦ is_warehouse loc.type ]
]

unfoldable pub available_clauses : Store → Asset → Bool
available_clauses db a =
    str_eq a.status_code "active" && is_stock a.assigned_upn && at_warehouse db a
