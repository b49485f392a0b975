-- ===== src/Shipments/Short.antt =====
-- A shipment that is asked for the same kind of assets twice.
use feature_asset_inventory.Base.{ℕ, Bool, ◌&&◌, not, List, [], ◌∷◌, map}
use feature_asset_inventory.Store.{Store}
use feature_asset_inventory.Store.Table.{Database, ids}
use feature_asset_inventory.Store.Rows.{Asset, asset_row, shipment_row, shipment_item_row}
use feature_asset_inventory.Reservation.{reserved_by_shipment, available_clauses}
use feature_asset_inventory.Reservation.AutoAssign.{AutoAssign, clean_request}
use feature_asset_inventory.Shipments.Check.{ShipmentCreate, pick_for_shipment}

module _ (d : Database) (db : Store) (p : ShipmentCreate) (req : AutoAssign) where
  abbrev free : Asset → Bool
  free a = not (reserved_by_shipment db a.id) && available_clauses db a

  -- The ids that a shipment picks for the request.
  abbrev pub picked : List ℕ
  picked = map (λ a. a.id) (pick_for_shipment db (clean_request req))

  -- The shipment is asked for the same assets twice, and for no other.
  abbrev pub asked_twice : ShipmentCreate
  asked_twice = record p { asset_ids = []; auto_assign = req ∷ req ∷ [] }

  abbrev first_id : ℕ
  first_id = d.fresh (ids db.shipments)
