-- ===== src/Shipments/Create.antt =====
-- `create_shipment` of app/services/shipment_service.py.
use feature_asset_inventory.Base.{ℕ, Option, none, some, List, [], ◌∷◌, ◌++◌, strip, is_empty}
use feature_asset_inventory.Base.Http.{ok, raise_if, bad_request, no_assets}
use feature_asset_inventory.Store.Types.{CarrierStatus, Resolution}
use feature_asset_inventory.Store.Table.{Database, ids}
use feature_asset_inventory.Store.Rows.{
  Address, no_address, Shipment, ShipmentItem, shipment_row, shipment_item_row,
}
use feature_asset_inventory.Store.Session.{Action, pure, query, modify, commit, ◌>>=◌, ◌>>◌}
use feature_asset_inventory.Reservation.AutoAssign.{dedupe}
use feature_asset_inventory.Shipments.Check.{ShipmentCreate, check_assets, requested_ids}

-- `address or {}`
abbrev pub or_empty : Option Address → Address
or_empty none = no_address
or_empty (some a) = a

abbrev pub new_shipment : ShipmentCreate → ℕ → Shipment
new_shipment p id = record {
  id = id;
  tracking_number = strip p.tracking_number;
  carrier = p.carrier;
  direction = p.direction;
  description = p.description;
  deployment_id = p.deployment_id;
  carrier_status = CarrierStatus.pending;
  resolution = Resolution.still_open;
  from_location_id = p.from_location_id;
  from_address = or_empty p.from_address;
  to_location_id = p.to_location_id;
  to_address = or_empty p.to_address;
  notes = p.notes;
  last_polled_at = none;
  last_poll_error = none;
  resolved_at = none;
  resolved_by_upn = none;
  cancelled_at = none;
  cancelled_by_upn = none;
  archived_at = none;
  archived_by_upn = none;
  created_by_upn = p.actor_upn;
  updated_by_upn = p.actor_upn;
}

module _ (d : Database) where
  -- `db.add(ShipmentItem(shipment_id, asset_id))`
  unfoldable pub add_shipment_item : ℕ → ℕ → List ShipmentItem → List ShipmentItem
  add_shipment_item shipment_id asset_id items =
      items
      ++ record { id = d.fresh (ids items); shipment_id = shipment_id; asset_id = asset_id } ∷ []

  unfoldable pub add_shipment_items : ℕ → List ℕ → List ShipmentItem → List ShipmentItem
  add_shipment_items shipment_id [] items = items
  add_shipment_items shipment_id (aid ∷ aids) items =
      add_shipment_items shipment_id aids (add_shipment_item shipment_id aid items)

  -- `db.add(shipment)` and `db.flush()`, which names it.
  insert_shipment : ShipmentCreate → Action Shipment
  insert_shipment p s =
      let shipment = new_shipment p (d.fresh (ids s.work.shipments)) in
      (
        ok shipment,
        record s { work = record s.work { shipments = s.work.shipments ++ shipment ∷ [] } },
      )

  unfoldable pub create_shipment : ShipmentCreate → Action Shipment
  unfolding insert_shipment
  create_shipment p = do
    asset_ids ← query (λ db. requested_ids db p)
    let unique_ids = dedupe asset_ids
    query (λ db. raise_if (is_empty unique_ids) (bad_request no_assets))
    query (λ db. check_assets db p.deployment_id unique_ids)
    shipment ← insert_shipment p
    modify (λ db. record db {
      shipment_items = add_shipment_items shipment.id unique_ids db.shipment_items;
    })
    commit
    pure shipment
