-- ===== src/Tests/Reserving.antt =====
-- The theorems on reservations at concrete inputs.
use feature_asset_inventory.Base.{
  ◌≡◌, refl, String, true, none, some, [], ◌∷◌, arith, any, first, mem,
}
use feature_asset_inventory.Base.Http.{ok}
use feature_asset_inventory.Store.{Store}
use feature_asset_inventory.Store.Types.{Direction, Carrier, CarrierStatus}
use feature_asset_inventory.Store.Table.{get_row, ids}
use feature_asset_inventory.Store.Session.{Session, after}
use feature_asset_inventory.Store.Rows.{shipment_row, deployment_row}
use feature_asset_inventory.Tracking.{TrackingResult}
use feature_asset_inventory.Reservation.{active_deployment_for_asset, active_shipment_for_asset}
use feature_asset_inventory.Reservation.AutoAssign.{auto_assign_ids, dedupe}
use feature_asset_inventory.Reservation.Reserve.{holds, lists}
use feature_asset_inventory.Shipments.Check.{ShipmentCreate}
use feature_asset_inventory.Shipments.Create.{create_shipment}
use feature_asset_inventory.Shipments.Refresh.{refresh_shipment}
use feature_asset_inventory.Shipments.Refresh.Keeps.{
  refresh_shipment-reserves, refresh_shipment-revives,
}
use feature_asset_inventory.Shipments.Reserve.{ShipmentsReserved}
use feature_asset_inventory.Shipments.Keeps.{create_shipment-reserves}
use feature_asset_inventory.Deployments.Check.{
  assert_asset_available_for_deployment, other_planning,
}
use feature_asset_inventory.Deployments.Create.{
  DeploymentCreate, create_deployment, check_items, add_deployment_items, add_deployment_item,
}
use feature_asset_inventory.Deployments.Reserve.{DeploymentsReserved}
use feature_asset_inventory.Deployments.Keeps.{create_deployment-reserves}
use feature_asset_inventory.Deployments.Release.{Passed, check-Passed}
use feature_asset_inventory.Requests
use feature_asset_inventory.Requests.{IsReservedDb, here, next, Reach-reserves}
use feature_asset_inventory.Tests.Data.{highest, sqlite, shelf, parcel}

abbrev pub order : ShipmentCreate
order = record {
  tracking_number = "1Z";
  carrier = Carrier.ups;
  direction = Direction.inbound;
  description = none;
  notes = none;
  from_location_id = none;
  from_address = none;
  to_location_id = some 1;
  to_address = none;
  asset_ids = 1 ∷ [];
  auto_assign = [];
  actor_upn = none;
  deployment_id = none;
}

abbrev pub plan : DeploymentCreate
plan = record {
  name = "Office";
  type = none;
  target_date = none;
  description = none;
  target_location_id = none;
  target_address = none;
  notes = none;
  asset_ids = 1 ∷ [];
  auto_assign = [];
  actor_upn = none;
}

pub shelf-ShipmentsReserved : ShipmentsReserved shelf
unfolding holds lists any get_row
shelf-ShipmentsReserved = record {
  keyed = tt;
  known = λ i a h. absurd (ground arith);
  exclusive = λ i j a h _. absurd (ground arith);
}

pub shelf-DeploymentsReserved : DeploymentsReserved shelf
unfolding holds lists any get_row
shelf-DeploymentsReserved = record {
  keyed = tt;
  known = λ i a h. absurd (ground arith);
  exclusive = λ i j a h _. absurd (ground arith);
}

abbrev ordered : Store
ordered = after (create_shipment sqlite order) shelf

Reach-reserves_example : IsReservedDb sqlite (after (create_deployment sqlite plan) ordered)
Reach-reserves_example =
    Reach-reserves sqlite
      (next (next here (Requests.create_shipment order)) (Requests.create_deployment plan))
      (record { shipments = shelf-ShipmentsReserved; deployments = shelf-DeploymentsReserved })

abbrev report : CarrierStatus → Carrier → String → TrackingResult
report status carrier tracking_number = record { status = status; events = []; error = none }

refresh_shipment-reserves_example :
    ShipmentsReserved
      (after (refresh_shipment sqlite (report CarrierStatus.delivered) 1 60) ordered)
refresh_shipment-reserves_example =
    refresh_shipment-reserves sqlite (report CarrierStatus.delivered) 1 60 ordered (λ s e f. refl)
      (create_shipment-reserves sqlite order shelf shelf-ShipmentsReserved)

-- The first parcel is in exception, and its laptop is on its way again in the second.
abbrev replaced : Store
replaced = record shelf {
  shipments = parcel 1 CarrierStatus.exception ∷ parcel 2 CarrierStatus.pending ∷ [];
  shipment_items =
      record { id = 1; shipment_id = 1; asset_id = 3 }
      ∷ record { id = 2; shipment_id = 2; asset_id = 3 }
      ∷ [];
}

refresh_shipment-revives_example :
    ¬ ShipmentsReserved
      (after (refresh_shipment sqlite (report CarrierStatus.in_transit) 1 60) replaced)
unfolding get_row holds lists any
refresh_shipment-revives_example =
    refresh_shipment-revives sqlite (report CarrierStatus.in_transit) 1 2 3 60 replaced
      (parcel 1 CarrierStatus.exception) refl refl refl refl (λ e. cc) refl refl refl

abbrev planned : Store
planned = after (create_deployment sqlite plan) shelf

abbrev planned_session : Session
planned_session = record { work = planned; saved = planned }

planned_check :
    (assert_asset_available_for_deployment 1 (some 2) true planned_session).0 ≡ ok (some 1)
unfolding assert_asset_available_for_deployment create_deployment active_deployment_for_asset first
    auto_assign_ids check_items dedupe mem get_row lists any active_shipment_for_asset
    add_deployment_items add_deployment_item highest ids other_planning
planned_check = refl

check-Passed_example :
    Passed 1 2 planned_session
      (assert_asset_available_for_deployment 1 (some 2) true planned_session).1
check-Passed_example =
    check-Passed 1 2 true planned_session (some 1)
      (create_deployment-reserves sqlite plan shelf shelf-DeploymentsReserved) planned_check
