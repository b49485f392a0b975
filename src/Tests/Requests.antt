-- ===== src/Tests/Requests.antt =====
-- The theorems on single requests at concrete inputs.
use feature_asset_inventory.Base.{
  ℕ, ◌≡◌, refl, true, none, some, List, [], ◌∷◌, any, first, mem, strip,
}
use feature_asset_inventory.Base.Http.{ok, err, not_found, asset_not_found}
use feature_asset_inventory.Store.{Store}
use feature_asset_inventory.Store.Types.{CarrierStatus, DeploymentStatus}
use feature_asset_inventory.Store.Table.{get_row, ids}
use feature_asset_inventory.Store.Session.{after, reply}
use feature_asset_inventory.Store.Rows.{
  Shipment, Deployment, asset_row, shipment_row, deployment_row,
}
use feature_asset_inventory.Reservation.{
  on_shipment, other_active_shipment_for_asset, active_deployment_for_asset,
  active_shipment_for_asset,
}
use feature_asset_inventory.Reservation.Reserve.{lists}
use feature_asset_inventory.Reservation.AutoAssign.{auto_assign_ids, dedupe}
use feature_asset_inventory.Shipments.Check.{
  requested_ids, check_assets, check_asset, assert_asset_available_for_shipment,
}
use feature_asset_inventory.Shipments.Create.{create_shipment, new_shipment}
use feature_asset_inventory.Shipments.Created.{IsAvailable, create_shipment_lem}
use feature_asset_inventory.Deployments.Check.{assert_asset_available_for_deployment}
use feature_asset_inventory.Deployments.Create.{
  DeploymentCreate, create_deployment, new_deployment, check_items, add_deployment_items,
  add_deployment_item,
}
use feature_asset_inventory.Deployments.Items.{ItemRequest, add_item}
use feature_asset_inventory.Deployments.Lifecycle.{items_of, complete_deployment}
use feature_asset_inventory.Deployments.Reserve.{deploy_holds, DeploymentsReserved}
use feature_asset_inventory.Deployments.Keeps.{create_deployment-reserves}
use feature_asset_inventory.Deployments.Complete.{
  settled_row, completed_row, complete_deployment-rows,
}
use feature_asset_inventory.Deployments.Forced.{forced_move_ignores_shipments}
use feature_asset_inventory.Requests.Refused
use feature_asset_inventory.Requests.Refused.{Refused-unchanged}
use feature_asset_inventory.Tests.Data.{highest, sqlite, laptop, shelf, parcel}
use feature_asset_inventory.Tests.Reserving.{
  order, plan, shelf-ShipmentsReserved, shelf-DeploymentsReserved,
}

order_accepted : reply (create_shipment sqlite order) shelf ≡ ok (new_shipment order 1)
unfolding create_shipment requested_ids auto_assign_ids dedupe mem check_assets check_asset
    assert_asset_available_for_shipment other_active_shipment_for_asset active_deployment_for_asset
    first get_row highest ids
order_accepted = refl

create_shipment_lem_example :
    (aids : List ℕ) × (requested_ids shelf order ≡ ok aids)
    × (get_row 1 shelf.shipments ≡ none)
    × (get_row 1 (after (create_shipment sqlite order) shelf).shipments
        ≡ some (new_shipment order 1))
    × ((a : ℕ)
        → on_shipment (after (create_shipment sqlite order) shelf).shipment_items 1 a ≡ mem a aids)
    × ((a : ℕ) → mem a aids ≡ true → IsAvailable shelf none a)
create_shipment_lem_example =
    create_shipment_lem sqlite order shelf (new_shipment order 1) shelf-ShipmentsReserved
      order_accepted

abbrev rollout : Deployment
rollout = record (new_deployment plan 1) {
  status = DeploymentStatus.in_progress;
  target_location_id = some 4;
}

abbrev rolling_out : Store
rolling_out = record shelf {
  deployments = rollout ∷ [];
  deployment_items =
      record { id = 1; deployment_id = 1; asset_id = 2; role = none; notes = none } ∷ [];
}

complete_deployment-rows_example :
    (get_row 2 (after (complete_deployment sqlite 1 70 none) rolling_out).assets
      ≡ some (settled_row 4 (items_of 1 rolling_out) 2 (laptop 2 10)))
    × (get_row 1 (after (complete_deployment sqlite 1 70 none) rolling_out).deployments
        ≡ some (completed_row 70 none rollout))
unfolding get_row
complete_deployment-rows_example =
    complete_deployment-rows sqlite 1 70 none rolling_out rollout 4 2 refl refl refl refl

-- The first plan has the first laptop, which a shipment of that plan carries; the second has another.
abbrev second_plan : DeploymentCreate
second_plan = record plan { asset_ids = 2 ∷ [] }

abbrev first_planned : Store
first_planned = after (create_deployment sqlite plan) shelf

abbrev both_planned : Store
both_planned = after (create_deployment sqlite second_plan) first_planned

abbrev linked_parcel : Shipment
linked_parcel = record (parcel 1 CarrierStatus.in_transit) { deployment_id = some 1 }

abbrev under_way : Store
under_way = record both_planned {
  shipments = linked_parcel ∷ [];
  shipment_items = record { id = 1; shipment_id = 1; asset_id = 1 } ∷ [];
}

under_way-DeploymentsReserved : DeploymentsReserved under_way
under_way-DeploymentsReserved =
    create_deployment-reserves sqlite second_plan first_planned
      (create_deployment-reserves sqlite plan shelf shelf-DeploymentsReserved)

abbrev move_first : ItemRequest
move_first = record { asset_id = 1; role = none; notes = none; force = true; actor_upn = none }

forced_move_ignores_shipments_example :
    (deploy_holds (after (add_item sqlite 2 move_first) under_way) 2 1 ≡ true)
    × (active_shipment_for_asset (after (add_item sqlite 2 move_first) under_way) 1 (some 2)
        ≡ some linked_parcel)
unfolding create_deployment auto_assign_ids check_items assert_asset_available_for_deployment
    active_deployment_for_asset active_shipment_for_asset first dedupe mem get_row lists any
    add_deployment_items add_deployment_item highest ids strip
forced_move_ignores_shipments_example =
    forced_move_ignores_shipments sqlite 2 move_first under_way (new_deployment second_plan 2)
      (new_deployment plan 1) (laptop 1 30) linked_parcel under_way-DeploymentsReserved refl refl
      refl refl refl refl refl

abbrev missing_plan : DeploymentCreate
missing_plan = record plan { asset_ids = 1 ∷ 9 ∷ [] }

missing_refused :
    reply (create_deployment sqlite missing_plan) shelf ≡ err (not_found (asset_not_found 9))
unfolding create_deployment auto_assign_ids check_items assert_asset_available_for_deployment
    active_deployment_for_asset active_shipment_for_asset first dedupe mem get_row lists any highest
    ids
missing_refused = refl

Refused-unchanged_example : after (create_deployment sqlite missing_plan) shelf ≡ shelf
Refused-unchanged_example =
    Refused-unchanged sqlite shelf
      (Refused.create_deployment missing_plan (not_found (asset_not_found 9)) missing_refused)
