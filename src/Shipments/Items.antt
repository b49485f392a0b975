-- ===== src/Shipments/Items.antt =====
-- `get_shipment`, `add_item` and `remove_item` of app/services/shipment_service.py.
use feature_asset_inventory.Base.{
  ℕ, String, ◌&&◌, not, Option, none, some, List, ◌==◌, first, is_none, if◌then◌else◌,
}
use feature_asset_inventory.Base.Http.{
  Result, ok, raise_if, or_raise, not_found, conflict, asset_not_found, shipment_not_found,
  item_not_found, closed_shipment,
}
use feature_asset_inventory.Store.{Store}
use feature_asset_inventory.Store.Table.{Database, get_row, put_row, drop_row, ids}
use feature_asset_inventory.Store.Rows.{
  Shipment, ShipmentItem, asset_row, shipment_row, shipment_item_row,
}
use feature_asset_inventory.Store.Session.{Action, pure, query, modify, commit, ◌>>=◌, ◌>>◌}
use feature_asset_inventory.Reservation.{is_shipment_active}
use feature_asset_inventory.Shipments.Check.{assert_asset_available_for_shipment}
use feature_asset_inventory.Shipments.Create.{add_shipment_item}

abbrev pub get_shipment : ℕ → Store → Result Shipment
get_shipment shipment_id db =
    or_raise (get_row shipment_id db.shipments) (not_found shipment_not_found)

-- The item of a shipment with an asset.
unfoldable pub find_item : List ShipmentItem → ℕ → ℕ → Option ShipmentItem
find_item items shipment_id asset_id =
    first (λ i. i.shipment_id == shipment_id && i.asset_id == asset_id) items

-- `shipment.updated_by_upn = actor_upn`
abbrev pub touch_shipment : Shipment → Option String → Store → Store
touch_shipment shipment actor_upn db = record db {
  shipments = put_row (record shipment { updated_by_upn = actor_upn }) db.shipments;
}

module _ (d : Database) where
  insert_item : ℕ → ℕ → Action ShipmentItem
  insert_item shipment_id asset_id s = (
    ok (record {
      id = d.fresh (ids s.work.shipment_items);
      shipment_id = shipment_id;
      asset_id = asset_id;
    }),
    record s {
      work = record s.work {
        shipment_items = add_shipment_item d shipment_id asset_id s.work.shipment_items;
      };
    },
  )

  -- The rest of `add_item` once the checks have passed.
  add_if_new : Shipment → ℕ → ℕ → Option String → Option ShipmentItem → Action ShipmentItem
  unfolding insert_item
  add_if_new shipment shipment_id asset_id actor_upn (some existing) = pure existing
  add_if_new shipment shipment_id asset_id actor_upn none = do
    item ← insert_item shipment_id asset_id
    modify (touch_shipment shipment actor_upn)
    commit
    pure item

  unfoldable pub add_item : ℕ → ℕ → Option String → Action ShipmentItem
  unfolding add_if_new
  add_item shipment_id asset_id actor_upn = do
    shipment ← query (get_shipment shipment_id)
    query (λ db. raise_if (not (is_shipment_active shipment)) (conflict closed_shipment))
    query (λ db.
        raise_if (is_none (get_row asset_id db.assets)) (not_found (asset_not_found asset_id)))
    query (λ db.
        assert_asset_available_for_shipment db asset_id (some shipment_id) shipment.deployment_id)
    existing ← query (λ db. ok (find_item db.shipment_items shipment_id asset_id))
    add_if_new shipment shipment_id asset_id actor_upn existing

-- `item is None or item.shipment_id != shipment_id`
abbrev pub item_of : ℕ → Option ShipmentItem → Option ShipmentItem
item_of shipment_id none = none
item_of shipment_id (some i) = if i.shipment_id == shipment_id then some i else none

unfoldable pub remove_item : ℕ → ℕ → Option String → Action (Unit {0})
remove_item shipment_id item_id actor_upn = do
  shipment ← query (get_shipment shipment_id)
  query (λ db. raise_if (not (is_shipment_active shipment)) (conflict closed_shipment))
  item ← query (λ db.
      or_raise (item_of shipment_id (get_row item_id db.shipment_items)) (not_found item_not_found))
  modify (λ db. record db { shipment_items = drop_row item.id db.shipment_items })
  modify (touch_shipment shipment actor_upn)
  commit
