-- ===== src/Shipments/Refresh.antt =====
-- `refresh_shipment` and `_on_inbound_delivered` of app/services/shipment_service.py. What
-- `fetch_tracking` answers comes from the carrier: it is an argument here.
pub mod Keeps
pub mod Frame
pub mod Events
pub mod Delivery
use feature_asset_inventory.Base.{
  ℕ, String, Bool, true, false, ◌&&◌, not, Option, none, some, List, [], ◌∷◌, ◌++◌, map, ◌==◌,
  opt_eq, opt_str_eq, any, select, is_blank, is_empty, is_some, if◌then◌else◌,
}
use feature_asset_inventory.Base.Http.{ok}
use feature_asset_inventory.Store.{Store}
use feature_asset_inventory.Store.Types.{
  Carrier, CarrierStatus, Resolution, is_delivered, is_unknown, is_inbound,
}
use feature_asset_inventory.Store.Table.{Database, get_row, put_row, ids}
use feature_asset_inventory.Store.Rows.{
  Asset, Shipment, ShipmentItem, ShipmentEvent, asset_row, shipment_row, shipment_event_row,
}
use feature_asset_inventory.Store.Session.{Action, pure, query, modify, commit, ◌>>=◌, ◌>>◌}
use feature_asset_inventory.Tracking.{TrackingEvent, TrackingResult}
use feature_asset_inventory.Shipments.Items.{get_shipment}
use feature_asset_inventory.Shipments.Header.{save_shipment}

abbrev pub status_code : CarrierStatus → ℕ
status_code CarrierStatus.pending = 0
status_code CarrierStatus.in_transit = 1
status_code CarrierStatus.out_for_delivery = 2
status_code CarrierStatus.delivered = 3
status_code CarrierStatus.exception = 4
status_code CarrierStatus.unknown = 5

-- The key `(occurred_at, status, description)` by which events are told apart.
pub record EventKey : Type 0 where
  pub occurred_at : ℕ
  pub status : CarrierStatus
  pub description : Option String

abbrev pub same_key : EventKey → EventKey → Bool
same_key a b =
    a.occurred_at == b.occurred_at
    && status_code a.status == status_code b.status
    && opt_str_eq a.description b.description

abbrev pub key_of : TrackingEvent → EventKey
key_of e = record { occurred_at = e.occurred_at; status = e.status; description = e.description }

abbrev pub stored_key : ShipmentEvent → EventKey
stored_key e = record {
  occurred_at = e.occurred_at;
  status = e.status;
  description = e.description;
}

module _ (d : Database) where
  abbrev pub event_row : ℕ → List ShipmentEvent → TrackingEvent → ShipmentEvent
  event_row shipment_id table e = record {
    id = d.fresh (ids table);
    shipment_id = shipment_id;
    occurred_at = e.occurred_at;
    status = e.status;
    location = e.location;
    description = e.description;
    raw_json = e.raw;
  }

  -- The loop over the carrier's events; `keys` is `existing_keys`.
  unfoldable pub add_events :
      ℕ → List EventKey → List TrackingEvent → List ShipmentEvent → List ShipmentEvent
  add_events shipment_id keys [] table = table
  add_events shipment_id keys (e ∷ es) table =
      let seen = any (same_key (key_of e)) keys in
      add_events shipment_id (if seen then keys else key_of e ∷ keys) es
        (if seen then table else table ++ event_row shipment_id table e ∷ [])

  unfoldable pub record_events : ℕ → List TrackingEvent → List ShipmentEvent → List ShipmentEvent
  record_events shipment_id events table =
      add_events shipment_id (map stored_key (select (λ e. e.shipment_id == shipment_id) table))
        events table

-- One asset of a delivered shipment: it is moved unless it is gone, archived or there already.
move_asset : Option ℕ → ℕ → List Asset → List Asset
move_asset location_id asset_id assets = elim (get_row asset_id assets) [
  | none ↦ assets
  | some a ↦ elim location_id [
    | none ↦ assets
    | some l ↦
        if is_some a.archived_at
        then assets
        else if not (l == 0) && not (opt_eq a.location_id (some l))
        then put_row (record a { location_id = some l }) assets
        else assets
  ]
]

unfoldable pub on_inbound_delivered : Option ℕ → List ShipmentItem → List Asset → List Asset
unfolding move_asset
on_inbound_delivered location_id [] assets = assets
on_inbound_delivered location_id (i ∷ items) assets =
    on_inbound_delivered location_id items (move_asset location_id i.asset_id assets)

abbrev pub items_of : ℕ → Store → List ShipmentItem
items_of shipment_id db = select (λ i. i.shipment_id == shipment_id) db.shipment_items

-- `result.error and not result.events`
abbrev pub has_failed : TrackingResult → Bool
has_failed result = elim result.error [
  | none ↦ false
  | some e ↦ not (is_blank e) && is_empty result.events
]

-- A known status replaces the old one.
abbrev pub next_status : CarrierStatus → CarrierStatus → CarrierStatus
next_status old new = if is_unknown new then old else new

module _ (d : Database) (fetch_tracking : Carrier → String → TrackingResult) where
  abbrev polled : Shipment → ℕ → TrackingResult → Shipment
  polled shipment now result = record shipment {
    last_polled_at = some now;
    last_poll_error = result.error;
  }

  -- The side effect when a parcel to us has just been delivered.
  deliver : Shipment → CarrierStatus → Action (Unit {0})
  deliver shipment status =
      if not (is_delivered shipment.carrier_status)
        && is_delivered status
        && is_inbound shipment.direction
      then (do
        modify (λ db. record db {
          assets = on_inbound_delivered shipment.to_location_id (items_of shipment.id db) db.assets;
        })
        commit)
      else pure tt

  -- The second half of `refresh_shipment`: events, status, delivery.
  take_result : Shipment → ℕ → TrackingResult → Action Shipment
  unfolding save_shipment deliver
  take_result shipment now result = do
    let status = next_status shipment.carrier_status result.status
    modify (λ db. record db {
      shipment_events = record_events d shipment.id result.events db.shipment_events;
    })
    refreshed ← save_shipment (record (polled shipment now result) { carrier_status = status })
    deliver shipment status
    pure refreshed

  refresh_from : Resolution → Shipment → ℕ → Action Shipment
  unfolding take_result save_shipment
  refresh_from Resolution.cancelled shipment now =
      save_shipment (record shipment { last_polled_at = some now })
  refresh_from _ shipment now =
      let result = fetch_tracking shipment.carrier shipment.tracking_number in
      if has_failed result
      then save_shipment (polled shipment now result)
      else take_result shipment now result

  unfoldable pub refresh_shipment : ℕ → ℕ → Action Shipment
  unfolding refresh_from
  refresh_shipment shipment_id now = do
    shipment ← query (get_shipment shipment_id)
    refresh_from shipment.resolution shipment now
