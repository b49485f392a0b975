-- ===== src/Tests/Assets.antt =====
-- The theorems on assets, auto-assign and carrier events at concrete inputs.
use mathlib.Core.List.{Perm}
use feature_asset_inventory.Base.{
  ℕ, ◌≤◌, ◌≡◌, refl, String, Bool, true, Option, none, some, List, [], ◌∷◌, ◌++◌, length, mem,
  arith,
}
use feature_asset_inventory.Base.Http.{err, conflict, archived, already_archived}
use feature_asset_inventory.Store.Types.{CarrierStatus}
use feature_asset_inventory.Store.Table.{get_row}
use feature_asset_inventory.Store.Rows.{Asset, ShipmentItem, asset_row}
use feature_asset_inventory.Store.Session.{after, request}
use feature_asset_inventory.Tracking.{TrackingEvent}
use feature_asset_inventory.Reservation.AutoAssign.{AutoAssign, pick_assets, dedupe}
use feature_asset_inventory.Reservation.AutoAssign.Pick
use feature_asset_inventory.Reservation.AutoAssign.Pick.{pick_assets_oldest, qualified, NotBefore}
use feature_asset_inventory.Reservation.AutoAssign.Dedupe.{IsDistinct, dedupe_lem}
use feature_asset_inventory.Shipments.Refresh.{record_events, on_inbound_delivered}
use feature_asset_inventory.Shipments.Refresh.Events
use feature_asset_inventory.Shipments.Refresh.Events.{
  is_stored, record_events-All, record_events_twice,
}
use feature_asset_inventory.Shipments.Refresh.Delivery.{delivered_row, on_inbound_delivered-rows}
use feature_asset_inventory.Inventory.{AssetAssign, assign_asset, change_status, archive_asset}
use feature_asset_inventory.Inventory.Laws.{AreSound, archive, AssetStep-AreSound}
use feature_asset_inventory.Inventory.Archived.{archived_is_final}
use feature_asset_inventory.Tests.Data.{sqlite, laptop, laptops, shelf}

abbrev pub two_laptops : AutoAssign
two_laptops = record { asset_type = "laptop"; quantity = 2; model = some "X1"; manufacturer = none }

abbrev anything : Asset → Bool
anything a = true

pick_assets_oldest_example :
    (rest : List Asset) × Perm
      (pick_assets anything laptops two_laptops ++ rest)
      (qualified anything laptops two_laptops)
    × Pick.All (λ a. NotBefore a.onboarded_at rest) (pick_assets anything laptops two_laptops)
    × (length (pick_assets anything laptops two_laptops) ≤ 2)
pick_assets_oldest_example = pick_assets_oldest anything laptops two_laptops

dedupe_lem_example :
    IsDistinct (dedupe (1 ∷ 2 ∷ 1 ∷ []))
    × ((k : ℕ) → mem k (dedupe (1 ∷ 2 ∷ 1 ∷ [])) ≡ mem k (1 ∷ 2 ∷ 1 ∷ []))
dedupe_lem_example = dedupe_lem (1 ∷ 2 ∷ 1 ∷ [])

abbrev scan : ℕ → TrackingEvent
scan occurred_at = record {
  occurred_at = occurred_at;
  status = CarrierStatus.in_transit;
  location = none;
  description = some "Scanned";
  raw = none;
}

abbrev scans : List TrackingEvent
scans = scan 5 ∷ scan 9 ∷ scan 5 ∷ []

record_events-All_example :
    Events.All (λ e. is_stored 1 (record_events sqlite 1 scans []) e ≡ true) scans
record_events-All_example = record_events-All sqlite 1 scans []

record_events_twice_example :
    record_events sqlite 1 scans (record_events sqlite 1 scans []) ≡ record_events sqlite 1 scans []
record_events_twice_example = record_events_twice sqlite 1 scans []

abbrev parcel_items : List ShipmentItem
parcel_items = record { id = 1; shipment_id = 1; asset_id = 2 } ∷ []

on_inbound_delivered-rows_example :
    get_row 2 (on_inbound_delivered (some 4) parcel_items laptops)
    ≡ some (delivered_row 4 parcel_items 2 (laptop 2 10))
unfolding get_row
on_inbound_delivered-rows_example =
    on_inbound_delivered-rows 4 2 parcel_items laptops (λ e. cc) refl

shelf-AreSound : AreSound shelf.assets
unfolding get_row
shelf-AreSound k a e = ground arith

AssetStep-AreSound_example : AreSound (after (archive_asset sqlite 2 50 none none) shelf).assets
AssetStep-AreSound_example = AssetStep-AreSound sqlite (archive 2 50 none none) shelf-AreSound

abbrev retired_laptop : Asset
retired_laptop = record (laptop 2 10) { status_code = "retired"; archived_at = some 50 }

archived_is_final_example :
    let db' = after (archive_asset sqlite 2 50 none none) shelf in
    ((p : AssetAssign) (t : ℕ) (who : Option String)
      → request (assign_asset sqlite 2 p t who) db' ≡ (err (conflict archived), db'))
    × ((code : String) (note who : Option String)
        → request (change_status sqlite 2 code note who) db' ≡ (err (conflict archived), db'))
    × ((t : ℕ) (note who : Option String)
        → request (archive_asset sqlite 2 t note who) db' ≡ (err (conflict already_archived), db'))
unfolding archive_asset get_row
archived_is_final_example = archived_is_final sqlite 2 50 none none shelf retired_laptop refl
