-- ===== src/Shipments/Refresh/Frame.antt =====
-- Polling the carrier changes no deployment.
use feature_asset_inventory.Base.{ℕ, String, refl, arith, inl, inr, Bool-cases, Option-cases}
use feature_asset_inventory.Store.{Store}
use feature_asset_inventory.Store.Types.{Carrier, Resolution, is_inbound}
use feature_asset_inventory.Store.Table.{Database, get_row}
use feature_asset_inventory.Store.Rows.{Shipment, shipment_row}
use feature_asset_inventory.Store.Session.{Session, after}
use feature_asset_inventory.Tracking.{TrackingResult}
use feature_asset_inventory.Shipments.Frame.{SameDeployments}
use feature_asset_inventory.Shipments.Refresh.{
  refresh_shipment, has_failed, take_result, refresh_from,
}

module _ (d : Database) (fetch : Carrier → String → TrackingResult) (now : ℕ) (db : Store) where
  abbrev start : Session
  start = record { work = db; saved = db }

  deployments-take_result :
      (s : Shipment) (result : TrackingResult)
      → SameDeployments db (take_result d fetch s now result start).1.saved
  unfolding take_result
  deployments-take_result s result = elim (Bool-cases (is_inbound s.direction)) [
    | inl i ↦ ground arith
    | inr i ↦ ground arith
  ]

  deployments-refresh_from :
      (s : Shipment) (r : Resolution)
      → SameDeployments db (refresh_from d fetch r s now start).1.saved
  unfolding refresh_from
  deployments-refresh_from s Resolution.cancelled = (refl, refl)
  deployments-refresh_from s _ =
      elim (Bool-cases (has_failed (fetch s.carrier s.tracking_number))) [
        | inl failed ↦ rw (failed, refresh_from) (refl, refl)
        | inr fine ↦
            rw (fine, refresh_from) (deployments-take_result s (fetch s.carrier s.tracking_number))
      ]

  pub deployments-refresh_shipment :
      (k : ℕ) → SameDeployments db (after (refresh_shipment d fetch k now) db)
  unfolding refresh_shipment
  deployments-refresh_shipment k = elim (Option-cases (get_row k db.shipments)) [
    | inl e ↦ rw (e, after, refresh_shipment) (refl, refl)
    | inr (s, e) ↦ rw (e, after, refresh_shipment) (deployments-refresh_from s s.resolution)
  ]
