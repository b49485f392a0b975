-- ===== src/Shipments/Refresh/Keeps.antt =====
-- Polling the carrier and the reservation rule: the rule is kept unless the carrier takes a parcel
-- back from "delivered" or "exception", which revives a reservation that had been released.
use feature_asset_inventory.Base.{
  ℕ, String, ◌≡◌, ◌≢◌, refl, inl, inr, true, false, none, some, arith, Option-cases, Bool-cases,
}
use feature_asset_inventory.Store.{Store}
use feature_asset_inventory.Store.Types.{Carrier, Resolution, is_final, is_inbound, is_unknown}
use feature_asset_inventory.Store.Table.{Database, get_row, put_row, id_of-get_row, get_row-put_row}
use feature_asset_inventory.Store.Rows.{Shipment, shipment_row, shipment_item_row}
use feature_asset_inventory.Store.Session.{Session, after}
use feature_asset_inventory.Tracking.{TrackingResult}
use feature_asset_inventory.Reservation.{is_shipment_active, by_shipment, on_shipment}
use feature_asset_inventory.Reservation.Reserve.{holds, IsReserved, put-IsReserved}
use feature_asset_inventory.Shipments.Refresh.{
  refresh_shipment, next_status, has_failed, polled, take_result, refresh_from,
}
use feature_asset_inventory.Shipments.Reserve.{ship_holds, ShipmentsReserved}

module _ (d : Database) (fetch : Carrier → String → TrackingResult) where
  -- The carrier's answer does not take a final status back.
  abbrev pub StaysFinal : ℕ → Store → Type 0
  StaysFinal k db =
      (s : Shipment)
      → get_row k db.shipments ≡ some s
      → is_final s.carrier_status ≡ true
      → is_final (next_status s.carrier_status (fetch s.carrier s.tracking_number).status) ≡ true

  abbrev result_of : Shipment → TrackingResult
  result_of s = fetch s.carrier s.tracking_number

  abbrev taken : Shipment → ℕ → Shipment
  taken s now = record (polled d fetch s now (result_of s)) {
    carrier_status = next_status s.carrier_status (result_of s).status;
  }

  module _ (k now : ℕ) (db : Store) (s : Shipment) (e : get_row k db.shipments ≡ some s)
      (v : ShipmentsReserved db) where
    abbrev Rewritten : Shipment → Type 0
    Rewritten t = IsReserved by_shipment (put_row t db.shipments) db.shipment_items

    -- A row with the same key, which is active only if the old one was.
    rewrite :
        (t : Shipment)
        → t.id ≡ s.id
        → (is_shipment_active t ≡ true → is_shipment_active s ≡ true)
        → Rewritten t
    rewrite t same keep =
        put-IsReserved by_shipment t db.shipments db.shipment_items
          (λ h. ground (arith, id_of-get_row k db.shipments e, keep h)) v

    abbrev start : Session
    start = record { work = db; saved = db }

    take_result-reserves :
        Rewritten (taken s now)
        → ShipmentsReserved (take_result d fetch s now (result_of s) start).1.saved
    unfolding take_result
    take_result-reserves w = elim (Bool-cases (is_inbound s.direction)) [
      | inl i ↦ ground arith
      | inr i ↦ ground arith
    ]

    refresh_from-reserves :
        (r : Resolution)
        → Rewritten (record s { last_polled_at = some now })
        → Rewritten (polled d fetch s now (result_of s))
        → Rewritten (taken s now)
        → ShipmentsReserved (refresh_from d fetch r s now start).1.saved
    unfolding refresh_from
    refresh_from-reserves Resolution.cancelled w₁ w₂ w₃ = w₁
    refresh_from-reserves _ w₁ w₂ w₃ = elim (Bool-cases (has_failed (result_of s))) [
      | inl failed ↦ ground arith
      | inr fine ↦ rw (fine, refresh_from) (take_result-reserves w₃)
    ]

  -- Whatever the carrier reports, a poll keeps the reservation rule of the shipments, provided that
  -- the report does not take a final status of the polled shipment back.
  pub refresh_shipment-reserves :
      (k now : ℕ) (db : Store)
      → StaysFinal k db
      → ShipmentsReserved db
      → ShipmentsReserved (after (refresh_shipment d fetch k now) db)
  unfolding refresh_shipment
  refresh_shipment-reserves k now db stays v = elim (Option-cases (get_row k db.shipments)) [
    | inl e ↦ ground arith
    | inr (s, e) ↦
        rw (e, after, refresh_shipment)
          (refresh_from-reserves k now db s e v s.resolution
            (rewrite k now db s e v (record s { last_polled_at = some now }) refl (λ h. h))
            (rewrite k now db s e v (polled d fetch s now (result_of s)) refl (λ h. h))
            (rewrite k now db s e v (taken s now) refl (λ h. ground (arith, stays s e))))
  ]

  module _ (k now : ℕ) (db : Store) (s : Shipment) (e : get_row k db.shipments ≡ some s)
      (unfinished : is_final (result_of s).status ≡ false)
      (known : is_unknown (result_of s).status ≡ false) (no_error : (result_of s).error ≡ none)
      (is_still_open : s.resolution ≡ Resolution.still_open) where
    refreshed :
        ((after (refresh_shipment d fetch k now) db).shipments ≡ put_row (taken s now) db.shipments)
        × ((after (refresh_shipment d fetch k now) db).shipment_items ≡ db.shipment_items)
    unfolding refresh_shipment
    refreshed = ground arith

  -- Let a shipment that is still open list an asset that another, active shipment holds. If the
  -- carrier, with no error, reports the first parcel in a known status that is not final, then after
  -- the poll the reservation rule of the shipments is broken.
  pub refresh_shipment-revives :
      (k j a now : ℕ) (db : Store) (s : Shipment)
      → get_row k db.shipments ≡ some s
      → s.resolution ≡ Resolution.still_open
      → on_shipment db.shipment_items k a ≡ true
      → ship_holds db j a ≡ true
      → j ≢ k
      → is_final (result_of s).status ≡ false
      → is_unknown (result_of s).status ≡ false
      → (result_of s).error ≡ none
      → ¬ ShipmentsReserved (after (refresh_shipment d fetch k now) db)
  unfolding holds
  refresh_shipment-revives k j a now db s e o listed held ne unfinished known no_error v =
      let (rows, items) = refreshed k now db s e unfinished known no_error o in
      ne (
        v.exclusive j k a
          (rw (rows, items)
            (ground (
              arith,
              id_of-get_row k db.shipments e,
              get_row-put_row j (taken s now) db.shipments,
            )))
          (rw (rows, items)
            (ground (
              arith,
              id_of-get_row k db.shipments e,
              get_row-put_row k (taken s now) db.shipments,
            ))))
