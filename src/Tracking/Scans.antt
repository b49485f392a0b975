-- ===== src/Tracking/Scans.antt =====
-- FedEx payloads of the documented shape, and what the parser makes of them.
use feature_asset_inventory.Base.{ℕ, String, ◌≡◌, refl, some, List, [], ◌∷◌, map, or_none, lookup}
use feature_asset_inventory.Python.Errors.{value}
use feature_asset_inventory.Python.Json.{Json, text, array, object, empty, field, values, items}
use feature_asset_inventory.Tracking.{TrackingEvent}
use feature_asset_inventory.Tracking.Parse.{
  Library, fedex_status_map, or_unknown, or_now, each, result_of, fedex_shape, fedex_event,
  parse_fedex_payload,
}
use feature_asset_inventory.Tracking.Payload.{one_of, commas, or_else-text, join_places-commas}

pub record Scan : Type 0 where
  pub event_type : String
  pub description : String
  pub city : String
  pub region : String
  pub country : String
  pub date : String

abbrev pub scan_location : Scan → Json
scan_location s = object (
    field "city" (text s.city)
      (field "stateOrProvinceCode" (text s.region) (field "countryCode" (text s.country) empty)))

abbrev pub scan_json : Scan → Json
scan_json s = object (
    field "eventType" (text s.event_type) (
      field "scanLocation" (scan_location s)
        (field "eventDescription" (text s.description) (field "date" (text s.date) empty))))

-- `output.completeTrackResults[0].trackResults[0].scanEvents[]`
abbrev pub fedex_payload : List Scan → Json
fedex_payload scans = object (
    field "output"
      (object (
        field "completeTrackResults"
          (one_of (
            object (
              field "trackResults"
                (one_of (object (field "scanEvents" (array (values (map scan_json scans))) empty)))
                empty)))
          empty))
      empty)

module _ (lib : Library) where
  -- The event of a scan: a time that cannot be read is the time of the poll.
  abbrev pub event_of_scan : ℕ → Scan → TrackingEvent
  event_of_scan now s = record {
    occurred_at = or_now (lib.fromisoformat s.date) now;
    status = or_unknown (lookup s.event_type fedex_status_map);
    location = or_none (commas (s.city ∷ s.region ∷ s.country ∷ []));
    description = some s.description;
    raw = some (lib.dumps (scan_json s));
  }

  fedex_event-scan :
      (now : ℕ) (s : Scan) → fedex_event lib now (scan_json s) ≡ value (event_of_scan now s)
  unfolding fedex_event
  fedex_event-scan now s =
      rw (or_else-text s.event_type)
        (rw (join_places-commas lib s.city s.region s.country) (rw (or_else-text s.date) refl))

  each-scans :
      (now : ℕ) (scans : List Scan)
      → each (fedex_event lib now) (items (values (map scan_json scans)))
        ≡ value (map (event_of_scan now) scans)
  unfolding each
  each-scans now [] = refl
  each-scans now (s ∷ scans) = rw (fedex_event-scan now s, each-scans now scans) refl

  -- The payload is read scan by scan.
  pub parse_scans :
      (now : ℕ) (scans : List Scan)
      → parse_fedex_payload lib now (fedex_payload scans)
        ≡ value (result_of (map (event_of_scan now) scans))
  unfolding parse_fedex_payload fedex_shape
  parse_scans now [] = rw (each-scans now []) refl
  parse_scans now (s ∷ scans) = rw (each-scans now (s ∷ scans)) refl
