-- ===== src/Tests/Tracking.antt =====
-- The tracking service on small payloads and tokens.
use feature_asset_inventory.Base.{
  ℕ, String, ◌≡◌, ◌↔◌, refl, none, some, [], ◌∷◌, map, arith, strip, lookup, insert, length, select,
  any,
}
use feature_asset_inventory.Store.Types.{Carrier, CarrierStatus}
use feature_asset_inventory.Python.Errors.{Outcome, value, raises, attribute_error, type_error}
use feature_asset_inventory.Python.Json.{
  Json, null, whole, text, array, object, nil, cons, empty, field,
}
use feature_asset_inventory.Tracking.{TrackingResult}
use feature_asset_inventory.Tracking.Parse.{
  Library, result_of, parse_ups_payload, parse_fedex_payload, join_places, each, ups_shape,
  ups_event,
}
use feature_asset_inventory.Tracking.Fetch.{
  Tokens, cached_token, store_token, Reply, json, failure, got, Provider, granted, provider_token,
  without_spaces, fetch_tracking,
}
use feature_asset_inventory.Tracking.Carriers.{
  detect_carrier, is_ups_number, is_fedex_number, all_chars, size,
}
use feature_asset_inventory.Tracking.Numbers.{IsUpsNumber, IsFedexNumber, detect_carrier_iff}
use feature_asset_inventory.Tracking.Laws.{provider_token_reused, fetch_tracking-raises}
use feature_asset_inventory.Tracking.Payload.{
  Activity, ups_payload, event_of, undated_event_stored_twice,
}
use feature_asset_inventory.Tracking.Scans.{Scan, fedex_payload}
use feature_asset_inventory.Tracking.Expected.{padded}
use feature_asset_inventory.Tracking.Reported.{
  reported, reported_scan, parse_ups-payload, parse_fedex-payload,
}
use feature_asset_inventory.Shipments.Refresh.{record_events}
use feature_asset_inventory.Tests.Data.{sqlite}

abbrev seconds_of : Json → Outcome ℕ
seconds_of (whole n) = value n
seconds_of _ = raises type_error

-- A library that reads no time.
abbrev library : Library
library = record {
  strptime = λ s. none;
  fromisoformat = λ s. none;
  dumps = λ j. "{}";
  show = λ j. "";
  message = λ e. "";
  int = seconds_of;
}

abbrev token_payload : Json
token_payload = object (field "access_token" (text "t") (field "expires_in" (whole 600) empty))

-- The first shipment is `null`.
abbrev null_shipment : Json
null_shipment =
    object (field "trackResponse" (object (field "shipment" (array (cons null nil)) empty)) empty)

abbrev provider : Provider
provider = record {
  key = "ups";
  client_id = "id";
  secret = "s";
  default_ttl = 14400;
  authorize = λ cid secret. json token_payload;
  track = λ token number. json null_shipment;
}

abbrev tokens : Tokens
tokens = ("ups", record { token = text "t"; expires_at = 700 }) ∷ []

abbrev down : String → String → Reply
down cid secret = failure "timeout"

provider_token_reused_example :
    ((provider_token library provider 99 100 []).0 ≡ got (some (text "t")))
    × (provider_token library (record provider { authorize = down }) 600 601 tokens
        ≡ (got (some (text "t")), tokens))
unfolding provider_token store_token cached_token granted lookup insert strip
provider_token_reused_example =
    provider_token_reused library provider 99 100 600 601 [] token_payload (text "t") 600 down refl
      refl refl refl refl refl (omega arith)

fetch_tracking-raises_example :
    fetch_tracking library provider provider Carrier.ups "1Z 9" 600 601 tokens
    ≡ (raises attribute_error, tokens)
unfolding provider_token cached_token lookup strip without_spaces
fetch_tracking-raises_example =
    fetch_tracking-raises library null_shipment null provider provider "1Z 9" 600 601 tokens tokens
      (text "t") (object (field "shipment" (array (cons null nil)) empty), nil, refl, refl) refl
      refl refl refl refl

-- The newest activity comes first.
abbrev arrived : Activity
arrived = record {
  kind = "D";
  description = "Delivered";
  city = "Graz";
  region = "";
  country = "AT";
  date = "20240102";
  time = "1015";
}

abbrev left_hub : Activity
left_hub = record arrived { kind = "I"; description = "Departed"; time = "" }

parse_ups-payload_example :
    parse_ups_payload library 50 (ups_payload (arrived ∷ left_hub ∷ []))
    ≡ value (record {
      status = CarrierStatus.delivered;
      events = map (reported library 50) (arrived ∷ left_hub ∷ []);
      error = none;
    })
unfolding any
parse_ups-payload_example = parse_ups-payload library 50 (arrived ∷ left_hub ∷ []) refl

arrived-reported : reported library 50 arrived ≡ record {
  occurred_at = 50;
  status = CarrierStatus.delivered;
  location = some "Graz, AT";
  description = some "Delivered";
  raw = some "{}";
}
unfolding select
arrived-reported = refl

padded-arrived : (padded "1015" ≡ "001015") × (padded "" ≡ "000000")
padded-arrived = (refl, refl)

abbrev polled : ℕ → TrackingResult
polled now = result_of (event_of library now arrived ∷ [])

parse-arrived :
    (now : ℕ) → parse_ups_payload library now (ups_payload (arrived ∷ [])) ≡ value (polled now)
unfolding parse_ups_payload ups_shape each ups_event join_places
parse-arrived now = refl

undated_event_stored_twice_example :
    length
      (record_events sqlite 1 (polled 60).events (record_events sqlite 1 (polled 50).events []))
    ≡ 2
undated_event_stored_twice_example =
    undated_event_stored_twice library sqlite 1 50 60 arrived (polled 50) (polled 60) refl
      (omega arith) (parse-arrived 50) (parse-arrived 60)

detect_carrier_iff_example :
    ((detect_carrier " 1Z999AA10123456784" ≡ Carrier.ups)
      ↔ IsUpsNumber (without_spaces (strip " 1Z999AA10123456784")))
    × ((detect_carrier " 1Z999AA10123456784" ≡ Carrier.fedex)
        ↔ IsFedexNumber (without_spaces (strip " 1Z999AA10123456784")))
detect_carrier_iff_example = detect_carrier_iff " 1Z999AA10123456784"

detect-both :
    (detect_carrier "1Z 999AA10123456784" ≡ Carrier.ups)
    × (detect_carrier "123456789012" ≡ Carrier.fedex)
unfolding detect_carrier is_ups_number is_fedex_number all_chars size without_spaces strip
detect-both = (refl, refl)

abbrev scanned : Scan
scanned = record {
  event_type = "DL";
  description = "Delivered";
  city = "Linz";
  region = "";
  country = "AT";
  date = "2025-01-15T08:30:00-06:00";
}

parse_fedex-payload_example :
    parse_fedex_payload library 50 (fedex_payload (scanned ∷ []))
    ≡ value (record {
      status = CarrierStatus.delivered;
      events = reported_scan library 50 scanned ∷ [];
      error = none;
    })
parse_fedex-payload_example = parse_fedex-payload library 50 (scanned ∷ [])
