-- ===== src/Tracking/Parse.antt =====
-- `_parse_ups_payload` and `_parse_fedex_payload` of app/services/tracking_service.py.
use Prim.Native.String
use Prim.Native.Char.{Char, code}
use feature_asset_inventory.Base.{
  ℕ, zero, suc, ◌-◌, String, Bool, true, false, ◌||◌, Option, none, some, List, [], ◌∷◌, ◌==◌,
  is_blank, or_none, if◌then◌else◌, Dict, lookup,
}
use feature_asset_inventory.Store.Types.{CarrierStatus}
use feature_asset_inventory.Python.Errors.{
  Error, Outcome, value, raises, type_error, attribute_error, ◌>>=◌,
}
use feature_asset_inventory.Python.Json.{
  Json, null, boolean, whole, number, text, array, object, nil, empty, truthy, or_else, item, get,
  get_or, at_zero, iterate,
}
use feature_asset_inventory.Tracking.{TrackingEvent, TrackingResult}

-- What the module uses of Python's library: `strptime` with "%Y%m%d%H%M%S" and `fromisoformat`, both
-- to seconds, or nothing where they raise; `json.dumps`; `str` of a JSON value and of an error; `int`.
pub record Library : Type 0 where
  pub strptime : String → Option ℕ
  pub fromisoformat : String → Option ℕ
  pub dumps : Json → String
  pub show : Json → String
  pub message : Error → String
  pub int : Json → Outcome ℕ

abbrev pub no_fields : Json
no_fields = object empty

abbrev pub ups_status_map : Dict CarrierStatus
ups_status_map =
    ("M", CarrierStatus.pending)
    ∷ ("P", CarrierStatus.pending)
    ∷ ("I", CarrierStatus.in_transit)
    ∷ ("O", CarrierStatus.out_for_delivery)
    ∷ ("D", CarrierStatus.delivered)
    ∷ ("X", CarrierStatus.exception)
    ∷ ("RS", CarrierStatus.exception)
    ∷ []

abbrev pub fedex_status_map : Dict CarrierStatus
fedex_status_map =
    ("PU", CarrierStatus.pending)
    ∷ ("OC", CarrierStatus.pending)
    ∷ ("AR", CarrierStatus.in_transit)
    ∷ ("DP", CarrierStatus.in_transit)
    ∷ ("IT", CarrierStatus.in_transit)
    ∷ ("AO", CarrierStatus.in_transit)
    ∷ ("HA", CarrierStatus.in_transit)
    ∷ ("HP", CarrierStatus.in_transit)
    ∷ ("RR", CarrierStatus.in_transit)
    ∷ ("HL", CarrierStatus.in_transit)
    ∷ ("OD", CarrierStatus.out_for_delivery)
    ∷ ("DL", CarrierStatus.delivered)
    ∷ ("DE", CarrierStatus.exception)
    ∷ ("SE", CarrierStatus.exception)
    ∷ ("CA", CarrierStatus.exception)
    ∷ []

abbrev pub or_unknown : Option CarrierStatus → CarrierStatus
or_unknown none = CarrierStatus.unknown
or_unknown (some s) = s

-- `MAP.get(code, "unknown")`: a list or a dictionary is no key.
abbrev pub status_of : Dict CarrierStatus → Json → Outcome CarrierStatus
status_of table (text s) = value (or_unknown (lookup s table))
status_of table (array js) = raises type_error
status_of table (object fs) = raises type_error
status_of table _ = value CarrierStatus.unknown

-- `", ".join(v for v in … if v)`
abbrev pub joined : String → String → String
joined s rest = if is_blank rest then s else String.◌++◌ s (String.◌++◌ ", " rest)

unfoldable pub join_places : List Json → Outcome String
join_places [] = value ""
join_places (text s ∷ js) = do
  rest ← join_places js
  value (if is_blank s then rest else joined s rest)
join_places (j ∷ js) = if truthy j then raises type_error else join_places js

-- A description goes to a text column: the database turns a number or a truth value into text, and
-- refuses a list or a dictionary. The source meets that refusal at the commit that follows.
abbrev pub text_column : Json → Outcome (Option String)
text_column null = value none
text_column (text s) = value (some s)
text_column (whole n) = value (some (feature_asset_inventory.Base.str n))
text_column (number s) = value (some s)
text_column (boolean true) = value (some "1")
text_column (boolean false) = value (some "0")
text_column (array js) = raises type_error
text_column (object fs) = raises type_error

unfoldable pub zeros : ℕ → String → String
zeros zero s = s
zeros (suc n) s = String.◌++◌ "0" (zeros n s)

abbrev is_sign : Char → Bool
is_sign c = code c == b'+' || code c == b'-'

-- `s.zfill(6)`: the zeros follow a sign.
unfoldable pub zfill : String → String
unfolding zeros
zfill String.[] = zeros 6 ""
zfill (String.◌∷◌ c s) =
    let missing = 6 - String.count (String.◌∷◌ c s) in
    if is_sign c then String.◌∷◌ c (zeros missing s) else zeros missing (String.◌∷◌ c s)

abbrev pub or_now : Option ℕ → ℕ → ℕ
or_now none now = now
or_now (some t) now = t

-- What the shape check finds: a message to stop with, or the list to go through.
pub data Shape : Type 0 where
  stop : String → Shape
  go : Json → Shape

-- `TrackingResult(status="unknown", error=…)`
abbrev pub failed : String → TrackingResult
failed error = record { status = CarrierStatus.unknown; events = []; error = some error }

-- The most recent event, which comes first, gives the status.
abbrev pub result_of : List TrackingEvent → TrackingResult
result_of [] = record { status = CarrierStatus.unknown; events = []; error = none }
result_of (e ∷ es) = record { status = e.status; events = e ∷ es; error = none }

unfoldable pub each : (Json → Outcome TrackingEvent) → List Json → Outcome (List TrackingEvent)
each event [] = value []
each event (j ∷ js) = do e ← event j; es ← each event js; value (e ∷ es)

abbrev pub finish : (Json → Outcome TrackingEvent) → Shape → Outcome TrackingResult
finish event (stop error) = value (failed error)
finish event (go activities) = do
  js ← iterate activities
  events ← each event js
  value (result_of events)

module _ (lib : Library) where
  -- `except (KeyError, IndexError, TypeError) as e`. The FedEx parser names no `IndexError`, and it
  -- indexes only lists and texts that are not empty.
  abbrev pub caught : String → Outcome Shape → Outcome Shape
  caught prefix (value s) = value s
  caught prefix (raises Error.attribute_error) = raises attribute_error
  caught prefix (raises Error.value_error) = raises Error.value_error
  caught prefix (raises e) = value (stop (String.◌++◌ prefix (lib.message e)))

  abbrev pub ups_packages : Json → Outcome Shape
  ups_packages packages =
      if truthy packages
      then (do
        parcel ← at_zero packages
        activities ← get_or "activity" (array nil) parcel
        value (go activities))
      else value (stop "UPS returned no packages.")

  abbrev pub ups_shipments : Json → Outcome Shape
  ups_shipments shipments =
      if truthy shipments
      then (do
        shipment ← at_zero shipments
        packages ← get_or "package" (array nil) shipment
        ups_packages packages)
      else value (stop "UPS returned no shipments.")

  unfoldable pub ups_shape : Json → Outcome Shape
  ups_shape payload = do
    response ← item "trackResponse" payload
    shipments ← item "shipment" response
    ups_shipments shipments

  abbrev pub ups_time : Json → Json → ℕ → ℕ
  ups_time (text date) (text time) now = or_now (lib.strptime (String.◌++◌ date (zfill time))) now
  ups_time _ _ now = now

  unfoldable pub ups_event : ℕ → Json → Outcome TrackingEvent
  ups_event now act = do
    st ← get_or "status" no_fields act
    status_type ← get_or "type" (text "") st
    normalized ← status_of ups_status_map status_type
    location_obj ← get_or "location" no_fields act
    addr ← get_or "address" no_fields location_obj
    city ← get "city" addr
    state ← get "stateProvince" addr
    country ← get "country" addr
    loc ← join_places (city ∷ state ∷ country ∷ [])
    description ← get "description" st
    date_str ← get_or "date" (text "") act
    time_str ← get_or "time" (text "000000") act
    column ← text_column description
    value (record {
      occurred_at = ups_time date_str time_str now;
      status = normalized;
      location = or_none loc;
      description = column;
      raw = some (lib.dumps act);
    })

  unfoldable pub parse_ups_payload : ℕ → Json → Outcome TrackingResult
  parse_ups_payload now payload =
      caught "UPS unexpected shape: " (ups_shape payload) >>= finish (ups_event now)

  abbrev pub fedex_first : Json → Outcome Shape
  fedex_first track = do
    track_err ← get_or "error" no_fields track
    error_code ← get "code" track_err
    error_message ← get "message" track_err
    scan_events ← get_or "scanEvents" (array nil) track
    value (
        if truthy error_code
        then stop (String.◌++◌ "FedEx: " (lib.show (or_else error_message error_code)))
        else go scan_events)

  abbrev pub fedex_tracks : Json → Outcome Shape
  fedex_tracks track_results =
      if truthy track_results
      then at_zero track_results >>= fedex_first
      else value (stop "FedEx returned no trackResults.")

  abbrev pub fedex_complete : Json → Outcome Shape
  fedex_complete complete =
      if truthy complete
      then (do
        one ← at_zero complete
        track_results ← get_or "trackResults" (array nil) one
        fedex_tracks track_results)
      else value (stop "FedEx returned no results.")

  unfoldable pub fedex_shape : Json → Outcome Shape
  fedex_shape payload = do
    output ← item "output" payload
    complete ← item "completeTrackResults" output
    fedex_complete complete

  abbrev pub fedex_time : Json → ℕ → ℕ
  fedex_time (text date) now = or_now (lib.fromisoformat date) now
  fedex_time _ now = now

  unfoldable pub fedex_event : ℕ → Json → Outcome TrackingEvent
  fedex_event now ev = do
    event_type ← get_or "eventType" (text "") ev
    normalized ← status_of fedex_status_map event_type
    scan_loc ← get_or "scanLocation" no_fields ev
    city ← get "city" scan_loc
    state ← get "stateOrProvinceCode" scan_loc
    country ← get "countryCode" scan_loc
    loc ← join_places (city ∷ state ∷ country ∷ [])
    description ← get "eventDescription" ev
    date_str ← get_or "date" (text "") ev
    column ← text_column description
    value (record {
      occurred_at = fedex_time date_str now;
      status = normalized;
      location = or_none loc;
      description = column;
      raw = some (lib.dumps ev);
    })

  unfoldable pub parse_fedex_payload : ℕ → Json → Outcome TrackingResult
  parse_fedex_payload now payload =
      caught "FedEx unexpected shape: " (fedex_shape payload) >>= finish (fedex_event now)
