-- ===== src/Tracking/Payload.antt =====
-- UPS payloads of the documented shape, what the parser makes of them, and what two polls store.
use Prim.Native.String
use feature_asset_inventory.Base.{
  ℕ, ◌≢◌, String, ◌≡◌, refl, sym, ap, eq_iff, inl, inr, Option, none, some, List, [], ◌∷◌, map,
  arith, is_blank, or_none, if◌then◌else◌, any, select, length, lookup, ==-refl, Bool-cases,
}
use feature_asset_inventory.Store.Table.{Database}
use feature_asset_inventory.Python.Errors.{value}
use feature_asset_inventory.Python.Json.{
  Json, text, array, object, empty, or_else, field, values, items,
}
use feature_asset_inventory.Tracking.{TrackingEvent, TrackingResult}
use feature_asset_inventory.Tracking.Parse.{
  Library, ups_status_map, or_unknown, joined, join_places, zfill, or_now, each, result_of,
  ups_shape, ups_event, parse_ups_payload,
}
use feature_asset_inventory.Shipments.Refresh.{add_events, record_events}

pub record Activity : Type 0 where
  pub kind : String
  pub description : String
  pub city : String
  pub region : String
  pub country : String
  pub date : String
  pub time : String

abbrev pub address_json : Activity → Json
address_json a = object (
    field "city" (text a.city)
      (field "stateProvince" (text a.region) (field "country" (text a.country) empty)))

abbrev pub status_json : Activity → Json
status_json a = object (field "type" (text a.kind) (field "description" (text a.description) empty))

abbrev pub activity_json : Activity → Json
activity_json a = object (
    field "status" (status_json a) (
      field "location" (object (field "address" (address_json a) empty))
        (field "date" (text a.date) (field "time" (text a.time) empty))))

abbrev pub one_of : Json → Json
one_of j = array (values (j ∷ []))

-- `trackResponse.shipment[0].package[0].activity[]`
abbrev pub ups_payload : List Activity → Json
ups_payload acts = object (
    field "trackResponse"
      (object (
        field "shipment"
          (one_of (
            object (
              field "package"
                (one_of (object (field "activity" (array (values (map activity_json acts))) empty)))
                empty)))
          empty))
      empty)

-- The texts that are not empty, with commas between.
abbrev pub commas : List String → String
commas [] = ""
commas (s ∷ ss) = if is_blank s then commas ss else joined s (commas ss)

abbrev pub clock_text : String → String
clock_text t = if is_blank t then "000000" else t

pub or_else-text : (s : String) → or_else (text s) (text "") ≡ text s
or_else-text s = elim (Bool-cases (is_blank s)) [
  | inl e ↦ rw e (ap text (sym ((eq_iff s "").0 e)))
  | inr e ↦ rw e refl
]

or_else-clock : (t : String) → or_else (text t) (text "000000") ≡ text (clock_text t)
or_else-clock t = elim (Bool-cases (is_blank t)) [ inl e ↦ rw e refl | inr e ↦ rw e refl ]

module _ (lib : Library) where
  abbrev pub stamp : Activity → Option ℕ
  stamp a = lib.strptime (String.◌++◌ a.date (zfill (clock_text a.time)))

  -- The event of an activity: a time that cannot be read is the time of the poll.
  abbrev pub event_of : ℕ → Activity → TrackingEvent
  event_of now a = record {
    occurred_at = or_now (stamp a) now;
    status = or_unknown (lookup a.kind ups_status_map);
    location = or_none (commas (a.city ∷ a.region ∷ a.country ∷ []));
    description = some a.description;
    raw = some (lib.dumps (activity_json a));
  }

  pub join_places-commas :
      (a b c : String)
      → join_places (text a ∷ text b ∷ text c ∷ []) ≡ value (commas (a ∷ b ∷ c ∷ []))
  unfolding join_places
  join_places-commas a b c = refl

  ups_event-activity :
      (now : ℕ) (a : Activity) → ups_event lib now (activity_json a) ≡ value (event_of now a)
  unfolding ups_event
  ups_event-activity now a = rw (or_else-text a.kind) (
      rw (join_places-commas a.city a.region a.country)
        (rw (or_else-text a.date) (rw (or_else-clock a.time) refl)))

  each-activities :
      (now : ℕ) (acts : List Activity)
      → each (ups_event lib now) (items (values (map activity_json acts)))
        ≡ value (map (event_of now) acts)
  unfolding each
  each-activities now [] = refl
  each-activities now (a ∷ acts) = rw (ups_event-activity now a, each-activities now acts) refl

  -- The payload is read activity by activity.
  pub parse_activities :
      (now : ℕ) (acts : List Activity)
      → parse_ups_payload lib now (ups_payload acts) ≡ value (result_of (map (event_of now) acts))
  unfolding parse_ups_payload ups_shape
  parse_activities now [] = rw (each-activities now []) refl
  parse_activities now (a ∷ acts) = rw (each-activities now (a ∷ acts)) refl

  module _ (d : Database) (k : ℕ) where
    two_rows :
        (e e' : TrackingEvent)
        → e.occurred_at ≢ e'.occurred_at
        → length (record_events d k (e' ∷ []) (record_events d k (e ∷ []) [])) ≡ 2
    unfolding record_events add_events any select
    two_rows e e' n = ground (arith, ==-refl k)

  -- If the time of a UPS activity cannot be read, two polls at different times that get the same
  -- payload, with that activity alone, store two events for it.
  pub undated_event_stored_twice :
      (d : Database) (k t t' : ℕ) (a : Activity) (r r' : TrackingResult)
      → stamp a ≡ none
      → t ≢ t'
      → parse_ups_payload lib t (ups_payload (a ∷ [])) ≡ value r
      → parse_ups_payload lib t' (ups_payload (a ∷ [])) ≡ value r'
      → length (record_events d k r'.events (record_events d k r.events [])) ≡ 2
  undated_event_stored_twice d k t t' a r r' undated ne p p' =
      let first : r ≡ result_of (event_of t a ∷ []) = cc (p, parse_activities t (a ∷ [])) in
      let second : r' ≡ result_of (event_of t' a ∷ []) = cc (p', parse_activities t' (a ∷ [])) in
      rw (first, second) (two_rows d k (event_of t a) (event_of t' a) (λ e. ne (rw undated at e)))
