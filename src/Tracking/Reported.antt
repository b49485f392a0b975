-- ===== src/Tracking/Reported.antt =====
-- What the parsers make of payloads of the documented shape, event by event.
use Prim.Native.String
use feature_asset_inventory.Base.{
  ℕ, String, ◌≡◌, refl, ap, ◌∙◌, inl, inr, false, not, Option, none, some, List, [], ◌∷◌, map,
  arith, is_blank, or_none, any, select, eq_iff, Bool-cases,
}
use text.Mathlib.TextLemmas.{append-eq-nil_iff}
use feature_asset_inventory.Store.Types.{CarrierStatus}
use feature_asset_inventory.Python.Errors.{value}
use feature_asset_inventory.Tracking.{TrackingEvent}
use feature_asset_inventory.Tracking.Parse.{
  Library, or_now, joined, result_of, parse_ups_payload, parse_fedex_payload,
}
use feature_asset_inventory.Tracking.Payload.{
  Activity, activity_json, ups_payload, commas, event_of, parse_activities,
}
use feature_asset_inventory.Tracking.Scans.{
  Scan, scan_json, fedex_payload, event_of_scan, parse_scans,
}
use feature_asset_inventory.Tracking.Expected.{
  ups_meaning, fedex_meaning, ups_status-meaning, fedex_status-meaning, padded, starts_with_sign,
  zfill-padded,
}

-- Texts with a comma and a space between two of them.
abbrev pub separated : List String → String
separated [] = ""
separated (s ∷ []) = s
separated (s ∷ t ∷ ss) = String.◌++◌ s (String.◌++◌ ", " (separated (t ∷ ss)))

abbrev pub place_of : List String → Option String
place_of [] = none
place_of (s ∷ ss) = some (separated (s ∷ ss))

-- The parts of a place that are not empty, or nothing if all are.
abbrev pub place : List String → Option String
place parts = place_of (select (λ s. not (is_blank s)) parts)

abbrev AllNamed : List String → Type 0
AllNamed [] = Unit
AllNamed (s ∷ ss) = (is_blank s ≡ false) × AllNamed ss

select-AllNamed : (ss : List String) → AllNamed (select (λ s. not (is_blank s)) ss)
unfolding select
select-AllNamed [] = tt
select-AllNamed (s ∷ ss) = elim (Bool-cases (is_blank s)) [
  | inl e ↦ rw e (select-AllNamed ss)
  | inr e ↦ rw e (e, select-AllNamed ss)
]

append-is_blank : (s t : String) → is_blank s ≡ false → is_blank (String.◌++◌ s t) ≡ false
append-is_blank s t h = elim (Bool-cases (is_blank (String.◌++◌ s t))) [
  | inl e ↦
      let empty : s ≡ "" =
        ((append-eq-nil_iff {p = s} {q = t}).0 ((eq_iff (String.◌++◌ s t) "").0 e)).0 in
      absurd (ground (arith, eq_iff s ""))
  | inr e ↦ e
]

separated-is_blank :
    (s : String) (ss : List String) → is_blank s ≡ false → is_blank (separated (s ∷ ss)) ≡ false
separated-is_blank s [] h = h
separated-is_blank s (t ∷ ss) h = append-is_blank s _ h

joined-separated :
    (s : String) (ss : List String) → AllNamed ss → joined s (separated ss) ≡ separated (s ∷ ss)
joined-separated s [] n = refl
joined-separated s (t ∷ ss) n = rw (separated-is_blank t ss n.0) refl

commas-separated : (ss : List String) → commas ss ≡ separated (select (λ s. not (is_blank s)) ss)
unfolding select
commas-separated [] = refl
commas-separated (s ∷ ss) = elim (Bool-cases (is_blank s)) [
  | inl e ↦ rw e (commas-separated ss)
  | inr e ↦ rw e (
      rw (commas-separated ss)
        (joined-separated s (select (λ s'. not (is_blank s')) ss) (select-AllNamed ss)))
]

named_place : (ss : List String) → AllNamed ss → or_none (separated ss) ≡ place_of ss
named_place [] n = refl
named_place (s ∷ ss) n = rw (separated-is_blank s ss n.0) refl

commas-place : (ss : List String) → or_none (commas ss) ≡ place ss
commas-place ss =
    rw (commas-separated ss) (named_place (select (λ s. not (is_blank s)) ss) (select-AllNamed ss))

abbrev pub time_or : Option ℕ → ℕ → ℕ
time_or (some t) now = t
time_or none now = now

-- The newest event comes first, and a payload without events says nothing.
abbrev pub newest : List CarrierStatus → CarrierStatus
newest [] = CarrierStatus.unknown
newest (s ∷ ss) = s

module _ (lib : Library) where
  abbrev pub reported : ℕ → Activity → TrackingEvent
  reported now a = record {
    occurred_at = time_or (lib.strptime (String.◌++◌ a.date (padded a.time))) now;
    status = ups_meaning a.kind;
    location = place (a.city ∷ a.region ∷ a.country ∷ []);
    description = some a.description;
    raw = some (lib.dumps (activity_json a));
  }

  abbrev pub reported_scan : ℕ → Scan → TrackingEvent
  reported_scan now s = record {
    occurred_at = time_or (lib.fromisoformat s.date) now;
    status = fedex_meaning s.event_type;
    location = place (s.city ∷ s.region ∷ s.country ∷ []);
    description = some s.description;
    raw = some (lib.dumps (scan_json s));
  }

  or_now-time_or : (t : Option ℕ) (now : ℕ) → or_now t now ≡ time_or t now
  or_now-time_or none now = refl
  or_now-time_or (some t) now = refl

  event_eq :
      (t t' : ℕ) (s s' : CarrierStatus) (l l' d r : Option String)
      → t ≡ t'
      → s ≡ s'
      → l ≡ l'
      → ◌≡◌ {A = TrackingEvent}
          (record { occurred_at = t; status = s; location = l; description = d; raw = r })
          (record { occurred_at = t'; status = s'; location = l'; description = d; raw = r })
  event_eq t t' s s' l l' d r e f g = rw (e, f, g) refl

  event_of-reported :
      (now : ℕ) (a : Activity)
      → starts_with_sign a.time ≡ false
      → event_of lib now a ≡ reported now a
  event_of-reported now a h =
      event_eq _ _ _ _ _ _ _ _
        (ap (λ t. or_now (lib.strptime (String.◌++◌ a.date t)) now) (zfill-padded a.time h)
          ∙ or_now-time_or (lib.strptime (String.◌++◌ a.date (padded a.time))) now)
        (ups_status-meaning a.kind) (commas-place (a.city ∷ a.region ∷ a.country ∷ []))

  event_of_scan-reported : (now : ℕ) (s : Scan) → event_of_scan lib now s ≡ reported_scan now s
  event_of_scan-reported now s =
      event_eq _ _ _ _ _ _ _ _ (or_now-time_or (lib.fromisoformat s.date) now)
        (fedex_status-meaning s.event_type) (commas-place (s.city ∷ s.region ∷ s.country ∷ []))

  events-reported :
      (now : ℕ) (acts : List Activity)
      → any (λ a. starts_with_sign a.time) acts ≡ false
      → map (event_of lib now) acts ≡ map (reported now) acts
  unfolding any
  events-reported now [] h = refl
  events-reported now (a ∷ acts) h =
      rw (event_of-reported now a (ground arith), events-reported now acts (ground arith)) refl

  scans-reported :
      (now : ℕ) (scans : List Scan)
      → map (event_of_scan lib now) scans ≡ map (reported_scan now) scans
  scans-reported now [] = refl
  scans-reported now (s ∷ scans) = rw (event_of_scan-reported now s, scans-reported now scans) refl

  -- A UPS payload of the documented shape, whose times start with no sign, is read into one event for
  -- each activity, in their order: at its date and its time filled up to six digits, or at the time of
  -- the poll if that is no time; with the status that its letter means; at its city, region and
  -- country, as far as they are given. The status of the result is that of the first activity, or
  -- "unknown" if there is none, and there is no error.
  pub parse_ups-payload :
      (now : ℕ) (acts : List Activity)
      → any (λ a. starts_with_sign a.time) acts ≡ false
      → parse_ups_payload lib now (ups_payload acts)
        ≡ value (record {
          status = newest (map (λ a. ups_meaning a.kind) acts);
          events = map (reported now) acts;
          error = none;
        })
  parse_ups-payload now acts h =
      parse_activities lib now acts
      ∙ ap (λ es. value (result_of es)) (events-reported now acts h)
      ∙ newest_ups acts
    where
      newest_ups :
          (as' : List Activity)
          → ◌≡◌ (value (result_of (map (reported now) as'))) (
              value (record {
                status = newest (map (λ a. ups_meaning a.kind) as');
                events = map (reported now) as';
                error = none;
              }))
      newest_ups [] = refl
      newest_ups (a ∷ as') = refl

  -- A FedEx payload of the documented shape, with no error, is read into one event for each scan, in
  -- their order: at its date, or at the time of the poll if that is no date; with the status that its
  -- code means; at its city, region and country, as far as they are given. The status of the result is
  -- that of the first scan, or "unknown" if there is none, and there is no error.
  pub parse_fedex-payload :
      (now : ℕ) (scans : List Scan)
      → parse_fedex_payload lib now (fedex_payload scans)
        ≡ value (record {
          status = newest (map (λ s. fedex_meaning s.event_type) scans);
          events = map (reported_scan now) scans;
          error = none;
        })
  parse_fedex-payload now scans =
      parse_scans lib now scans
      ∙ ap (λ es. value (result_of es)) (scans-reported now scans)
      ∙ newest_fedex scans
    where
      newest_fedex :
          (ss : List Scan)
          → ◌≡◌ (value (result_of (map (reported_scan now) ss))) (
              value (record {
                status = newest (map (λ s. fedex_meaning s.event_type) ss);
                events = map (reported_scan now) ss;
                error = none;
              }))
      newest_fedex [] = refl
      newest_fedex (s ∷ ss) = refl
