-- ===== src/Tracking/Fetch.antt =====
-- The token cache, the two providers and `fetch_tracking` of app/services/tracking_service.py. What
-- the carriers answer over HTTP is an argument.
use Prim.Native.Char.{code}
use Prim.Native.String
use feature_asset_inventory.Base.{
  ℕ, ◌+◌, String, ◌||◌, Option, none, some, ◌==◌, ltb, strip, str, is_blank, if◌then◌else◌, Dict,
  lookup, insert,
}
use feature_asset_inventory.Store.Types.{Carrier}
use feature_asset_inventory.Python.Errors.{Outcome, value, raises, ◌>>=◌, attribute_error}
use feature_asset_inventory.Python.Json.{Json, whole, object, truthy, item, find_field}
use feature_asset_inventory.Tracking.{TrackingResult}
use feature_asset_inventory.Tracking.Parse.{Library, failed, parse_ups_payload, parse_fedex_payload}

-- `s.replace(" ", "")`
unfoldable pub without_spaces : String → String
without_spaces String.[] = ""
without_spaces (String.◌∷◌ c s) =
    let rest = without_spaces s in if code c == b' ' then rest else String.◌∷◌ c rest

-- `_CachedToken`. The clock counts seconds; a negative lifetime is 0, which is as useless.
pub record CachedToken : Type 0 where
  pub token : Json
  pub expires_at : ℕ

abbrev pub Tokens : Type 0
Tokens = Dict CachedToken

abbrev fresh_token : ℕ → Option CachedToken → Option Json
fresh_token now none = none
fresh_token now (some entry) = if ltb (now + 30) entry.expires_at then some entry.token else none

unfoldable pub cached_token : String → ℕ → Tokens → Option Json
cached_token key now cache = fresh_token now (lookup key cache)

unfoldable pub store_token : String → Json → ℕ → ℕ → Tokens → Tokens
store_token key token ttl_seconds now =
    insert key (record { token = token; expires_at = now + ttl_seconds })

-- What an HTTP call comes to: the JSON of a good response, an error status, with the text of
-- `HTTPStatusError`, or another failure, with its text.
pub data Reply : Type 0 where
  json : Json → Reply
  status_error : ℕ → String → Reply
  failure : String → Reply

-- A token, `None`, or the text of an exception.
pub data Attempt : Type 0 where
  got : Option Json → Attempt
  refused : String → Attempt

-- The settings and the calls of one carrier, and the lifetime that its tokens have by default.
pub record Provider : Type 0 where
  pub key : String
  pub client_id : String
  pub secret : String
  pub default_ttl : ℕ
  pub authorize : String → String → Reply
  pub track : Json → String → Reply

abbrev or_default : ℕ → Option Json → Json
or_default n none = whole n
or_default n (some j) = j

-- `payload.get("expires_in", default)`
abbrev expires_in : ℕ → Json → Outcome Json
expires_in default_ttl (object fs) = value (or_default default_ttl (find_field "expires_in" fs))
expires_in default_ttl _ = raises attribute_error

module _ (lib : Library) where
  -- The token of a response and its lifetime.
  unfoldable pub granted : ℕ → Json → Outcome (Json × ℕ)
  granted default_ttl payload = do
    token ← item "access_token" payload
    ttl ← expires_in default_ttl payload
    seconds ← lib.int ttl
    value (token, seconds)

  abbrev pub keep_token : String → ℕ → Tokens → Outcome (Json × ℕ) → Attempt × Tokens
  keep_token key later cache (raises e) = (refused (lib.message e), cache)
  keep_token key later cache (value (token, ttl)) =
      (got (some token), store_token key token ttl later cache)

  abbrev pub ask_token : Provider → String → String → ℕ → Tokens → Attempt × Tokens
  ask_token p cid secret later cache = elim (p.authorize cid secret) [
    | json payload ↦ keep_token p.key later cache (granted p.default_ttl payload)
    | status_error n e ↦ (refused e, cache)
    | failure e ↦ (refused e, cache)
  ]

  abbrev pub use_cached : Option Json → Attempt × Tokens → Tokens → Attempt × Tokens
  use_cached none asked cache = asked
  use_cached (some token) asked cache = if truthy token then (got (some token), cache) else asked

  -- `_ups_token` and `_fedex_token`. The clock is read for the cache, and again to store.
  unfoldable pub provider_token : Provider → ℕ → ℕ → Tokens → Attempt × Tokens
  unfolding cached_token store_token granted
  provider_token p now later cache =
      let cid = strip p.client_id in
      let secret = strip p.secret in
      if is_blank cid || is_blank secret
      then (got none, cache)
      else use_cached (cached_token p.key now cache) (ask_token p cid secret later cache) cache

  -- The texts of one provider, and its parser.
  pub record Messages : Type 0 where
    pub auth_failed : String
    pub not_configured : String
    pub http : String
    pub track_failed : String
    pub parse : ℕ → Json → Outcome TrackingResult

  abbrev pub read_reply : Messages → ℕ → Reply → Outcome TrackingResult
  read_reply m now (json payload) = m.parse now payload
  read_reply m now (status_error n e) = value (failed (String.◌++◌ m.http (str n)))
  read_reply m now (failure e) = value (failed (String.◌++◌ m.track_failed e))

  abbrev pub with_token : Messages → Provider → String → ℕ → Attempt → Outcome TrackingResult
  with_token m p tn now (refused e) = value (failed (String.◌++◌ m.auth_failed e))
  with_token m p tn now (got none) = value (failed m.not_configured)
  with_token m p tn now (got (some token)) =
      if truthy token then read_reply m now (p.track token tn) else value (failed m.not_configured)

  unfoldable pub provider_track :
      Messages → Provider → String → ℕ → ℕ → Tokens → Outcome TrackingResult × Tokens
  unfolding provider_token
  provider_track m p tn now later cache =
      let (attempt, cache') = provider_token p now later cache in
      (with_token m p tn later attempt, cache')

  abbrev pub ups : Messages
  ups = record {
    auth_failed = "UPS auth failed: ";
    not_configured = "UPS not configured (set UPS_CLIENT_ID and UPS_CLIENT_SECRET).";
    http = "UPS HTTP ";
    track_failed = "UPS track failed: ";
    parse = parse_ups_payload lib;
  }

  abbrev pub fedex : Messages
  fedex = record {
    auth_failed = "FedEx auth failed: ";
    not_configured = "FedEx not configured (set FEDEX_API_KEY and FEDEX_SECRET_KEY).";
    http = "FedEx HTTP ";
    track_failed = "FedEx track failed: ";
    parse = parse_fedex_payload lib;
  }

  abbrev pub track_by :
      Carrier → Provider → Provider → String → ℕ → ℕ → Tokens → Outcome TrackingResult × Tokens
  track_by Carrier.ups u f tn now later cache = provider_track ups u tn now later cache
  track_by Carrier.fedex u f tn now later cache = provider_track fedex f tn now later cache
  track_by Carrier.other u f tn now later cache =
      (value (failed "Carrier 'other' is not auto-trackable. Update status manually."), cache)

  unfoldable pub fetch_tracking :
      Provider → Provider → Carrier → String → ℕ → ℕ → Tokens → Outcome TrackingResult × Tokens
  unfolding provider_track without_spaces
  fetch_tracking u f carrier tracking_number now later cache =
      let tn = without_spaces (strip tracking_number) in
      if is_blank tn
      then (value (failed "Empty tracking number."), cache)
      else track_by carrier u f tn now later cache
