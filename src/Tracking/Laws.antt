-- ===== src/Tracking/Laws.antt =====
-- What the tracking service promises: tokens are used until half a minute before they end, and the
-- payloads that `fetch_tracking`, which should never raise, raises on.
use feature_asset_inventory.Base.{
  ℕ, ◌+◌, ◌<◌, String, ◌≡◌, refl, ap, true, false, none, some, arith, strip, eq_iff, is_blank,
  lookup-insert,
}
use feature_asset_inventory.Store.Types.{Carrier}
use feature_asset_inventory.Python.Errors.{value, raises, attribute_error}
use feature_asset_inventory.Python.Json.{
  Json, null, boolean, whole, number, text, array, object, Values, cons, truthy, item, get,
  is_object,
}
use feature_asset_inventory.Tracking.Parse.{Library, ups_shape, parse_ups_payload}
use feature_asset_inventory.Tracking.Fetch.{
  Tokens, cached_token, store_token, Reply, json, got, Provider, granted, provider_token,
  without_spaces, provider_track, fetch_tracking,
}

module _ (lib : Library) (p : Provider) where
  -- Where the credentials are set and no fresh token is kept, and the carrier grants one, the token
  -- is returned; and a later call, while more than half a minute of its time is left, returns it again
  -- whatever the carrier would answer by then.
  pub provider_token_reused :
      (now later now' later' : ℕ) (cache : Tokens) (payload token : Json) (ttl : ℕ)
      (authorize' : String → String → Reply)
      → is_blank (strip p.client_id) ≡ false
      → is_blank (strip p.secret) ≡ false
      → cached_token p.key now cache ≡ none
      → p.authorize (strip p.client_id) (strip p.secret) ≡ json payload
      → granted lib p.default_ttl payload ≡ value (token, ttl)
      → truthy token ≡ true
      → now' + 30 < later + ttl
      → let cache' = (provider_token lib p now later cache).1 in
        ((provider_token lib p now later cache).0 ≡ got (some token))
        × (provider_token lib (record p { authorize = authorize' }) now' later' cache'
            ≡ (got (some token), cache'))
  unfolding provider_token cached_token store_token
  provider_token_reused now later now' later' cache payload token ttl authorize' c s n a g t h =
      ground (
        arith,
        lookup-insert p.key p.key (record { token = token; expires_at = later + ttl }) cache,
        eq_iff p.key p.key,
      )

-- The shape of a UPS payload whose list of shipments starts with `j`.
abbrev pub HasFirstShipment : Json → Json → Type 0
HasFirstShipment payload j =
    (response : Json) × (rest : Values) × (item "trackResponse" payload ≡ value response)
    × (item "shipment" response ≡ value (array (cons j rest)))

get-raises : (key : String) (j : Json) → is_object j ≡ false → get key j ≡ raises attribute_error
get-raises key null h = refl
get-raises key (boolean b) h = refl
get-raises key (whole n) h = refl
get-raises key (number t) h = refl
get-raises key (text t) h = refl
get-raises key (array js) h = refl
get-raises key (object fs) h = absurd (ground arith)

module _ (lib : Library) (payload j : Json) where
  parse_ups-raises :
      (now : ℕ)
      → HasFirstShipment payload j
      → is_object j ≡ false
      → parse_ups_payload lib now payload ≡ raises attribute_error
  unfolding parse_ups_payload ups_shape
  parse_ups-raises now (response, rest, e, f) n =
      rw (e, parse_ups_payload, ups_shape) (rw f (rw (get-raises "package" j n) refl))

  -- If a token is at hand and UPS answers with a list of shipments whose first is no JSON object,
  -- `fetch_tracking` raises an AttributeError instead of returning an error in the result.
  pub fetch_tracking-raises :
      (u f : Provider) (tracking_number : String) (now later : ℕ) (cache cache' : Tokens)
      (token : Json)
      → HasFirstShipment payload j
      → is_object j ≡ false
      → is_blank (without_spaces (strip tracking_number)) ≡ false
      → provider_token lib u now later cache ≡ (got (some token), cache')
      → truthy token ≡ true
      → u.track token (without_spaces (strip tracking_number)) ≡ json payload
      → fetch_tracking lib u f Carrier.ups tracking_number now later cache
        ≡ (raises attribute_error, cache')
  unfolding fetch_tracking provider_track
  fetch_tracking-raises u f tracking_number now later cache cache' token shape n b t y r =
      rw (b, fetch_tracking, provider_track)
        (rw (t, y, r) (ap (λ o. (o, cache')) (parse_ups-raises later shape n)))
