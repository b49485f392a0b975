-- ===== src/Auth/Tokens.antt =====
-- Which tokens let a request in.
use Prim.Native.String
use feature_asset_inventory.Base.{
  String, ◌≡◌, ◌⊎◌, refl, sym, ◌∙◌, inl, inr, true, false, none, some, arith, is_blank, is_empty,
  eq_iff, strip, lower, or_none, prepend, append-eq-prepend, Option-cases,
}
use feature_asset_inventory.Python.Json.{Json, Fields}
use feature_asset_inventory.Auth.Settings.{
  Settings, normalized_auth_mode, is_local_environment, effective_entra_audiences,
  effective_entra_issuers, effective_entra_jwks_url, validate_runtime_safety,
}
use feature_asset_inventory.Auth.Claims.{claim}
use feature_asset_inventory.Auth.Context.{
  Context, Access, granted, denied, AuthError, Decoded, decoded, expired, bad_audience, bad_issuer,
  bad_token, no_key, Decoder, Headers, extract_bearer_token, bearer_of, is_allowed, read_decoded,
  validate_entra_token, build_context_from_claims, extract_entra_context, extract_auth_context,
}

-- The request brought a token that the JWT library accepted, for the audiences that are set, from an
-- issuer that is allowed, and the context is made of its claims.
pub record IsFromToken (show : Json → String) (s : Settings) (decode : Decoder) (h : Headers)
    (c : Context) : Type 0 where
  pub token : String
  pub claims : Fields
  pub sent : extract_bearer_token h.authorization ≡ some token
  pub accepted :
      decode
        (effective_entra_jwks_url s)
        (effective_entra_audiences s)
        s.entra_clock_skew_seconds
        token
      ≡ decoded claims
  pub audience_set : is_empty (effective_entra_audiences s) ≡ false
  pub issued : is_allowed show (effective_entra_issuers s) (claim "iss" claims) ≡ true
  pub context : c ≡ build_context_from_claims show s claims token "entra"

module _ (show : Json → String) (s : Settings) where
  read_decoded-granted :
      (o : Decoded) (claims : Fields)
      → read_decoded show s o ≡ granted claims
      → (o ≡ decoded claims)
        × (is_allowed show (effective_entra_issuers s) (claim "iss" claims) ≡ true)
  read_decoded-granted (decoded fs) claims e = ground arith
  read_decoded-granted expired claims e = cc
  read_decoded-granted bad_audience claims e = cc
  read_decoded-granted bad_issuer claims e = cc
  read_decoded-granted bad_token claims e = cc
  read_decoded-granted no_key claims e = cc

pub Access-cases :
    {A : Type 0} (r : Access A) → ((a : A) × (r ≡ granted a)) ⊎ ((e : AuthError) × (r ≡ denied e))
Access-cases (granted a) = inl (a, refl)
Access-cases (denied e) = inr (e, refl)

module _ (show : Json → String) (s : Settings) (decode : Decoder) (h : Headers) (c : Context) where
  abbrev verdict : String → Decoded
  verdict token =
      decode (effective_entra_jwks_url s) (effective_entra_audiences s) s.entra_clock_skew_seconds
        token

  validated :
      (token : String) (claims : Fields)
      → validate_entra_token show s decode token ≡ granted claims
      → (is_empty (effective_entra_audiences s) ≡ false)
        × (read_decoded show s (verdict token) ≡ granted claims)
  unfolding validate_entra_token
  validated token claims e = ground arith

  entra-IsFromToken :
      extract_entra_context show s decode h.authorization ≡ granted c
      → IsFromToken show s decode h c
  unfolding extract_entra_context
  entra-IsFromToken e = elim (Option-cases (extract_bearer_token h.authorization)) [
    | inl n ↦ absurd (ground arith)
    | inr (token, f) ↦ elim (Access-cases (validate_entra_token show s decode token)) [
      | inr (x, g) ↦ absurd (ground arith)
      | inl (claims, g) ↦
          let (set, r) = validated token claims g in
          let (accept, issue) = read_decoded-granted show s (verdict token) claims r in
          record {
            token = token;
            claims = claims;
            sent = f;
            accepted = accept;
            audience_set = set;
            issued = issue;
            context = ground arith;
          }
    ]
  ]

  entra_only :
      validate_runtime_safety s ≡ none
      → is_local_environment s ≡ false
      → extract_auth_context show s decode h ≡ extract_entra_context show s decode h.authorization
  unfolding validate_runtime_safety extract_auth_context
  entra_only v l = ground (
    arith,
    eq_iff (normalized_auth_mode s) "entra",
    eq_iff (normalized_auth_mode s) "none",
    eq_iff (normalized_auth_mode s) "mock",
  )

  -- Where the settings have passed `validate_runtime_safety` and the environment is not a local one,
  -- every request that is let in brought a token that the JWT library accepted for the audiences that
  -- are set, of which there is one at least, from an allowed issuer; and its context is made of the
  -- token's claims.
  pub extract_auth_context-IsFromToken :
      validate_runtime_safety s ≡ none
      → is_local_environment s ≡ false
      → extract_auth_context show s decode h ≡ granted c
      → IsFromToken show s decode h c
  extract_auth_context-IsFromToken v l e = entra-IsFromToken (sym (entra_only v l) ∙ e)

bearer_of-prepend : (t : String) → bearer_of (prepend "Bearer " t) ≡ or_none (strip t)
unfolding lower prepend
bearer_of-prepend t = refl

-- An authorization header that is "Bearer " and a token, which has no white space at its ends and is
-- not empty, is read back as the token.
pub extract_bearer_token-bearer :
    (t : String)
    → strip t ≡ t
    → is_blank t ≡ false
    → extract_bearer_token (some (String.◌++◌ "Bearer " t)) ≡ some t
unfolding extract_bearer_token
extract_bearer_token-bearer t e b =
    rw (append-eq-prepend "Bearer " t) (bearer_of-prepend t ∙ rw e (rw b refl))
