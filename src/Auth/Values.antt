-- ===== src/Auth/Values.antt =====
-- The values of a claim, told without the normalisation of app/platform/auth_context.py.
use feature_asset_inventory.Base.{
  ℕ, String, ◌≡◌, refl, ap, ◌∙◌, inl, inr, Bool, true, false, not, ◌||◌, ◌&&◌, List, [], ◌∷◌, ◌++◌,
  arith, is_blank, str_eq, eq_iff, strip, any, member, member-append, member-sorted_set, split_at,
  stripped, Bool-cases,
}
use feature_asset_inventory.Python.Json.{
  Json, null, boolean, whole, number, text, array, object, Fields, items,
}
use feature_asset_inventory.Auth.Claims.{
  claim, shown, listed, spelled, normalize_roles, normalize_direct_permissions, extract_scopes,
}

-- `x` is one of the words of a text, without the spaces around them.
abbrev pub is_word_of : ℕ → Json → String → Bool
is_word_of d (text t) x = any (λ w. str_eq x (strip w)) (split_at d t)
is_word_of d _ x = false

module _ (show : Json → String) where
  -- `x` is an item of a list, without the spaces around it.
  abbrev pub is_item_of : Json → String → Bool
  is_item_of (array js) x = any (λ j. str_eq x (strip (show j))) (items js)
  is_item_of _ x = false

  abbrev pub is_role : Fields → String → Bool
  is_role claims r = is_item_of (claim "roles" claims) r || is_word_of b' ' (claim "scp" claims) r

  member-stripped :
      (x : String) (ws : List String)
      → is_blank x ≡ false
      → member x (stripped ws) ≡ any (λ w. str_eq x (strip w)) ws
  unfolding member stripped any
  member-stripped x [] b = refl
  member-stripped x (w ∷ ws) b = elim (Bool-cases (is_blank (strip w))) [
    | inl e ↦
        ground (arith, eq_iff (strip w) "", eq_iff x (strip w), eq_iff x "", member-stripped x ws b)
    | inr e ↦ rw e (ap (λ rest. str_eq x (strip w) || rest) (member-stripped x ws b))
  ]

  any-shown :
      (x : String) (js : List Json)
      → any (λ w. str_eq x (strip w)) (shown show js) ≡ any (λ j. str_eq x (strip (show j))) js
  unfolding any
  any-shown x [] = refl
  any-shown x (j ∷ js) = ap (λ rest. str_eq x (strip (show j)) || rest) (any-shown x js)

  member-listed :
      (x : String) (j : Json) → is_blank x ≡ false → member x (listed show j) ≡ is_item_of j x
  unfolding member
  member-listed x null b = refl
  member-listed x (boolean v) b = refl
  member-listed x (whole n) b = refl
  member-listed x (number t) b = refl
  member-listed x (text t) b = refl
  member-listed x (array js) b =
      member-stripped x (shown show (items js)) b ∙ any-shown x (items js)
  member-listed x (object fs) b = refl

  member-spelled :
      (d : ℕ) (x : String) (j : Json)
      → is_blank x ≡ false
      → member x (spelled show d j) ≡ is_word_of d j x
  unfolding member
  member-spelled d x null b = refl
  member-spelled d x (boolean v) b = refl
  member-spelled d x (whole n) b = refl
  member-spelled d x (number t) b = refl
  member-spelled d x (text t) b = member-stripped x (split_at d t) b
  member-spelled d x (array js) b = refl
  member-spelled d x (object fs) b = refl

-- No empty text is among the words that are kept.
stripped_blank :
    (x : String) (ws : List String) → is_blank x ≡ true → member x (stripped ws) ≡ false
unfolding member stripped
stripped_blank x [] b = refl
stripped_blank x (w ∷ ws) b = elim (Bool-cases (is_blank (strip w))) [
  | inl e ↦ rw e (stripped_blank x ws b)
  | inr e ↦
      ground (arith, eq_iff (strip w) "", eq_iff x (strip w), eq_iff x "", stripped_blank x ws b)
]

module _ (show : Json → String) where
  listed_blank : (x : String) (j : Json) → is_blank x ≡ true → member x (listed show j) ≡ false
  unfolding member
  listed_blank x null b = refl
  listed_blank x (boolean v) b = refl
  listed_blank x (whole n) b = refl
  listed_blank x (number t) b = refl
  listed_blank x (text t) b = refl
  listed_blank x (array js) b = stripped_blank x (shown show (items js)) b
  listed_blank x (object fs) b = refl

  spelled_blank :
      (d : ℕ) (x : String) (j : Json) → is_blank x ≡ true → member x (spelled show d j) ≡ false
  unfolding member
  spelled_blank d x null b = refl
  spelled_blank d x (boolean v) b = refl
  spelled_blank d x (whole n) b = refl
  spelled_blank d x (number t) b = refl
  spelled_blank d x (text t) b = stripped_blank x (split_at d t) b
  spelled_blank d x (array js) b = refl
  spelled_blank d x (object fs) b = refl

  pub member-roles :
      (claims : Fields) (r : String)
      → member r (normalize_roles show claims) ≡ (not (is_blank r) && is_role show claims r)
  unfolding normalize_roles
  member-roles claims r =
      let roles = listed show (claim "roles" claims) in
      let scopes = spelled show b' ' (claim "scp" claims) in
      rw (member-sorted_set r (roles ++ scopes), member-append r roles scopes)
        (elim (Bool-cases (is_blank r)) [
          | inl e ↦ ground (
            arith,
            listed_blank r (claim "roles" claims) e,
            spelled_blank b' ' r (claim "scp" claims) e,
          )
          | inr e ↦ ground (
            arith,
            member-listed show r (claim "roles" claims) e,
            member-spelled show b' ' r (claim "scp" claims) e,
          )
        ])

  pub member-scopes :
      (claims : Fields) (r : String)
      → member r (extract_scopes show claims)
        ≡ (not (is_blank r) && is_word_of b' ' (claim "scp" claims) r)
  unfolding extract_scopes
  member-scopes claims r = elim (Bool-cases (is_blank r)) [
    | inl e ↦ ground (arith, spelled_blank b' ' r (claim "scp" claims) e)
    | inr e ↦ ground (arith, member-spelled show b' ' r (claim "scp" claims) e)
  ]

  pub member-direct :
      (claims : Fields) (p : String)
      → is_blank p ≡ false
      → member p (normalize_direct_permissions show claims) ≡ (
          is_item_of show (claim "permissions" claims) p
          || is_word_of b',' (claim "permissions_csv" claims) p)
  unfolding normalize_direct_permissions
  member-direct claims p b =
      rw
        (
          member-append p (listed show (claim "permissions" claims))
              (spelled show b',' (claim "permissions_csv" claims)),
          member-listed show p (claim "permissions" claims) b,
          member-spelled show b',' p (claim "permissions_csv" claims) b,
        )
        refl
