-- ===== src/Tracking/Expected.antt =====
-- What the codes and times of UPS and FedEx mean, said without the parsers' own tables and helpers.
use Prim.Native.String
use Prim.Native.String.count
use Prim.Native.Char.{Char, code}
use feature_asset_inventory.Base.{
  ℕ, String, ◌≡◌, refl, inl, inr, Bool, false, ◌||◌, List, [], ◌∷◌, arith, is_blank, str_eq,
  if◌then◌else◌, lookup, Bool-cases, eq_iff, ◌==◌, ◌-◌,
}
use feature_asset_inventory.Store.Types.{CarrierStatus}
use feature_asset_inventory.Tracking.Parse.{
  ups_status_map, fedex_status_map, or_unknown, zfill, zeros,
}
use feature_asset_inventory.Tracking.Payload.{clock_text}

-- The letters of a UPS activity: manifest and pickup, in transit, out for delivery, delivered,
-- exception and returned to the sender.
abbrev pub ups_meaning : String → CarrierStatus
ups_meaning c =
    if str_eq "D" c
    then CarrierStatus.delivered
    else if str_eq "O" c
    then CarrierStatus.out_for_delivery
    else if str_eq "I" c
    then CarrierStatus.in_transit
    else if str_eq "X" c || str_eq "RS" c
    then CarrierStatus.exception
    else if str_eq "M" c || str_eq "P" c
    then CarrierStatus.pending
    else CarrierStatus.unknown

abbrev pub is_one_of : List String → String → Bool
is_one_of [] c = false
is_one_of (x ∷ xs) c = str_eq x c || is_one_of xs c

abbrev pub fedex_meaning : String → CarrierStatus
fedex_meaning c =
    if str_eq "DL" c
    then CarrierStatus.delivered
    else if str_eq "OD" c
    then CarrierStatus.out_for_delivery
    else if is_one_of ("DP" ∷ "AR" ∷ "IT" ∷ "AO" ∷ "HA" ∷ "HP" ∷ "RR" ∷ "HL" ∷ []) c
    then CarrierStatus.in_transit
    else if is_one_of ("DE" ∷ "SE" ∷ "CA" ∷ []) c
    then CarrierStatus.exception
    else if is_one_of ("PU" ∷ "OC" ∷ []) c
    then CarrierStatus.pending
    else CarrierStatus.unknown

module _ (f g : String → CarrierStatus) where
  abbrev Agree : List String → Type 0
  Agree [] = Unit
  Agree (x ∷ xs) = (f x ≡ g x) × Agree xs

  abbrev NoneOf : String → List String → Type 0
  NoneOf c [] = Unit
  NoneOf c (x ∷ xs) = (str_eq x c ≡ false) × NoneOf c xs

  -- Two readings of a code are the same if they are on some codes, and on all others.
  agree :
      (codes : List String) (c : String) → Agree codes → (NoneOf c codes → f c ≡ g c) → f c ≡ g c
  agree [] c h rest = rest tt
  agree (x ∷ xs) c h rest = elim (Bool-cases (str_eq x c)) [
    | inl e ↦ let same : x ≡ c = (eq_iff x c).0 e in rw same at h.0
    | inr e ↦ agree xs c h.1 (λ n. rest (e, n))
  ]

pub ups_status-meaning : (c : String) → or_unknown (lookup c ups_status_map) ≡ ups_meaning c
unfolding lookup
ups_status-meaning c =
    agree (λ x. or_unknown (lookup x ups_status_map)) ups_meaning
      ("M" ∷ "P" ∷ "I" ∷ "O" ∷ "D" ∷ "X" ∷ "RS" ∷ []) c
      (refl, (refl, (refl, (refl, (refl, (refl, (refl, tt)))))))
      (λ none_of.
        let (m, (p, (i, (o, (d, (x, (rs, _))))))) = none_of in rw (m, p, i, o, d, x, rs) refl)

pub fedex_status-meaning : (c : String) → or_unknown (lookup c fedex_status_map) ≡ fedex_meaning c
unfolding lookup
fedex_status-meaning c =
    agree (λ x. or_unknown (lookup x fedex_status_map)) fedex_meaning
      ("PU" ∷ "OC" ∷ "AR" ∷ "DP" ∷ "IT" ∷ "AO" ∷ "HA" ∷ "HP" ∷ "RR" ∷ "HL" ∷ "OD" ∷ "DL" ∷ "DE"
        ∷ "SE" ∷ "CA" ∷ [])
      c
      (
        refl,
        (
          refl,
          (
            refl,
            (
              refl,
              (
                refl,
                (refl, (refl, (refl, (refl, (refl, (refl, (refl, (refl, (refl, (refl, tt)))))))))),
              ),
            ),
          ),
        ),
      )
      (λ none_of.
        let (
          pu,
          (oc, (ar, (dp, (it, (ao, (ha, (hp, (rr, (hl, (od, (dl, (de, (se, (ca, _)))))))))))))),
        ) =
          none_of in
        rw (pu, oc, ar, dp, it, ao, ha, hp, rr, hl, od, dl, de, se, ca) refl)

abbrev pub nought : String → String
nought s = String.◌++◌ "0" s

-- A time of fewer than six digits stands for one with zeros before it, and an
-- empty one for midnight.
abbrev pub padded : String → String
padded String.[] = "000000"
padded (String.◌∷◌ a String.[]) =
    nought (nought (nought (nought (nought (String.◌∷◌ a String.[])))))
padded (String.◌∷◌ a (String.◌∷◌ b String.[])) =
    nought (nought (nought (nought (String.◌∷◌ a (String.◌∷◌ b String.[])))))
padded (String.◌∷◌ a (String.◌∷◌ b (String.◌∷◌ c String.[]))) =
    nought (nought (nought (String.◌∷◌ a (String.◌∷◌ b (String.◌∷◌ c String.[])))))
padded (String.◌∷◌ a (String.◌∷◌ b (String.◌∷◌ c (String.◌∷◌ d String.[])))) =
    nought (nought (String.◌∷◌ a (String.◌∷◌ b (String.◌∷◌ c (String.◌∷◌ d String.[])))))
padded (String.◌∷◌ a (String.◌∷◌ b (String.◌∷◌ c (String.◌∷◌ d (String.◌∷◌ e String.[]))))) =
    nought (String.◌∷◌ a (String.◌∷◌ b (String.◌∷◌ c (String.◌∷◌ d (String.◌∷◌ e String.[])))))
padded s = s

abbrev pub starts_with_sign : String → Bool
starts_with_sign String.[] = false
starts_with_sign (String.◌∷◌ c s) = code c == b'+' || code c == b'-'

clock_text-cons : (c : Char) (s : String) → clock_text (String.◌∷◌ c s) ≡ String.◌∷◌ c s
clock_text-cons c s = elim (Bool-cases (is_blank (String.◌∷◌ c s))) [
  | inl e ↦ absurd (cc ((eq_iff (String.◌∷◌ c s) "").0 e))
  | inr e ↦ rw e refl
]

zfill-unsigned :
    (c : Char) (s : String) (n : ℕ)
    → starts_with_sign (String.◌∷◌ c s) ≡ false
    → 6 - String.count (String.◌∷◌ c s) ≡ n
    → zfill (clock_text (String.◌∷◌ c s)) ≡ zeros n (String.◌∷◌ c s)
unfolding zfill
zfill-unsigned c s n h m =
    rw (clock_text-cons c s)
      (let unsigned : (code c == b'+' || code c == b'-') ≡ false = h in rw (unsigned, m) refl)

pub zfill-padded : (s : String) → starts_with_sign s ≡ false → zfill (clock_text s) ≡ padded s
unfolding zfill zeros
zfill-padded String.[] h = refl
zfill-padded (String.◌∷◌ a String.[]) h =
    zfill-unsigned a String.[] 5 h (omega (arith, count.cons a String.[], count.nil))
zfill-padded (String.◌∷◌ a (String.◌∷◌ b String.[])) h =
    zfill-unsigned a (String.◌∷◌ b String.[]) 4 h
      (omega (arith, count.cons a (String.◌∷◌ b String.[]), count.cons b String.[], count.nil))
zfill-padded (String.◌∷◌ a (String.◌∷◌ b (String.◌∷◌ c String.[]))) h =
    zfill-unsigned a (String.◌∷◌ b (String.◌∷◌ c String.[])) 3 h (
      omega (
        arith,
        count.cons a (String.◌∷◌ b (String.◌∷◌ c String.[])),
        count.cons b (String.◌∷◌ c String.[]),
        count.cons c String.[],
        count.nil,
      ))
zfill-padded (String.◌∷◌ a (String.◌∷◌ b (String.◌∷◌ c (String.◌∷◌ d String.[])))) h =
    zfill-unsigned a (String.◌∷◌ b (String.◌∷◌ c (String.◌∷◌ d String.[]))) 2 h (
      omega (
        arith,
        count.cons a (String.◌∷◌ b (String.◌∷◌ c (String.◌∷◌ d String.[]))),
        count.cons b (String.◌∷◌ c (String.◌∷◌ d String.[])),
        count.cons c (String.◌∷◌ d String.[]),
        count.cons d String.[],
        count.nil,
      ))
zfill-padded (String.◌∷◌ a (String.◌∷◌ b (String.◌∷◌ c (String.◌∷◌ d (String.◌∷◌ e String.[])))))
      h =
    zfill-unsigned a (String.◌∷◌ b (String.◌∷◌ c (String.◌∷◌ d (String.◌∷◌ e String.[])))) 1 h (
      omega (
        arith,
        count.cons a (String.◌∷◌ b (String.◌∷◌ c (String.◌∷◌ d (String.◌∷◌ e String.[])))),
        count.cons b (String.◌∷◌ c (String.◌∷◌ d (String.◌∷◌ e String.[]))),
        count.cons c (String.◌∷◌ d (String.◌∷◌ e String.[])),
        count.cons d (String.◌∷◌ e String.[]),
        count.cons e String.[],
        count.nil,
      ))
zfill-padded
      (String.◌∷◌ a (String.◌∷◌ b (String.◌∷◌ c (String.◌∷◌ d (String.◌∷◌ e (String.◌∷◌ f s))))))
      h =
    zfill-unsigned a (String.◌∷◌ b (String.◌∷◌ c (String.◌∷◌ d (String.◌∷◌ e (String.◌∷◌ f s))))) 0
      h
      (omega (
        arith,
        count.cons a (String.◌∷◌ b (String.◌∷◌ c (String.◌∷◌ d (String.◌∷◌ e (String.◌∷◌ f s))))),
        count.cons b (String.◌∷◌ c (String.◌∷◌ d (String.◌∷◌ e (String.◌∷◌ f s)))),
        count.cons c (String.◌∷◌ d (String.◌∷◌ e (String.◌∷◌ f s))),
        count.cons d (String.◌∷◌ e (String.◌∷◌ f s)),
        count.cons e (String.◌∷◌ f s),
        count.cons f s,
      ))
