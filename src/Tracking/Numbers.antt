-- ===== src/Tracking/Numbers.antt =====
-- What UPS and FedEx numbers look like, character by character, and that `detect_carrier` finds them.
use Prim.Native.Char.{Char, code}
use feature_asset_inventory.Base.{
  ℕ, suc, ◌≤◌, String, ◌≡◌, ◌↔◌, ◌⊎◌, refl, inl, inr, Bool, true, ◌||◌, arith, ◌==◌, strip,
  Bool-cases,
}
use feature_asset_inventory.Store.Types.{Carrier}
use feature_asset_inventory.Tracking.Fetch.{without_spaces}
use feature_asset_inventory.Tracking.Carriers.{
  is_digit, is_letter, all_chars, size, is_ups_number, is_fedex_number, detect_carrier,
  ups-not_fedex,
}

abbrev pub Within : ℕ → ℕ → Char → Type 0
Within low high c = (low ≤ code c) × (code c ≤ high)

abbrev pub IsDigit : Char → Type 0
IsDigit = Within b'0' b'9'

abbrev pub IsDigitOrLetter : Char → Type 0
IsDigitOrLetter c = IsDigit c ⊎ (Within b'A' b'Z' c ⊎ Within b'a' b'z' c)

-- So many characters of a kind, and nothing after them.
pub data Exactly (Kind : Char → Type 0) : ℕ → String → Type 0 where
  nothing : Exactly Kind 0 ""
  then :
      {n : ℕ} {s : String} (c : Char)
      → Kind c
      → Exactly Kind n s
      → Exactly Kind (suc n) (String.◌∷◌ c s)

-- "1Z" and sixteen digits or letters, in either case.
pub data IsUpsNumber : String → Type 0 where
  one_z :
      (a z : Char) (s : String)
      → code a ≡ b'1'
      → (code z ≡ b'Z') ⊎ (code z ≡ b'z')
      → Exactly IsDigitOrLetter 16 s
      → IsUpsNumber (String.◌∷◌ a (String.◌∷◌ z s))

-- Twelve, fifteen, twenty or twenty-two digits.
pub data IsFedexNumber (s : String) : Type 0 where
  express : Exactly IsDigit 12 s → IsFedexNumber s
  ground_number : Exactly IsDigit 15 s → IsFedexNumber s
  smart_post : Exactly IsDigit 20 s → IsFedexNumber s
  smart_post_long : Exactly IsDigit 22 s → IsFedexNumber s

module _ (Kind : Char → Type 0) (p : Char → Bool) where
  exactly :
      (s : String)
      → ((c : Char) → p c ≡ true → Kind c)
      → all_chars p s ≡ true
      → Exactly Kind (size s) s
  unfolding all_chars size
  exactly String.[] h e = nothing
  exactly (String.◌∷◌ c s) h e = then c (h c (ground arith)) (exactly s h (ground arith))

  all_chars-Exactly :
      {n : ℕ} {s : String}
      → ((c : Char) → Kind c → p c ≡ true)
      → Exactly Kind n s
      → (all_chars p s ≡ true) × (size s ≡ n)
  unfolding all_chars size
  all_chars-Exactly h nothing = (refl, refl)
  all_chars-Exactly h (then c k x) = ground (arith, all_chars-Exactly h x, h c k)

is_digit_sound : (c : Char) → is_digit c ≡ true → IsDigit c
is_digit_sound c h = ground arith

is_digit_complete : (c : Char) → IsDigit c → is_digit c ≡ true
is_digit_complete c h = ground arith

either_sound : (c : Char) → (is_digit c || is_letter c) ≡ true → IsDigitOrLetter c
either_sound c h = ground arith

either_complete : (c : Char) → IsDigitOrLetter c → (is_digit c || is_letter c) ≡ true
either_complete c h = ground arith

is_ups_number_sound : (s : String) → is_ups_number s ≡ true → IsUpsNumber s
unfolding is_ups_number
is_ups_number_sound String.[] h = absurd (cc)
is_ups_number_sound (String.◌∷◌ a String.[]) h = absurd (cc)
is_ups_number_sound (String.◌∷◌ a (String.◌∷◌ b s)) h =
    let long : size s ≡ 16 = ground arith in
    let chars =
      exactly IsDigitOrLetter (λ c. is_digit c || is_letter c) s either_sound (ground arith) in
    one_z a b s (ground arith) (ground arith) (rw long at chars)

is_ups_number_complete : (s : String) → IsUpsNumber s → is_ups_number s ≡ true
unfolding is_ups_number
is_ups_number_complete _ (one_z a z s e f x) =
    ground
      (arith, all_chars-Exactly IsDigitOrLetter (λ c. is_digit c || is_letter c) either_complete x)

is_fedex_number_sound : (s : String) → is_fedex_number s ≡ true → IsFedexNumber s
unfolding is_fedex_number
is_fedex_number_sound s h =
    let digits = exactly IsDigit is_digit s is_digit_sound (ground arith) in
    elim (Bool-cases (size s == 12)) [
      | inl e ↦ let n : size s ≡ 12 = ground arith in express (rw n at digits)
      | inr a ↦ elim (Bool-cases (size s == 15)) [
        | inl e ↦ let n : size s ≡ 15 = ground arith in ground_number (rw n at digits)
        | inr b ↦ elim (Bool-cases (size s == 20)) [
          | inl e ↦ let n : size s ≡ 20 = ground arith in smart_post (rw n at digits)
          | inr c ↦ let n : size s ≡ 22 = ground arith in smart_post_long (rw n at digits)
        ]
      ]
    ]

is_fedex_number_complete : (s : String) → IsFedexNumber s → is_fedex_number s ≡ true
unfolding is_fedex_number
is_fedex_number_complete s (express x) =
    ground (arith, all_chars-Exactly IsDigit is_digit is_digit_complete x)
is_fedex_number_complete s (ground_number x) =
    ground (arith, all_chars-Exactly IsDigit is_digit is_digit_complete x)
is_fedex_number_complete s (smart_post x) =
    ground (arith, all_chars-Exactly IsDigit is_digit is_digit_complete x)
is_fedex_number_complete s (smart_post_long x) =
    ground (arith, all_chars-Exactly IsDigit is_digit is_digit_complete x)

-- A tracking number is taken for a UPS number exactly if, once its spaces are removed, it is "1Z" and
-- sixteen digits or letters, and for a FedEx number exactly if it is twelve, fifteen, twenty or
-- twenty-two digits.
pub detect_carrier_iff :
    (tracking_number : String)
    → ((detect_carrier tracking_number ≡ Carrier.ups)
        ↔ IsUpsNumber (without_spaces (strip tracking_number)))
      × ((detect_carrier tracking_number ≡ Carrier.fedex)
          ↔ IsFedexNumber (without_spaces (strip tracking_number)))
unfolding detect_carrier
detect_carrier_iff t =
    let number = without_spaces (strip t) in
    (
      (
        λ h. is_ups_number_sound number (ground arith),
        λ x. let u = is_ups_number_complete number x in ground arith,
      ),
      (
        λ h. is_fedex_number_sound number (ground arith),
        λ x.
            let f = is_fedex_number_complete number x in
            elim (Bool-cases (is_ups_number number)) [
              | inl u ↦ absurd (cc (ups-not_fedex number u, f))
              | inr u ↦ ground arith
            ],
      ),
    )
