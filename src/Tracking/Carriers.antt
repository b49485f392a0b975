-- ===== src/Tracking/Carriers.antt =====
-- `detect_carrier` of app/services/tracking_service.py. Letters and digits are the ASCII ones.
use Prim.Native.Char.{Char, code}
use feature_asset_inventory.Base.{
  ℕ, suc, String, ◌≡◌, Bool, true, false, ◌&&◌, ◌||◌, arith, ◌==◌, leb, strip, if◌then◌else◌,
}
use feature_asset_inventory.Store.Types.{Carrier}
use feature_asset_inventory.Tracking.Fetch.{without_spaces}

abbrev pub is_digit : Char → Bool
is_digit c = leb b'0' (code c) && leb (code c) b'9'

abbrev pub is_letter : Char → Bool
is_letter c = (leb b'A' (code c) && leb (code c) b'Z') || (leb b'a' (code c) && leb (code c) b'z')

unfoldable pub all_chars : (Char → Bool) → String → Bool
all_chars p String.[] = true
all_chars p (String.◌∷◌ c s) = let rest = all_chars p s in p c && rest

unfoldable pub size : String → ℕ
size String.[] = 0
size (String.◌∷◌ c s) = suc (size s)

-- `^1Z[A-Z0-9]{16}$`, in either case
unfoldable pub is_ups_number : String → Bool
unfolding all_chars size
is_ups_number (String.◌∷◌ a (String.◌∷◌ b s)) =
    code a == b'1'
    && (code b == b'Z' || code b == b'z')
    && all_chars (λ c. is_digit c || is_letter c) s
    && size s == 16
is_ups_number _ = false

-- `^(\d{12}|\d{15}|\d{20}|\d{22})$`
unfoldable pub is_fedex_number : String → Bool
unfolding all_chars size
is_fedex_number s =
    all_chars is_digit s && (size s == 12 || size s == 15 || size s == 20 || size s == 22)

unfoldable pub detect_carrier : String → Carrier
unfolding is_ups_number is_fedex_number
detect_carrier tracking_number =
    let number = without_spaces (strip tracking_number) in
    if is_ups_number number
    then Carrier.ups
    else if is_fedex_number number
    then Carrier.fedex
    else Carrier.other

pub ups-not_fedex : (s : String) → is_ups_number s ≡ true → is_fedex_number s ≡ false
unfolding is_ups_number is_fedex_number
ups-not_fedex String.[] h = cc
ups-not_fedex (String.◌∷◌ a String.[]) h = cc
ups-not_fedex (String.◌∷◌ a (String.◌∷◌ b s)) h = ground arith
