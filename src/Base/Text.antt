-- ===== src/Base/Text.antt =====
-- What the program uses of Python's `str`: `strip`, `x or None`, `str(n)`, and left padding.
use Prim.Native.Nat.{ℕ, zero, suc, ◌/◌, ◌%◌, ◌<◌}
use Prim.Native.Char.{code}
use Prim.Native.String.{String, [], ◌∷◌, ◌++◌}
use mathlib.Core.Path.{◌≡◌, refl}
use mathlib.Core.Bool.{Bool, ◌&&◌, ◌||◌}
use mathlib.Core.Logic.{inl, inr}
use native.Mathlib.Omega.{arith}
use mathlib.Core.Option.{Option, none, some}
use text.Mathlib.Text.{◌==◌ as str_eq}
use feature_asset_inventory.Base.Tests.{◌==◌, leb, if◌then◌else◌, Bool-cases}

-- The ASCII characters for which `str.isspace` holds.
abbrev is_space : ℕ → Bool
is_space c = (leb 9 c && leb c 13) || (leb 28 c && leb c 32)

abbrev pub is_blank : String → Bool
is_blank s = str_eq s ""

lstrip : String → String
lstrip [] = []
lstrip (c ∷ s) = let rest = lstrip s in if is_space (code c) then rest else c ∷ s

rstrip : String → String
rstrip [] = []
rstrip (c ∷ s) = let rest = rstrip s in if is_blank rest && is_space (code c) then [] else c ∷ rest

unfoldable pub strip : String → String
unfolding lstrip rstrip
strip s = rstrip (lstrip s)

-- `s or None`
abbrev pub or_none : String → Option String
or_none s = if is_blank s then none else some s

abbrev digit : ℕ → String
digit n =
    if n == 0
    then "0"
    else if n == 1
    then "1"
    else if n == 2
    then "2"
    else if n == 3
    then "3"
    else if n == 4
    then "4"
    else if n == 5
    then "5"
    else if n == 6
    then "6"
    else if n == 7
    then "7"
    else if n == 8
    then "8"
    else "9"

-- The decimal text of `n`, on fuel.
str_from : ℕ → ℕ → String
str_from zero n = ""
str_from (suc fuel) n =
    let rest = str_from fuel (n / 10) in if leb n 9 then digit n else rest ++ digit (n % 10)

-- Any fuel above the number gives the same text, so the fuel below is enough.
str_from_fuel : (f g n : ℕ) → n < f → n < g → str_from f n ≡ str_from g n
unfolding str_from
str_from_fuel zero g n h k = absurd (omega arith)
str_from_fuel (suc f) zero n h k = absurd (omega arith)
str_from_fuel (suc f) (suc g) n h k = elim (Bool-cases (leb n 9)) [
  | inl small ↦ rw small
  | inr big ↦ rw (big, str_from_fuel f g (n / 10) (ground arith) (ground arith))
]

-- `str(n)`
unfoldable pub str : ℕ → String
unfolding str_from
str n = str_from (suc n) n

str_example : str 1204 ≡ "1204"
unfolding str
str_example = refl

strip_example : strip "  a b " ≡ "a b"
unfolding strip
strip_example = refl
