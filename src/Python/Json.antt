-- ===== src/Python/Json.antt =====
-- The values of `json.loads`, and what the services ask of them.
use feature_asset_inventory.Base.{
  ℕ, String, Bool, true, false, not, Option, none, some, List, [], ◌∷◌, ◌==◌, str_eq, is_blank,
  if◌then◌else◌,
}
use feature_asset_inventory.Python.Errors.{
  Outcome, value, raises, key_error, index_error, type_error, attribute_error, ◌>>=◌,
}

-- A number that is no natural number stands by its text. Zero is always `whole 0`.
mutual
  pub data Json : Type 0 where
    null : Json
    boolean : Bool → Json
    whole : ℕ → Json
    number : String → Json
    text : String → Json
    array : Values → Json
    object : Fields → Json

  pub data Values : Type 0 where
    nil : Values
    cons : Json → Values → Values

  pub data Fields : Type 0 where
    empty : Fields
    field : String → Json → Fields → Fields

abbrev pub items : Values → List Json
items nil = []
items (cons j js) = j ∷ items js

abbrev pub values : List Json → Values
values [] = nil
values (j ∷ js) = cons j (values js)

abbrev pub find_field : String → Fields → Option Json
find_field key empty = none
find_field key (field k j fs) = if str_eq k key then some j else find_field key fs

-- `bool(x)`
abbrev pub truthy : Json → Bool
truthy null = false
truthy (boolean b) = b
truthy (whole n) = not (n == 0)
truthy (number t) = true
truthy (text s) = not (is_blank s)
truthy (array nil) = false
truthy (array (cons j js)) = true
truthy (object empty) = false
truthy (object (field k j fs)) = true

-- `x or y`
abbrev pub or_else : Json → Json → Json
or_else x y = if truthy x then x else y

abbrev pub found : Option Json → Outcome Json
found none = raises key_error
found (some j) = value j

abbrev pub or_null : Option Json → Json
or_null none = null
or_null (some j) = j

-- `x[key]`
abbrev pub item : String → Json → Outcome Json
item key (object fs) = found (find_field key fs)
item key _ = raises type_error

-- `x.get(key)`
abbrev pub get : String → Json → Outcome Json
get key (object fs) = value (or_null (find_field key fs))
get key _ = raises attribute_error

-- `x.get(key) or d`
abbrev pub get_or : String → Json → Json → Outcome Json
get_or key d x = get key x >>= λ j. value (or_else j d)

-- `x[0]`
abbrev pub at_zero : Json → Outcome Json
at_zero (array nil) = raises index_error
at_zero (array (cons j js)) = value j
at_zero (text String.[]) = raises index_error
at_zero (text (String.◌∷◌ c s)) = value (text (String.◌∷◌ c String.[]))
at_zero (object fs) = raises key_error
at_zero _ = raises type_error

abbrev pub characters : String → List Json
characters String.[] = []
characters (String.◌∷◌ c s) = text (String.◌∷◌ c String.[]) ∷ characters s

abbrev pub keys : Fields → List Json
keys empty = []
keys (field k j fs) = text k ∷ keys fs

-- `for y in x`
abbrev pub iterate : Json → Outcome (List Json)
iterate (array js) = value (items js)
iterate (text s) = value (characters s)
iterate (object fs) = value (keys fs)
iterate _ = raises type_error

abbrev pub is_object : Json → Bool
is_object (object fs) = true
is_object _ = false
