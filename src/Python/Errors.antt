-- ===== src/Python/Errors.antt =====
-- An expression that yields a value or raises one of the built-in errors.
use feature_asset_inventory.Base.{◌≡◌, refl, ◌⊎◌, inl, inr}

pub data Error : Type 0 where
  key_error index_error type_error attribute_error value_error : Error

pub data Outcome {ℓ} (A : Type ℓ) : Type ℓ where
  value : A → Outcome A
  raises : Error → Outcome A

infixl 5 ◌>>=◌
abbrev pub ◌>>=◌ {ℓ κ} : {A : Type ℓ} {B : Type κ} → Outcome A → (A → Outcome B) → Outcome B
value a >>= f = f a
raises e >>= f = raises e

abbrev pub map_value {ℓ κ} : {A : Type ℓ} {B : Type κ} → (A → B) → Outcome A → Outcome B
map_value f (value a) = value (f a)
map_value f (raises e) = raises e

pub Outcome-cases {ℓ} :
    {A : Type ℓ} (o : Outcome A) → ((a : A) × (o ≡ value a)) ⊎ ((e : Error) × (o ≡ raises e))
Outcome-cases (value a) = inl (a, refl)
Outcome-cases (raises e) = inr (e, refl)
