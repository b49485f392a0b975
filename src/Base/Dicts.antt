-- ===== src/Base/Dicts.antt =====
-- A Python `dict` with text keys: the entries in the order in which their keys came.
use Prim.Native.String.{String}
use mathlib.Core.Path.{◌≡◌, refl}
use mathlib.Core.Option.{Option, none, some}
use mathlib.Core.List.{List, [], ◌∷◌}
use native.Mathlib.Omega.{arith}
use text.Mathlib.Text.{◌==◌ as str_eq}
use text.Mathlib.TextEquality.{eq_iff}
use feature_asset_inventory.Base.Tests.{if◌then◌else◌}

abbrev pub Dict {ℓ} : Type ℓ → Type ℓ
Dict V = List (String × V)

module _ {ℓ} {V : Type ℓ} where
  -- `d.get(key)`
  unfoldable pub lookup : String → Dict V → Option V
  lookup key [] = none
  lookup key ((k, v) ∷ d) = if str_eq k key then some v else lookup key d

  -- `d[key] = value`
  unfoldable pub insert : String → V → Dict V → Dict V
  insert key v [] = (key, v) ∷ []
  insert key v ((k, w) ∷ d) =
      let rest = insert key v d in if str_eq k key then (k, v) ∷ d else (k, w) ∷ rest

  -- `d.pop(key, None)`
  unfoldable pub delete : String → Dict V → Dict V
  delete key [] = []
  delete key ((k, w) ∷ d) = let rest = delete key d in if str_eq k key then rest else (k, w) ∷ rest

  pub lookup-insert :
      (j key : String) (v : V) (d : Dict V)
      → lookup j (insert key v d) ≡ (if str_eq key j then some v else lookup j d)
  unfolding lookup insert
  lookup-insert j key v [] = refl
  lookup-insert j key v ((k, w) ∷ d) =
      ground (arith, eq_iff key j, eq_iff k key, eq_iff k j, lookup-insert j key v d)

  pub lookup-delete :
      (j key : String) (d : Dict V)
      → lookup j (delete key d) ≡ (if str_eq key j then none else lookup j d)
  unfolding lookup delete
  lookup-delete j key [] = ground arith
  lookup-delete j key ((k, w) ∷ d) =
      ground (arith, eq_iff key j, eq_iff k key, eq_iff k j, lookup-delete j key d)
