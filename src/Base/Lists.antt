-- ===== src/Base/Lists.antt =====
-- Lists by Boolean tests: membership, search, filters, the removal of repeats.
use Prim.Native.Nat.{ℕ, zero, suc, ◌≤◌}
use mathlib.Core.Path.{◌≡◌, refl}
use mathlib.Core.Logic.{inl, inr}
use mathlib.Core.Bool.{Bool, true, false, ◌||◌}
use mathlib.Core.Option.{Option, none, some}
use mathlib.Core.List.{List, [], ◌∷◌, ◌++◌}
use native.Mathlib.Omega.{arith}
use feature_asset_inventory.Base.Tests.{◌==◌, if◌then◌else◌, Bool-cases}

module _ {ℓ} {A : Type ℓ} where
  abbrev pub length : List A → ℕ
  length [] = 0
  length (x ∷ xs) = suc (length xs)

  abbrev pub is_empty : List A → Bool
  is_empty [] = true
  is_empty (x ∷ xs) = false

  abbrev pub take : ℕ → List A → List A
  take zero xs = []
  take (suc n) [] = []
  take (suc n) (x ∷ xs) = x ∷ take n xs

  unfoldable pub any : (A → Bool) → List A → Bool
  any p [] = false
  any p (x ∷ xs) = p x || any p xs

  -- the first element that passes, as `.scalars().first()`
  unfoldable pub first : (A → Bool) → List A → Option A
  first p [] = none
  first p (x ∷ xs) = if p x then some x else first p xs

  -- a `WHERE` clause
  unfoldable pub select : (A → Bool) → List A → List A
  select p [] = []
  select p (x ∷ xs) = let rest = select p xs in if p x then x ∷ rest else rest

-- `k in ids`
unfoldable pub mem : ℕ → List ℕ → Bool
mem k [] = false
mem k (x ∷ xs) = k == x || mem k xs

module _ {ℓ} {A : Type ℓ} (p : A → Bool) where
  pub any-append : (xs ys : List A) → any p (xs ++ ys) ≡ (any p xs || any p ys)
  unfolding any
  any-append [] ys = refl
  any-append (x ∷ xs) ys = ground (arith, any-append xs ys)

  pub first-passes : (xs : List A) {a : A} → first p xs ≡ some a → p a ≡ true
  unfolding first
  first-passes [] h = cc
  first-passes (x ∷ xs) h = elim (Bool-cases (p x)) [
    | inl e ↦ ground arith
    | inr e ↦ first-passes xs (ground arith)
  ]

pub any-first {ℓ} :
    {A : Type ℓ} (p : A → Bool) (xs : List A) {a : A} → first p xs ≡ some a → any p xs ≡ true
unfolding any first
any-first p [] h = cc
any-first p (x ∷ xs) {a} h = elim (Bool-cases (p x)) [
  | inl e ↦ ground arith
  | inr e ↦ ground (arith, any-first p xs {a = a} (ground arith))
]

pub any-select {ℓ} :
    {A : Type ℓ} (p q : A → Bool) (xs : List A) → any p (select q xs) ≡ true → any p xs ≡ true
unfolding any select
any-select p q [] h = h
any-select p q (x ∷ xs) h = ground (arith, any-select p q xs)

pub length-take {ℓ} : {A : Type ℓ} (n : ℕ) (xs : List A) → length (take n xs) ≤ n
length-take zero xs = omega arith
length-take (suc n) [] = omega arith
length-take (suc n) (x ∷ xs) = omega (arith, length-take n xs)

pub mem-append : (k : ℕ) (xs ys : List ℕ) → mem k (xs ++ ys) ≡ (mem k xs || mem k ys)
unfolding mem
mem-append k [] ys = refl
mem-append k (x ∷ xs) ys = ground (arith, mem-append k xs ys)

pub first-none_fails {ℓ} :
    {A : Type ℓ} (p q : A → Bool) (xs : List A) {a : A}
    → first p xs ≡ some a
    → first q xs ≡ none
    → q a ≡ false
unfolding first
first-none_fails p q [] h k = cc
first-none_fails p q (x ∷ xs) h k = elim (Bool-cases (p x)) [
  | inl e ↦ ground arith
  | inr e ↦ first-none_fails p q xs (ground arith) (ground arith)
]
