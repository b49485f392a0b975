-- ===== src/Store/Table.antt =====
-- A table of the database as the list of its rows, and the statements by primary key that
-- `Session` sends: `db.get`, `INSERT`, `UPDATE` and `DELETE` of one row.
use mathlib.Core.Option
use feature_asset_inventory.Base.{
  ℕ, ◌≡◌, refl, Bool, false, Option, none, some, List, [], ◌∷◌, ◌++◌, arith, ◌==◌, if◌then◌else◌,
  first, mem, inl, inr, map, Bool-cases,
}

-- The column `id` of a row.
pub record Row (A : Type 0) : Type 0 where
  pub id_of : A → ℕ

module _ {A : Type 0} ⦃r : Row A⦄ where
  -- `db.get(Model, key)`
  unfoldable pub get_row : ℕ → List A → Option A
  get_row key [] = none
  get_row key (x ∷ xs) = if key == r.id_of x then some x else get_row key xs

  -- The attributes of a loaded row are written back by its key.
  unfoldable pub put_row : A → List A → List A
  put_row a [] = []
  put_row a (x ∷ xs) = (if r.id_of a == r.id_of x then a else x) ∷ put_row a xs

  -- `db.delete(row)`
  unfoldable pub drop_row : ℕ → List A → List A
  drop_row key [] = []
  drop_row key (x ∷ xs) = let rest = drop_row key xs in if key == r.id_of x then rest else x ∷ rest

  unfoldable pub ids : List A → List ℕ
  ids [] = []
  ids (x ∷ xs) = r.id_of x ∷ ids xs

-- The database names the new rows: any number that no row of the table has.
pub record Database : Type 0 where
  pub fresh : List ℕ → ℕ
  pub fresh_is_new : (taken : List ℕ) → mem (fresh taken) taken ≡ false

module _ {A : Type 0} ⦃r : Row A⦄ where
  pub id_of-get_row : (key : ℕ) (xs : List A) {a : A} → get_row key xs ≡ some a → r.id_of a ≡ key
  unfolding get_row
  id_of-get_row key [] h = cc
  id_of-get_row key (x ∷ xs) h = elim (Bool-cases (key == r.id_of x)) [
    | inl e ↦ ground arith
    | inr e ↦ id_of-get_row key xs (ground arith)
  ]

  abbrev pub replaced : Option A → A → Option A
  replaced none a = none
  replaced (some b) a = some a

  pub get_row-put_row :
      (key : ℕ) (a : A) (xs : List A)
      → get_row key (put_row a xs)
        ≡ (if key == r.id_of a then replaced (get_row key xs) a else get_row key xs)
  unfolding get_row put_row
  get_row-put_row key a [] = ground arith
  get_row-put_row key a (x ∷ xs) = ground (arith, get_row-put_row key a xs)

  abbrev pub or_else : Option A → Option A → Option A
  or_else none b = b
  or_else (some a) b = some a

  pub get_row-insert :
      (key : ℕ) (a : A) (xs : List A)
      → get_row key (xs ++ a ∷ [])
        ≡ or_else (get_row key xs) (if key == r.id_of a then some a else none)
  unfolding get_row
  get_row-insert key a [] = refl
  get_row-insert key a (x ∷ xs) = ground (arith, get_row-insert key a xs)

  pub get_row-drop_row :
      (key gone : ℕ) (xs : List A)
      → get_row key (drop_row gone xs) ≡ (if key == gone then none else get_row key xs)
  unfolding get_row drop_row
  get_row-drop_row key gone [] = ground arith
  get_row-drop_row key gone (x ∷ xs) = ground (arith, get_row-drop_row key gone xs)

  -- A search that finds nothing has passed over every row that a key leads to.
  pub first-none :
      (p : A → Bool) (key : ℕ) (xs : List A) {a : A}
      → first p xs ≡ none
      → get_row key xs ≡ some a
      → p a ≡ false
  unfolding first get_row
  first-none p key [] h e = cc
  first-none p key (x ∷ xs) {a} h e = elim (Bool-cases (p x)) [
    | inl t ↦ ground arith
    | inr f ↦ elim (Bool-cases (key == r.id_of x)) [
      | inl t ↦ ground arith
      | inr g ↦ first-none p key xs (ground arith) (ground arith)
    ]
  ]

  pub get_row_new : (key : ℕ) (xs : List A) → mem key (ids xs) ≡ false → get_row key xs ≡ none
  unfolding get_row ids mem
  get_row_new key [] h = refl
  get_row_new key (x ∷ xs) h = ground (arith, get_row_new key xs)

module _ {A : Type 0} ⦃r : Row A⦄ where
  -- No two rows have the same key.
  abbrev pub IsKeyed : List A → Type 0
  IsKeyed [] = Unit
  IsKeyed (x ∷ xs) = (get_row (r.id_of x) xs ≡ none) × IsKeyed xs

  pub put_row-IsKeyed : (a : A) (xs : List A) → IsKeyed xs → IsKeyed (put_row a xs)
  unfolding put_row
  put_row-IsKeyed a [] h = tt
  put_row-IsKeyed a (x ∷ xs) h =
      ground (arith, put_row-IsKeyed a xs, get_row-put_row (r.id_of x) a xs)

  pub insert-IsKeyed :
      (a : A) (xs : List A) → get_row (r.id_of a) xs ≡ none → IsKeyed xs → IsKeyed (xs ++ a ∷ [])
  unfolding get_row
  insert-IsKeyed a [] new h = (refl, tt)
  insert-IsKeyed a (x ∷ xs) new h =
      ground (arith, insert-IsKeyed a xs, get_row-insert (r.id_of x) a xs)

  pub drop_row-IsKeyed : (key : ℕ) (xs : List A) → IsKeyed xs → IsKeyed (drop_row key xs)
  unfolding drop_row
  drop_row-IsKeyed key [] h = tt
  drop_row-IsKeyed key (x ∷ xs) h =
      ground (arith, drop_row-IsKeyed key xs, get_row-drop_row (r.id_of x) key xs)

  absent :
      (p : A → Bool) (key : ℕ) (xs : List A) {a : A}
      → get_row key xs ≡ none
      → first p xs ≡ some a
      → (key == r.id_of a) ≡ false
  unfolding get_row first
  absent p key [] h e = cc
  absent p key (x ∷ xs) {a} h e = ground (arith, absent p key xs {a = a})

  -- The row that a search finds is the row of its key.
  pub get_row-first :
      (p : A → Bool) (xs : List A) {a : A}
      → IsKeyed xs
      → first p xs ≡ some a
      → get_row (r.id_of a) xs ≡ some a
  unfolding get_row first
  get_row-first p [] k e = cc
  get_row-first p (x ∷ xs) {a} k e = elim (Bool-cases (p x)) [
    | inl t ↦ ground arith
    | inr f ↦ ground (arith, get_row-first p xs {a = a} k.1, absent p (r.id_of x) xs {a = a} k.0)
  ]

module _ {A : Type 0} ⦃r : Row A⦄ (f : A → A) (same : (a : A) → r.id_of (f a) ≡ r.id_of a) where
  pub get_row-map : (key : ℕ) (xs : List A) → get_row key (map f xs) ≡ Option.map f (get_row key xs)
  unfolding get_row
  get_row-map key [] = refl
  get_row-map key (x ∷ xs) = ground (arith, get_row-map key xs, same x)

  pub map-IsKeyed : (xs : List A) → IsKeyed xs → IsKeyed (map f xs)
  map-IsKeyed [] h = tt
  map-IsKeyed (x ∷ xs) h = ground (arith, map-IsKeyed xs, same x, get_row-map (r.id_of x) xs)
