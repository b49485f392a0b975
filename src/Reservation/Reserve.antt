-- ===== src/Reservation/Reserve.antt =====
-- Reservations in general: records of some kind, active or not, whose items list assets. Shipments
-- and deployments are the two kinds. How each statement on the two tables changes who holds what.
use mathlib.Core.Option
use feature_asset_inventory.Base.{
  ℕ, ◌≡◌, ◌⊎◌, inl, inr, Bool, true, false, ◌&&◌, ◌||◌, not, Option, none, some, List, [], ◌∷◌,
  ◌++◌, arith, ◌==◌, if◌then◌else◌, is_some, any, first, select, any-append, map, Option-cases,
}
use feature_asset_inventory.Store.Table.{
  Row, get_row, put_row, drop_row, get_row-put_row, get_row-insert, get_row-drop_row, first-none,
  id_of-get_row, get_row-map, IsKeyed, put_row-IsKeyed, insert-IsKeyed, drop_row-IsKeyed,
  map-IsKeyed,
}
use feature_asset_inventory.Reservation.Exclusive.{Exclusive, Exclusive-shrink, Exclusive-grow}

-- A kind of record that reserves assets, by its items.
pub record Reserving (R I : Type 0) : Type 0 where
  pub is_active : R → Bool
  pub owner : I → ℕ
  pub asset : I → ℕ

module _ {R I : Type 0} (kind : Reserving R I) where
  -- The join of a record with its items, at one asset.
  unfoldable pub lists : List I → ℕ → ℕ → Bool
  lists items i a = any (λ x. kind.owner x == i && kind.asset x == a) items

  abbrev pub active : Option R → Bool
  active none = false
  active (some r) = kind.is_active r

module _ {R I : Type 0} ⦃row : Row R⦄ (kind : Reserving R I) where
  -- The record is there and active, and the asset is among its items.
  unfoldable pub holds : List R → List I → ℕ → ℕ → Bool
  holds rows items i a = active kind (get_row i rows) && lists kind items i a

  -- The keys tell the records apart, every item belongs to a record that is there, and no asset is
  -- on two active records.
  pub record IsReserved (rows : List R) (items : List I) : Type 0 where
    pub keyed : IsKeyed rows
    pub known : (i a : ℕ) → lists kind items i a ≡ true → is_some (get_row i rows) ≡ true
    pub exclusive : Exclusive (holds rows items)

module _ {R I : Type 0} ⦃row : Row R⦄ ⦃item_row : Row I⦄ (kind : Reserving R I) where
  -- A record's row is rewritten and does not become active.
  pub put-IsReserved :
      (r : R) (rows : List R) (items : List I)
      → (kind.is_active r ≡ true → active kind (get_row (row.id_of r) rows) ≡ true)
      → IsReserved kind rows items
      → IsReserved kind (put_row r rows) items
  unfolding holds
  put-IsReserved r rows items keep v = record {
    keyed = put_row-IsKeyed r rows v.keyed;
    known = λ i a h. ground (arith, v.known i a h, get_row-put_row i r rows);
    exclusive =
        Exclusive-shrink (holds kind rows items) _
          (λ i a h. ground (arith, get_row-put_row i r rows, keep)) v.exclusive;
  }

  -- Items go.
  pub fewer-IsReserved :
      (rows : List R) (items fewer : List I)
      → ((i a : ℕ) → lists kind fewer i a ≡ true → lists kind items i a ≡ true)
      → IsReserved kind rows items
      → IsReserved kind rows fewer
  unfolding holds
  fewer-IsReserved rows items fewer less v = record {
    keyed = v.keyed;
    known = λ i a h. v.known i a (less i a h);
    exclusive =
        Exclusive-shrink (holds kind rows items) _ (λ i a h. ground (arith, less i a)) v.exclusive;
  }

  lists-select :
      (k i a : ℕ) (items : List I)
      → lists kind (select (λ x. not (kind.owner x == k)) items) i a
        ≡ (if i == k then false else lists kind items i a)
  unfolding lists any select
  lists-select k i a [] = ground arith
  lists-select k i a (x ∷ items) = ground (arith, lists-select k i a items)

  -- A record goes with its items.
  pub drop-IsReserved :
      (k : ℕ) (rows : List R) (items : List I)
      → IsReserved kind rows items
      → IsReserved kind (drop_row k rows) (select (λ x. not (kind.owner x == k)) items)
  unfolding holds
  drop-IsReserved k rows items v = record {
    keyed = drop_row-IsKeyed k rows v.keyed;
    known =
        λ i a h. ground (arith, lists-select k i a items, get_row-drop_row i k rows, v.known i a);
    exclusive =
        Exclusive-shrink (holds kind rows items) _
          (λ i a h. ground (arith, lists-select k i a items, get_row-drop_row i k rows))
          v.exclusive;
  }

  lists-drop_row :
      (k i a : ℕ) (items : List I)
      → lists kind (drop_row k items) i a ≡ true
      → lists kind items i a ≡ true
  unfolding lists any drop_row
  lists-drop_row k i a [] h = h
  lists-drop_row k i a (x ∷ items) h = ground (arith, lists-drop_row k i a items)

  -- One item goes.
  pub drop_item-IsReserved :
      (k : ℕ) (rows : List R) (items : List I)
      → IsReserved kind rows items
      → IsReserved kind rows (drop_row k items)
  drop_item-IsReserved k rows items =
      fewer-IsReserved rows items (drop_row k items) (λ i a. lists-drop_row k i a items)

  -- The items of one asset on one record go.
  pub lists-without :
      (k b i a : ℕ) (items : List I)
      → lists kind (select (λ x. not (kind.owner x == k && kind.asset x == b)) items) i a
        ≡ (if i == k && a == b then false else lists kind items i a)
  unfolding lists any select
  lists-without k b i a [] = ground arith
  lists-without k b i a (x ∷ items) = ground (arith, lists-without k b i a items)

  pub lists-append :
      (x : I) (i a : ℕ) (items : List I)
      → lists kind (items ++ x ∷ []) i a
        ≡ (lists kind items i a || (kind.owner x == i && kind.asset x == a))
  unfolding lists any
  lists-append x i a items =
      ground (arith, any-append (λ (y : I). kind.owner y == i && kind.asset y == a) items (x ∷ []))

  -- What a search for another active record tells when it finds nothing.
  pub first-none_free :
      (a : ℕ) (allowed : R → Bool) (rows : List R) (items : List I)
      → first (λ r. lists kind items (row.id_of r) a && kind.is_active r && allowed r) rows ≡ none
      → (j : ℕ) {r : R} → get_row j rows ≡ some r
      → holds kind rows items j a ≡ true
      → allowed r ≡ false
  unfolding holds
  first-none_free a allowed rows items h j {r} e held = ground (
    arith,
    id_of-get_row j rows e,
    first-none (λ (r : R). lists kind items (row.id_of r) a && kind.is_active r && allowed r) j rows
        h e,
  )

module _ {R I : Type 0} ⦃row : Row R⦄ (kind : Reserving R I) where
  -- Rows are rewritten, and each keeps its key and whether it is active.
  pub map-IsReserved :
      (f : R → R)
      → ((r : R) → row.id_of (f r) ≡ row.id_of r)
      → ((r : R) → kind.is_active (f r) ≡ kind.is_active r)
      → (rows : List R) (items : List I) → IsReserved kind rows items
      → IsReserved kind (map f rows) items
  unfolding holds
  map-IsReserved f same keeps rows items v = record {
    keyed = map-IsKeyed f same rows v.keyed;
    known = λ i a h. rw (get_row-map f same i rows) (there i (v.known i a h));
    exclusive =
        Exclusive-shrink (holds kind rows items) _
          (λ i a h. held i a (rw (get_row-map f same i rows) at h)) v.exclusive;
  }
    where
      there :
          (i : ℕ) → is_some (get_row i rows) ≡ true → is_some (Option.map f (get_row i rows)) ≡ true
      there i h = ground arith

      held :
          (i a : ℕ)
          → (active kind (Option.map f (get_row i rows)) && lists kind items i a) ≡ true
          → (active kind (get_row i rows) && lists kind items i a) ≡ true
      held i a h = elim (Option-cases (get_row i rows)) [
        | inl e ↦ ground arith
        | inr (r, e) ↦ ground (arith, keeps r)
      ]

  -- A record that joins the table takes nothing from the others.
  pub holds-insert :
      (r : R) (rows : List R) (items : List I) (j a : ℕ)
      → holds kind rows items j a ≡ true
      → holds kind (rows ++ r ∷ []) items j a ≡ true
  unfolding holds
  holds-insert r rows items j a h = ground (arith, get_row-insert j r rows)

-- The record `k` gains the assets for which `gained` holds.
module _ {R I : Type 0} ⦃row : Row R⦄ (kind : Reserving R I) (k : ℕ) (gained : ℕ → Bool)
    (rows : List R) (items more : List I)
    (grows : (i a : ℕ) → lists kind more i a ≡ (lists kind items i a || (k == i && gained a)))
    (free : (a : ℕ) → gained a ≡ true → (j : ℕ) → holds kind rows items j a ≡ true → j ≡ k)
    (v : IsReserved kind rows items) where
  -- The record is there already.
  pub grow-IsReserved : is_some (get_row k rows) ≡ true → IsReserved kind rows more
  unfolding holds
  grow-IsReserved there = record {
    keyed = v.keyed;
    known = λ i a h. ground (arith, v.known i a, grows i a);
    exclusive =
        Exclusive-grow (holds kind rows items) _ k gained (λ i a h. ground (arith, grows i a))
          (λ j a m h. free a m j h) v.exclusive;
  }

  insert-gains :
      (r : R)
      → row.id_of r ≡ k
      → get_row k rows ≡ none
      → (i a : ℕ) → holds kind (rows ++ r ∷ []) more i a ≡ true
      → (holds kind rows items i a ≡ true) ⊎ ((i ≡ k) × (gained a ≡ true))
  unfolding holds
  insert-gains r e new i a h = ground (arith, v.known i a, get_row-insert i r rows, grows i a)

  -- The record is new.
  pub insert-IsReserved :
      (r : R) → row.id_of r ≡ k → get_row k rows ≡ none → IsReserved kind (rows ++ r ∷ []) more
  unfolding holds
  insert-IsReserved r e new = record {
    keyed = insert-IsKeyed r rows (rw e new) v.keyed;
    known = λ i a h. ground (arith, v.known i a, get_row-insert i r rows, grows i a);
    exclusive =
        Exclusive-grow (holds kind rows items) _ k gained (insert-gains r e new)
          (λ j a m h. free a m j h) v.exclusive;
  }
