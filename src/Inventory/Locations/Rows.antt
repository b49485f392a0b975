-- ===== src/Inventory/Locations/Rows.antt =====
-- What a bulk change of location does to each row of the asset table, and what it counts.
use feature_asset_inventory.Base.{
  ℕ, suc, ◌+◌, String, ◌≡◌, refl, inl, inr, ◌&&◌, not, Option, none, some, List, [], ◌∷◌, ◌++◌,
  arith, opt_eq, is_some, length, mem, select, if◌then◌else◌, Bool-cases,
}
use feature_asset_inventory.Base.Http.{ok, Result-cases}
use feature_asset_inventory.Store.{Store}
use feature_asset_inventory.Store.Table.{Database}
use feature_asset_inventory.Store.Rows.{Asset, asset_row, location_row}
use feature_asset_inventory.Store.Session.{after, reply}
use feature_asset_inventory.Reservation.AutoAssign.{dedupe}
use feature_asset_inventory.Inventory.{record_history}
use feature_asset_inventory.Inventory.Locations.{
  BulkResult, Bulk, nothing_done, check_location, found_assets, missing_ids, relocated, set_one,
  set_all, bulk_set_location,
}

length-snoc : {A : Type 0} (xs : List A) (x : A) → length (xs ++ x ∷ []) ≡ suc (length xs)
length-snoc [] x = refl
length-snoc (y ∷ xs) x = omega (arith, length-snoc xs x)

found_none : (assets : List Asset) → found_assets [] assets ≡ []
unfolding select mem
found_none [] = refl
found_none (x ∷ xs) = found_none xs

-- The asset as a bulk change leaves it: moved, unless it is archived or there already.
abbrev pub relocated_row : Option ℕ → Option String → Asset → Asset
relocated_row l actor a =
    if not (is_some a.archived_at) && not (opt_eq a.location_id l) then relocated l actor a else a

module _ (d : Database) (l : Option ℕ) (actor : Option String) where
  abbrev row_after : Asset → Option Asset → Asset
  row_after c none = c
  row_after c (some a) = relocated_row l actor c

  counts-set_one :
      (x : Asset) (db : Store) (r : BulkResult)
      → let b' = set_one d l actor x (db, r) in
        (b'.1.updated + b'.1.unchanged + b'.1.skipped ≡ suc (r.updated + r.unchanged + r.skipped))
        × (length b'.0.asset_history + r.updated ≡ length db.asset_history + b'.1.updated)
        × (b'.1.errors ≡ r.errors)
  unfolding set_one record_history
  counts-set_one x db r = elim (Bool-cases (is_some x.archived_at)) [
    | inl t ↦ rw t (omega arith, omega arith, refl)
    | inr t ↦ elim (Bool-cases (opt_eq x.location_id l)) [
      | inl u ↦ rw (t, u) (omega arith, omega arith, refl)
      | inr u ↦ rw (t, u) (omega arith, omega (arith, length-snoc db.asset_history _), refl)
    ]
  ]

  -- Each asset of the list is counted once, and each that is moved has a history entry.
  counts-set_all :
      (xs : List Asset) (db : Store) (r : BulkResult)
      → let b' = set_all d l actor xs (db, r) in
        (b'.1.updated + b'.1.unchanged + b'.1.skipped
          ≡ r.updated + r.unchanged + r.skipped + length xs)
        × (length b'.0.asset_history + r.updated ≡ length db.asset_history + b'.1.updated)
        × (b'.1.errors ≡ r.errors)
  unfolding set_all
  counts-set_all [] db r = (omega arith, omega arith, refl)
  counts-set_all (x ∷ xs) db r =
      let one = set_one d l actor x (db, r) in
      ground (arith, counts-set_one x db r, counts-set_all xs one.0 one.1)

  -- The loop of a request, from its start.
  abbrev bulk_of : List ℕ → Store → Bulk
  bulk_of asset_ids db =
      set_all d l actor (found_assets asset_ids db.assets)
        (db, nothing_done (missing_ids asset_ids db.assets))

  -- A request that succeeds leaves and answers what its loop does.
  bulk_set_location_lem :
      (asset_ids : List ℕ) (db : Store) (r : BulkResult)
      → reply (bulk_set_location d l actor asset_ids) db ≡ ok r
      → (after (bulk_set_location d l actor asset_ids) db ≡ (bulk_of asset_ids db).0)
        × (r ≡ (bulk_of asset_ids db).1)
  unfolding bulk_set_location set_all dedupe select
  bulk_set_location_lem [] db r h = rw (found_none db.assets) (refl, ground arith)
  bulk_set_location_lem (k ∷ ks) db r h = elim (Result-cases (check_location l db)) [
    | inr (e, failed) ↦ absurd (ground arith)
    | inl (done, passed) ↦ (ground arith, ground arith)
  ]

  -- A bulk change of location that succeeds counts each asset that the request lists once, as updated,
  -- unchanged or skipped, and adds as many history entries as it counts as updated.
  pub bulk_set_location-counts :
      (asset_ids : List ℕ) (db : Store) (r : BulkResult)
      → reply (bulk_set_location d l actor asset_ids) db ≡ ok r
      → (r.updated + r.unchanged + r.skipped ≡ length (found_assets asset_ids db.assets))
        × (length (after (bulk_set_location d l actor asset_ids) db).asset_history
            ≡ length db.asset_history + r.updated)
  bulk_set_location-counts asset_ids db r h =
      let (left, answer) = bulk_set_location_lem asset_ids db r h in
      let counted =
        counts-set_all (found_assets asset_ids db.assets) db
          (nothing_done (missing_ids asset_ids db.assets)) in
      rw (left, answer) (omega arith, omega arith)
