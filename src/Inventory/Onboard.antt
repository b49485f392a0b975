-- ===== src/Inventory/Onboard.antt =====
-- `onboard_asset` of app/services/inventory_service.py, and the numbers that it keeps apart.
use feature_asset_inventory.Base.{
  ℕ, String, ◌≡◌, ◌⊎◌, refl, inl, inr, Bool, false, ◌||◌, Option, none, some, List, [], ◌∷◌, ◌++◌,
  arith, ◌==◌, str_eq, eq_iff, any, if◌then◌else◌, Bool-cases,
}
use feature_asset_inventory.Base.Http.{
  HttpError, ok, err, raise_if, conflict, unique_violated, Result-cases,
}
use feature_asset_inventory.Store.{Store}
use feature_asset_inventory.Store.Types.{HistoryEvent}
use feature_asset_inventory.Store.Table.{Database, get_row, ids, get_row-insert, get_row_new}
use feature_asset_inventory.Store.Rows.{Asset, asset_row}
use feature_asset_inventory.Store.Session.{
  Action, pure, query, modify, commit, ◌>>=◌, ◌>>◌, after, reply,
}
use feature_asset_inventory.Inventory.{ensure_status, ensure_location, record_history}

-- The request body.
pub record AssetCreate : Type 0 where
  pub asset_tag : Option String
  pub serial_number : String
  pub asset_type : String
  pub manufacturer : Option String
  pub model : Option String
  pub override_model : Option String
  pub series : Option String
  pub generation : Option String
  pub cpu : Option String
  pub os : Option String
  pub os_version : Option String
  pub status_code : String
  pub location_id : Option ℕ
  pub notes : Option String
  pub intune_id : Option String

abbrev pub new_asset : AssetCreate → ℕ → Option String → ℕ → Asset
new_asset p now actor id = record {
  id = id;
  asset_tag = p.asset_tag;
  serial_number = p.serial_number;
  asset_type = p.asset_type;
  manufacturer = p.manufacturer;
  model = p.model;
  override_model = p.override_model;
  series = p.series;
  generation = p.generation;
  cpu = p.cpu;
  os = p.os;
  os_version = p.os_version;
  status_code = p.status_code;
  location_id = p.location_id;
  assigned_upn = none;
  assigned_at = none;
  onboarded_at = now;
  archived_at = none;
  notes = p.notes;
  intune_id = p.intune_id;
  defender_last_ip = none;
  network_id = none;
  created_by_upn = actor;
  updated_by_upn = actor;
}

abbrev pub same_tag : Option String → Option String → Bool
same_tag (some s) (some t) = str_eq s t
same_tag _ _ = false

-- `uq_assets_serial_number` and `uq_assets_asset_tag`: a missing tag clashes with nothing.
unfoldable pub clashes : Asset → Asset → Bool
clashes a b = str_eq a.serial_number b.serial_number || same_tag a.asset_tag b.asset_tag

module _ (d : Database) where
  abbrev pub onboarded : AssetCreate → ℕ → Option String → Store → Asset
  onboarded p now actor db = new_asset p now actor (d.fresh (ids db.assets))

  -- `db.flush()` raises where the new row clashes with one that is there; the session is rolled back.
  unfoldable pub onboard_asset : AssetCreate → ℕ → Option String → Action Asset
  onboard_asset p now actor = do
    query (ensure_status p.status_code)
    query (ensure_location p.location_id)
    asset ← query (λ db. ok (onboarded p now actor db))
    query (λ db. raise_if (any (clashes asset) db.assets) (conflict unique_violated))
    modify (λ db. record db { assets = db.assets ++ asset ∷ [] })
    modify (
        record_history d asset.id (record {
          event_type = HistoryEvent.onboard;
          from_value = none;
          to_value = some p.status_code;
          actor_upn = actor;
          notes = p.notes;
        }))
    commit
    pure asset

-- No two assets have the same serial number or the same tag.
abbrev pub HasUniqueNumbers : List Asset → Type 0
HasUniqueNumbers [] = Unit
HasUniqueNumbers (a ∷ as') = (any (clashes a) as' ≡ false) × HasUniqueNumbers as'

same_tag-sym : (s t : Option String) → same_tag s t ≡ same_tag t s
same_tag-sym none none = refl
same_tag-sym none (some t) = refl
same_tag-sym (some s) none = refl
same_tag-sym (some s) (some t) = ground (arith, eq_iff s t, eq_iff t s)

clashes-sym : (a b : Asset) → clashes a b ≡ clashes b a
unfolding clashes
clashes-sym a b = ground (
  arith,
  same_tag-sym a.asset_tag b.asset_tag,
  eq_iff a.serial_number b.serial_number,
  eq_iff b.serial_number a.serial_number,
)

any-append_new :
    (x a : Asset) (as' : List Asset)
    → any (clashes x) (as' ++ a ∷ []) ≡ (any (clashes x) as' || clashes x a)
unfolding any
any-append_new x a [] = ground arith
any-append_new x a (b ∷ as') = ground (arith, any-append_new x a as')

append-HasUniqueNumbers :
    (a : Asset) (as' : List Asset)
    → any (clashes a) as' ≡ false
    → HasUniqueNumbers as'
    → HasUniqueNumbers (as' ++ a ∷ [])
unfolding any
append-HasUniqueNumbers a [] h u = (refl, tt)
append-HasUniqueNumbers a (b ∷ as') h u = (
  ground (arith, any-append_new b a as', clashes-sym a b),
  append-HasUniqueNumbers a as' (ground arith) u.1,
)

module _ (d : Database) (p : AssetCreate) (now : ℕ) (actor : Option String) (db : Store) where
  -- What the request comes to: nothing changes, or the new row is appended, which clashes with none.
  abbrev Outcome : Type 0
  Outcome =
      ((after (onboard_asset d p now actor) db ≡ db)
        × ((e : HttpError) × (reply (onboard_asset d p now actor) db ≡ err e)))
      ⊎ ((any (clashes (onboarded d p now actor db)) db.assets ≡ false)
          × (reply (onboard_asset d p now actor) db ≡ ok (onboarded d p now actor db))
          × ((after (onboard_asset d p now actor) db).assets
              ≡ db.assets ++ onboarded d p now actor db ∷ []))

  onboarding : Outcome
  unfolding onboard_asset record_history
  onboarding = elim (Result-cases (ensure_status p.status_code db)) [
    | inr (e, f) ↦ inl (ground arith, (e, ground arith))
    | inl (s, f) ↦ elim (Result-cases (ensure_location p.location_id db)) [
      | inr (e, g) ↦ inl (ground arith, (e, ground arith))
      | inl (l, g) ↦ elim (Bool-cases (any (clashes (onboarded d p now actor db)) db.assets)) [
        | inl t ↦ inl (ground arith, (conflict unique_violated, ground arith))
        | inr t ↦ inr (t, ground arith, ground arith)
      ]
    ]
  ]

  -- If no two assets have the same serial number or the same tag, none have once an asset was
  -- onboarded or the request was refused; a refused request leaves the database as it is, and one that
  -- succeeds leaves each other asset's row, and the new asset under a new key.
  pub onboard_asset-HasUniqueNumbers :
      (key : ℕ)
      → HasUniqueNumbers db.assets
      → HasUniqueNumbers (after (onboard_asset d p now actor) db).assets
        × ((after (onboard_asset d p now actor) db ≡ db)
            ⊎ ((reply (onboard_asset d p now actor) db ≡ ok (onboarded d p now actor db))
                × (get_row (onboarded d p now actor db).id db.assets ≡ none)
                × (get_row key (after (onboard_asset d p now actor) db).assets ≡ (
                    if key == (onboarded d p now actor db).id
                    then some (onboarded d p now actor db)
                    else get_row key db.assets))))
  onboard_asset-HasUniqueNumbers key u = elim onboarding [
    | inl (same, f) ↦ (rw same u, inl same)
    | inr (free, f, rows) ↦
        let new : get_row (onboarded d p now actor db).id db.assets ≡ none =
          get_row_new (onboarded d p now actor db).id db.assets (d.fresh_is_new (ids db.assets)) in
        (
          rw rows (append-HasUniqueNumbers (onboarded d p now actor db) db.assets free u),
          inr (
            f,
            new,
            rw rows (ground (arith, get_row-insert key (onboarded d p now actor db) db.assets)),
          ),
        )
  ]
