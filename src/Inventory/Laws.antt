-- ===== src/Inventory/Laws.antt =====
-- What holds of every asset while it is assigned, unassigned, changed and archived.
use feature_asset_inventory.Base.{
  ℕ, String, ◌≡◌, ◌⊎◌, refl, inl, inr, true, false, ◌&&◌, Option, none, some, List, arith, ◌==◌,
  is_some, is_none, str_eq, Bool-cases, Option-cases,
}
use feature_asset_inventory.Base.Http.{Result-cases}
use feature_asset_inventory.Store.{Store}
use feature_asset_inventory.Store.Table.{Database, get_row, put_row, get_row-put_row}
use feature_asset_inventory.Store.Rows.{Asset, asset_row}
use feature_asset_inventory.Store.Session.{after}
use feature_asset_inventory.Inventory.{
  AssetAssign, assign_asset, unassign_asset, change_status, archive_asset, record_history,
  ensure_status, ensure_location, assign_upn, assign_location, upn_entry, location_entry,
}

-- An archived asset is retired and nobody has it, and an asset has the time of its assignment
-- exactly when somebody has it.
pub record IsSound (a : Asset) : Type 0 where
  pub retired : is_some a.archived_at ≡ true → a.status_code ≡ "retired"
  pub released : is_some a.archived_at ≡ true → a.assigned_upn ≡ none
  pub timed : is_some a.assigned_upn ≡ is_some a.assigned_at

abbrev pub AreSound : List Asset → Type 0
AreSound assets = (k : ℕ) (a : Asset) → get_row k assets ≡ some a → IsSound a

put-AreSound :
    (a : Asset) (assets : List Asset) → IsSound a → AreSound assets → AreSound (put_row a assets)
put-AreSound a assets new old k b e = elim (Option-cases (get_row k assets)) [
  | inl n ↦ absurd (ground (arith, get_row-put_row k a assets))
  | inr (c, f) ↦ elim (Bool-cases (k == a.id)) [
    | inl t ↦ let same : b ≡ a = ground (arith, get_row-put_row k a assets) in rw same new
    | inr t ↦ let same : b ≡ c = ground (arith, get_row-put_row k a assets) in rw same (old k c f)
  ]
]

module _ (d : Database) where
  -- The history table is the only other one that an entry touches.
  assets-entries :
      (p : AssetAssign) (actor : Option String) (a : Asset) (db : Store)
      → (location_entry d p actor a (upn_entry d p actor a db)).assets ≡ db.assets
  unfolding record_history
  assets-entries p actor a db = ground arith

  unassigned-IsSound :
      (a : Asset) (actor : Option String)
      → IsSound a
      → IsSound (record a { assigned_upn = none; assigned_at = none; updated_by_upn = actor })
  unassigned-IsSound a actor v = ground arith

  assigned-IsSound :
      (p : AssetAssign) (now : ℕ) (actor : Option String) (a : Asset)
      → is_some a.archived_at ≡ false
      → IsSound a
      → IsSound (record (assign_location p (assign_upn p now a)) { updated_by_upn = actor })
  assigned-IsSound p now actor a open_asset v = ground arith

  abbrev assigned : AssetAssign → ℕ → Option String → Asset → Asset
  assigned p now actor a = record (assign_location p (assign_upn p now a)) {
    updated_by_upn = actor;
  }

  assets-assign :
      (k : ℕ) (p : AssetAssign) (now : ℕ) (actor : Option String) (db : Store) (a : Asset)
      → get_row k db.assets ≡ some a
      → ((after (assign_asset d k p now actor) db).assets ≡ db.assets)
        ⊎ ((is_some a.archived_at ≡ false)
            × ((after (assign_asset d k p now actor) db).assets
                ≡ put_row (assigned p now actor a) db.assets))
  unfolding assign_asset record_history
  assets-assign k p now actor db a e = elim (Result-cases (ensure_location p.location_id db)) [
    | inl (x, f) ↦ elim (Bool-cases (is_some a.archived_at)) [
      | inl t ↦ inl (ground arith)
      | inr t ↦ elim (Bool-cases (is_none p.assigned_upn && is_none p.location_id)) [
        | inl n ↦ inl (ground arith)
        | inr n ↦ inr (t, ground arith)
      ]
    ]
    | inr (x, f) ↦ inl (ground arith)
  ]

  pub assign_asset-AreSound :
      (k : ℕ) (p : AssetAssign) (now : ℕ) (actor : Option String) (db : Store)
      → AreSound db.assets
      → AreSound (after (assign_asset d k p now actor) db).assets
  assign_asset-AreSound k p now actor db v = elim (Option-cases (get_row k db.assets)) [
    | inl e ↦ unfold assign_asset in rw (e, after, assign_asset) v
    | inr (a, e) ↦ elim (assets-assign k p now actor db a e) [
      | inl same ↦ rw same v
      | inr (open_asset, put) ↦ rw put (
          put-AreSound (assigned p now actor a) db.assets
            (assigned-IsSound p now actor a open_asset (v k a e)) v)
    ]
  ]

  pub unassign_asset-AreSound :
      (k : ℕ) (actor : Option String) (db : Store)
      → AreSound db.assets
      → AreSound (after (unassign_asset d k actor) db).assets
  unfolding unassign_asset record_history
  unassign_asset-AreSound k actor db v = elim (Option-cases (get_row k db.assets)) [
    | inl e ↦ rw (e, after, unassign_asset) v
    | inr (a, e) ↦ elim (Bool-cases (is_none a.assigned_upn)) [
      | inl n ↦ rw (e, after, unassign_asset) (rw n v)
      | inr n ↦
          rw (e, after, unassign_asset)
            (rw n (
              put-AreSound
                (record a { assigned_upn = none; assigned_at = none; updated_by_upn = actor })
                db.assets (unassigned-IsSound a actor (v k a e)) v))
    ]
  ]

  changed-IsSound :
      (code : String) (actor : Option String) (a : Asset)
      → is_some a.archived_at ≡ false
      → IsSound a
      → IsSound (record a { status_code = code; updated_by_upn = actor })
  changed-IsSound code actor a open_asset v = ground arith

  assets-change_status :
      (k : ℕ) (code : String) (notes actor : Option String) (db : Store) (a : Asset)
      → get_row k db.assets ≡ some a
      → ((after (change_status d k code notes actor) db).assets ≡ db.assets)
        ⊎ ((is_some a.archived_at ≡ false)
            × ((after (change_status d k code notes actor) db).assets
                ≡ put_row (record a { status_code = code; updated_by_upn = actor }) db.assets))
  unfolding change_status record_history
  assets-change_status k code notes actor db a e = elim (Result-cases (ensure_status code db)) [
    | inl (x, f) ↦ elim (Bool-cases (is_some a.archived_at)) [
      | inl t ↦ inl (ground arith)
      | inr t ↦ elim (Bool-cases (str_eq code a.status_code)) [
        | inl n ↦ inl (ground arith)
        | inr n ↦ inr (t, ground arith)
      ]
    ]
    | inr (x, f) ↦ inl (ground arith)
  ]

  pub change_status-AreSound :
      (k : ℕ) (code : String) (notes actor : Option String) (db : Store)
      → AreSound db.assets
      → AreSound (after (change_status d k code notes actor) db).assets
  change_status-AreSound k code notes actor db v = elim (Option-cases (get_row k db.assets)) [
    | inl e ↦ unfold change_status in rw (e, after, change_status) v
    | inr (a, e) ↦ elim (assets-change_status k code notes actor db a e) [
      | inl same ↦ rw same v
      | inr (open_asset, put) ↦ rw put (
          put-AreSound (record a { status_code = code; updated_by_upn = actor }) db.assets
            (changed-IsSound code actor a open_asset (v k a e)) v)
    ]
  ]

  abbrev pub retired_row : ℕ → Option String → Asset → Asset
  retired_row now actor a = record a {
    archived_at = some now;
    status_code = "retired";
    assigned_upn = none;
    assigned_at = none;
    updated_by_upn = actor;
  }

  assets-archive :
      (k now : ℕ) (notes actor : Option String) (db : Store) (a : Asset)
      → get_row k db.assets ≡ some a
      → ((after (archive_asset d k now notes actor) db).assets ≡ db.assets)
        ⊎ ((after (archive_asset d k now notes actor) db).assets
            ≡ put_row (retired_row now actor a) db.assets)
  unfolding archive_asset record_history
  assets-archive k now notes actor db a e = elim (Bool-cases (is_some a.archived_at)) [
    | inl t ↦ inl (ground arith)
    | inr t ↦ inr (ground arith)
  ]

  pub archive_asset-AreSound :
      (k now : ℕ) (notes actor : Option String) (db : Store)
      → AreSound db.assets
      → AreSound (after (archive_asset d k now notes actor) db).assets
  archive_asset-AreSound k now notes actor db v = elim (Option-cases (get_row k db.assets)) [
    | inl e ↦ unfold archive_asset in rw (e, after, archive_asset) v
    | inr (a, e) ↦ elim (assets-archive k now notes actor db a e) [
      | inl same ↦ rw same v
      | inr put ↦ rw put (
          put-AreSound (retired_row now actor a) db.assets
            (record { retired = λ h. refl; released = λ h. refl; timed = refl }) v)
    ]
  ]

  -- A request about one asset.
  pub data AssetStep (db : Store) : Store → Type 0 where
    assign :
        (k : ℕ) (p : AssetAssign) (now : ℕ) (actor : Option String)
        → AssetStep db (after (assign_asset d k p now actor) db)
    unassign : (k : ℕ) (actor : Option String) → AssetStep db (after (unassign_asset d k actor) db)
    set_status :
        (k : ℕ) (code : String) (notes actor : Option String)
        → AssetStep db (after (change_status d k code notes actor) db)
    archive :
        (k now : ℕ) (notes actor : Option String)
        → AssetStep db (after (archive_asset d k now notes actor) db)

  -- Let every archived asset be retired and unassigned, and let an asset have an assignment time
  -- exactly if somebody has it. All of this holds again after an assignment, an unassignment, a change
  -- of status or an archiving, whether it succeeds or is refused.
  pub AssetStep-AreSound :
      {db db' : Store} → AssetStep db db' → AreSound db.assets → AreSound db'.assets
  AssetStep-AreSound {db} (assign k p now actor) v = assign_asset-AreSound k p now actor db v
  AssetStep-AreSound {db} (unassign k actor) v = unassign_asset-AreSound k actor db v
  AssetStep-AreSound {db} (set_status k code notes actor) v =
      change_status-AreSound k code notes actor db v
  AssetStep-AreSound {db} (archive k now notes actor) v =
      archive_asset-AreSound k now notes actor db v
