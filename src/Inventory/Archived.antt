-- ===== src/Inventory/Archived.antt =====
-- The end of an asset's life: what an archived asset refuses.
use feature_asset_inventory.Base.{
  ℕ, String, ◌≡◌, refl, inl, inr, true, Option, some, arith, is_some, Bool-cases, Option-cases,
}
use feature_asset_inventory.Base.Http.{ok, err, conflict, archived, already_archived}
use feature_asset_inventory.Store.{Store}
use feature_asset_inventory.Store.Table.{Database, get_row, get_row-put_row, id_of-get_row}
use feature_asset_inventory.Store.Rows.{Asset, asset_row}
use feature_asset_inventory.Store.Session.{after, reply, request}
use feature_asset_inventory.Inventory.{
  AssetAssign, assign_asset, change_status, archive_asset, record_history,
}
use feature_asset_inventory.Inventory.Laws.{retired_row}

module _ (d : Database) where
  -- An archived row refuses each of the three requests.
  refused :
      (k : ℕ) (db : Store) (b : Asset)
      → get_row k db.assets ≡ some b
      → is_some b.archived_at ≡ true
      → ((p : AssetAssign) (t : ℕ) (who : Option String)
          → request (assign_asset d k p t who) db ≡ (err (conflict archived), db))
        × ((code : String) (note who : Option String)
            → request (change_status d k code note who) db ≡ (err (conflict archived), db))
        × ((t : ℕ) (note who : Option String)
            → request (archive_asset d k t note who) db ≡ (err (conflict already_archived), db))
  unfolding assign_asset change_status archive_asset
  refused k db b e t =
      (λ p now who. ground arith, λ code note who. ground arith, λ now note who. ground arith)

  archived_row :
      (k now : ℕ) (notes actor : Option String) (db : Store) (a : Asset)
      → reply (archive_asset d k now notes actor) db ≡ ok a
      → (b : Asset) × (get_row k (after (archive_asset d k now notes actor) db).assets ≡ some b)
        × (is_some b.archived_at ≡ true)
  unfolding archive_asset record_history
  archived_row k now notes actor db a h = elim (Option-cases (get_row k db.assets)) [
    | inl e ↦ absurd (ground arith)
    | inr (b, e) ↦ elim (Bool-cases (is_some b.archived_at)) [
      | inl t ↦ absurd (ground arith)
      | inr t ↦ (
        retired_row d now actor b,
        ground (
          arith,
          get_row-put_row k (retired_row d now actor b) db.assets,
          id_of-get_row k db.assets e,
        ),
        refl,
      )
    ]
  ]

  -- Once the archiving of an asset has succeeded, every assignment, every change of status and every
  -- second archiving of that asset is refused as a conflict, and leaves the database as it is.
  pub archived_is_final :
      (k now : ℕ) (notes actor : Option String) (db : Store) (a : Asset)
      → reply (archive_asset d k now notes actor) db ≡ ok a
      → let db' = after (archive_asset d k now notes actor) db in
        ((p : AssetAssign) (t : ℕ) (who : Option String)
          → request (assign_asset d k p t who) db' ≡ (err (conflict archived), db'))
        × ((code : String) (note who : Option String)
            → request (change_status d k code note who) db' ≡ (err (conflict archived), db'))
        × ((t : ℕ) (note who : Option String)
            → request (archive_asset d k t note who) db' ≡ (err (conflict already_archived), db'))
  archived_is_final k now notes actor db a h =
      let (b, e, t) = archived_row k now notes actor db a h in
      refused k (after (archive_asset d k now notes actor) db) b e t
