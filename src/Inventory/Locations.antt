-- ===== src/Inventory/Locations.antt =====
-- `bulk_set_location` of app/services/inventory_service.py.
pub mod Rows
use feature_asset_inventory.Base.{
  ℕ, suc, String, Bool, true, false, not, Option, none, some, List, [], ◌∷◌, opt_eq, is_some,
  is_none, is_empty, mem, select, if◌then◌else◌,
}
use feature_asset_inventory.Base.Http.{Result, ok, raise_if, bad_request, location_not_found}
use feature_asset_inventory.Store.{Store}
use feature_asset_inventory.Store.Types.{HistoryEvent}
use feature_asset_inventory.Store.Table.{Database, get_row}
use feature_asset_inventory.Store.Rows.{Asset, asset_row, location_row}
use feature_asset_inventory.Store.Session.{Action, pure, query, commit, ◌>>=◌, ◌>>◌}
use feature_asset_inventory.Reservation.AutoAssign.{dedupe}
use feature_asset_inventory.Inventory.{put_asset, record_history, str_opt}

-- The response. An error names an id with no asset; the source keeps those ids in a set, whose order
-- is not fixed, and they stand here in the order of the request.
pub record BulkResult : Type 0 where
  pub updated : ℕ
  pub unchanged : ℕ
  pub skipped : ℕ
  pub errors : List ℕ

abbrev pub nothing_done : List ℕ → BulkResult
nothing_done errors = record { updated = 0; unchanged = 0; skipped = 0; errors = errors }

-- The assets of the table whose id is in the list.
abbrev pub found_assets : List ℕ → List Asset → List Asset
found_assets asset_ids = select (λ a. mem a.id asset_ids)

abbrev pub missing_ids : List ℕ → List Asset → List ℕ
missing_ids asset_ids assets = select (λ id. is_none (get_row id assets)) (dedupe asset_ids)

abbrev pub check_location : Option ℕ → Store → Result (Unit {0})
check_location none db = ok tt
check_location (some l) db =
    raise_if (is_none (get_row l db.locations)) (bad_request (location_not_found l))

-- The asset as it is moved.
abbrev pub relocated : Option ℕ → Option String → Asset → Asset
relocated location_id actor_upn a = record a {
  location_id = location_id;
  updated_by_upn = actor_upn;
}

-- The database and the counts, as the loop rewrites them.
abbrev pub Bulk : Type 0
Bulk = Store × BulkResult

module _ (d : Database) (location_id : Option ℕ) (actor_upn : Option String) where
  -- One turn of the loop. Its `except` has no case here, since nothing in the turn raises.
  unfoldable pub set_one : Asset → Bulk → Bulk
  unfolding put_asset
  set_one a (db, r) =
      if is_some a.archived_at
      then (db, record r { skipped = suc r.skipped })
      else if opt_eq a.location_id location_id
      then (db, record r { unchanged = suc r.unchanged })
      else (
        record_history d a.id
            (record {
              event_type = HistoryEvent.location_change;
              from_value = str_opt a.location_id;
              to_value = str_opt location_id;
              actor_upn = actor_upn;
              notes = some "Bulk location update";
            })
            (put_asset (relocated location_id actor_upn a) db),
        record r { updated = suc r.updated },
      )

  unfoldable pub set_all : List Asset → Bulk → Bulk
  set_all [] b = b
  set_all (a ∷ assets) b = set_all assets (set_one a b)

  set_found : List ℕ → Action BulkResult
  set_found asset_ids s =
      let (db, r) =
        set_all (found_assets asset_ids s.work.assets)
          (s.work, nothing_done (missing_ids asset_ids s.work.assets)) in
      (ok r, record s { work = db })

  unfoldable pub bulk_set_location : List ℕ → Action BulkResult
  unfolding set_found
  bulk_set_location asset_ids =
      if is_empty asset_ids
      then pure (nothing_done [])
      else do query (check_location location_id); result ← set_found asset_ids; commit; pure result
