-- ===== src/Inventory.antt =====
-- The life of an asset in app/services/inventory_service.py: who has it, where it is, and its
-- history.
pub mod Laws
pub mod Archived
pub mod Locations
pub mod Onboard
use feature_asset_inventory.Base.{
  ℕ, String, Bool, true, false, ◌&&◌, ◌||◌, not, Option, none, some, List, [], ◌∷◌, ◌++◌, str,
  str_eq, opt_str_eq, is_blank, is_some, is_none, first, if◌then◌else◌,
}
use feature_asset_inventory.Base.Http.{
  Result, ok, err, raise_if, or_raise, bad_request, not_found, conflict, asset_not_found,
  location_not_found, unknown_status, archived, already_archived, not_assigned, nothing_to_assign,
}
use feature_asset_inventory.Store.{Store}
use feature_asset_inventory.Store.Types.{HistoryEvent}
use feature_asset_inventory.Store.Table.{Database, get_row, put_row, ids}
use feature_asset_inventory.Store.Rows.{
  AssetStatus, Location, Asset, AssetHistory, asset_row, history_row, location_row,
}
use feature_asset_inventory.Store.Session.{Action, pure, query, modify, commit, ◌>>=◌, ◌>>◌}

abbrev pub get_asset : ℕ → Store → Result Asset
get_asset asset_id db = or_raise (get_row asset_id db.assets) (not_found (asset_not_found asset_id))

-- `_ensure_status`: the status is known and active.
abbrev active_status : String → Option AssetStatus → Result AssetStatus
active_status code none = err (bad_request (unknown_status code))
active_status code (some s) = if s.is_active then ok s else err (bad_request (unknown_status code))

abbrev pub ensure_status : String → Store → Result AssetStatus
ensure_status code db = active_status code (first (λ s. str_eq s.code code) db.statuses)

abbrev pub get_location : ℕ → Store → Result Location
get_location location_id db =
    or_raise (get_row location_id db.locations) (not_found (location_not_found location_id))

abbrev pub ensure_location : Option ℕ → Store → Result (Option Location)
ensure_location none db = ok none
ensure_location (some location_id) db = elim (get_location location_id db) [
  | ok loc ↦ ok (some loc)
  | err e ↦ err e
]

-- What `_record_history` is told, beside the asset.
pub record Entry : Type 0 where
  pub event_type : HistoryEvent
  pub from_value : Option String
  pub to_value : Option String
  pub actor_upn : Option String
  pub notes : Option String

abbrev pub entry_row : ℕ → Entry → ℕ → AssetHistory
entry_row asset_id e id = record {
  id = id;
  asset_id = asset_id;
  event_type = e.event_type;
  from_value = e.from_value;
  to_value = e.to_value;
  performed_by_upn = e.actor_upn;
  notes = e.notes;
}

-- `str(n)` of an id that may be missing.
abbrev pub str_opt : Option ℕ → Option String
str_opt none = none
str_opt (some n) = some (str n)

-- The attributes of the asset written back.
unfoldable pub put_asset : Asset → Store → Store
put_asset a db = record db { assets = put_row a db.assets }

-- The request body of an assignment.
pub record AssetAssign : Type 0 where
  pub assigned_upn : Option String
  pub location_id : Option ℕ
  pub notes : Option String

-- The asset, and the user whom Intune is told of, if the change is pushed.
pub record Assigned : Type 0 where
  pub asset : Asset
  pub push : Option String

abbrev pub assign_upn : AssetAssign → ℕ → Asset → Asset
assign_upn p now a = elim p.assigned_upn [
  | none ↦ a
  | some upn ↦ record a { assigned_upn = some upn; assigned_at = some now }
]

abbrev pub assign_location : AssetAssign → Asset → Asset
assign_location p a = elim p.location_id [ none ↦ a | some l ↦ record a { location_id = some l } ]

-- `upn_changed and asset.intune_id and payload.assigned_upn`
abbrev pub pushed_upn : AssetAssign → Asset → Option String
pushed_upn p a = elim p.assigned_upn [
  | none ↦ none
  | some upn ↦ elim a.intune_id [
    | none ↦ none
    | some intune ↦
        if not (opt_str_eq a.assigned_upn (some upn)) && not (is_blank intune) && not (is_blank upn)
        then some upn
        else none
  ]
]

module _ (d : Database) where
  unfoldable pub record_history : ℕ → Entry → Store → Store
  record_history asset_id e db = record db {
    asset_history = db.asset_history ++ entry_row asset_id e (d.fresh (ids db.asset_history)) ∷ [];
  }

  abbrev pub upn_entry : AssetAssign → Option String → Asset → Store → Store
  upn_entry p actor a = elim p.assigned_upn [
    | none ↦ λ db. db
    | some upn ↦ record_history a.id (record {
      event_type = HistoryEvent.assign;
      from_value = a.assigned_upn;
      to_value = some upn;
      actor_upn = actor;
      notes = p.notes;
    })
  ]

  abbrev pub location_entry : AssetAssign → Option String → Asset → Store → Store
  location_entry p actor a = elim p.location_id [
    | none ↦ λ db. db
    | some l ↦ record_history a.id (record {
      event_type = HistoryEvent.location_change;
      from_value = str_opt a.location_id;
      to_value = some (str l);
      actor_upn = actor;
      notes = p.notes;
    })
  ]

  unfoldable pub assign_asset : ℕ → AssetAssign → ℕ → Option String → Action Assigned
  unfolding put_asset
  assign_asset asset_id p now actor = do
    a ← query (get_asset asset_id)
    query (λ db. raise_if (is_some a.archived_at) (conflict archived))
    query (λ db.
        raise_if (is_none p.assigned_upn && is_none p.location_id) (bad_request nothing_to_assign))
    query (ensure_location p.location_id)
    let a' = record (assign_location p (assign_upn p now a)) { updated_by_upn = actor }
    modify (upn_entry p actor a)
    modify (location_entry p actor a)
    modify (put_asset a')
    commit
    pure (record { asset = a'; push = pushed_upn p a })

  unfoldable pub unassign_asset : ℕ → Option String → Action Asset
  unfolding put_asset
  unassign_asset asset_id actor = do
    a ← query (get_asset asset_id)
    query (λ db. raise_if (is_none a.assigned_upn) (conflict not_assigned))
    let a' = record a { assigned_upn = none; assigned_at = none; updated_by_upn = actor }
    modify (
        record_history a.id (record {
          event_type = HistoryEvent.unassign;
          from_value = a.assigned_upn;
          to_value = none;
          actor_upn = actor;
          notes = none;
        }))
    modify (put_asset a')
    commit
    pure a'

  unfoldable pub change_status : ℕ → String → Option String → Option String → Action Asset
  unfolding put_asset
  change_status asset_id status_code notes actor = do
    a ← query (get_asset asset_id)
    query (λ db. raise_if (is_some a.archived_at) (conflict archived))
    query (ensure_status status_code)
    if str_eq status_code a.status_code then pure a else do
      let a' = record a { status_code = status_code; updated_by_upn = actor }
      modify (
          record_history a.id (record {
            event_type = HistoryEvent.status_change;
            from_value = some a.status_code;
            to_value = some status_code;
            actor_upn = actor;
            notes = notes;
          }))
      modify (put_asset a')
      commit
      pure a'

  unfoldable pub archive_asset : ℕ → ℕ → Option String → Option String → Action Asset
  unfolding put_asset
  archive_asset asset_id now notes actor = do
    a ← query (get_asset asset_id)
    query (λ db. raise_if (is_some a.archived_at) (conflict already_archived))
    let a' = record a {
      archived_at = some now;
      status_code = "retired";
      assigned_upn = none;
      assigned_at = none;
      updated_by_upn = actor;
    }
    modify (
        record_history a.id (record {
          event_type = HistoryEvent.archive;
          from_value = some a.status_code;
          to_value = some "retired";
          actor_upn = actor;
          notes = notes;
        }))
    modify (put_asset a')
    commit
    pure a'
