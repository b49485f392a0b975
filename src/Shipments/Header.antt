-- ===== src/Shipments/Header.antt =====
-- What a user does to a shipment as a whole: `resolve_shipment`, `cancel_shipment`,
-- `archive_shipment`, `unarchive_shipment`, `delete_shipment` and `update_shipment` of
-- app/services/shipment_service.py.
use feature_asset_inventory.Base.{
  ℕ, String, not, Option, none, some, ◌==◌, is_some, select, or_none, if◌then◌else◌,
}
use feature_asset_inventory.Base.Http.{raise_if, conflict, closed_shipment, cancelled_shipment, err}
use feature_asset_inventory.Store.{Store}
use feature_asset_inventory.Store.Types.{Direction, Resolution}
use feature_asset_inventory.Store.Table.{put_row, drop_row}
use feature_asset_inventory.Store.Rows.{Shipment, shipment_row}
use feature_asset_inventory.Store.Session.{Action, pure, query, modify, commit, ◌>>=◌, ◌>>◌}
use feature_asset_inventory.Reservation.{is_shipment_active}
use feature_asset_inventory.Shipments.Items.{get_shipment}

-- The attributes set on the loaded row, and the commit.
unfoldable pub save_shipment : Shipment → Action Shipment
save_shipment shipment = do
  modify (λ db. record db { shipments = put_row shipment db.shipments })
  commit
  pure shipment

resolve_from : Resolution → Shipment → ℕ → Option String → Action Shipment
unfolding save_shipment
resolve_from Resolution.resolved shipment now actor_upn = pure shipment
resolve_from Resolution.cancelled shipment now actor_upn =
    query (λ db. err (conflict cancelled_shipment))
resolve_from Resolution.still_open shipment now actor_upn = save_shipment (record shipment {
  resolution = Resolution.resolved;
  resolved_at = some now;
  resolved_by_upn = actor_upn;
})

unfoldable pub resolve_shipment : ℕ → ℕ → Option String → Action Shipment
unfolding resolve_from
resolve_shipment shipment_id now actor_upn = do
  shipment ← query (get_shipment shipment_id)
  resolve_from shipment.resolution shipment now actor_upn

cancel_from : Resolution → Shipment → ℕ → Option String → Action Shipment
unfolding save_shipment
cancel_from Resolution.cancelled shipment now actor_upn = pure shipment
cancel_from _ shipment now actor_upn = save_shipment (record shipment {
  resolution = Resolution.cancelled;
  cancelled_at = some now;
  cancelled_by_upn = actor_upn;
})

unfoldable pub cancel_shipment : ℕ → ℕ → Option String → Action Shipment
unfolding cancel_from
cancel_shipment shipment_id now actor_upn = do
  shipment ← query (get_shipment shipment_id)
  cancel_from shipment.resolution shipment now actor_upn

unfoldable pub archive_shipment : ℕ → ℕ → Option String → Action Shipment
unfolding save_shipment
archive_shipment shipment_id now actor_upn = do
  shipment ← query (get_shipment shipment_id)
  if is_some shipment.archived_at
      then pure shipment
      else save_shipment (record shipment { archived_at = some now; archived_by_upn = actor_upn })

unfoldable pub unarchive_shipment : ℕ → Option String → Action Shipment
unfolding save_shipment
unarchive_shipment shipment_id actor_upn = do
  shipment ← query (get_shipment shipment_id)
  save_shipment
      (record shipment { archived_at = none; archived_by_upn = none; updated_by_upn = actor_upn })

-- The row goes, and by the ORM's cascade its items and its events.
unfoldable pub without_shipment : ℕ → Store → Store
without_shipment shipment_id db = record db {
  shipments = drop_row shipment_id db.shipments;
  shipment_items = select (λ i. not (i.shipment_id == shipment_id)) db.shipment_items;
  shipment_events = select (λ e. not (e.shipment_id == shipment_id)) db.shipment_events;
}

unfoldable pub delete_shipment : ℕ → Action (Unit {0})
unfolding without_shipment
delete_shipment shipment_id = do
  shipment ← query (get_shipment shipment_id)
  modify (without_shipment shipment.id)
  commit

-- `None` leaves the column alone, and an empty text clears it.
abbrev pub edited : Option String → Option String → Option String
edited none column = column
edited (some text) column = or_none text

abbrev pub given {ℓ} : {A : Type ℓ} → Option A → A → A
given none column = column
given (some a) column = a

unfoldable pub update_shipment :
    ℕ → Option String → Option String → Option Direction → Option String → Action Shipment
unfolding save_shipment
update_shipment shipment_id description notes direction actor_upn = do
  shipment ← query (get_shipment shipment_id)
  query (λ db. raise_if (not (is_shipment_active shipment)) (conflict closed_shipment))
  save_shipment (record shipment {
    description = edited description shipment.description;
    notes = edited notes shipment.notes;
    direction = given direction shipment.direction;
    updated_by_upn = actor_upn;
  })
