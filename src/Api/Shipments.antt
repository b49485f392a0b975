-- ===== src/Api/Shipments.antt =====
-- The routes of app/api/shipments.py that read or change one shipment.
use feature_asset_inventory.Base.{ℕ, ◌+◌, String, Bool, true, false, ◌&&◌, Option, none, some, ltb}
use feature_asset_inventory.Base.Http.{ok, err}
use feature_asset_inventory.Store.{Store}
use feature_asset_inventory.Store.Types.{Direction, is_open}
use feature_asset_inventory.Store.Rows.{Shipment, ShipmentItem}
use feature_asset_inventory.Store.Session.{Action, query, pure, ◌>>=◌, ◌>>◌}
use feature_asset_inventory.Shipments
use feature_asset_inventory.Shipments.Check.{ShipmentCreate}
use feature_asset_inventory.Auth.Context.{Headers}
use feature_asset_inventory.Api.Guarded.{
  Server, Answer, guarded, ignoring, actor, require_view, require_write, require_manage,
}

-- `_is_stale`, with the clock in minutes
abbrev pub is_stale : ℕ → ℕ → Option ℕ → Bool
is_stale now threshold_minutes none = true
is_stale now threshold_minutes (some last_polled_at) = ltb (last_polled_at + threshold_minutes) now

module _ (server : Server) (headers : Headers) (now : ℕ) where
  -- The shipment is created, polled if that works, and read again.
  abbrev pub created_and_polled : ShipmentCreate → Action Shipment
  created_and_polled p = do
    shipment ← Shipments.Create.create_shipment server.database p
    ignoring (Shipments.Refresh.refresh_shipment server.database server.fetch shipment.id now)
    query (Shipments.Items.get_shipment shipment.id)

  unfoldable pub create_shipment : ShipmentCreate → Store → Answer Shipment × Store
  create_shipment payload =
      guarded (require_write server headers) (λ auth.
        created_and_polled (record payload { deployment_id = none; actor_upn = actor auth }))

  -- `try: shipment = refresh_shipment(…) except Exception: pass`
  abbrev pub refreshed_or : Shipment → Action Shipment → Action Shipment
  refreshed_or shipment refresh s =
      let (r, s') = refresh s in elim r [ ok fresh ↦ (ok fresh, s') | err e ↦ (ok shipment, s') ]

  abbrev pub poll_if : Bool → Shipment → Action Shipment
  poll_if true shipment =
      refreshed_or shipment
        (Shipments.Refresh.refresh_shipment server.database server.fetch shipment.id now)
  poll_if false shipment = pure shipment

  abbrev pub read_shipment : Bool → ℕ → Action Shipment
  read_shipment auto_refresh shipment_id = do
    shipment ← query (Shipments.Items.get_shipment shipment_id)
    poll_if
        (auto_refresh
          && is_open shipment.resolution
          && is_stale now server.auto_refresh_minutes shipment.last_polled_at)
        shipment

  unfoldable pub get_shipment : Bool → ℕ → Store → Answer Shipment × Store
  get_shipment auto_refresh shipment_id =
      guarded (require_view server headers) (λ _. read_shipment auto_refresh shipment_id)

  unfoldable pub update_shipment :
      ℕ → Option String → Option String → Option Direction → Store → Answer Shipment × Store
  update_shipment shipment_id description notes direction =
      guarded (require_write server headers) (λ auth.
        Shipments.Header.update_shipment shipment_id description notes direction (actor auth))

  unfoldable pub refresh_shipment : ℕ → Store → Answer Shipment × Store
  refresh_shipment shipment_id =
      guarded (require_view server headers)
        (λ _. Shipments.Refresh.refresh_shipment server.database server.fetch shipment_id now)

  unfoldable pub resolve_shipment : ℕ → Store → Answer Shipment × Store
  resolve_shipment shipment_id =
      guarded (require_write server headers)
        (λ auth. Shipments.Header.resolve_shipment shipment_id now (actor auth))

  unfoldable pub cancel_shipment : ℕ → Store → Answer Shipment × Store
  cancel_shipment shipment_id =
      guarded (require_manage server headers)
        (λ auth. Shipments.Header.cancel_shipment shipment_id now (actor auth))

  unfoldable pub archive_shipment : ℕ → Store → Answer Shipment × Store
  archive_shipment shipment_id =
      guarded (require_manage server headers)
        (λ auth. Shipments.Header.archive_shipment shipment_id now (actor auth))

  unfoldable pub unarchive_shipment : ℕ → Store → Answer Shipment × Store
  unarchive_shipment shipment_id =
      guarded (require_manage server headers)
        (λ auth. Shipments.Header.unarchive_shipment shipment_id (actor auth))

  unfoldable pub delete_shipment : ℕ → Store → Answer (Unit {0}) × Store
  delete_shipment shipment_id =
      guarded (require_manage server headers) (λ _. Shipments.Header.delete_shipment shipment_id)

  unfoldable pub add_shipment_item : ℕ → ℕ → Store → Answer ShipmentItem × Store
  add_shipment_item shipment_id asset_id =
      guarded (require_write server headers)
        (λ auth. Shipments.Items.add_item server.database shipment_id asset_id (actor auth))

  unfoldable pub remove_shipment_item : ℕ → ℕ → Store → Answer (Unit {0}) × Store
  remove_shipment_item shipment_id item_id =
      guarded (require_write server headers)
        (λ auth. Shipments.Items.remove_item shipment_id item_id (actor auth))
