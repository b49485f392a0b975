-- ===== src/Deployments/Links.antt =====
-- `link_shipment` and `unlink_shipment` of app/services/deployment_service.py.
use feature_asset_inventory.Base.{
  ℕ, String, Bool, false, not, Option, none, some, ◌==◌, opt_eq, if◌then◌else◌,
}
use feature_asset_inventory.Base.Http.{
  raise_if, or_raise, not_found, conflict, closed_deployment, shipment_not_found, linked_elsewhere,
  shipment_not_linked,
}
use feature_asset_inventory.Store.Table.{get_row}
use feature_asset_inventory.Store.Rows.{Shipment, shipment_row}
use feature_asset_inventory.Store.Session.{Action, pure, query, ◌>>=◌, ◌>>◌}
use feature_asset_inventory.Reservation.{is_deployment_active}
use feature_asset_inventory.Shipments.Header.{save_shipment}
use feature_asset_inventory.Deployments.Check.{get_deployment, or_zero}

-- `shipment.deployment_id is not None and shipment.deployment_id != deployment_id`
abbrev pub is_elsewhere : Shipment → ℕ → Bool
is_elsewhere s deployment_id = elim s.deployment_id [
  | none ↦ false
  | some other ↦ not (other == deployment_id)
]

unfoldable pub link_shipment : ℕ → ℕ → Option String → Action Shipment
unfolding save_shipment
link_shipment deployment_id shipment_id actor_upn = do
  d ← query (get_deployment deployment_id)
  query (λ db. raise_if (not (is_deployment_active d)) (conflict closed_deployment))
  s ← query (λ db. or_raise (get_row shipment_id db.shipments) (not_found shipment_not_found))
  query (λ db.
      raise_if (is_elsewhere s deployment_id)
        (conflict (linked_elsewhere shipment_id (or_zero s.deployment_id))))
  save_shipment (record s { deployment_id = some deployment_id; updated_by_upn = actor_upn })

-- `shipment is None or shipment.deployment_id != deployment_id`
abbrev pub linked : ℕ → Option Shipment → Option Shipment
linked deployment_id none = none
linked deployment_id (some s) = if opt_eq s.deployment_id (some deployment_id) then some s else none

unfoldable pub unlink_shipment : ℕ → ℕ → Option String → Action (Unit {0})
unfolding save_shipment
unlink_shipment deployment_id shipment_id actor_upn = do
  d ← query (get_deployment deployment_id)
  query (λ db. raise_if (not (is_deployment_active d)) (conflict closed_deployment))
  s ← query (λ db.
      or_raise (linked deployment_id (get_row shipment_id db.shipments))
        (not_found shipment_not_linked))
  save_shipment (record s { deployment_id = none; updated_by_upn = actor_upn })
  pure tt
