-- ===== src/Shipments/Check.antt =====
-- `assert_asset_available_for_shipment`, `_pick_assets_for_auto_assign` and the checks of
-- `create_shipment` in app/services/shipment_service.py.
use feature_asset_inventory.Base.{
  ℕ, String, ◌&&◌, not, Option, none, some, List, [], ◌∷◌, ◌++◌, is_none,
}
use feature_asset_inventory.Base.Http.{
  Result, ok, err, raise_if, ◌>>=◌, ◌>>◌, not_found, conflict, asset_on_shipment,
  asset_on_deployment, asset_not_found,
}
use feature_asset_inventory.Store.{Store}
use feature_asset_inventory.Store.Types.{Carrier, Direction}
use feature_asset_inventory.Store.Table.{get_row}
use feature_asset_inventory.Store.Rows.{Address, Asset, asset_row}
use feature_asset_inventory.Reservation.{
  other_active_shipment_for_asset, active_deployment_for_asset, reserved_by_shipment,
  available_clauses,
}
use feature_asset_inventory.Reservation.AutoAssign.{AutoAssign, pick_assets, auto_assign_ids}

-- The arguments of `create_shipment`.
pub record ShipmentCreate : Type 0 where
  pub tracking_number : String
  pub carrier : Carrier
  pub direction : Direction
  pub description : Option String
  pub notes : Option String
  pub from_location_id : Option ℕ
  pub from_address : Option Address
  pub to_location_id : Option ℕ
  pub to_address : Option Address
  pub asset_ids : List ℕ
  pub auto_assign : List AutoAssign
  pub actor_upn : Option String
  pub deployment_id : Option ℕ

unfoldable pub assert_asset_available_for_shipment :
    Store → ℕ → Option ℕ → Option ℕ → Result (Unit {0})
assert_asset_available_for_shipment db asset_id exclude_shipment_id deployment_id =
    elim (other_active_shipment_for_asset db asset_id exclude_shipment_id) [
      | some other ↦ err (conflict (asset_on_shipment asset_id other.id other.tracking_number))
      | none ↦ elim (active_deployment_for_asset db asset_id deployment_id) [
        | some other ↦ err (conflict (asset_on_deployment asset_id other.id other.name))
        | none ↦ ok tt
      ]
    ]

unfoldable pub pick_for_shipment : Store → AutoAssign → List Asset
pick_for_shipment db =
    pick_assets (λ a. not (reserved_by_shipment db a.id) && available_clauses db a) db.assets

-- The reservation check and the existence check of one asset.
unfoldable pub check_asset : Store → Option ℕ → ℕ → Result (Unit {0})
check_asset db deployment_id aid =
    assert_asset_available_for_shipment db aid none deployment_id
    >> raise_if (is_none (get_row aid db.assets)) (not_found (asset_not_found aid))

unfoldable pub check_assets : Store → Option ℕ → List ℕ → Result (Unit {0})
check_assets db deployment_id [] = ok tt
check_assets db deployment_id (aid ∷ aids) =
    let rest = check_assets db deployment_id aids in check_asset db deployment_id aid >> rest

unfoldable pub requested_ids : Store → ShipmentCreate → Result (List ℕ)
requested_ids db p =
    auto_assign_ids (pick_for_shipment db) p.auto_assign >>= λ more. ok (p.asset_ids ++ more)
