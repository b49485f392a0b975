-- ===== src/Shipments/Reserve.antt =====
-- Which shipment holds which asset, and what the availability checks of the shipment service find.
use feature_asset_inventory.Base.{
  ℕ, ◌≡◌, ◌||◌, ◌&&◌, inl, inr, Bool, true, false, Option, none, List, [], ◌∷◌, arith, ◌==◌, mem,
  Option-cases,
}
use feature_asset_inventory.Store.{Store}
use feature_asset_inventory.Store.Table.{Database, get_row, ids}
use feature_asset_inventory.Store.Rows.{ShipmentItem, shipment_row, shipment_item_row}
use feature_asset_inventory.Reservation.{
  by_shipment, on_shipment, not_excluded, other_active_shipment_for_asset,
}
use feature_asset_inventory.Reservation.Reserve.{holds, IsReserved, lists-append, first-none_free}
use feature_asset_inventory.Store.Table.{id_of-get_row}
use feature_asset_inventory.Shipments.Create.{add_shipment_item, add_shipment_items}

-- The shipment `i` is active and has the asset `a`.
abbrev pub ship_holds : Store → ℕ → ℕ → Bool
ship_holds db = holds by_shipment db.shipments db.shipment_items

-- Every item belongs to a shipment that is there, and no asset is on two active shipments.
abbrev pub ShipmentsReserved : Store → Type 0
ShipmentsReserved db = IsReserved by_shipment db.shipments db.shipment_items

-- What the reservation query tells when it finds nothing.
pub other_active_shipment-none :
    (db : Store) (a : ℕ) (exclude : Option ℕ)
    → other_active_shipment_for_asset db a exclude ≡ none
    → (j : ℕ) → ship_holds db j a ≡ true
    → not_excluded j exclude ≡ false
unfolding other_active_shipment_for_asset
other_active_shipment-none db a exclude h j held = elim (Option-cases (get_row j db.shipments)) [
  | inl e ↦ absurd (unfold holds in cc)
  | inr (s, e) ↦ ground (
    arith,
    id_of-get_row j db.shipments e,
    first-none_free by_shipment a (λ s. not_excluded s.id exclude) db.shipments db.shipment_items h
        j e held,
  )
]

module _ (d : Database) where
  pub on_shipment-add_item :
      (k b i a : ℕ) (items : List ShipmentItem)
      → on_shipment (add_shipment_item d k b items) i a
        ≡ (on_shipment items i a || (k == i && b == a))
  unfolding add_shipment_item
  on_shipment-add_item k b i a items =
      lists-append by_shipment (record { id = d.fresh (ids items); shipment_id = k; asset_id = b })
        i a items

  pub on_shipment-add_items :
      (k : ℕ) (aids : List ℕ) (items : List ShipmentItem) (i a : ℕ)
      → on_shipment (add_shipment_items d k aids items) i a
        ≡ (on_shipment items i a || (k == i && mem a aids))
  unfolding add_shipment_items mem
  on_shipment-add_items k [] items i a = ground arith
  on_shipment-add_items k (b ∷ aids) items i a = ground (
    arith,
    on_shipment-add_items k aids (add_shipment_item d k b items) i a,
    on_shipment-add_item k b i a items,
  )
