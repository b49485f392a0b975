-- ===== src/Shipments/Refresh/Delivery.antt =====
-- The side effect of a delivery: where the assets of an inbound parcel are afterwards.
use feature_asset_inventory.Base.{
  ℕ, ◌≡◌, ◌≢◌, ap, ◌∙◌, inl, inr, some, List, [], ◌∷◌, arith, ◌==◌, if◌then◌else◌, opt_eq_iff, any,
  is_none, Option-cases,
}
use feature_asset_inventory.Store.Table.{get_row, get_row-put_row, id_of-get_row}
use feature_asset_inventory.Store.Rows.{Asset, ShipmentItem, asset_row}
use feature_asset_inventory.Shipments.Refresh.{move_asset, on_inbound_delivered}

-- Where an asset is after a delivery at `l` of a parcel that has it.
abbrev pub arrived : ℕ → Asset → Asset
arrived l a = if is_none a.archived_at then record a { location_id = some l } else a

-- The row of an asset as a parcel with `items` leaves it.
abbrev pub delivered_row : ℕ → List ShipmentItem → ℕ → Asset → Asset
delivered_row l items key a = if any (λ i. i.asset_id == key) items then arrived l a else a

get_row-move_asset :
    (l b key : ℕ) (assets : List Asset) {a : Asset}
    → l ≢ 0
    → get_row key assets ≡ some a
    → get_row key (move_asset (some l) b assets) ≡ some (if b == key then arrived l a else a)
unfolding move_asset
get_row-move_asset l b key assets {a} nz e = elim (Option-cases (get_row b assets)) [
  | inl n ↦ ground arith
  | inr (c, f) ↦ ground (
    arith,
    id_of-get_row b assets f,
    opt_eq_iff c.location_id (some l),
    get_row-put_row key (record c { location_id = some l }) assets,
  )
]

pub arrived_twice : (l : ℕ) (a : Asset) → arrived l (arrived l a) ≡ arrived l a
arrived_twice l a = ground arith

-- After a delivery at a location whose id is not 0, the row of every asset that is on the parcel and
-- not archived has that location and is else as before, and every other row is as before.
pub on_inbound_delivered-rows :
    (l key : ℕ) (items : List ShipmentItem) (assets : List Asset) {a : Asset}
    → l ≢ 0
    → get_row key assets ≡ some a
    → get_row key (on_inbound_delivered (some l) items assets) ≡ some (delivered_row l items key a)
unfolding on_inbound_delivered any
on_inbound_delivered-rows l key [] assets nz e = e
on_inbound_delivered-rows l key (i ∷ items) assets {a} nz e =
    on_inbound_delivered-rows l key items (move_asset (some l) i.asset_id assets) nz
      (get_row-move_asset l i.asset_id key assets nz e)
    ∙ ap some (ground (arith, arrived_twice l a))
