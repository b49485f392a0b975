-- ===== src/Shipments/Closing.antt =====
-- Every operation on a shipment as a whole keeps the reservation rule, whether it returns or raises.
use feature_asset_inventory.Base.{
  ℕ, String, ◌≡◌, refl, inl, inr, true, Option, none, some, arith, Option-cases,
}
use feature_asset_inventory.Store.{Store}
use feature_asset_inventory.Store.Types.{Resolution, Direction}
use feature_asset_inventory.Store.Table.{get_row, id_of-get_row}
use feature_asset_inventory.Store.Rows.{Shipment, asset_row, shipment_row, shipment_item_row}
use feature_asset_inventory.Store.Session.{after}
use feature_asset_inventory.Reservation.{is_shipment_active, by_shipment}
use feature_asset_inventory.Reservation.Reserve.{drop-IsReserved, put-IsReserved}
use feature_asset_inventory.Shipments.Header.{
  save_shipment, resolve_shipment, cancel_shipment, archive_shipment, unarchive_shipment,
  delete_shipment, update_shipment, edited, given,
}
use feature_asset_inventory.Shipments.Reserve.{ShipmentsReserved}

-- A row that is saved without becoming active keeps the rule.
save_shipment-reserves :
    (k : ℕ) (s t : Shipment) (db : Store)
    → get_row k db.shipments ≡ some s
    → t.id ≡ s.id
    → (is_shipment_active t ≡ true → is_shipment_active s ≡ true)
    → ShipmentsReserved db
    → ShipmentsReserved (after (save_shipment t) db)
unfolding save_shipment
save_shipment-reserves k s t db e same keep v =
    put-IsReserved by_shipment t db.shipments db.shipment_items
      (λ h. ground (arith, id_of-get_row k db.shipments e, keep h)) v

pub resolve_shipment-reserves :
    (k now : ℕ) (actor : Option String) (db : Store)
    → ShipmentsReserved db
    → ShipmentsReserved (after (resolve_shipment k now actor) db)
unfolding resolve_shipment
resolve_shipment-reserves k now actor db v = elim (Option-cases (get_row k db.shipments)) [
  | inl e ↦ ground arith
  | inr (s, e) ↦ ground (
    arith,
    save_shipment-reserves k s
        (record s {
          resolution = Resolution.resolved;
          resolved_at = some now;
          resolved_by_upn = actor;
        })
        db e refl,
  )
]

pub cancel_shipment-reserves :
    (k now : ℕ) (actor : Option String) (db : Store)
    → ShipmentsReserved db
    → ShipmentsReserved (after (cancel_shipment k now actor) db)
unfolding cancel_shipment
cancel_shipment-reserves k now actor db v = elim (Option-cases (get_row k db.shipments)) [
  | inl e ↦ ground arith
  | inr (s, e) ↦ ground (
    arith,
    save_shipment-reserves k s
        (record s {
          resolution = Resolution.cancelled;
          cancelled_at = some now;
          cancelled_by_upn = actor;
        })
        db e refl,
  )
]

pub archive_shipment-reserves :
    (k now : ℕ) (actor : Option String) (db : Store)
    → ShipmentsReserved db
    → ShipmentsReserved (after (archive_shipment k now actor) db)
unfolding archive_shipment
archive_shipment-reserves k now actor db v = elim (Option-cases (get_row k db.shipments)) [
  | inl e ↦ ground arith
  | inr (s, e) ↦ ground (
    arith,
    save_shipment-reserves k s (record s { archived_at = some now; archived_by_upn = actor }) db e
        refl (λ h. h) v,
  )
]

pub unarchive_shipment-reserves :
    (k : ℕ) (actor : Option String) (db : Store)
    → ShipmentsReserved db
    → ShipmentsReserved (after (unarchive_shipment k actor) db)
unfolding unarchive_shipment
unarchive_shipment-reserves k actor db v = elim (Option-cases (get_row k db.shipments)) [
  | inl e ↦ ground arith
  | inr (s, e) ↦ ground (
    arith,
    save_shipment-reserves k s
        (record s { archived_at = none; archived_by_upn = none; updated_by_upn = actor }) db e refl
        (λ h. h) v,
  )
]

pub delete_shipment-reserves :
    (k : ℕ) (db : Store) → ShipmentsReserved db → ShipmentsReserved (after (delete_shipment k) db)
unfolding delete_shipment
delete_shipment-reserves k db v = elim (Option-cases (get_row k db.shipments)) [
  | inl e ↦ ground arith
  | inr (s, e) ↦ ground (arith, drop-IsReserved by_shipment s.id db.shipments db.shipment_items v)
]

pub update_shipment-reserves :
    (k : ℕ) (description notes : Option String) (direction : Option Direction)
    (actor : Option String) (db : Store)
    → ShipmentsReserved db
    → ShipmentsReserved (after (update_shipment k description notes direction actor) db)
unfolding update_shipment
update_shipment-reserves k description notes direction actor db v =
    elim (Option-cases (get_row k db.shipments)) [
      | inl e ↦ ground arith
      | inr (s, e) ↦ ground (
        arith,
        save_shipment-reserves k s
            (record s {
              description = edited description s.description;
              notes = edited notes s.notes;
              direction = given direction s.direction;
              updated_by_upn = actor;
            })
            db e refl (λ h. h) v,
      )
    ]
