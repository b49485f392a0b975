-- ===== src/Shipments/Keeps.antt =====
-- The creation of a shipment and the operations on its items keep the reservation rule, whether they
-- return or raise.
use feature_asset_inventory.Base.{
  ℕ, String, ◌≡◌, refl, inl, inr, true, false, Option, none, some, List, [], ◌∷◌, arith, ◌==◌, mem,
  sym, ==_iff, Bool-cases, Option-cases,
}
use feature_asset_inventory.Base.Http.{ok, Result-cases}
use feature_asset_inventory.Store.{Store}
use feature_asset_inventory.Store.Table.{
  Database, get_row, drop_row, ids, get_row_new, id_of-get_row,
}
use feature_asset_inventory.Store.Rows.{asset_row, shipment_row, shipment_item_row}
use feature_asset_inventory.Store.Session.{after}
use feature_asset_inventory.Reservation.{by_shipment, other_active_shipment_for_asset}
use feature_asset_inventory.Reservation.Reserve.{
  insert-IsReserved, grow-IsReserved, drop_item-IsReserved, put-IsReserved,
}
use feature_asset_inventory.Reservation.AutoAssign.{dedupe}
use feature_asset_inventory.Shipments.Check.{
  ShipmentCreate, assert_asset_available_for_shipment, check_asset, check_assets, requested_ids,
}
use feature_asset_inventory.Shipments.Create.{
  create_shipment, new_shipment, add_shipment_item, add_shipment_items,
}
use feature_asset_inventory.Shipments.Items.{add_item, remove_item, item_of}
use feature_asset_inventory.Shipments.Reserve.{
  ship_holds, ShipmentsReserved, other_active_shipment-none, on_shipment-add_item,
  on_shipment-add_items,
}

-- Every asset that passed the checks is there, and no other active shipment holds it.
pub check_assets-available :
    (db : Store) (deployment_id : Option ℕ) (aids : List ℕ) (a : ℕ)
    → check_assets db deployment_id aids ≡ ok tt
    → mem a aids ≡ true
    → other_active_shipment_for_asset db a none ≡ none
unfolding check_assets check_asset assert_asset_available_for_shipment mem
check_assets-available db deployment_id [] a h m = cc
check_assets-available db deployment_id (b ∷ aids) a h m =
    ground (arith, check_assets-available db deployment_id aids a)

pub check_assets-free :
    (db : Store) (deployment_id : Option ℕ) (aids : List ℕ) (a : ℕ)
    → check_assets db deployment_id aids ≡ ok tt
    → mem a aids ≡ true
    → (j : ℕ) → ship_holds db j a ≡ false
check_assets-free db deployment_id aids a h m j = elim (Bool-cases (ship_holds db j a)) [
  | inl held ↦ absurd (
      cc (
        other_active_shipment-none db a none (check_assets-available db deployment_id aids a h m) j
          held))
  | inr free ↦ free
]

module _ (d : Database) where
  pub create_shipment-reserves :
      (p : ShipmentCreate) (db : Store)
      → ShipmentsReserved db
      → ShipmentsReserved (after (create_shipment d p) db)
  unfolding create_shipment
  create_shipment-reserves p db v = elim (Result-cases (requested_ids db p)) [
    | inr (e, failed) ↦ ground arith
    | inl (aids, found) ↦ elim (Result-cases (check_assets db p.deployment_id (dedupe aids))) [
      | inr (e, failed) ↦ ground arith
      | inl (done, passed) ↦ ground (
        arith,
        insert-IsReserved by_shipment (d.fresh (ids db.shipments)) (λ a. mem a (dedupe aids))
            db.shipments db.shipment_items
            (add_shipment_items d (d.fresh (ids db.shipments)) (dedupe aids) db.shipment_items)
            (on_shipment-add_items d (d.fresh (ids db.shipments)) (dedupe aids) db.shipment_items)
            (λ a m j held.
              absurd (cc (check_assets-free db p.deployment_id (dedupe aids) a passed m j)))
            v (new_shipment p (d.fresh (ids db.shipments))) refl
            (get_row_new (d.fresh (ids db.shipments)) db.shipments
              (d.fresh_is_new (ids db.shipments))),
      )
    ]
  ]

  -- The availability check of one asset on behalf of a shipment.
  assert_available-only :
      (db : Store) (a k : ℕ) (deployment_id : Option ℕ)
      → assert_asset_available_for_shipment db a (some k) deployment_id ≡ ok tt
      → (j : ℕ) → ship_holds db j a ≡ true
      → j ≡ k
  unfolding assert_asset_available_for_shipment
  assert_available-only db a k deployment_id h j held =
      elim (Option-cases (other_active_shipment_for_asset db a (some k))) [
        | inl e ↦ ground (arith, other_active_shipment-none db a (some k) e j held)
        | inr (s, e) ↦ ground arith
      ]

  pub add_item-reserves :
      (k a : ℕ) (actor : Option String) (db : Store)
      → ShipmentsReserved db
      → ShipmentsReserved (after (add_item d k a actor) db)
  unfolding add_item
  add_item-reserves k a actor db v = elim (Option-cases (get_row k db.shipments)) [
    | inl e ↦ ground arith
    | inr (s, e) ↦
        elim (Result-cases (assert_asset_available_for_shipment db a (some k) s.deployment_id)) [
          | inr (x, failed) ↦ ground arith
          | inl (done, passed) ↦ ground (
            arith,
            id_of-get_row k db.shipments e,
            put-IsReserved by_shipment (record s { updated_by_upn = actor }) db.shipments
                (add_shipment_item d k a db.shipment_items),
            grow-IsReserved by_shipment k (λ b. a == b) db.shipments db.shipment_items
                (add_shipment_item d k a db.shipment_items)
                (λ i b. on_shipment-add_item d k a i b db.shipment_items)
                (λ b m j held.
                  assert_available-only db a k s.deployment_id passed j
                    (rw (sym ((==_iff a b).0 m)) at held))
                v (ground arith),
          )
        ]
  ]

pub remove_item-reserves :
    (k item_id : ℕ) (actor : Option String) (db : Store)
    → ShipmentsReserved db
    → ShipmentsReserved (after (remove_item k item_id actor) db)
unfolding remove_item
remove_item-reserves k item_id actor db v = elim (Option-cases (get_row k db.shipments)) [
  | inl e ↦ ground arith
  | inr (s, e) ↦ elim (Option-cases (item_of k (get_row item_id db.shipment_items))) [
    | inl f ↦ ground arith
    | inr (i, f) ↦ ground (
      arith,
      id_of-get_row k db.shipments e,
      put-IsReserved by_shipment (record s { updated_by_upn = actor }) db.shipments
          (drop_row i.id db.shipment_items),
      drop_item-IsReserved by_shipment i.id db.shipments db.shipment_items v,
    )
  ]
]
