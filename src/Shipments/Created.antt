-- ===== src/Shipments/Created.antt =====
-- What a successful `create_shipment` stores, and for which assets it succeeds.
use feature_asset_inventory.Base.{
  ℕ, ◌≡◌, inl, inr, true, false, Option, none, some, List, [], ◌∷◌, ◌++◌, arith, mem, is_some,
  ==-refl,
}
use feature_asset_inventory.Base.Http.{ok, Result-cases}
use feature_asset_inventory.Store.{Store}
use feature_asset_inventory.Store.Table.{Database, get_row, ids, get_row_new, get_row-insert}
use feature_asset_inventory.Store.Rows.{Shipment, asset_row, shipment_row, shipment_item_row}
use feature_asset_inventory.Store.Session.{after, reply}
use feature_asset_inventory.Reservation.{on_shipment, active_deployment_for_asset}
use feature_asset_inventory.Reservation.AutoAssign.{dedupe}
use feature_asset_inventory.Reservation.AutoAssign.Dedupe.{dedupe_lem}
use feature_asset_inventory.Shipments.Check.{
  ShipmentCreate, assert_asset_available_for_shipment, check_asset, check_assets, requested_ids,
}
use feature_asset_inventory.Shipments.Create.{create_shipment, new_shipment, add_shipment_items}
use feature_asset_inventory.Shipments.Reserve.{ship_holds, ShipmentsReserved, on_shipment-add_items}
use feature_asset_inventory.Shipments.Keeps.{check_assets-free}

-- The asset is there, no active shipment holds it, and no active deployment but the given one does.
pub record IsAvailable (db : Store) (deployment_id : Option ℕ) (a : ℕ) : Type 0 where
  pub there : is_some (get_row a db.assets) ≡ true
  pub not_shipped : (j : ℕ) → ship_holds db j a ≡ false
  pub not_planned : active_deployment_for_asset db a deployment_id ≡ none

check_assets-there :
    (db : Store) (deployment_id : Option ℕ) (aids : List ℕ) (a : ℕ)
    → check_assets db deployment_id aids ≡ ok tt
    → mem a aids ≡ true
    → (is_some (get_row a db.assets) ≡ true)
      × (active_deployment_for_asset db a deployment_id ≡ none)
unfolding check_assets check_asset assert_asset_available_for_shipment mem
check_assets-there db deployment_id [] a h m = cc
check_assets-there db deployment_id (b ∷ aids) a h m =
    ground (arith, check_assets-there db deployment_id aids a)

module _ (d : Database) (p : ShipmentCreate) (db : Store) where
  abbrev new_id : ℕ
  new_id = d.fresh (ids db.shipments)

  -- A reply inverted: what the checks found, and the two tables as they are left.
  pub created :
      (s : Shipment)
      → reply (create_shipment d p) db ≡ ok s
      → (aids : List ℕ) × (requested_ids db p ≡ ok aids)
        × (check_assets db p.deployment_id (dedupe aids) ≡ ok tt)
        × (s ≡ new_shipment p new_id)
        × ((after (create_shipment d p) db).shipments ≡ db.shipments ++ new_shipment p new_id ∷ [])
        × ((after (create_shipment d p) db).shipment_items
            ≡ add_shipment_items d new_id (dedupe aids) db.shipment_items)
  unfolding create_shipment
  created s h = elim (Result-cases (requested_ids db p)) [
    | inr (e, failed) ↦ absurd (ground arith)
    | inl (aids, found) ↦ elim (Result-cases (check_assets db p.deployment_id (dedupe aids))) [
      | inr (e, failed) ↦ absurd (ground arith)
      | inl (done, passed) ↦ (aids, found, passed, ground arith, ground arith, ground arith)
    ]
  ]

  -- Where the shipments keep the reservation rule and `create_shipment` returns a shipment, its key is
  -- new, it is stored as returned, and it lists exactly the ids asked for, chosen or picked. Each of
  -- them is an asset that no active shipment holds, and no active deployment but the shipment's own.
  pub create_shipment_lem :
      (s : Shipment)
      → ShipmentsReserved db
      → reply (create_shipment d p) db ≡ ok s
      → (aids : List ℕ) × (requested_ids db p ≡ ok aids)
        × (get_row s.id db.shipments ≡ none)
        × (get_row s.id (after (create_shipment d p) db).shipments ≡ some s)
        × ((a : ℕ)
            → on_shipment (after (create_shipment d p) db).shipment_items s.id a ≡ mem a aids)
        × ((a : ℕ) → mem a aids ≡ true → IsAvailable db p.deployment_id a)
  create_shipment_lem s v h =
      let (aids, found, passed, same, rows, items) = created s h in
      let new : get_row new_id db.shipments ≡ none =
        get_row_new new_id db.shipments (d.fresh_is_new (ids db.shipments)) in
      rw (same, rows, items)
        (
          aids,
          found,
          new,
          ground (
            arith,
            new,
            get_row-insert new_id (new_shipment p new_id) db.shipments,
            ==-refl new_id,
          ),
          λ a. ground (
            arith,
            new,
            v.known new_id a,
            ==-refl new_id,
            (dedupe_lem aids).1 a,
            on_shipment-add_items d new_id (dedupe aids) db.shipment_items new_id a,
          ),
          λ a m.
              let m' : mem a (dedupe aids) ≡ true = ground (arith, (dedupe_lem aids).1 a) in
              record {
                there = (check_assets-there db p.deployment_id (dedupe aids) a passed m').0;
                not_shipped = λ j. check_assets-free db p.deployment_id (dedupe aids) a passed m' j;
                not_planned = (check_assets-there db p.deployment_id (dedupe aids) a passed m').1;
              },
        )
