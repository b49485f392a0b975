-- ===== src/Shipments/Stock.antt =====
-- Assets in stock pass the checks of a shipment that is created.
use feature_asset_inventory.Base.{
  ℕ, ◌+◌, ◌<◌, ◌≡◌, refl, inl, inr, Bool, true, false, ◌&&◌, not, Option, none, some, List, [], ◌∷◌,
  ◌++◌, arith, ◌==◌, ==-refl, ==_iff, any, first, first-passes, length, mem, is_none, is_empty,
  Bool-cases, Option-cases,
}
use feature_asset_inventory.Base.Http.{ok}
use feature_asset_inventory.Store.{Store}
use feature_asset_inventory.Store.Table.{Database, Row, get_row, IsKeyed, ids}
use feature_asset_inventory.Store.Rows.{
  Asset, Shipment, ShipmentItem, asset_row, shipment_row, shipment_item_row,
}
use feature_asset_inventory.Reservation.{
  is_shipment_active, on_shipment, other_active_shipment_for_asset, reserved_by_shipment,
}
use feature_asset_inventory.Reservation.Reserve.{lists}
use feature_asset_inventory.Shipments.Check.{check_asset, check_assets}
use feature_asset_inventory.Shipments.Create.{add_shipment_item, add_shipment_items}
use feature_asset_inventory.Shipments.Reserve.{ShipmentsReserved}

module _ {A : Type 0} ⦃r : Row A⦄ where
  pub any-get_row :
      (p : A → Bool) (k : ℕ) (xs : List A)
      → any (λ a. p a && k == r.id_of a) xs ≡ true
      → is_none (get_row k xs) ≡ false
  unfolding any get_row
  any-get_row p k [] h = absurd (cc)
  any-get_row p k (x ∷ xs) h = ground (arith, any-get_row p k xs)

  any-first-none : (p : A → Bool) (xs : List A) → any p xs ≡ false → first p xs ≡ none
  unfolding any first
  any-first-none p [] h = refl
  any-first-none p (x ∷ xs) h = ground (arith, any-first-none p xs)

  first-get_row :
      (p : A → Bool) (xs : List A) {a : A}
      → IsKeyed xs
      → first p xs ≡ some a
      → get_row (r.id_of a) xs ≡ some a
  unfolding first get_row
  first-get_row p [] v h = cc
  first-get_row p (x ∷ xs) {a} v h = elim (Bool-cases (p x)) [
    | inl e ↦ ground (arith, ==-refl (r.id_of x))
    | inr e ↦
        let rest : get_row (r.id_of a) xs ≡ some a = first-get_row p xs v.1 (ground arith) in
        elim (Bool-cases (r.id_of a == r.id_of x)) [
          | inl f ↦ absurd (cc (v.0, rest, (==_iff (r.id_of a) (r.id_of x)).0 f))
          | inr f ↦ ground arith
        ]
  ]

pub free-not_reserved :
    (passes : Asset → Bool) (reserved : ℕ → Bool) (k : ℕ) (xs : List Asset)
    → any (λ a. (not (reserved a.id) && passes a) && k == a.id) xs ≡ true
    → reserved k ≡ false
unfolding any
free-not_reserved passes reserved k [] h = absurd (cc)
free-not_reserved passes reserved k (x ∷ xs) h = elim (Bool-cases (k == x.id)) [
  | inl e ↦ elim (Bool-cases (reserved k)) [
    | inr f ↦ f
    | inl f ↦
        let same : k ≡ x.id = (==_iff k x.id).0 e in
        let g : reserved x.id ≡ true = rw same at f in
        free-not_reserved passes reserved k xs (ground arith)
  ]
  | inr e ↦ free-not_reserved passes reserved k xs (ground arith)
]

reserved-by_item :
    (db : Store) (k : ℕ) (s : Shipment) (items : List ShipmentItem)
    → get_row s.id db.shipments ≡ some s
    → is_shipment_active s ≡ true
    → on_shipment items s.id k ≡ true
    → any
        (λ i. i.asset_id == k && elim (get_row i.shipment_id db.shipments) [
          | none ↦ false
          | some t ↦ is_shipment_active t
        ])
        items
      ≡ true
unfolding any lists
reserved-by_item db k s [] e act h = absurd (cc)
reserved-by_item db k s (i ∷ items) e act h =
    elim (Bool-cases (i.shipment_id == s.id && i.asset_id == k)) [
      | inl f ↦
          let same : i.shipment_id ≡ s.id = (==_iff i.shipment_id s.id).0 (ground arith) in
          let found : get_row i.shipment_id db.shipments ≡ some s = cc in rw found (ground arith)
      | inr f ↦ ground (arith, reserved-by_item db k s items)
    ]

-- An asset that the query for reserved assets leaves out is on no active shipment.
pub reserved_by_shipment-none :
    (db : Store) (k : ℕ)
    → ShipmentsReserved db
    → reserved_by_shipment db k ≡ false
    → other_active_shipment_for_asset db k none ≡ none
unfolding other_active_shipment_for_asset reserved_by_shipment
reserved_by_shipment-none db k v h =
    elim (Option-cases (other_active_shipment_for_asset db k none)) [
      | inl e ↦ e
      | inr (s, e) ↦
          let found =
            first-get_row
              (λ t. on_shipment db.shipment_items t.id k && is_shipment_active t && true)
              db.shipments v.keyed e in
          let passed =
            first-passes (λ t. on_shipment db.shipment_items t.id k && is_shipment_active t && true)
              db.shipments e in
          absurd
            (cc (h, reserved-by_item db k s db.shipment_items found (ground arith) (ground arith)))
    ]

pub check_assets-all :
    (db : Store) (deployment_id : Option ℕ) (aids : List ℕ)
    → ((a : ℕ) → mem a aids ≡ true → check_asset db deployment_id a ≡ ok tt)
    → check_assets db deployment_id aids ≡ ok tt
unfolding check_assets mem
check_assets-all db deployment_id [] h = refl
check_assets-all db deployment_id (a ∷ aids) h =
    rw
      (
        h a (ground (arith, ==-refl a)),
        check_assets-all db deployment_id aids (λ b m. h b (ground arith)),
      )
      refl

pub empty-mem : (k : ℕ) (xs : List ℕ) → mem k xs ≡ true → is_empty xs ≡ false
unfolding mem
empty-mem k [] h = absurd (cc)
empty-mem k (x ∷ xs) h = refl

pub head_mem : (xs : List ℕ) → 0 < length xs → (k : ℕ) × (mem k xs ≡ true)
unfolding mem
head_mem [] h = absurd (omega arith)
head_mem (x ∷ xs) h = (x, ground (arith, ==-refl x))

length-insert :
    (items : List ShipmentItem) (i : ShipmentItem) → length (items ++ i ∷ []) ≡ length items + 1
length-insert [] i = refl
length-insert (j ∷ items) i = omega (arith, length-insert items i)

pub length-add_shipment_items :
    (d : Database) (k : ℕ) (aids : List ℕ) (items : List ShipmentItem)
    → length (add_shipment_items d k aids items) ≡ length items + length aids
unfolding add_shipment_items add_shipment_item
length-add_shipment_items d k [] items = omega arith
length-add_shipment_items d k (a ∷ aids) items = omega (
  arith,
  length-insert items (record { id = d.fresh (ids items); shipment_id = k; asset_id = a }),
  length-add_shipment_items d k aids (add_shipment_item d k a items),
)
