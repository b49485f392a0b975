-- ===== src/Networks/Relink.antt =====
-- What linking does to the assets, and that linking again does nothing.
use feature_asset_inventory.Base.{
  ℕ, String, ◌≡◌, refl, sym, ap, ◌∙◌, inl, inr, true, false, Option, none, some, List, [], ◌∷◌,
  arith, ◌==◌, is_blank, is_none, opt_eq, opt_eq_iff, upper, if◌then◌else◌, Dict, lookup,
  Bool-cases,
}
use feature_asset_inventory.Base.Http.{Result, ok}
use feature_asset_inventory.Store.{Store}
use feature_asset_inventory.Store.Table.{get_row}
use feature_asset_inventory.Store.Rows.{Asset, asset_row}
use feature_asset_inventory.Store.Session.{Session, request, after, reply}
use feature_asset_inventory.Networks.Addresses.{Parser}
use feature_asset_inventory.Networks.Index.{VlanSubnet, build_vlan_index}
use feature_asset_inventory.Networks.Links.{
  Device, serial_to_mid, mid_to_local_id, by_address, by_device, new_network_id, linked,
  link_changes, link_all, count_changes, linked_store, changed_assets, report_changes,
  link_assets_to_networks,
}

module _ (parser : Parser) (serials : Dict String) (locals : Dict ℕ) (index : List VlanSubnet) where
  abbrev pub moved : Asset → Asset
  moved a = record a { network_id = new_network_id parser serials locals index a }

  by_address-moved :
      (a : Asset) (o : Option String)
      → by_address parser serials locals index
          (record a { network_id = by_address parser serials locals index a o })
          o
        ≡ by_address parser serials locals index a o
  by_address-moved a none = refl
  by_address-moved a (some ip) = ground arith

  by_device-moved :
      (a : Asset) (o : Option String)
      → by_device parser serials locals index
          (record a { network_id = by_device parser serials locals index a o })
          o
        ≡ by_device parser serials locals index a o
  by_device-moved a none = by_address-moved a a.defender_last_ip
  by_device-moved a (some mid) = refl

  new_network_id-moved :
      (a : Asset)
      → new_network_id parser serials locals index (moved a)
        ≡ new_network_id parser serials locals index a
  unfolding new_network_id
  new_network_id-moved a = elim (Bool-cases (is_blank a.serial_number)) [
    | inl e ↦ rw e (by_address-moved a a.defender_last_ip)
    | inr e ↦ rw e (by_device-moved a (lookup (upper a.serial_number) serials))
  ]

  link_changes-linked :
      (a : Asset)
      → link_changes parser serials locals index (linked parser serials locals index a) ≡ false
  link_changes-linked a = ground (
    arith,
    new_network_id-moved a,
    opt_eq_iff (new_network_id parser serials locals index a)
        (new_network_id parser serials locals index a),
  )

  count_changes-link_all :
      (as' : List Asset)
      → count_changes parser serials locals index (link_all parser serials locals index as') ≡ 0
  unfolding count_changes link_all
  count_changes-link_all [] = refl
  count_changes-link_all (a ∷ as') =
      ground (arith, link_changes-linked a, count_changes-link_all as')

  link_all-unchanged :
      (as' : List Asset)
      → count_changes parser serials locals index as' ≡ 0
      → link_all parser serials locals index as' ≡ as'
  unfolding count_changes link_all
  link_all-unchanged [] h = refl
  link_all-unchanged (a ∷ as') h = ground (arith, link_all-unchanged as')

  linked-live :
      (a : Asset) → is_none a.archived_at ≡ true → linked parser serials locals index a ≡ moved a
  linked-live a h =
      elim (Bool-cases (opt_eq (new_network_id parser serials locals index a) a.network_id)) [
        | inl e ↦
            rw (h, e)
              (sym (
                ap (λ n. record a { network_id = n })
                  ((opt_eq_iff (new_network_id parser serials locals index a) a.network_id).0 e)))
        | inr e ↦ rw (h, e) refl
      ]

  get_row-link_all :
      (key : ℕ) (as' : List Asset) {a : Asset}
      → get_row key as' ≡ some a
      → get_row key (link_all parser serials locals index as')
        ≡ some (if is_none a.archived_at then moved a else a)
  unfolding get_row link_all
  get_row-link_all key [] h = absurd (cc)
  get_row-link_all key (b ∷ as') {a} h =
      ground (arith, get_row-link_all key as' {a = a}, linked-live a)

module _ (parser : Parser) (devices : List Device) where
  -- What is left when the session is closed.
  abbrev closed : Result ℕ × Session → Result ℕ × Store
  closed (r, s) = (r, s.saved)

  committed : ℕ → Store → Store
  committed n db = if n == 0 then db else linked_store parser devices db

  report-committed :
      (n : ℕ) (db : Store)
      → closed (
          report_changes parser devices n
            (record { work = linked_store parser devices db; saved = db }))
        ≡ (ok n, committed n db)
  unfolding committed
  report-committed n db = elim (Bool-cases (n == 0)) [
    | inl e ↦ let none_changed : n ≡ 0 = ground arith in rw (e, none_changed) refl
    | inr e ↦ rw e refl
  ]

  link-request :
      (db : Store)
      → request (link_assets_to_networks parser devices) db
        ≡ (ok (changed_assets parser devices db), committed (changed_assets parser devices db) db)
  unfolding link_assets_to_networks
  link-request db = report-committed (changed_assets parser devices db) db

  link-saves :
      (db : Store)
      → (after (link_assets_to_networks parser devices) db).assets
        ≡ (linked_store parser devices db).assets
  unfolding committed
  link-saves db =
      ap (λ p. p.1.assets) (link-request db)
      ∙ (elim (Bool-cases (changed_assets parser devices db == 0)) [
        | inl e ↦ rw e (
            sym (
              link_all-unchanged parser (serial_to_mid devices) (mid_to_local_id db.networks)
                (build_vlan_index parser db) db.assets (ground arith)))
        | inr e ↦ rw e refl
      ])

  pub link-networks :
      (db : Store)
      → ((after (link_assets_to_networks parser devices) db).networks ≡ db.networks)
        × ((after (link_assets_to_networks parser devices) db).network_vlans ≡ db.network_vlans)
  unfolding committed
  link-networks db = elim (Bool-cases (changed_assets parser devices db == 0)) [
    | inl e ↦ (
      ap (λ p. p.1.networks) (link-request db) ∙ rw e refl,
      ap (λ p. p.1.network_vlans) (link-request db) ∙ rw e refl,
    )
    | inr e ↦ (
      ap (λ p. p.1.networks) (link-request db) ∙ rw e refl,
      ap (λ p. p.1.network_vlans) (link-request db) ∙ rw e refl,
    )
  ]

  -- The row of an asset that is not archived has, once the assets are linked, the network that
  -- `new_network_id` gives it, and is else as before; the row of an archived one is as before.
  pub link_assets_to_networks-rows :
      (db : Store) (key : ℕ) (a : Asset)
      → get_row key db.assets ≡ some a
      → get_row key (after (link_assets_to_networks parser devices) db).assets
        ≡ some (
            if is_none a.archived_at
            then moved parser
                (serial_to_mid devices)
                (mid_to_local_id db.networks)
                (build_vlan_index parser db)
                a
            else a)
  link_assets_to_networks-rows db key a h = rw (link-saves db) (
      get_row-link_all parser (serial_to_mid devices) (mid_to_local_id db.networks)
        (build_vlan_index parser db) key db.assets {a = a} h)

  linked_twice : (db : Store) → changed_assets parser devices (linked_store parser devices db) ≡ 0
  linked_twice db =
      count_changes-link_all parser (serial_to_mid devices) (mid_to_local_id db.networks)
        (build_vlan_index parser db) db.assets

  idle :
      (db : Store)
      → changed_assets parser devices db ≡ 0
      → (reply (link_assets_to_networks parser devices) db ≡ ok 0)
        × (after (link_assets_to_networks parser devices) db ≡ db)
  unfolding committed
  idle db h = (
    ap (λ p. p.0) (link-request db) ∙ ap ok h,
    ap (λ p. p.1) (link-request db) ∙ ap (λ n. committed n db) h,
  )

  saved_as :
      (db : Store)
      → (changed_assets parser devices db == 0) ≡ false
      → after (link_assets_to_networks parser devices) db ≡ linked_store parser devices db
  unfolding committed
  saved_as db h = ap (λ p. p.1) (link-request db) ∙ rw h refl

  -- Once the assets are linked, linking them again to the same devices counts no change and leaves
  -- the database as it is.
  pub link_assets_to_networks_twice :
      (db : Store)
      → let db' = after (link_assets_to_networks parser devices) db in
        (reply (link_assets_to_networks parser devices) db' ≡ ok 0)
        × (after (link_assets_to_networks parser devices) db' ≡ db')
  link_assets_to_networks_twice db = elim (Bool-cases (changed_assets parser devices db == 0)) [
    | inl e ↦ rw (idle db (ground arith)).1 (idle db (ground arith))
    | inr e ↦ rw (saved_as db e) (idle (linked_store parser devices db) (linked_twice db))
  ]
