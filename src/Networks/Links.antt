-- ===== src/Networks/Links.antt =====
-- `link_assets_to_networks` of app/services/network_service.py.
use feature_asset_inventory.Base.{
  ℕ, suc, String, Bool, not, ◌&&◌, Option, none, some, List, [], ◌∷◌, ◌==◌, is_blank, is_none,
  is_empty, opt_eq, strip, upper, if◌then◌else◌, Dict, lookup, insert,
}
use feature_asset_inventory.Store.{Store}
use feature_asset_inventory.Store.Rows.{Asset, Network}
use feature_asset_inventory.Store.Session.{Action, pure, modify, commit, ◌>>◌}
use feature_asset_inventory.Networks.Addresses.{Parser}
use feature_asset_inventory.Networks.Index.{VlanSubnet, build_vlan_index, match_ip}

-- A device as Meraki lists it.
pub record Device : Type 0 where
  pub serial : Option String
  pub network_id : Option String
  pub model : Option String
  pub lan_ip : Option String

-- `x or ""`
abbrev pub or_empty_text : Option String → String
or_empty_text none = ""
or_empty_text (some s) = s

-- A later device with the same serial number overrides an earlier one.
add_serials : List Device → Dict String → Dict String
add_serials [] serial_to_mid = serial_to_mid
add_serials (d ∷ ds) serial_to_mid =
    let s = strip (or_empty_text d.serial) in
    let nid = strip (or_empty_text d.network_id) in
    add_serials ds (
      if not (is_blank s) && not (is_blank nid)
      then insert (upper s) nid serial_to_mid
      else serial_to_mid)

unfoldable pub serial_to_mid : List Device → Dict String
unfolding add_serials
serial_to_mid devices = add_serials devices []

add_networks : List Network → Dict ℕ → Dict ℕ
add_networks [] mid_to_local_id = mid_to_local_id
add_networks (n ∷ ns) mid_to_local_id = add_networks ns (
    if is_none n.archived_at
    then insert n.meraki_network_id n.id mid_to_local_id
    else mid_to_local_id)

unfoldable pub mid_to_local_id : List Network → Dict ℕ
unfolding add_networks
mid_to_local_id networks = add_networks networks []

-- `mid_to_local_id.get(mid) or None`
abbrev pub or_nothing : Option ℕ → Option ℕ
or_nothing none = none
or_nothing (some n) = if n == 0 then none else some n

abbrev pub network_of : Option VlanSubnet → Option ℕ
network_of none = none
network_of (some hit) = some hit.network_id

module _ (parser : Parser) (serials : Dict String) (locals : Dict ℕ) (index : List VlanSubnet) where
  abbrev pub by_address : Asset → Option String → Option ℕ
  by_address a none = a.network_id
  by_address a (some ip) =
      if not (is_blank ip) && not (is_empty index)
      then network_of (match_ip parser ip index)
      else a.network_id

  abbrev pub by_device : Asset → Option String → Option ℕ
  by_device a none = by_address a a.defender_last_ip
  by_device a (some mid) = or_nothing (lookup mid locals)

  -- `new_network_id` of one asset
  unfoldable pub new_network_id : Asset → Option ℕ
  new_network_id a =
      if is_blank a.serial_number
      then by_address a a.defender_last_ip
      else by_device a (lookup (upper a.serial_number) serials)

  -- The loop over the assets that are not archived: the rows that it writes, and how many change.
  abbrev pub linked : Asset → Asset
  linked a =
      if is_none a.archived_at && not (opt_eq (new_network_id a) a.network_id)
      then record a { network_id = new_network_id a }
      else a

  abbrev pub link_changes : Asset → Bool
  link_changes a = is_none a.archived_at && not (opt_eq (new_network_id a) a.network_id)

  unfoldable pub link_all : List Asset → List Asset
  link_all [] = []
  link_all (a ∷ as') = linked a ∷ link_all as'

  unfoldable pub count_changes : List Asset → ℕ
  count_changes [] = 0
  count_changes (a ∷ as') =
      let rest = count_changes as' in if link_changes a then suc rest else rest

module _ (parser : Parser) (devices : List Device) where
  abbrev pub linked_store : Store → Store
  linked_store db = record db {
    assets =
        link_all parser (serial_to_mid devices) (mid_to_local_id db.networks)
          (build_vlan_index parser db) db.assets;
  }

  abbrev pub changed_assets : Store → ℕ
  changed_assets db =
      count_changes parser (serial_to_mid devices) (mid_to_local_id db.networks)
        (build_vlan_index parser db) db.assets

  abbrev pub report_changes : ℕ → Action ℕ
  report_changes changed = if changed == 0 then pure 0 else commit >> pure changed

  -- `link_assets_to_networks(db, meraki_devices=devices)`
  unfoldable pub link_assets_to_networks : Action ℕ
  link_assets_to_networks s = (modify linked_store >> report_changes (changed_assets s.work)) s
