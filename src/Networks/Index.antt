-- ===== src/Networks/Index.antt =====
-- `build_vlan_index` and `match_ip` of app/services/network_service.py.
use feature_asset_inventory.Base.{
  ℕ, String, Bool, ◌&&◌, ◌||◌, Option, none, some, List, [], ◌∷◌, ◌==◌, ltb, leb, strip, is_blank,
  is_none, if◌then◌else◌, first,
}
use feature_asset_inventory.Store.{Store}
use feature_asset_inventory.Store.Table.{get_row}
use feature_asset_inventory.Store.Rows.{Network, NetworkVlan, network_row}
use feature_asset_inventory.Networks.Addresses.{Ip, Subnet, contains, Parser}

pub record VlanSubnet : Type 0 where
  pub network : Subnet
  pub network_id : ℕ
  pub network_name : String
  pub vlan_id : ℕ
  pub vlan_name : Option String
  pub cidr : String

-- `Network.display_name`
abbrev pub override_or : Option String → String → String
override_or none name = name
override_or (some o) name = if is_blank o then name else o

abbrev pub display_name : Network → String
display_name n = override_or n.name_override n.name

-- The order of the sort key `(-prefixlen, network_id, vlan_id)`.
unfoldable pub precedes : VlanSubnet → VlanSubnet → Bool
precedes s t =
    ltb t.network.prefixlen s.network.prefixlen
    || (t.network.prefixlen == s.network.prefixlen
        && (ltb s.network_id t.network_id
            || (s.network_id == t.network_id && leb s.vlan_id t.vlan_id)))

unfoldable pub insert_subnet : VlanSubnet → List VlanSubnet → List VlanSubnet
insert_subnet s [] = s ∷ []
insert_subnet s (t ∷ ts) =
    let rest = insert_subnet s ts in if precedes s t then s ∷ t ∷ ts else t ∷ rest

-- `list.sort`, which is stable.
unfoldable pub sort_index : List VlanSubnet → List VlanSubnet
sort_index [] = []
sort_index (s ∷ ss) = insert_subnet s (sort_index ss)

abbrev pub compiled : Network → NetworkVlan → String → Subnet → VlanSubnet
compiled n v cidr parsed = record {
  network = parsed;
  network_id = n.id;
  network_name = display_name n;
  vlan_id = v.meraki_vlan_id;
  vlan_name = v.name;
  cidr = cidr;
}

module _ (parser : Parser) where
  abbrev pub parsed_or_skipped :
      Network → NetworkVlan → Option String → List VlanSubnet → List VlanSubnet
  parsed_or_skipped n v none rest = rest
  parsed_or_skipped n v (some cidr) rest = elim (parser.ip_network cidr) [
    | none ↦ rest
    | some parsed ↦ compiled n v cidr parsed ∷ rest
  ]

  abbrev pub of_network : Option Network → NetworkVlan → List VlanSubnet → List VlanSubnet
  of_network none v rest = rest
  of_network (some n) v rest =
      if is_none n.archived_at then parsed_or_skipped n v v.subnet_cidr rest else rest

  -- The join of the active networks with their VLANs, in the order of the VLAN table.
  unfoldable pub vlan_subnets : List Network → List NetworkVlan → List VlanSubnet
  vlan_subnets networks [] = []
  vlan_subnets networks (v ∷ vs) =
      of_network (get_row v.network_id networks) v (vlan_subnets networks vs)

  abbrev pub build_vlan_index : Store → List VlanSubnet
  build_vlan_index db = sort_index (vlan_subnets db.networks db.network_vlans)

  abbrev pub match_parsed : Option Ip → List VlanSubnet → Option VlanSubnet
  match_parsed none index = none
  match_parsed (some ip) index = first (λ s. contains s.network ip) index

  unfoldable pub match_ip : String → List VlanSubnet → Option VlanSubnet
  match_ip ip_str index =
      if is_blank ip_str then none else match_parsed (parser.ip_address (strip ip_str)) index
