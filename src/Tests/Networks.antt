-- ===== src/Tests/Networks.antt =====
-- An office with two overlapping VLANs, and what Meraki answers about it.
use feature_asset_inventory.Base.{
  ℕ, ◌+◌, ◌*◌, ◌^◌, String, ◌≡◌, refl, true, false, Option, none, some, List, [], ◌∷◌, ◌==◌, str_eq,
  strip, upper, first, any, mem, lookup, insert, if◌then◌else◌, member, sorted_set,
}
use feature_asset_inventory.Base.Http.{ok}
use feature_asset_inventory.Store.{Store}
use feature_asset_inventory.Store.Table.{get_row, put_row, ids, IsKeyed}
use feature_asset_inventory.Store.Rows.{Asset, Network, NetworkVlan, asset_row, network_row}
use feature_asset_inventory.Store.Session.{after, reply}
use feature_asset_inventory.Python.Errors.{Outcome, value, raises, type_error}
use feature_asset_inventory.Python.Json.{Json, whole}
use feature_asset_inventory.Networks.Addresses.{Ip, Subnet, v4, Parser, contains}
use feature_asset_inventory.Networks.Index.{
  VlanSubnet, precedes, insert_subnet, sort_index, compiled, vlan_subnets, build_vlan_index,
  match_ip,
}
use feature_asset_inventory.Networks.Best.{best_if, address_of, match_ip-best}
use feature_asset_inventory.Networks.Longest.{is_longer, match_ip-longest}
use feature_asset_inventory.Networks.Links.{
  new_network_id, link_assets_to_networks, link_all, count_changes, serial_to_mid, mid_to_local_id,
}
use feature_asset_inventory.Networks.Relink.{
  link_assets_to_networks-rows, link_assets_to_networks_twice,
}
use feature_asset_inventory.Networks.Vlans.{
  MerakiVlan, readable_vlans, seen_vids, known_vids, delete_unseen, write_vlans,
  upsert_vlans_for_network,
}
use feature_asset_inventory.Networks.Mirror.{
  find_fresh, find_vlan, upsert_vlans_for_network-mirrors,
}
use feature_asset_inventory.Networks.Prefetch.{fetch_one, extract_wan_ip, switch_ips_for_network}
use feature_asset_inventory.Networks.Meraki.{
  Response, Remote, has_meraki_headers, body_or_nothing, get_meraki_appliance_vlans,
  get_meraki_appliance_single_lan,
}
use feature_asset_inventory.Networks.Sync.{
  MerakiNetwork, Answers, Codec, NetworkSyncResult, Progress, no_counts, sync_one, sync_all,
  prefetched, facts_of,
}
use feature_asset_inventory.Networks.Run.{
  seen_ids, archive_gone, count_gone, has_unique_vlans, synced, sync_from_meraki,
}
use feature_asset_inventory.Networks.Active.{has_active, sync_from_meraki-active}
use feature_asset_inventory.Networks.Forgets.{unanswered, refused, sync_one-forgets}
use feature_asset_inventory.Tests.Data.{sqlite, highest, laptop, shelf}

abbrev address : ℕ → Ip
address number = record { version = v4; number = number }

abbrev ten : ℕ
ten = 10 * 2 ^ 24

-- It reads the texts of this file.
abbrev parse_address : String → Option Ip
parse_address text = if str_eq text "10.0.0.7" then some (address (ten + 7)) else none

abbrev parse_network : String → Option Subnet
parse_network text =
    if str_eq text "10.0.0.0/8"
    then some (record { network_address = address ten; prefixlen = 8 })
    else if str_eq text "10.0.0.0/24"
    then some (record { network_address = address ten; prefixlen = 24 })
    else none

abbrev parser : Parser
parser = record { ip_address = parse_address; ip_network = parse_network }

abbrev office : ℕ → String → Option ℕ → Network
office id mid archived_at = record {
  id = id;
  meraki_network_id = mid;
  meraki_org_id = none;
  name = mid;
  name_override = none;
  location_id = none;
  subnet_cidr = none;
  wan_ip = none;
  firewall_ip = none;
  corp_vlan_subnet = none;
  corp_vlan_gateway_ip = none;
  switch_ips_json = none;
  product_types_csv = none;
  timezone = none;
  notes = none;
  archived_at = archived_at;
  meraki_synced_at = none;
  created_by_upn = none;
  updated_by_upn = none;
}

abbrev vlan : ℕ → ℕ → ℕ → String → NetworkVlan
vlan id network_id vid cidr = record {
  id = id;
  network_id = network_id;
  meraki_vlan_id = vid;
  name = none;
  subnet_cidr = some cidr;
  appliance_ip = none;
}

abbrev vlans : List NetworkVlan
vlans = vlan 1 1 10 "10.0.0.0/8" ∷ vlan 2 2 30 "10.0.0.0/24" ∷ []

-- The laptop was last seen on the narrower VLAN.
abbrev seen_laptop : Asset
seen_laptop = record (laptop 1 30) { defender_last_ip = some " 10.0.0.7" }

abbrev offices : Store
offices = record shelf {
  assets = seen_laptop ∷ laptop 2 10 ∷ [];
  networks = office 1 "L1" none ∷ office 2 "L2" none ∷ [];
  network_vlans = vlans;
}

abbrev narrow : VlanSubnet
narrow =
    compiled (office 2 "L2" none) (vlan 2 2 30 "10.0.0.0/24") "10.0.0.0/24"
      (record { network_address = address ten; prefixlen = 24 })

match_ip-narrow : match_ip parser " 10.0.0.7" (build_vlan_index parser offices) ≡ some narrow
unfolding match_ip sort_index insert_subnet precedes vlan_subnets first contains strip get_row
match_ip-narrow = refl

match_ip-best_example :
    match_ip parser " 10.0.0.7" (build_vlan_index parser offices)
    ≡ best_if
        (address_of parser " 10.0.0.7")
        (vlan_subnets parser offices.networks offices.network_vlans)
match_ip-best_example = match_ip-best parser offices " 10.0.0.7"

match_ip-longest_example :
    (contains narrow.network (address (ten + 7)) ≡ true)
    × (any
          (is_longer (address (ten + 7)) 24)
          (vlan_subnets parser offices.networks offices.network_vlans)
        ≡ false)
unfolding strip
match_ip-longest_example =
    match_ip-longest parser offices " 10.0.0.7" (address (ten + 7)) narrow refl match_ip-narrow

linked_laptop :
    get_row 1 (after (link_assets_to_networks parser []) offices).assets
    ≡ some (record seen_laptop { network_id = some 2 })
unfolding get_row new_network_id serial_to_mid lookup upper match_ip sort_index insert_subnet
    precedes vlan_subnets first contains strip
linked_laptop = link_assets_to_networks-rows parser [] offices 1 seen_laptop refl

link_assets_to_networks_twice_example :
    let db' = after (link_assets_to_networks parser []) offices in
    (reply (link_assets_to_networks parser []) db' ≡ ok 0)
    × (after (link_assets_to_networks parser []) db' ≡ db')
link_assets_to_networks_twice_example = link_assets_to_networks_twice parser [] offices

abbrev number_of : Json → Outcome ℕ
number_of (whole n) = value n
number_of _ = raises type_error

abbrev listed_vlan : MerakiVlan
listed_vlan = record {
  id = whole 40;
  name = some "Corp";
  subnet = some "10.0.0.0/24";
  appliance_ip = none;
}

upsert_vlans_for_network-mirrors_example :
    find_vlan 2 40 (upsert_vlans_for_network sqlite 2 number_of (listed_vlan ∷ []) vlans) ≡ (
      if 2 == 2
      then find_fresh 40 (readable_vlans number_of (listed_vlan ∷ []))
      else find_vlan 2 40 vlans)
unfolding readable_vlans find_fresh
upsert_vlans_for_network-mirrors_example =
    upsert_vlans_for_network-mirrors sqlite 2 number_of (listed_vlan ∷ []) vlans 2 40 (refl, tt)

-- Meraki lists one network that is known and one that is not; its calls for VLANs fail.
abbrev listed_network : String → MerakiNetwork
listed_network id = record {
  id = some id;
  name = none;
  product_types = "appliance" ∷ [];
  time_zone = none;
}

-- Meraki limits the rate of the one call and does not answer the other.
abbrev too_many_requests : Response (List MerakiVlan)
too_many_requests = record { status_code = 429; is_success = false; json = raises type_error }

abbrev failing : Remote
failing = record {
  meraki_api_key = "key";
  meraki_org_id = "1";
  get_vlans = λ nid. some too_many_requests;
  get_single_lan = λ nid. none;
}

abbrev answers : Answers
answers = record {
  network_records = listed_network "L2" ∷ listed_network "L3" ∷ [];
  uplinks = λ mid. [];
  devices = [];
  remote = failing;
  org_id = none;
}

abbrev codec : Codec
codec = record { int = number_of; dumps = λ ips. "" }

abbrev result : NetworkSyncResult
result = record {
  fetched = 2;
  counts = record { created = 1; updated = 1; archived = 1; skipped = 0 };
  assets_linked = 0;
  errors = [];
}

offices-IsKeyed : IsKeyed offices.networks
unfolding get_row
offices-IsKeyed = (refl, (refl, tt))

sync-answers : (sync_from_meraki sqlite parser codec 50 none answers offices).0 ≡ some result
unfolding sync_from_meraki synced sync_all sync_one seen_ids archive_gone count_gone
    has_unique_vlans prefetched facts_of fetch_one get_meraki_appliance_vlans
    get_meraki_appliance_single_lan has_meraki_headers body_or_nothing extract_wan_ip
    switch_ips_for_network upsert_vlans_for_network write_vlans delete_unseen known_vids
    readable_vlans link_assets_to_networks link_all count_changes new_network_id serial_to_mid
    mid_to_local_id lookup insert upper match_ip sort_index insert_subnet precedes vlan_subnets
    first contains strip get_row put_row ids any member mem sorted_set highest seen_vids
sync-answers = refl

sync_from_meraki-active_example :
    has_active "L1" (sync_from_meraki sqlite parser codec 50 none answers offices).1.networks
    ≡ member "L1" (seen_ids answers.network_records)
sync_from_meraki-active_example =
    sync_from_meraki-active sqlite codec 50 none answers parser offices result "L1" offices-IsKeyed
      refl sync-answers

abbrev before_sync : Progress
before_sync = record { networks = offices.networks; network_vlans = vlans; counts = no_counts }

sync_one-forgets_example :
    find_vlan 2 30
      (sync_one sqlite codec 50 none answers (listed_network "L2") before_sync).network_vlans
    ≡ none
unfolding strip first
sync_one-forgets_example =
    sync_one-forgets sqlite codec 50 none answers (listed_network "L2") (office 2 "L2" none)
      before_sync 30 refl refl (refused too_many_requests refl) unanswered
