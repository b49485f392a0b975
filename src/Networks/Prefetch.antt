-- ===== src/Networks/Prefetch.antt =====
-- What app/services/network_service.py makes of Meraki's answers before it opens a transaction:
-- `_extract_wan_ip`, `_pick_corp_vlan`, `_switch_ips_for_network` and `_prefetch_network_details`.
use feature_asset_inventory.Base.{
  ℕ, String, Bool, true, false, not, ◌&&◌, ◌||◌, Option, none, some, List, [], ◌∷◌, ◌==◌, leb,
  is_blank, is_some, str_eq, lower, upper, has_prefix, first, sorted_set, if◌then◌else◌,
}
use feature_asset_inventory.Python.Errors.{Outcome, value, raises, ◌>>=◌, map_value}
use feature_asset_inventory.Python.Json.{Json, whole, or_else}
use feature_asset_inventory.Networks.Vlans.{MerakiVlan, text_or_none}
use feature_asset_inventory.Networks.Meraki.{
  SingleLan, Remote, get_meraki_appliance_vlans, get_meraki_appliance_single_lan,
}
use feature_asset_inventory.Networks.Links.{Device, or_empty_text}

pub record Uplink : Type 0 where
  pub status : Option String
  pub public_ip : Option String
  pub ip : Option String

-- `u.get("publicIp") or u.get("ip")`, as a text that is not empty
abbrev pub or_text_option : Option String → Option String → Option String
or_text_option none other = other
or_text_option (some t) other = some t

abbrev pub uplink_ip : Uplink → Option String
uplink_ip u = or_text_option (text_or_none u.public_ip) (text_or_none u.ip)

abbrev pub is_up : Option String → Bool
is_up none = true
is_up (some s) = str_eq s "active" || str_eq s "ready"

abbrev pub ip_of_uplink : Option Uplink → Option String
ip_of_uplink none = none
ip_of_uplink (some u) = uplink_ip u

-- The entry of a network, or nothing, as an empty list of uplinks.
unfoldable pub extract_wan_ip : List Uplink → Option String
extract_wan_ip uplinks =
    or_text_option (ip_of_uplink (first (λ u. is_some (uplink_ip u) && is_up u.status) uplinks))
      (ip_of_uplink (first (λ u. is_some (uplink_ip u)) uplinks))

-- `part in s`
has_text : String → String → Bool
has_text part String.[] = is_blank part
has_text part (String.◌∷◌ c s) =
    let rest = has_text part s in has_prefix part (String.◌∷◌ c s) || rest

abbrev corp_vlan_id : ℕ
corp_vlan_id = 30

-- The addresses of the devices of a network whose model starts with "MS", which are its switches.
switch_ips : String → List Device → List String
switch_ips network_id [] = []
switch_ips network_id (d ∷ ds) =
    let rest = switch_ips network_id ds in
    let ip = or_empty_text d.lan_ip in
    if str_eq (or_empty_text d.network_id) network_id
      && has_prefix "MS" (upper (or_empty_text d.model))
      && not (is_blank ip)
    then ip ∷ rest
    else rest

unfoldable pub switch_ips_for_network : String → List Device → List String
unfolding switch_ips
switch_ips_for_network network_id devices = sorted_set (switch_ips network_id devices)

-- `_NetworkPrefetch`
pub record Prefetch : Type 0 where
  pub subnet : Option String
  pub gateway : Option String
  pub corp_subnet : Option String
  pub corp_gateway : Option String
  pub vlans : List MerakiVlan

abbrev pub no_details : Prefetch
no_details = record {
  subnet = none;
  gateway = none;
  corp_subnet = none;
  corp_gateway = none;
  vlans = [];
}

insert_by_id : ℕ → MerakiVlan → List (ℕ × MerakiVlan) → List (ℕ × MerakiVlan)
insert_by_id k v [] = (k, v) ∷ []
insert_by_id k v ((j, w) ∷ vs) =
    let rest = insert_by_id k v vs in if leb k j then (k, v) ∷ (j, w) ∷ vs else (j, w) ∷ rest

abbrev without_keys : List (ℕ × MerakiVlan) → List MerakiVlan
without_keys [] = []
without_keys ((k, v) ∷ vs) = v ∷ without_keys vs

module _ (int : Json → Outcome ℕ) where
  has_corp_id : MerakiVlan → Bool
  has_corp_id v = is_corp (int (or_else v.id (whole 0)))
    where
      is_corp : Outcome ℕ → Bool
      is_corp (value n) = n == corp_vlan_id
      is_corp (raises e) = false

  -- A name with "corp" in it wins, then the id 30.
  unfoldable pub pick_corp_vlan : List MerakiVlan → Option MerakiVlan
  unfolding has_text has_corp_id
  pick_corp_vlan vlans = elim (first (λ v. has_text "corp" (lower (or_empty_text v.name))) vlans) [
    | some v ↦ some v
    | none ↦ first has_corp_id vlans
  ]

  pub sorted_by_id : List MerakiVlan → Outcome (List (ℕ × MerakiVlan))
  sorted_by_id [] = value []
  sorted_by_id (v ∷ vs) = do
    k ← int (or_else v.id (whole 9999))
    rest ← sorted_by_id vs
    value (insert_by_id k v rest)

  abbrev pub corp_subnet_of : Option MerakiVlan → Option String
  corp_subnet_of none = none
  corp_subnet_of (some v) = v.subnet

  abbrev pub corp_gateway_of : Option MerakiVlan → Option String
  corp_gateway_of none = none
  corp_gateway_of (some v) = v.appliance_ip

  abbrev pub details : List MerakiVlan → List MerakiVlan → Prefetch
  details vlans [] = no_details
  details vlans (v ∷ vs) = record {
    subnet = text_or_none v.subnet;
    gateway = text_or_none v.appliance_ip;
    corp_subnet = corp_subnet_of (pick_corp_vlan vlans);
    corp_gateway = corp_gateway_of (pick_corp_vlan vlans);
    vlans = v ∷ vs;
  }

  -- A network without VLANs gets one that stands for its single LAN.
  abbrev pub single_details : Option SingleLan → Prefetch
  single_details none = no_details
  single_details (some lan) = record {
    subnet = text_or_none lan.subnet;
    gateway = text_or_none lan.appliance_ip;
    corp_subnet = none;
    corp_gateway = none;
    vlans =
        record {
          id = whole 0;
          name = some "Single LAN";
          subnet = lan.subnet;
          appliance_ip = lan.appliance_ip;
        }
        ∷ [];
  }

  abbrev pub fetched : Remote → String → List MerakiVlan → Outcome Prefetch
  fetched remote nid [] = map_value single_details (get_meraki_appliance_single_lan remote nid)
  fetched remote nid (v ∷ vs) =
      map_value (λ sorted. details (v ∷ vs) (without_keys sorted)) (sorted_by_id (v ∷ vs))

  -- Whatever raises leaves a network with no details.
  abbrev pub or_no_details : Outcome Prefetch → Prefetch
  or_no_details (value p) = p
  or_no_details (raises e) = no_details

  unfoldable pub fetch_one : Remote → String → Prefetch
  fetch_one remote nid =
      or_no_details (get_meraki_appliance_vlans remote nid >>= λ vlans. fetched remote nid vlans)
