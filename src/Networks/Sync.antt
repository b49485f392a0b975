-- ===== src/Networks/Sync.antt =====
-- `sync_from_meraki` of app/services/network_service.py, from the answers of Meraki on, which list no
-- network twice: the session does not flush by itself, and a repeated network's VLANs would be added twice.
use Prim.Native.String
use feature_asset_inventory.Base.{
  ℕ, suc, String, Bool, not, ◌&&◌, ◌||◌, Option, none, some, List, [], ◌∷◌, ◌++◌, is_blank, is_none,
  or_none, opt_str_eq, str_eq, strip, first, any, member, if◌then◌else◌,
}
use feature_asset_inventory.Store.Table.{Database, ids, put_row}
use feature_asset_inventory.Store.Rows.{Network, NetworkVlan, network_row}
use feature_asset_inventory.Python.Errors.{Outcome}
use feature_asset_inventory.Python.Json.{Json}
use feature_asset_inventory.Networks.Vlans.{text_or_none, upsert_vlans_for_network}
use feature_asset_inventory.Networks.Links.{Device, or_empty_text}
use feature_asset_inventory.Networks.Meraki.{Remote}
use feature_asset_inventory.Networks.Prefetch.{
  Uplink, extract_wan_ip, switch_ips_for_network, Prefetch, no_details, fetch_one,
}

-- A network as Meraki lists it.
pub record MerakiNetwork : Type 0 where
  pub id : Option String
  pub name : Option String
  pub product_types : List String
  pub time_zone : Option String

abbrev pub meraki_id : MerakiNetwork → String
meraki_id n = strip (or_empty_text n.id)

-- `",".join(product_types)`
abbrev pub join_commas : List String → String
join_commas [] = ""
join_commas (t ∷ []) = t
join_commas (t ∷ u ∷ ts) = String.◌++◌ t (String.◌++◌ "," (join_commas (u ∷ ts)))

-- The answers of Meraki and what else the sync reads.
pub record Answers : Type 0 where
  pub network_records : List MerakiNetwork
  pub uplinks : String → List Uplink
  pub devices : List Device
  pub remote : Remote
  pub org_id : Option String

-- What the sync does with a JSON value and with a list of texts.
pub record Codec : Type 0 where
  pub int : Json → Outcome ℕ
  pub dumps : List String → String

-- The columns of a network that follow Meraki.
pub record Facts : Type 0 where
  pub name : String
  pub subnet_cidr : Option String
  pub wan_ip : Option String
  pub firewall_ip : Option String
  pub corp_vlan_subnet : Option String
  pub corp_vlan_gateway_ip : Option String
  pub switch_ips_json : Option String
  pub product_types_csv : Option String
  pub timezone : Option String

abbrev pub has_changed : Facts → Network → Bool
has_changed f n =
    not (str_eq n.name f.name)
    || not (opt_str_eq n.subnet_cidr f.subnet_cidr)
    || not (opt_str_eq n.wan_ip f.wan_ip)
    || not (opt_str_eq n.firewall_ip f.firewall_ip)
    || not (opt_str_eq n.corp_vlan_subnet f.corp_vlan_subnet)
    || not (opt_str_eq n.corp_vlan_gateway_ip f.corp_vlan_gateway_ip)
    || not (opt_str_eq n.switch_ips_json f.switch_ips_json)
    || not (opt_str_eq n.product_types_csv f.product_types_csv)
    || not (opt_str_eq n.timezone f.timezone)
    || not (is_none n.archived_at)

pub record Counts : Type 0 where
  pub created : ℕ
  pub updated : ℕ
  pub archived : ℕ
  pub skipped : ℕ

abbrev pub no_counts : Counts
no_counts = record { created = 0; updated = 0; archived = 0; skipped = 0 }

-- `NetworkSyncResult`. An error is the text that the source lists for a row whose turn raises; with
-- answers of the types above no turn raises, and the list stays empty.
pub record NetworkSyncResult : Type 0 where
  pub fetched : ℕ
  pub counts : Counts
  pub assets_linked : ℕ
  pub errors : List String

-- The two tables that the loop writes, and the counts.
pub record Progress : Type 0 where
  pub networks : List Network
  pub network_vlans : List NetworkVlan
  pub counts : Counts

abbrev pub has_meraki_id : String → Network → Bool
has_meraki_id mid r = str_eq r.meraki_network_id mid

-- `(n.get("name") or meraki_id).strip()`
abbrev pub or_id : String → String → String
or_id name mid = strip (if is_blank name then mid else name)

abbrev pub count_updated : Bool → Counts → Counts
count_updated changed c = if changed then record c { updated = suc c.updated } else c

module _ (d : Database) (codec : Codec) (now : ℕ) (actor_upn : Option String)
    (answers : Answers) where
  abbrev pub dumped : List String → Option String
  dumped [] = none
  dumped (ip ∷ ips) = some (codec.dumps (ip ∷ ips))

  abbrev pub is_candidate : String → MerakiNetwork → Bool
  is_candidate mid n = str_eq (meraki_id n) mid && member "appliance" n.product_types

  -- Only a network with an appliance was asked for its VLANs.
  unfoldable pub prefetched : String → Prefetch
  prefetched mid =
      if any (is_candidate mid) answers.network_records
      then fetch_one codec.int answers.remote mid
      else no_details

  unfoldable pub facts_of : MerakiNetwork → Facts
  facts_of n =
      let mid = meraki_id n in
      let pf = prefetched mid in
      record {
        name = or_id (or_empty_text n.name) mid;
        subnet_cidr = pf.subnet;
        wan_ip = extract_wan_ip (answers.uplinks mid);
        firewall_ip = pf.gateway;
        corp_vlan_subnet = pf.corp_subnet;
        corp_vlan_gateway_ip = pf.corp_gateway;
        switch_ips_json = dumped (switch_ips_for_network mid answers.devices);
        product_types_csv = or_none (join_commas n.product_types);
        timezone = text_or_none n.time_zone;
      }

  abbrev pub new_network : String → Facts → List Network → Network
  new_network mid f networks = record {
    id = d.fresh (ids networks);
    meraki_network_id = mid;
    meraki_org_id = answers.org_id;
    name = f.name;
    name_override = none;
    location_id = none;
    subnet_cidr = f.subnet_cidr;
    wan_ip = f.wan_ip;
    firewall_ip = f.firewall_ip;
    corp_vlan_subnet = f.corp_vlan_subnet;
    corp_vlan_gateway_ip = f.corp_vlan_gateway_ip;
    switch_ips_json = f.switch_ips_json;
    product_types_csv = f.product_types_csv;
    timezone = f.timezone;
    notes = none;
    archived_at = none;
    meraki_synced_at = some now;
    created_by_upn = actor_upn;
    updated_by_upn = actor_upn;
  }

  abbrev pub renewed : Facts → Network → Network
  renewed f n = record n {
    name = f.name;
    subnet_cidr = f.subnet_cidr;
    wan_ip = f.wan_ip;
    firewall_ip = f.firewall_ip;
    corp_vlan_subnet = f.corp_vlan_subnet;
    corp_vlan_gateway_ip = f.corp_vlan_gateway_ip;
    switch_ips_json = f.switch_ips_json;
    product_types_csv = f.product_types_csv;
    timezone = f.timezone;
    archived_at = none;
    meraki_synced_at = some now;
    updated_by_upn = if has_changed f n then actor_upn else n.updated_by_upn;
  }

  abbrev pub write_network : MerakiNetwork → Option Network → Progress → Progress
  write_network n none p =
      let row = new_network (meraki_id n) (facts_of n) p.networks in
      record {
        networks = p.networks ++ row ∷ [];
        network_vlans =
            upsert_vlans_for_network d row.id codec.int (prefetched (meraki_id n)).vlans
              p.network_vlans;
        counts = record p.counts { created = suc p.counts.created };
      }
  write_network n (some existing) p = record {
    networks = put_row (renewed (facts_of n) existing) p.networks;
    network_vlans =
        upsert_vlans_for_network d existing.id codec.int (prefetched (meraki_id n)).vlans
          p.network_vlans;
    counts = count_updated (has_changed (facts_of n) existing) p.counts;
  }

  unfoldable pub sync_one : MerakiNetwork → Progress → Progress
  sync_one n p =
      if is_blank (meraki_id n)
      then record p { counts = record p.counts { skipped = suc p.counts.skipped } }
      else write_network n (first (has_meraki_id (meraki_id n)) p.networks) p

  unfoldable pub sync_all : List MerakiNetwork → Progress → Progress
  sync_all [] p = p
  sync_all (n ∷ ns) p = sync_all ns (sync_one n p)
