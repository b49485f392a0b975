-- ===== src/Networks/Vlans.antt =====
-- `_upsert_vlans_for_network` of app/services/network_service.py.
use feature_asset_inventory.Base.{
  ℕ, String, Bool, not, ◌&&◌, Option, none, some, List, [], ◌∷◌, ◌++◌, ◌==◌, or_none, if◌then◌else◌,
  mem,
}
use feature_asset_inventory.Store.Table.{Database, ids}
use feature_asset_inventory.Store.Rows.{NetworkVlan, network_vlan_row}
use feature_asset_inventory.Python.Errors.{Outcome, value, raises}
use feature_asset_inventory.Python.Json.{Json, whole, or_else}

-- A VLAN as Meraki lists it.
pub record MerakiVlan : Type 0 where
  pub id : Json
  pub name : Option String
  pub subnet : Option String
  pub appliance_ip : Option String

-- `x or None`
abbrev pub text_or_none : Option String → Option String
text_or_none none = none
text_or_none (some s) = or_none s

-- The columns that follow Meraki.
pub record Columns : Type 0 where
  pub name : Option String
  pub subnet_cidr : Option String
  pub appliance_ip : Option String

abbrev pub columns_of : MerakiVlan → Columns
columns_of v = record {
  name = text_or_none v.name;
  subnet_cidr = text_or_none v.subnet;
  appliance_ip = text_or_none v.appliance_ip;
}

abbrev pub with_columns : Columns → NetworkVlan → NetworkVlan
with_columns c r = record r {
  name = c.name;
  subnet_cidr = c.subnet_cidr;
  appliance_ip = c.appliance_ip;
}

module _ (int : Json → Outcome ℕ) where
  abbrev pub keep_readable : Outcome ℕ → MerakiVlan → List (ℕ × Columns) → List (ℕ × Columns)
  keep_readable (value vid) v rest = (vid, columns_of v) ∷ rest
  keep_readable (raises e) v rest = rest

  -- `int(v.get("id") or 0)`; a VLAN whose id cannot be read is passed over.
  unfoldable pub readable_vlans : List MerakiVlan → List (ℕ × Columns)
  readable_vlans [] = []
  readable_vlans (v ∷ vs) = keep_readable (int (or_else v.id (whole 0))) v (readable_vlans vs)

-- The VLANs seen in a run.
unfoldable pub seen_vids : List (ℕ × Columns) → List ℕ
seen_vids [] = []
seen_vids ((vid, c) ∷ vs) = vid ∷ seen_vids vs

module _ (network_id : ℕ) where
  abbrev pub is_vlan : ℕ → NetworkVlan → Bool
  is_vlan vid r = r.network_id == network_id && r.meraki_vlan_id == vid

  -- The keys of `by_vid`.
  unfoldable pub known_vids : List NetworkVlan → List ℕ
  known_vids [] = []
  known_vids (r ∷ rs) =
      let rest = known_vids rs in
      if r.network_id == network_id then r.meraki_vlan_id ∷ rest else rest

  unfoldable pub update_vlan : ℕ → Columns → List NetworkVlan → List NetworkVlan
  update_vlan vid c [] = []
  update_vlan vid c (r ∷ rs) =
      (if is_vlan vid r then with_columns c r else r) ∷ update_vlan vid c rs

  -- The VLANs that Meraki no longer lists are deleted.
  unfoldable pub delete_unseen : List ℕ → List NetworkVlan → List NetworkVlan
  delete_unseen seen [] = []
  delete_unseen seen (r ∷ rs) =
      let rest = delete_unseen seen rs in
      if r.network_id == network_id && not (mem r.meraki_vlan_id seen) then rest else r ∷ rest

module _ (d : Database) (network_id : ℕ) where
  abbrev pub new_vlan : ℕ → Columns → List NetworkVlan → NetworkVlan
  new_vlan vid c rows = record {
    id = d.fresh (ids rows);
    network_id = network_id;
    meraki_vlan_id = vid;
    name = c.name;
    subnet_cidr = c.subnet_cidr;
    appliance_ip = c.appliance_ip;
  }

  -- One turn of the loop: `by_vid` has the VLANs that the table had at first.
  unfoldable pub write_vlan : List ℕ → ℕ → Columns → List NetworkVlan → List NetworkVlan
  write_vlan by_vid vid c rows =
      if mem vid by_vid then update_vlan network_id vid c rows else rows ++ new_vlan vid c rows ∷ []

  unfoldable pub write_vlans : List ℕ → List (ℕ × Columns) → List NetworkVlan → List NetworkVlan
  write_vlans by_vid [] rows = rows
  write_vlans by_vid ((vid, c) ∷ vs) rows = write_vlans by_vid vs (write_vlan by_vid vid c rows)

  unfoldable pub upsert_vlans_for_network :
      (Json → Outcome ℕ) → List MerakiVlan → List NetworkVlan → List NetworkVlan
  upsert_vlans_for_network int fresh_vlans rows =
      let fresh = readable_vlans int fresh_vlans in
      delete_unseen network_id (seen_vids fresh)
        (write_vlans (known_vids network_id rows) fresh rows)
