-- ===== src/Networks/Run.antt =====
-- The end of `sync_from_meraki`: what Meraki no longer lists is archived, the work is committed, and
-- the assets are linked again.
use feature_asset_inventory.Base.{
  ℕ, suc, String, Bool, true, not, ◌&&◌, Option, none, some, List, [], ◌∷◌, is_blank, is_none,
  is_empty, length, any, member, if◌then◌else◌,
}
use feature_asset_inventory.Base.Http.{Result, ok, err}
use feature_asset_inventory.Store.{Store}
use feature_asset_inventory.Store.Table.{Database}
use feature_asset_inventory.Store.Rows.{Network, NetworkVlan}
use feature_asset_inventory.Store.Session.{request}
use feature_asset_inventory.Networks.Addresses.{Parser}
use feature_asset_inventory.Networks.Vlans.{is_vlan}
use feature_asset_inventory.Networks.Links.{link_assets_to_networks}
use feature_asset_inventory.Networks.Sync.{
  MerakiNetwork, meraki_id, Answers, Codec, Counts, no_counts, NetworkSyncResult, Progress,
  sync_all,
}

unfoldable pub seen_ids : List MerakiNetwork → List String
seen_ids [] = []
seen_ids (n ∷ ns) =
    let rest = seen_ids ns in if is_blank (meraki_id n) then rest else meraki_id n ∷ rest

abbrev pub is_gone : List String → Network → Bool
is_gone seen r = not (member r.meraki_network_id seen) && is_none r.archived_at

unfoldable pub archive_gone : ℕ → List String → List Network → List Network
archive_gone now seen [] = []
archive_gone now seen (r ∷ rs) =
    (if is_gone seen r then record r { archived_at = some now } else r) ∷ archive_gone now seen rs

unfoldable pub count_gone : List String → List Network → ℕ
count_gone seen [] = 0
count_gone seen (r ∷ rs) =
    let rest = count_gone seen rs in if is_gone seen r then suc rest else rest

-- No two rows have the same network and the same Meraki id (`uq_network_vlans_network_vlan_id`).
unfoldable pub has_unique_vlans : List NetworkVlan → Bool
has_unique_vlans [] = true
has_unique_vlans (r ∷ rs) =
    let rest = has_unique_vlans rs in not (any (is_vlan r.network_id r.meraki_vlan_id) rs) && rest

abbrev pub Reply : Type 0
Reply = Option NetworkSyncResult

abbrev pub or_zero : Result ℕ → ℕ
or_zero (ok n) = n
or_zero (err e) = 0

module _ (d : Database) (codec : Codec) (now : ℕ) (actor_upn : Option String)
    (answers : Answers) where
  -- The loop, from the tables as they are, and the archiving.
  unfoldable pub synced : Store → Progress
  synced db =
      let seen = seen_ids answers.network_records in
      let p =
        sync_all d codec now actor_upn answers answers.network_records (record {
          networks = db.networks;
          network_vlans = db.network_vlans;
          counts = no_counts;
        }) in
      record {
        networks = archive_gone now seen p.networks;
        network_vlans = p.network_vlans;
        counts = record p.counts { archived = count_gone seen p.networks };
      }

  abbrev pub stored : Store → Store
  stored db = record db {
    networks = (synced db).networks;
    network_vlans = (synced db).network_vlans;
  }

module _ (d : Database) (parser : Parser) (codec : Codec) (now : ℕ) (actor_upn : Option String)
    (answers : Answers) where
  abbrev pub relink : Counts → Store → Reply × Store
  relink counts db =
      let (r, db') = request (link_assets_to_networks parser answers.devices) db in
      (
        some (record {
          fetched = length answers.network_records;
          counts = counts;
          assets_linked = or_zero r;
          errors = [];
        }),
        db',
      )

  -- The result, or nothing where the database refuses the rows; then all is rolled back.
  unfoldable pub sync_from_meraki : Store → Reply × Store
  sync_from_meraki db =
      if is_empty answers.network_records
      then relink no_counts db
      else if has_unique_vlans (synced d codec now actor_upn answers db).network_vlans
      then relink (synced d codec now actor_upn answers db).counts
          (stored d codec now actor_upn answers db)
      else (none, db)
