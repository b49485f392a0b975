-- ===== src/Tests/Onboard.antt =====
-- A laptop is onboarded; then its serial number is refused.
use feature_asset_inventory.Base.{
  String, ◌≡◌, ◌⊎◌, refl, true, false, none, some, [], ◌∷◌, ◌==◌, any, first, if◌then◌else◌,
}
use feature_asset_inventory.Base.Http.{ok, err, conflict, unique_violated}
use feature_asset_inventory.Store.{Store}
use feature_asset_inventory.Store.Table.{get_row}
use feature_asset_inventory.Store.Rows.{AssetStatus, asset_row}
use feature_asset_inventory.Store.Session.{after, reply}
use feature_asset_inventory.Inventory.Onboard.{
  AssetCreate, clashes, onboarded, onboard_asset, HasUniqueNumbers, onboard_asset-HasUniqueNumbers,
}
use feature_asset_inventory.Tests.Data.{sqlite, laptop, shelf}

abbrev active : AssetStatus
active = record {
  code = "active";
  label = "Active";
  is_terminal = false;
  is_active = true;
  sort_order = 0;
}

abbrev one_laptop : Store
one_laptop = record shelf { statuses = active ∷ []; assets = laptop 1 30 ∷ [] }

abbrev body : String → AssetCreate
body serial_number = record {
  asset_tag = none;
  serial_number = serial_number;
  asset_type = "laptop";
  manufacturer = none;
  model = none;
  override_model = none;
  series = none;
  generation = none;
  cpu = none;
  os = none;
  os_version = none;
  status_code = "active";
  location_id = some 1;
  notes = none;
  intune_id = none;
}

accepted :
    reply (onboard_asset sqlite (body "SN2") 40 none) one_laptop
    ≡ ok (onboarded sqlite (body "SN2") 40 none one_laptop)
unfolding onboard_asset first any clashes get_row
accepted = refl

refused :
    reply (onboard_asset sqlite (body "SN") 40 none) one_laptop ≡ err (conflict unique_violated)
unfolding onboard_asset first any clashes get_row
refused = refl

onboard_asset-HasUniqueNumbers_example :
    HasUniqueNumbers (after (onboard_asset sqlite (body "SN2") 40 none) one_laptop).assets
    × ((after (onboard_asset sqlite (body "SN2") 40 none) one_laptop ≡ one_laptop)
        ⊎ ((reply (onboard_asset sqlite (body "SN2") 40 none) one_laptop
              ≡ ok (onboarded sqlite (body "SN2") 40 none one_laptop))
            × (get_row (onboarded sqlite (body "SN2") 40 none one_laptop).id one_laptop.assets
                ≡ none)
            × (get_row 1 (after (onboard_asset sqlite (body "SN2") 40 none) one_laptop).assets ≡ (
                if 1 == (onboarded sqlite (body "SN2") 40 none one_laptop).id
                then some (onboarded sqlite (body "SN2") 40 none one_laptop)
                else get_row 1 one_laptop.assets))))
unfolding any
onboard_asset-HasUniqueNumbers_example =
    onboard_asset-HasUniqueNumbers sqlite (body "SN2") 40 none one_laptop 1 (refl, tt)
