-- ===== src/Tests/Data.antt =====
-- A database that numbers its rows from one, some assets, and a stock room that holds them.
use feature_asset_inventory.Base.{
  ℕ, suc, ◌<◌, ◌≡◌, refl, true, false, none, some, List, [], ◌∷◌, arith, leb, if◌then◌else◌, mem,
}
use feature_asset_inventory.Store.{Store}
use feature_asset_inventory.Store.Types.{
  Direction, Carrier, CarrierStatus, Resolution, LocationType,
}
use feature_asset_inventory.Store.Table.{Database}
use feature_asset_inventory.Store.Rows.{no_address, Asset, Location, Shipment}

unfoldable pub highest : List ℕ → ℕ
highest [] = 0
highest (x ∷ xs) = let rest = highest xs in if leb x rest then rest else x

pub mem-above_highest : (k : ℕ) (xs : List ℕ) → highest xs < k → mem k xs ≡ false
unfolding highest mem
mem-above_highest k [] h = refl
mem-above_highest k (x ∷ xs) h = ground (arith, mem-above_highest k xs)

-- The next number, as SQLite counts row ids.
abbrev pub sqlite : Database
sqlite = record {
  fresh = λ taken. suc (highest taken);
  fresh_is_new = λ taken. mem-above_highest (suc (highest taken)) taken (omega arith);
}

abbrev pub laptop : ℕ → ℕ → Asset
laptop id onboarded_at = record {
  id = id;
  asset_tag = none;
  serial_number = "SN";
  asset_type = "laptop";
  manufacturer = none;
  model = some "X1";
  override_model = none;
  series = none;
  generation = none;
  cpu = none;
  os = none;
  os_version = none;
  status_code = "active";
  location_id = some 1;
  assigned_upn = none;
  assigned_at = none;
  onboarded_at = onboarded_at;
  archived_at = none;
  notes = none;
  intune_id = none;
  defender_last_ip = none;
  network_id = none;
  created_by_upn = none;
  updated_by_upn = none;
}

abbrev pub stock_room : Location
stock_room = record {
  id = 1;
  code = "hq";
  name = "Stock room";
  type = LocationType.warehouse;
  is_active = true;
}

abbrev pub laptops : List Asset
laptops = laptop 1 30 ∷ laptop 2 10 ∷ laptop 3 20 ∷ []

-- Three laptops in the stock room, and no shipment or deployment.
abbrev pub shelf : Store
shelf = record {
  statuses = [];
  locations = stock_room ∷ [];
  assets = laptops;
  asset_history = [];
  shipments = [];
  shipment_items = [];
  shipment_events = [];
  deployments = [];
  deployment_items = [];
  networks = [];
  network_vlans = [];
}

abbrev pub parcel : ℕ → CarrierStatus → Shipment
parcel id carrier_status = record {
  id = id;
  tracking_number = "1Z";
  carrier = Carrier.ups;
  direction = Direction.inbound;
  description = none;
  deployment_id = none;
  carrier_status = carrier_status;
  resolution = Resolution.still_open;
  from_location_id = none;
  from_address = no_address;
  to_location_id = some 1;
  to_address = no_address;
  notes = none;
  last_polled_at = none;
  last_poll_error = none;
  resolved_at = none;
  resolved_by_upn = none;
  cancelled_at = none;
  cancelled_by_upn = none;
  archived_at = none;
  archived_by_upn = none;
  created_by_upn = none;
  updated_by_upn = none;
}
