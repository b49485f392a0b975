-- ===== src/Store/Rows.antt =====
-- The rows of the tables of app/models/inventory.py, each with the columns that the services below
-- read or write. Left out are the columns `created_at`
-- and `updated_at`, which the database fills, and the time of a history entry.
use feature_asset_inventory.Base.{ℕ, String, Bool, Option, none}
use feature_asset_inventory.Store.Table.{Row}
use feature_asset_inventory.Store.Types.{
  Direction, Carrier, CarrierStatus, Resolution, DeploymentStatus, LocationType, HistoryEvent,
}

-- The six columns of a free-form address.
pub record Address : Type 0 where
  pub address_line1 : Option String
  pub address_line2 : Option String
  pub city : Option String
  pub state : Option String
  pub postal_code : Option String
  pub country : Option String

abbrev pub no_address : Address
no_address = record {
  address_line1 = none;
  address_line2 = none;
  city = none;
  state = none;
  postal_code = none;
  country = none;
}

pub record AssetStatus : Type 0 where
  pub code : String
  pub label : String
  pub is_terminal : Bool
  pub is_active : Bool
  pub sort_order : ℕ

pub record Location : Type 0 where
  pub id : ℕ
  pub code : String
  pub name : String
  pub type : LocationType
  pub is_active : Bool

pub record Asset : Type 0 where
  pub id : ℕ
  pub asset_tag : Option String
  pub serial_number : String
  pub asset_type : String
  pub manufacturer : Option String
  pub model : Option String
  pub override_model : Option String
  pub series : Option String
  pub generation : Option String
  pub cpu : Option String
  pub os : Option String
  pub os_version : Option String
  pub status_code : String
  pub location_id : Option ℕ
  pub assigned_upn : Option String
  pub assigned_at : Option ℕ
  pub onboarded_at : ℕ
  pub archived_at : Option ℕ
  pub notes : Option String
  pub intune_id : Option String
  pub defender_last_ip : Option String
  pub network_id : Option ℕ
  pub created_by_upn : Option String
  pub updated_by_upn : Option String

pub record AssetHistory : Type 0 where
  pub id : ℕ
  pub asset_id : ℕ
  pub event_type : HistoryEvent
  pub from_value : Option String
  pub to_value : Option String
  pub performed_by_upn : Option String
  pub notes : Option String

pub record Shipment : Type 0 where
  pub id : ℕ
  pub tracking_number : String
  pub carrier : Carrier
  pub direction : Direction
  pub description : Option String
  pub deployment_id : Option ℕ
  pub carrier_status : CarrierStatus
  pub resolution : Resolution
  pub from_location_id : Option ℕ
  pub from_address : Address
  pub to_location_id : Option ℕ
  pub to_address : Address
  pub notes : Option String
  pub last_polled_at : Option ℕ
  pub last_poll_error : Option String
  pub resolved_at : Option ℕ
  pub resolved_by_upn : Option String
  pub cancelled_at : Option ℕ
  pub cancelled_by_upn : Option String
  pub archived_at : Option ℕ
  pub archived_by_upn : Option String
  pub created_by_upn : Option String
  pub updated_by_upn : Option String

pub record ShipmentItem : Type 0 where
  pub id : ℕ
  pub shipment_id : ℕ
  pub asset_id : ℕ

pub record ShipmentEvent : Type 0 where
  pub id : ℕ
  pub shipment_id : ℕ
  pub occurred_at : ℕ
  pub status : CarrierStatus
  pub location : Option String
  pub description : Option String
  pub raw_json : Option String

pub record Deployment : Type 0 where
  pub id : ℕ
  pub name : String
  pub type : Option String
  pub status : DeploymentStatus
  pub target_date : Option ℕ
  pub description : Option String
  pub notes : Option String
  pub target_location_id : Option ℕ
  pub target_address : Address
  pub started_at : Option ℕ
  pub completed_at : Option ℕ
  pub cancelled_at : Option ℕ
  pub archived_at : Option ℕ
  pub completed_by_upn : Option String
  pub cancelled_by_upn : Option String
  pub archived_by_upn : Option String
  pub created_by_upn : Option String
  pub updated_by_upn : Option String

pub record DeploymentItem : Type 0 where
  pub id : ℕ
  pub deployment_id : ℕ
  pub asset_id : ℕ
  pub role : Option String
  pub notes : Option String

pub record Network : Type 0 where
  pub id : ℕ
  pub meraki_network_id : String
  pub meraki_org_id : Option String
  pub name : String
  pub name_override : Option String
  pub location_id : Option ℕ
  pub subnet_cidr : Option String
  pub wan_ip : Option String
  pub firewall_ip : Option String
  pub corp_vlan_subnet : Option String
  pub corp_vlan_gateway_ip : Option String
  pub switch_ips_json : Option String
  pub product_types_csv : Option String
  pub timezone : Option String
  pub notes : Option String
  pub archived_at : Option ℕ
  pub meraki_synced_at : Option ℕ
  pub created_by_upn : Option String
  pub updated_by_upn : Option String

pub record NetworkVlan : Type 0 where
  pub id : ℕ
  pub network_id : ℕ
  pub meraki_vlan_id : ℕ
  pub name : Option String
  pub subnet_cidr : Option String
  pub appliance_ip : Option String

instance abbrev pub network_row : Row Network
network_row = record { id_of = λ x. x.id }

instance abbrev pub network_vlan_row : Row NetworkVlan
network_vlan_row = record { id_of = λ x. x.id }

instance abbrev pub location_row : Row Location
location_row = record { id_of = λ x. x.id }

instance abbrev pub asset_row : Row Asset
asset_row = record { id_of = λ x. x.id }

instance abbrev pub history_row : Row AssetHistory
history_row = record { id_of = λ x. x.id }

instance abbrev pub shipment_row : Row Shipment
shipment_row = record { id_of = λ x. x.id }

instance abbrev pub shipment_item_row : Row ShipmentItem
shipment_item_row = record { id_of = λ x. x.id }

instance abbrev pub shipment_event_row : Row ShipmentEvent
shipment_event_row = record { id_of = λ x. x.id }

instance abbrev pub deployment_row : Row Deployment
deployment_row = record { id_of = λ x. x.id }

instance abbrev pub deployment_item_row : Row DeploymentItem
deployment_item_row = record { id_of = λ x. x.id }
