-- ===== src/Store/Types.antt =====
-- The closed sets of values of app/models/inventory.py: the tuples that its CHECK constraints name.
use feature_asset_inventory.Base.{Bool, true, false}

pub data Direction : Type 0 where
  outbound inbound : Direction

pub data Carrier : Type 0 where
  ups fedex other : Carrier

pub data CarrierStatus : Type 0 where
  pending in_transit out_for_delivery delivered exception unknown : CarrierStatus

-- `still_open` is the source's "open", a reserved word here.
pub data Resolution : Type 0 where
  still_open resolved cancelled : Resolution

pub data DeploymentStatus : Type 0 where
  planning in_progress completed cancelled : DeploymentStatus

pub data LocationType : Type 0 where
  warehouse site : LocationType

pub data HistoryEvent : Type 0 where
  onboard assign unassign status_change location_change archive note update : HistoryEvent

-- The comparisons of the queries with one value.
abbrev pub is_open : Resolution → Bool
is_open Resolution.still_open = true
is_open _ = false

-- `carrier_status in ("delivered", "exception")`
abbrev pub is_final : CarrierStatus → Bool
is_final CarrierStatus.delivered = true
is_final CarrierStatus.exception = true
is_final _ = false

abbrev pub is_delivered : CarrierStatus → Bool
is_delivered CarrierStatus.delivered = true
is_delivered _ = false

abbrev pub is_unknown : CarrierStatus → Bool
is_unknown CarrierStatus.unknown = true
is_unknown _ = false

abbrev pub is_inbound : Direction → Bool
is_inbound Direction.inbound = true
is_inbound _ = false

abbrev pub is_planning : DeploymentStatus → Bool
is_planning DeploymentStatus.planning = true
is_planning _ = false

abbrev pub is_in_progress : DeploymentStatus → Bool
is_in_progress DeploymentStatus.in_progress = true
is_in_progress _ = false

abbrev pub is_warehouse : LocationType → Bool
is_warehouse LocationType.warehouse = true
is_warehouse _ = false
