-- ===== src/Tracking.antt =====
-- app/services/tracking_service.py: the result types.
pub mod Parse
pub mod Fetch
pub mod Carriers
pub mod Numbers
pub mod Laws
pub mod Payload
pub mod Scans
pub mod Expected
pub mod Reported
use feature_asset_inventory.Base.{ℕ, String, Option, List}
use feature_asset_inventory.Store.Types.{CarrierStatus}

-- `occurred_at` counts seconds, and `raw` is the JSON text of the carrier's record.
pub record TrackingEvent : Type 0 where
  pub occurred_at : ℕ
  pub status : CarrierStatus
  pub location : Option String
  pub description : Option String
  pub raw : Option String

pub record TrackingResult : Type 0 where
  pub status : CarrierStatus
  pub events : List TrackingEvent
  pub error : Option String
