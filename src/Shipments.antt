-- ===== src/Shipments.antt =====
-- app/services/shipment_service.py, operation by operation.
pub mod Check
pub mod Create
pub mod Items
pub mod Header
pub mod Refresh
pub mod Reserve
pub mod Keeps
pub mod Closing
pub mod Frame
pub mod Created
pub mod Stock
pub mod Short
