-- ===== src/Deployments.antt =====
-- app/services/deployment_service.py, operation by operation.
pub mod Check
pub mod Create
pub mod Items
pub mod Lifecycle
pub mod Links
pub mod Reserve
pub mod Release
pub mod Keeps
pub mod Closing
pub mod Frame
pub mod Complete
pub mod Forced
