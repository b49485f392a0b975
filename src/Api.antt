-- ===== src/Api.antt =====
-- The routes of app/api: a guard, and the service that it lets a request through to.
pub mod Guarded
pub mod Shipments
pub mod Deployments
pub mod Allowed
