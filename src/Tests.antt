-- ===== src/Tests.antt =====
-- The theorems at concrete inputs, and the data that they run on.
mod Data
mod Reserving
mod Assets
mod Locations
mod Requests
mod Cache
mod Tracking
mod Auth
mod Networks
mod Api
mod Paging
mod Onboard
