-- ===== src/Networks.antt =====
-- app/services/network_service.py: the networks of Meraki, their VLANs, and the assets on them.
pub mod Addresses
pub mod Index
pub mod Best
pub mod Longest
pub mod Links
pub mod Relink
pub mod Vlans
pub mod Mirror
pub mod Meraki
pub mod Prefetch
pub mod Sync
pub mod Run
pub mod Active
pub mod Forgets
pub mod Edit
