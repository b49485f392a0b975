-- ===== src/Networks/Addresses.antt =====
-- What app/services/network_service.py uses of `ipaddress`.
use feature_asset_inventory.Base.{ℕ, ◌-◌, ◌/◌, ◌^◌, String, Bool, true, false, ◌&&◌, Option, ◌==◌}

pub data Version : Type 0 where
  v4 v6 : Version

-- `IPv4Address` and `IPv6Address`
pub record Ip : Type 0 where
  pub version : Version
  pub number : ℕ

-- `IPv4Network` and `IPv6Network`
pub record Subnet : Type 0 where
  pub network_address : Ip
  pub prefixlen : ℕ

abbrev pub same_version : Version → Version → Bool
same_version Version.v4 Version.v4 = true
same_version Version.v6 Version.v6 = true
same_version _ _ = false

abbrev pub max_prefixlen : Version → ℕ
max_prefixlen Version.v4 = 32
max_prefixlen Version.v6 = 128

-- The bits that the netmask keeps.
abbrev pub network_bits : ℕ → Ip → ℕ
network_bits prefixlen ip = ip.number / 2 ^ (max_prefixlen ip.version - prefixlen)

-- `ip in network`
unfoldable pub contains : Subnet → Ip → Bool
contains n ip =
    same_version n.network_address.version ip.version
    && network_bits n.prefixlen ip == network_bits n.prefixlen n.network_address

-- `ip_address` and `ip_network(…, strict=False)`, or nothing where they raise.
pub record Parser : Type 0 where
  pub ip_address : String → Option Ip
  pub ip_network : String → Option Subnet
