-- ===== src/Networks/Meraki.antt =====
-- What app/services/lookup_service.py makes of Meraki's HTTP answers about the appliance of a network:
-- `get_meraki_appliance_vlans` and `get_meraki_appliance_single_lan`. `_meraki_get`, which calls httpx
-- and retries on 429, is a parameter.
use feature_asset_inventory.Base.{
  ℕ, String, Bool, not, ◌&&◌, ◌||◌, Option, none, some, List, [], ◌==◌, is_blank, strip,
  if◌then◌else◌,
}
use feature_asset_inventory.Python.Errors.{Outcome, value, map_value}
use feature_asset_inventory.Networks.Vlans.{MerakiVlan}

-- An HTTP response: its status, whether `raise_for_status` lets it pass, and `resp.json()`, whose
-- `null` is nothing.
pub record Response (A : Type 0) : Type 0 where
  pub status_code : ℕ
  pub is_success : Bool
  pub json : Outcome (Option A)

pub record SingleLan : Type 0 where
  pub subnet : Option String
  pub appliance_ip : Option String

-- The two settings, and what `_meraki_get` returns for a network: nothing where it raises.
pub record Remote : Type 0 where
  pub meraki_api_key : String
  pub meraki_org_id : String
  pub get_vlans : String → Option (Response (List MerakiVlan))
  pub get_single_lan : String → Option (Response SingleLan)

-- Whether `_meraki_headers_or_none` has headers.
unfoldable pub has_meraki_headers : Remote → Bool
has_meraki_headers remote =
    not (is_blank (strip remote.meraki_api_key)) && not (is_blank (strip remote.meraki_org_id))

-- A call that raises, and an answer with an error status, count as an answer with nothing; an answer
-- that is no JSON raises.
unfoldable pub body_or_nothing : {A : Type 0} → Option (Response A) → Outcome (Option A)
body_or_nothing none = value none
body_or_nothing (some resp) =
    if resp.status_code == 400 || resp.status_code == 404
    then value none
    else if resp.is_success
    then resp.json
    else value none

-- `resp.json() or []`
abbrev pub or_no_vlans : Option (List MerakiVlan) → List MerakiVlan
or_no_vlans none = []
or_no_vlans (some vlans) = vlans

unfoldable pub get_meraki_appliance_vlans : Remote → String → Outcome (List MerakiVlan)
get_meraki_appliance_vlans remote network_id =
    if has_meraki_headers remote
    then map_value or_no_vlans (body_or_nothing (remote.get_vlans network_id))
    else value []

unfoldable pub get_meraki_appliance_single_lan : Remote → String → Outcome (Option SingleLan)
get_meraki_appliance_single_lan remote network_id =
    if has_meraki_headers remote
    then body_or_nothing (remote.get_single_lan network_id)
    else value none
