-- ===== src/Tests/Api.antt =====
-- A clerk, who may write, edits a shipment.
use feature_asset_inventory.Base.{
  String, ◌≡◌, ◌≢◌, refl, sym, ap, ◌∙◌, Option, none, some, List, [], ◌∷◌, any, member, sorted_set,
  strip, lower, prepend, split_at, stripped, has_char, lookup, insert,
}
use feature_asset_inventory.Store.{Store}
use feature_asset_inventory.Store.Types.{CarrierStatus}
use feature_asset_inventory.Store.Table.{get_row, put_row}
use feature_asset_inventory.Store.Rows.{Shipment, shipment_row}
use feature_asset_inventory.Python.Json.{text, array, nil, cons, Fields, empty, field}
use feature_asset_inventory.Tracking.Parse.{failed}
use feature_asset_inventory.Shipments.Header.{update_shipment, save_shipment}
use feature_asset_inventory.Auth.Settings.{
  effective_entra_audiences, effective_entra_issuers, effective_entra_jwks_url,
  normalized_auth_mode, parse_permission_map,
}
use feature_asset_inventory.Auth.Claims.{
  expand_permissions_from_values, normalize_roles, normalize_direct_permissions, extract_scopes,
  normalize_permissions,
}
use feature_asset_inventory.Auth.Context.{
  decoded, extract_bearer_token, build_context_from_claims, validate_entra_token,
  extract_entra_context, extract_auth_context,
}
use feature_asset_inventory.Auth.Guards.{
  require_authenticated_user, require_any_permission, require_auth, require_permissions,
}
use feature_asset_inventory.Api
use feature_asset_inventory.Api.Guarded.{Server, write_permissions}
use feature_asset_inventory.Api.Allowed.{Route, IsAllowed, handled, changed_by-IsAllowed}
use feature_asset_inventory.Tests.Data.{sqlite, shelf, parcel}
use feature_asset_inventory.Tests.Auth.{production, shown, headers}

abbrev clerk_claims : Fields
clerk_claims =
    field "iss" (text "issuer")
      (field "permissions" (array (cons (text "asset-inventory.write") nil)) empty)

abbrev server : Server
server = record {
  settings = production;
  decode = λ url audiences leeway token. decoded clerk_claims;
  show = shown;
  database = sqlite;
  fetch = λ carrier number. failed "";
  auto_refresh_minutes = 30;
}

abbrev one_parcel : Store
one_parcel = record shelf { shipments = parcel 1 CarrierStatus.pending ∷ [] }

abbrev edit : Route
edit = Route.update_shipment 1 (some "Box") none none

abbrev edited_parcel : Shipment
edited_parcel = record (parcel 1 CarrierStatus.pending) { description = some "Box" }

edit-parcel : (handled server headers 50 edit one_parcel).shipments ≡ edited_parcel ∷ []
unfolding Api.Shipments.update_shipment require_permissions require_auth require_authenticated_user
    require_any_permission extract_auth_context extract_entra_context validate_entra_token
    extract_bearer_token build_context_from_claims normalize_roles normalize_permissions
    normalize_direct_permissions extract_scopes expand_permissions_from_values parse_permission_map
    effective_entra_audiences effective_entra_issuers effective_entra_jwks_url normalized_auth_mode
    split_at stripped strip has_char insert lookup sorted_set lower prepend member any
    update_shipment save_shipment get_row put_row
edit-parcel = refl

abbrev descriptions : List Shipment → Option String
descriptions [] = none
descriptions (s ∷ ss) = s.description

box-none : ◌≢◌ {A = Option String} (some "Box") none
box-none h = absurd (cc)

edit-changes : handled server headers 50 edit one_parcel ≢ one_parcel
edit-changes e =
    absurd (box-none (sym (ap descriptions edit-parcel) ∙ ap (λ db. descriptions db.shipments) e))

changed_by-IsAllowed_example : IsAllowed server headers write_permissions
changed_by-IsAllowed_example = changed_by-IsAllowed server headers 50 edit one_parcel edit-changes
