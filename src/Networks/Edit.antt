-- ===== src/Networks/Edit.antt =====
-- `update_network` of app/services/network_service.py. A field that is left out stands as `none`.
use feature_asset_inventory.Base.{ℕ, String, Option, none, some}
use feature_asset_inventory.Store.Table.{get_row, put_row}
use feature_asset_inventory.Store.Rows.{Network, network_row}
use feature_asset_inventory.Store.Session.{Action, pure, modify, commit, ◌>>◌}
use feature_asset_inventory.Networks.Vlans.{text_or_none}

abbrev pub given {ℓ} : {A : Type ℓ} → Option A → A → A
given none old = old
given (some new) old = new

-- `name_override or None`, where it is given
abbrev pub given_text : Option (Option String) → Option String → Option String
given_text none old = old
given_text (some new) old = text_or_none new

module _ (name_override : Option (Option String)) (location_id : Option (Option ℕ))
    (notes : Option (Option String)) (actor_upn : Option String) where
  abbrev pub edited_network : Network → Network
  edited_network row = record row {
    name_override = given_text name_override row.name_override;
    location_id = given location_id row.location_id;
    notes = given_text notes row.notes;
    updated_by_upn = actor_upn;
  }

  abbrev pub edit_found : Option Network → Action (Option Network)
  edit_found none = pure none
  edit_found (some row) =
      modify (λ db. record db { networks = put_row (edited_network row) db.networks })
      >> commit
      >> pure (some (edited_network row))

  unfoldable pub update_network : ℕ → Action (Option Network)
  update_network network_id s = edit_found (get_row network_id s.work.networks) s
