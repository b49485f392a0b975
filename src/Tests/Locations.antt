-- ===== src/Tests/Locations.antt =====
-- The theorems on a bulk change of location at a concrete input.
use feature_asset_inventory.Base.{ℕ, ◌≡◌, refl, none, List, [], ◌∷◌, length, mem, select}
use feature_asset_inventory.Base.Http.{ok}
use feature_asset_inventory.Store.Table.{get_row}
use feature_asset_inventory.Store.Rows.{asset_row}
use feature_asset_inventory.Store.Session.{after, reply}
use feature_asset_inventory.Reservation.AutoAssign.{dedupe}
use feature_asset_inventory.Inventory.Locations.{
  BulkResult, found_assets, set_one, set_all, bulk_set_location,
}
use feature_asset_inventory.Inventory.Locations.Rows.{bulk_set_location-counts}
use feature_asset_inventory.Tests.Data.{sqlite, shelf}

-- Two laptops leave the stock room, and the third id is unknown.
abbrev leaving : List ℕ
leaving = 2 ∷ 3 ∷ 9 ∷ []

abbrev two_left : BulkResult
two_left = record { updated = 2; unchanged = 0; skipped = 0; errors = 9 ∷ [] }

left_accepted : reply (bulk_set_location sqlite none none leaving) shelf ≡ ok two_left
unfolding bulk_set_location set_all set_one select mem dedupe get_row
left_accepted = refl

bulk_set_location-counts_example :
    (2 ≡ length (found_assets leaving shelf.assets))
    × (length (after (bulk_set_location sqlite none none leaving) shelf).asset_history ≡ 2)
bulk_set_location-counts_example =
    bulk_set_location-counts sqlite none none leaving shelf two_left left_accepted
