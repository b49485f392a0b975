-- ===== src/Tests/Paging.antt =====
-- Two pages, and a page that links to itself.
use feature_asset_inventory.Base.{
  ℕ, ◌≤◌, String, ◌≡◌, refl, some, List, [], ◌∷◌, length, str_eq, if◌then◌else◌,
}
use feature_asset_inventory.Python.Errors.{Outcome, value, raises, value_error}
use feature_asset_inventory.Python.Json.{Json, text, object, empty, field}
use feature_asset_inventory.Paging.{loop, paginate}
use feature_asset_inventory.Paging.Pages.{
  Chain, ended, page, Collected, paginate-Collected, length-paginate,
}

abbrev page_to : String → Json
page_to url = object (field "@odata.nextLink" (text url) empty)

abbrev two_pages : Json → Outcome Json
two_pages (text url) = if str_eq url "a" then value (page_to "b") else value (object empty)
two_pages _ = raises value_error

abbrev circle : Json → Outcome Json
circle url = value (page_to "a")

abbrev seven : Json → Outcome (List ℕ)
seven payload = value (7 ∷ [])

two-pages : Chain two_pages seven (some (text "a")) (7 ∷ 7 ∷ []) 2
two-pages = page refl refl refl (page refl refl refl ended)

paginate-Collected_example :
    Collected two_pages seven 200 2 (7 ∷ 7 ∷ []) (paginate two_pages seven "a" 200).1
paginate-Collected_example = paginate-Collected two_pages seven "a" 200 2 (7 ∷ 7 ∷ []) two-pages

length-paginate_example : length (paginate circle seven "a" 3).0 ≤ 4
length-paginate_example = length-paginate circle seven "a" 3

circle-stops : (paginate circle seven "a" 3).1 ≡ value (7 ∷ 7 ∷ 7 ∷ [])
unfolding paginate loop
circle-stops = refl
