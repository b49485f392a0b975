-- ===== src/Tests/Cache.antt =====
-- The cache over a sequence of requests, with a read before and after the time of an entry.
use feature_asset_inventory.Base.{
  String, ◌≡◌, refl, Option, none, some, List, [], ◌∷◌, arith, lookup, insert, delete,
}
use feature_asset_inventory.Cache.{get, set, drop_key}
use feature_asset_inventory.Cache.Refines.{
  Requests, read, write, remove, serve, replies, serve-refines,
}

abbrev requests : Requests String
requests =
    (1, write "k" "v" (some 5))
    ∷ (4, read "k")
    ∷ (9, read "k")
    ∷ (10, write "k" "w" none)
    ∷ (90, read "k")
    ∷ (91, remove "k")
    ∷ (92, read "k")
    ∷ []

abbrev answers : List (Option String)
answers = some "v" ∷ none ∷ some "w" ∷ none ∷ []

serve-requests : serve [] requests ≡ answers
unfolding serve get set drop_key lookup insert delete
serve-requests = refl

serve-refines_example : serve [] requests ≡ replies (λ key. none) requests
serve-refines_example = serve-refines requests (
  omega arith,
  (omega arith, (omega arith, (omega arith, (omega arith, (omega arith, (omega arith, tt)))))),
)
