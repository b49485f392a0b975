-- ===== src/Paging.antt =====
-- `paginate` of app/services/_graph_paging.py. A page is requested before the one ahead of it is
-- parsed; what a request comes to, its retries included, is a parameter.
pub mod Pages
use Prim.Native.String
use feature_asset_inventory.Base.{
  ℕ, zero, suc, String, Option, none, some, List, [], ◌∷◌, ◌++◌, if◌then◌else◌,
}
use feature_asset_inventory.Python.Errors.{Outcome, value, raises, ◌>>=◌, map_value}
use feature_asset_inventory.Python.Json.{Json, text, truthy, get}

-- `next_url`, or nothing where there is no further page.
abbrev pub link_of : Json → Option Json
link_of j = if truthy j then some j else none

abbrev pub next_link : Json → Outcome (Option Json)
next_link payload = map_value link_of (get "@odata.nextLink" payload)

-- The request that is sent for a further page.
abbrev pub fired : Option Json → List Json
fired none = []
fired (some url) = url ∷ []

module _ {T : Type 0} (fetch : Json → Outcome Json) (parse : Json → Outcome (List T)) where
  -- The requests that were sent, and the items or the exception.
  abbrev pub Run : Type 0
  Run = List Json × Outcome (List T)

  abbrev pub collect : List T → Run → Run
  collect found (requests, rest) = (requests, map_value (λ items. found ++ items) rest)

  abbrev pub send : List Json → Run → Run
  send requests (more, rest) = (requests ++ more, rest)

  abbrev pub parsed : Option Json → Outcome (List T) → Run → Run
  parsed next (raises e) rest = (fired next, raises e)
  parsed next (value found) rest = send (fired next) (collect found rest)

  -- The loop, for the pages that are left of `max_pages`.
  unfoldable pub loop : ℕ → Option Json → Run
  loop zero future = ([], value [])
  loop (suc pages) none = ([], value [])
  loop (suc pages) (some url) = elim (fetch url) [
    | raises e ↦ ([], raises e)
    | value payload ↦ elim (next_link payload) [
      | raises e ↦ ([], raises e)
      | value next ↦ parsed next (parse payload) (loop pages next)
    ]
  ]

  unfoldable pub paginate : String → ℕ → Run
  paginate first_url max_pages = send (text first_url ∷ []) (loop max_pages (some (text first_url)))
