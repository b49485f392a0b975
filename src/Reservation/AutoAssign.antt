-- ===== src/Reservation/AutoAssign.antt =====
-- Auto-assign: the request for so many assets of a type, the query for the oldest that match, and
-- the removal of repeated ids.
pub mod Pick
pub mod Dedupe
pub mod Repeat
use feature_asset_inventory.Base.{
  ℕ, zero, suc, ◌≤◌, ◌<◌, String, ◌≡◌, refl, Bool, true, false, ◌&&◌, ◌||◌, not, Option, none, some,
  List, [], ◌∷◌, ◌++◌, map, arith, ◌==◌, ltb, leb, if◌then◌else◌, str_eq, opt_str_eq, is_blank,
  or_none, strip, length, take, select, mem, is_none,
}
use feature_asset_inventory.Base.Http.{
  Result, ok, err, raise_if, ◌>>=◌, ◌>>◌, conflict, short_of_stock,
}
use feature_asset_inventory.Store.{Store}
use feature_asset_inventory.Store.Rows.{Asset}

pub record AutoAssign : Type 0 where
  pub asset_type : String
  pub quantity : ℕ
  pub model : Option String
  pub manufacturer : Option String

-- `if wanted: stmt.where(column == wanted)`
abbrev pub wants : Option String → Option String → Bool
wants none column = true
wants (some w) column = is_blank w || opt_str_eq column (some w)

abbrev pub matches : AutoAssign → Asset → Bool
matches req a =
    str_eq a.asset_type req.asset_type
    && is_none a.archived_at
    && wants req.model a.model
    && wants req.manufacturer a.manufacturer

-- `ORDER BY onboarded_at ASC`
insert_by_age : Asset → List Asset → List Asset
insert_by_age a [] = a ∷ []
insert_by_age a (b ∷ bs) =
    let rest = insert_by_age a bs in
    if leb a.onboarded_at b.onboarded_at then a ∷ b ∷ bs else b ∷ rest

unfoldable pub order_by_onboarded_at : List Asset → List Asset
unfolding insert_by_age
order_by_onboarded_at [] = []
order_by_onboarded_at (a ∷ as') = insert_by_age a (order_by_onboarded_at as')

-- The oldest `quantity` assets that match and pass the service's own conditions.
unfoldable pub pick_assets : (Asset → Bool) → List Asset → AutoAssign → List Asset
unfolding order_by_onboarded_at
pick_assets passes assets req =
    if req.quantity == 0
    then []
    else take req.quantity (order_by_onboarded_at (select (λ a. matches req a && passes a) assets))

-- The fields of a request after `strip`.
abbrev pub clean : Option String → Option String
clean none = none
clean (some s) = or_none (strip s)

unfoldable pub clean_request : AutoAssign → AutoAssign
clean_request req = record req {
  asset_type = strip req.asset_type;
  model = clean req.model;
  manufacturer = clean req.manufacturer;
}

-- The loop over the requests: each adds the ids that it picked, and one that falls short raises.
unfoldable pub auto_assign_ids : (AutoAssign → List Asset) → List AutoAssign → Result (List ℕ)
auto_assign_ids pick [] = ok []
auto_assign_ids pick (req ∷ reqs) =
    let wanted = clean_request req in
    let picked = pick wanted in
    let rest = auto_assign_ids pick reqs in
    raise_if (ltb (length picked) req.quantity) (
      conflict (
        short_of_stock req.quantity wanted.asset_type wanted.model wanted.manufacturer
          (length picked)))
    >> (rest >>= λ more. ok (map (λ a. a.id) picked ++ more))

-- "Dedupe while preserving order"
dedupe_from : List ℕ → List ℕ → List ℕ
dedupe_from seen [] = []
dedupe_from seen (x ∷ xs) =
    let rest = dedupe_from (if mem x seen then seen else x ∷ seen) xs in
    if mem x seen then rest else x ∷ rest

unfoldable pub dedupe : List ℕ → List ℕ
unfolding dedupe_from
dedupe = dedupe_from []
