-- ===== src/Reservation/AutoAssign/Repeat.antt =====
-- Two requests for the same kind of asset see the same stock: nothing is reserved between them.
use feature_asset_inventory.Base.{
  ℕ, zero, suc, ◌≤◌, ◌≡◌, refl, inl, inr, Bool, true, ◌||◌, ◌&&◌, List, [], ◌∷◌, ◌++◌, map, arith,
  length, mem, any, take, select, ◌==◌, Bool-cases,
}
use mathlib.Core.List.{append-nil}
use feature_asset_inventory.Base.Http.{ok}
use feature_asset_inventory.Store.Rows.{Asset}
use feature_asset_inventory.Reservation.AutoAssign.{
  AutoAssign, pick_assets, clean_request, auto_assign_ids, dedupe_from, dedupe, matches,
  insert_by_age, order_by_onboarded_at,
}
use feature_asset_inventory.Reservation.AutoAssign.Pick.{
  qualified, pick_assets-eq-take, pick_assets_oldest,
}

-- Every id of the list is in one of the two others.
abbrev Covered : List ℕ → List ℕ → List ℕ → Type 0
Covered ys xs seen = (k : ℕ) → mem k ys ≡ true → (mem k xs || mem k seen) ≡ true

length-dedupe-Covered :
    (seen xs ys : List ℕ) → Covered ys xs seen → length (dedupe_from seen (xs ++ ys)) ≤ length xs
unfolding dedupe_from mem
length-dedupe-Covered seen [] [] h = omega arith
length-dedupe-Covered seen [] (y ∷ ys) h =
    rw (h y (ground arith)) (length-dedupe-Covered seen [] ys (λ k m. h k (ground arith)))
length-dedupe-Covered seen (x ∷ xs) ys h = elim (Bool-cases (mem x seen)) [
  | inl e ↦ rw e (omega (arith, length-dedupe-Covered seen xs ys (λ k m. ground (arith, h k m))))
  | inr e ↦
      rw e (omega (arith, length-dedupe-Covered (x ∷ seen) xs ys (λ k m. ground (arith, h k m))))
]

pub length-dedupe-twice : (xs : List ℕ) → length (dedupe (xs ++ xs)) ≤ length xs
unfolding dedupe mem
length-dedupe-twice xs = length-dedupe-Covered [] xs xs (λ k m. ground arith)

length-map_ids : (xs : List Asset) → length (map (λ a. a.id) xs) ≡ length xs
length-map_ids [] = refl
length-map_ids (x ∷ xs) = omega (arith, length-map_ids xs)

any-take : (q : Asset → Bool) (n : ℕ) (xs : List Asset) → any q (take n xs) ≡ true → any q xs ≡ true
unfolding any
any-take q zero xs h = absurd (cc)
any-take q (suc n) [] h = h
any-take q (suc n) (x ∷ xs) h = ground (arith, any-take q n xs)

any-insert_by_age :
    (q : Asset → Bool) (a : Asset) (xs : List Asset)
    → any q (insert_by_age a xs) ≡ (q a || any q xs)
unfolding any insert_by_age
any-insert_by_age q a [] = refl
any-insert_by_age q a (x ∷ xs) = ground (arith, any-insert_by_age q a xs)

any-order_by_onboarded_at :
    (q : Asset → Bool) (xs : List Asset) → any q (order_by_onboarded_at xs) ≡ any q xs
unfolding any order_by_onboarded_at
any-order_by_onboarded_at q [] = refl
any-order_by_onboarded_at q (x ∷ xs) =
    ground (arith, any-insert_by_age q x (order_by_onboarded_at xs), any-order_by_onboarded_at q xs)

any-select_both :
    (m p q : Asset → Bool) (xs : List Asset)
    → any q (select (λ a. m a && p a) xs) ≡ true
    → any (λ a. p a && q a) xs ≡ true
unfolding any select
any-select_both m p q [] h = h
any-select_both m p q (x ∷ xs) h = ground (arith, any-select_both m p q xs)

mem-map_ids : (k : ℕ) (xs : List Asset) → mem k (map (λ a. a.id) xs) ≡ any (λ a. k == a.id) xs
unfolding any mem
mem-map_ids k [] = refl
mem-map_ids k (x ∷ xs) = ground (arith, mem-map_ids k xs)

module _ (passes : Asset → Bool) (assets : List Asset) (req : AutoAssign) where
  -- The ids that one request yields.
  abbrev pub once : List ℕ
  once = map (λ a. a.id) (pick_assets passes assets (clean_request req))

  -- A picked asset is one of the assets, and passes.
  pub once-passes : (k : ℕ) → mem k once ≡ true → any (λ a. passes a && k == a.id) assets ≡ true
  once-passes k m =
      let wanted = clean_request req in
      let ordered = order_by_onboarded_at (qualified passes assets wanted) in
      let taken : any (λ a. k == a.id) (take wanted.quantity ordered) ≡ true = cc (
        m,
        mem-map_ids k (pick_assets passes assets wanted),
        pick_assets-eq-take passes assets wanted,
      ) in
      any-select_both (matches wanted) passes (λ a. k == a.id) assets
        (ground (
          arith,
          any-take (λ a. k == a.id) wanted.quantity ordered taken,
          any-order_by_onboarded_at (λ a. k == a.id) (qualified passes assets wanted),
        ))

  pub length-once : length once ≤ req.quantity
  unfolding clean_request
  length-once = omega (
    arith,
    length-map_ids (pick_assets passes assets (clean_request req)),
    (pick_assets_oldest passes assets (clean_request req)).3,
  )

  -- Stock for one request is enough for two.
  pub auto_assign_ids-twice :
      req.quantity ≤ length once
      → auto_assign_ids (pick_assets passes assets) (req ∷ req ∷ []) ≡ ok (once ++ once)
  unfolding auto_assign_ids
  auto_assign_ids-twice h =
      ground
        (arith, append-nil once, length-map_ids (pick_assets passes assets (clean_request req)))
