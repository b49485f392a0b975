-- ===== src/Reservation/AutoAssign/Pick.antt =====
-- Auto-assign picks the oldest assets that qualify, and no more than were asked for.
use mathlib.Core.List.{Perm}
use mathlib.Core.List.Perm
use feature_asset_inventory.Base.{
  ℕ, zero, suc, ◌≤◌, ◌≡◌, refl, inl, inr, Bool, true, ◌&&◌, List, [], ◌∷◌, ◌++◌, arith, ◌==◌, leb,
  length, take, select, length-take, ==_iff, Bool-cases,
}
use feature_asset_inventory.Store.Rows.{Asset}
use feature_asset_inventory.Reservation.AutoAssign.{
  AutoAssign, matches, insert_by_age, order_by_onboarded_at, pick_assets,
}

abbrev pub All {ℓ κ} : {A : Type ℓ} → (A → Type κ) → List A → Type κ
All P [] = Unit
All P (x ∷ xs) = P x × All P xs

abbrev drop {ℓ} : {A : Type ℓ} → ℕ → List A → List A
drop zero xs = xs
drop (suc n) [] = []
drop (suc n) (x ∷ xs) = drop n xs

abbrev pub NotBefore : ℕ → List Asset → Type 0
NotBefore t = All (λ a. t ≤ a.onboarded_at)

abbrev Ordered : List Asset → Type 0
Ordered [] = Unit
Ordered (a ∷ as') = NotBefore a.onboarded_at as' × Ordered as'

NotBefore-weaken : (s t : ℕ) (xs : List Asset) → s ≤ t → NotBefore t xs → NotBefore s xs
NotBefore-weaken s t [] h n = tt
NotBefore-weaken s t (x ∷ xs) h n = (omega arith, NotBefore-weaken s t xs h n.1)

NotBefore-insert :
    (t : ℕ) (a : Asset) (xs : List Asset)
    → t ≤ a.onboarded_at
    → NotBefore t xs
    → NotBefore t (insert_by_age a xs)
unfolding insert_by_age
NotBefore-insert t a [] h n = (h, tt)
NotBefore-insert t a (x ∷ xs) h n = elim (Bool-cases (leb a.onboarded_at x.onboarded_at)) [
  | inl e ↦ rw e (h, n)
  | inr e ↦ rw e (n.0, NotBefore-insert t a xs h n.1)
]

insert-Ordered : (a : Asset) (xs : List Asset) → Ordered xs → Ordered (insert_by_age a xs)
unfolding insert_by_age
insert-Ordered a [] o = (tt, tt)
insert-Ordered a (x ∷ xs) o = elim (Bool-cases (leb a.onboarded_at x.onboarded_at)) [
  | inl e ↦
      rw e ((ground arith, NotBefore-weaken a.onboarded_at x.onboarded_at xs (ground arith) o.0), o)
  | inr e ↦ rw e (NotBefore-insert x.onboarded_at a xs (ground arith) o.0, insert-Ordered a xs o.1)
]

insert-perm : (a : Asset) (xs : List Asset) → Perm (insert_by_age a xs) (a ∷ xs)
unfolding insert_by_age
insert-perm a [] = Perm.refl _
insert-perm a (x ∷ xs) = elim (Bool-cases (leb a.onboarded_at x.onboarded_at)) [
  | inl e ↦ rw e (Perm.refl _)
  | inr e ↦ rw e (Perm.trans (Perm.cons x (insert-perm a xs)) (Perm.swap a x xs))
]

order-Ordered : (xs : List Asset) → Ordered (order_by_onboarded_at xs)
unfolding order_by_onboarded_at
order-Ordered [] = tt
order-Ordered (x ∷ xs) = insert-Ordered x (order_by_onboarded_at xs) (order-Ordered xs)

order-perm : (xs : List Asset) → Perm (order_by_onboarded_at xs) xs
unfolding order_by_onboarded_at
order-perm [] = Perm.refl []
order-perm (x ∷ xs) =
    Perm.trans (insert-perm x (order_by_onboarded_at xs)) (Perm.cons x (order-perm xs))

take-append-drop : (n : ℕ) (xs : List Asset) → take n xs ++ drop n xs ≡ xs
take-append-drop zero xs = refl
take-append-drop (suc n) [] = refl
take-append-drop (suc n) (x ∷ xs) = rw (take-append-drop n xs)

NotBefore-drop : (n t : ℕ) (xs : List Asset) → NotBefore t xs → NotBefore t (drop n xs)
NotBefore-drop zero t xs h = h
NotBefore-drop (suc n) t [] h = tt
NotBefore-drop (suc n) t (x ∷ xs) h = NotBefore-drop n t xs h.1

take_oldest :
    (n : ℕ) (xs : List Asset)
    → Ordered xs
    → All (λ a. NotBefore a.onboarded_at (drop n xs)) (take n xs)
take_oldest zero xs o = tt
take_oldest (suc n) [] o = tt
take_oldest (suc n) (x ∷ xs) o = (NotBefore-drop n x.onboarded_at xs o.0, take_oldest n xs o.1)

-- The assets that qualify for a request.
abbrev pub qualified : (Asset → Bool) → List Asset → AutoAssign → List Asset
qualified passes assets req = select (λ a. matches req a && passes a) assets

All-pass : (p : Asset → Bool) (xs : List Asset) → All (λ a. p a ≡ true) (select p xs)
unfolding select
All-pass p [] = tt
All-pass p (x ∷ xs) = elim (Bool-cases (p x)) [
  | inl e ↦ rw e (e, All-pass p xs)
  | inr e ↦ rw e (All-pass p xs)
]

module _ (passes : Asset → Bool) (assets : List Asset) (req : AutoAssign) where
  -- What a pick leaves over.
  abbrev left_over : List Asset
  left_over = drop req.quantity (order_by_onboarded_at (qualified passes assets req))

  pub pick_assets-eq-take :
      pick_assets passes assets req
      ≡ take req.quantity (order_by_onboarded_at (qualified passes assets req))
  unfolding pick_assets
  pick_assets-eq-take = elim (Bool-cases (req.quantity == 0)) [
    | inl none_wanted ↦ rw ((==_iff req.quantity 0).0 none_wanted)
    | inr some_wanted ↦ rw some_wanted
  ]

  -- The picked assets and some rest are together the assets that qualify, in another order; none of
  -- the rest was onboarded before a picked one, and no more are picked than were asked for.
  pub pick_assets_oldest :
      (rest : List Asset) × Perm
        (pick_assets passes assets req ++ rest)
        (qualified passes assets req)
      × All (λ a. NotBefore a.onboarded_at rest) (pick_assets passes assets req)
      × (length (pick_assets passes assets req) ≤ req.quantity)
  pick_assets_oldest =
      let ordered : List Asset = order_by_onboarded_at (qualified passes assets req) in
      rw pick_assets-eq-take (
        left_over,
        rw (take-append-drop req.quantity ordered) (order-perm (qualified passes assets req)),
        take_oldest req.quantity ordered (order-Ordered (qualified passes assets req)),
        length-take req.quantity ordered,
      )
