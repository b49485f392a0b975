-- ===== src/Deployments/Reserve.antt =====
-- Which deployment holds which asset, and what the availability check of the deployment service
-- finds and changes.
use feature_asset_inventory.Base.{
  ℕ, String, ◌≡◌, refl, ◌||◌, ◌&&◌, inl, inr, Bool, true, false, Option, none, some, List, [], ◌∷◌,
  arith, ◌==◌, mem, Option-cases,
}
use feature_asset_inventory.Base.Http.{ok, Result-cases}
use feature_asset_inventory.Store.{Store}
use feature_asset_inventory.Store.Table.{Database, get_row, ids, id_of-get_row}
use feature_asset_inventory.Store.Rows.{
  DeploymentItem, asset_row, deployment_row, deployment_item_row,
}
use feature_asset_inventory.Store.Session.{Session}
use feature_asset_inventory.Reservation.{
  by_deployment, on_deployment, not_excluded, active_deployment_for_asset,
}
use feature_asset_inventory.Reservation.Reserve.{holds, IsReserved, lists-append, first-none_free}
use feature_asset_inventory.Deployments.Check.{assert_asset_available_for_deployment}
use feature_asset_inventory.Deployments.Create.{
  check_items, add_deployment_item, add_deployment_items,
}

-- The deployment `i` is active and has the asset `a`.
abbrev pub deploy_holds : Store → ℕ → ℕ → Bool
deploy_holds db = holds by_deployment db.deployments db.deployment_items

-- Every item belongs to a deployment that is there, and no asset is on two active deployments.
abbrev pub DeploymentsReserved : Store → Type 0
DeploymentsReserved db = IsReserved by_deployment db.deployments db.deployment_items

-- What the reservation query tells when it finds nothing.
pub active_deployment-none :
    (db : Store) (a : ℕ) (exclude : Option ℕ)
    → active_deployment_for_asset db a exclude ≡ none
    → (j : ℕ) → deploy_holds db j a ≡ true
    → not_excluded j exclude ≡ false
unfolding active_deployment_for_asset
active_deployment-none db a exclude h j held = elim (Option-cases (get_row j db.deployments)) [
  | inl e ↦ absurd (unfold holds in cc)
  | inr (s, e) ↦ ground (
    arith,
    id_of-get_row j db.deployments e,
    first-none_free by_deployment a (λ s. not_excluded s.id exclude) db.deployments
        db.deployment_items h j e held,
  )
]

-- Without `force` the check changes nothing.
pub check_unforced-unchanged :
    (a k : ℕ) (s : Session) → (assert_asset_available_for_deployment a (some k) false s).1 ≡ s
unfolding assert_asset_available_for_deployment
check_unforced-unchanged a k s = ground arith

-- It passes only where no other active deployment has the asset.
pub check_unforced-free :
    (a k : ℕ) (s : Session) (r : Option ℕ)
    → (assert_asset_available_for_deployment a (some k) false s).0 ≡ ok r
    → active_deployment_for_asset s.work a (some k) ≡ none
unfolding assert_asset_available_for_deployment
check_unforced-free a k s r h = ground arith

pub check_items-unchanged : (k : ℕ) (aids : List ℕ) (s : Session) → (check_items k aids s).1 ≡ s
unfolding check_items
check_items-unchanged k [] s = refl
check_items-unchanged k (b ∷ aids) s = ground (
  arith,
  check_unforced-unchanged b k s,
  check_items-unchanged k aids (assert_asset_available_for_deployment b (some k) false s).1,
)

pub check_items-free :
    (k : ℕ) (aids : List ℕ) (s : Session) (a : ℕ)
    → (check_items k aids s).0 ≡ ok tt
    → mem a aids ≡ true
    → active_deployment_for_asset s.work a (some k) ≡ none
unfolding check_items mem
check_items-free k [] s a h m = cc
check_items-free k (b ∷ aids) s a h m =
    elim (Result-cases (assert_asset_available_for_deployment b (some k) false s).0) [
      | inr (e, f) ↦ ground arith
      | inl (r, f) ↦ ground (
        arith,
        check_unforced-unchanged b k s,
        check_unforced-free b k s r f,
        check_items-free k aids (assert_asset_available_for_deployment b (some k) false s).1 a,
      )
    ]

module _ (d : Database) where
  pub on_deployment-add_item :
      (k b : ℕ) (role notes : Option String) (items : List DeploymentItem) (i a : ℕ)
      → on_deployment (add_deployment_item d k b role notes items) i a
        ≡ (on_deployment items i a || (k == i && b == a))
  unfolding add_deployment_item
  on_deployment-add_item k b role notes items i a =
      lists-append by_deployment
        (record {
          id = d.fresh (ids items);
          deployment_id = k;
          asset_id = b;
          role = role;
          notes = notes;
        })
        i a items

  pub on_deployment-add_items :
      (k : ℕ) (aids : List ℕ) (items : List DeploymentItem) (i a : ℕ)
      → on_deployment (add_deployment_items d k aids items) i a
        ≡ (on_deployment items i a || (k == i && mem a aids))
  unfolding add_deployment_items mem
  on_deployment-add_items k [] items i a = ground arith
  on_deployment-add_items k (b ∷ aids) items i a = ground (
    arith,
    on_deployment-add_items k aids (add_deployment_item d k b none none items) i a,
    on_deployment-add_item k b none none items i a,
  )
