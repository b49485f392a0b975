-- ===== src/Deployments/Release.antt =====
-- What moving an asset by `force` does: the planning deployment that has it gives it up, and then
-- no active deployment has it.
use feature_asset_inventory.Base.{
  ℕ, ◌≡◌, refl, ◌&&◌, not, inl, inr, Bool, true, false, Option, none, some, arith, ◌==◌, ==-refl,
  first-passes, first-none_fails, Option-cases,
}
use feature_asset_inventory.Base.Http.{ok}
use feature_asset_inventory.Store.{Store}
use feature_asset_inventory.Store.Types.{is_planning, is_in_progress}
use feature_asset_inventory.Store.Table.{get_row-first}
use feature_asset_inventory.Store.Rows.{Deployment, deployment_row, deployment_item_row}
use feature_asset_inventory.Store.Session.{Session}
use feature_asset_inventory.Reservation.{
  by_deployment, on_deployment, not_excluded, is_deployment_active, active_deployment_for_asset,
}
use feature_asset_inventory.Reservation.Reserve.{holds, IsReserved, lists-without, fewer-IsReserved}
use feature_asset_inventory.Deployments.Check.{
  other_planning, without_item, assert_asset_available_for_deployment,
}
use feature_asset_inventory.Deployments.Reserve.{
  deploy_holds, DeploymentsReserved, active_deployment-none,
}

module _ (db : Store) (a k : ℕ) where
  -- A deployment in planning that has the asset is found again by the search that releases it.
  pub planning_found :
      (other : Deployment)
      → active_deployment_for_asset db a (some k) ≡ some other
      → is_in_progress other.status ≡ false
      → ¬ (other_planning db a k ≡ none)
  unfolding active_deployment_for_asset other_planning
  planning_found other e waiting n = ground (
    arith,
    first-passes
        (λ (d : Deployment).
          on_deployment db.deployment_items d.id a
          && is_deployment_active d
          && not_excluded d.id (some k))
        db.deployments e,
    first-none_fails
        (λ (d : Deployment).
          on_deployment db.deployment_items d.id a
          && is_deployment_active d
          && not_excluded d.id (some k))
        (λ (d : Deployment).
          on_deployment db.deployment_items d.id a && not (d.id == k) && is_planning d.status)
        db.deployments e n,
  )

  module _ (v : DeploymentsReserved db) (o : Deployment) (e : other_planning db a k ≡ some o) where
    holder : deploy_holds db o.id a ≡ true
    unfolding other_planning holds
    holder = ground (
      arith,
      get_row-first
          (λ (d : Deployment).
            on_deployment db.deployment_items d.id a && not (d.id == k) && is_planning d.status)
          db.deployments v.keyed e,
      first-passes
          (λ (d : Deployment).
            on_deployment db.deployment_items d.id a && not (d.id == k) && is_planning d.status)
          db.deployments e,
    )

    -- Once the planning deployment has given the asset up, no deployment has it.
    pub released_free :
        (j : ℕ)
        → ¬ (
            holds by_deployment db.deployments (without_item o.id a db.deployment_items) j a ≡ true)
    unfolding holds without_item
    released_free j h = ground (
      arith,
      lists-without by_deployment o.id a j a db.deployment_items,
      v.exclusive j o.id a,
      holder,
      ==-refl a,
      ==-refl j,
    )

    pub release-IsReserved :
        IsReserved by_deployment db.deployments (without_item o.id a db.deployment_items)
    unfolding without_item
    release-IsReserved =
        fewer-IsReserved by_deployment db.deployments db.deployment_items _
          (λ i b h. ground (arith, lists-without by_deployment o.id a i b db.deployment_items)) v

-- What a passed check leaves: the same rows and saved state, the rule kept, and no other holder.
pub record Passed (a k : ℕ) (s t : Session) : Type 0 where
  pub saved : t.saved ≡ s.saved
  pub deployments : t.work.deployments ≡ s.work.deployments
  pub reserved : DeploymentsReserved t.work
  pub free : (j : ℕ) → deploy_holds t.work j a ≡ true → j ≡ k

module _ (a k : ℕ) (force : Bool) (s : Session) (r : Option ℕ) where
  check_unchanged :
      active_deployment_for_asset s.work a (some k) ≡ none
      → (assert_asset_available_for_deployment a (some k) force s).1 ≡ s
  unfolding assert_asset_available_for_deployment
  check_unchanged e = ground arith

  check_releases :
      (other o : Deployment)
      → active_deployment_for_asset s.work a (some k) ≡ some other
      → other_planning s.work a k ≡ some o
      → (assert_asset_available_for_deployment a (some k) force s).0 ≡ ok r
      → (assert_asset_available_for_deployment a (some k) force s).1 ≡ record s {
        work = record s.work { deployment_items = without_item o.id a s.work.deployment_items };
      }
  unfolding assert_asset_available_for_deployment
  check_releases other o e p h = ground arith

  check_waits :
      (other : Deployment)
      → active_deployment_for_asset s.work a (some k) ≡ some other
      → (assert_asset_available_for_deployment a (some k) force s).0 ≡ ok r
      → is_in_progress other.status ≡ false
  unfolding assert_asset_available_for_deployment
  check_waits other e h = ground arith

  -- Where the deployments keep the reservation rule, a check of an asset on behalf of the deployment
  -- `k` that passes, forced or not, saves nothing and changes no deployment's row, keeps the rule,
  -- and leaves no active deployment but `k` with the asset.
  pub check-Passed :
      DeploymentsReserved s.work
      → (assert_asset_available_for_deployment a (some k) force s).0 ≡ ok r
      → Passed a k s (assert_asset_available_for_deployment a (some k) force s).1
  check-Passed v h = elim (Option-cases (active_deployment_for_asset s.work a (some k))) [
    | inl e ↦ rw (check_unchanged e) (record {
      saved = refl;
      deployments = refl;
      reserved = v;
      free = λ j held. ground (arith, active_deployment-none s.work a (some k) e j held);
    })
    | inr (other, e) ↦ elim (Option-cases (other_planning s.work a k)) [
      | inl n ↦ absurd (planning_found s.work a k other e (check_waits other e h) n)
      | inr (o, p) ↦ rw (check_releases other o e p h) (record {
        saved = refl;
        deployments = refl;
        reserved = release-IsReserved s.work a k v o p;
        free = λ j held. absurd (released_free s.work a k v o p j held);
      })
    ]
  ]

-- The check commits nothing.
pub saved-check :
    (a : ℕ) (exclude : Option ℕ) (force : Bool) (s : Session)
    → (assert_asset_available_for_deployment a exclude force s).1.saved ≡ s.saved
unfolding assert_asset_available_for_deployment
saved-check a exclude force s = ground arith
