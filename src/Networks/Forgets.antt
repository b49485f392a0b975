-- ===== src/Networks/Forgets.antt =====
-- Failed calls of Meraki cost a network its VLANs.
use feature_asset_inventory.Base.{
  ℕ, String, ◌≡◌, refl, inl, inr, false, Option, none, some, List, [], arith, ==-refl, is_blank,
  first, any, Bool-cases,
}
use feature_asset_inventory.Store.Table.{Database}
use feature_asset_inventory.Store.Rows.{Network, NetworkVlan}
use feature_asset_inventory.Python.Errors.{value}
use feature_asset_inventory.Networks.Vlans.{readable_vlans, upsert_vlans_for_network}
use feature_asset_inventory.Networks.Mirror.{
  find_fresh, find_vlan, upsert_vlans_for_network-mirrors,
}
use feature_asset_inventory.Networks.Meraki.{
  Response, get_meraki_appliance_vlans, get_meraki_appliance_single_lan, body_or_nothing,
  has_meraki_headers,
}
use feature_asset_inventory.Networks.Prefetch.{fetch_one}
use feature_asset_inventory.Networks.Sync.{
  MerakiNetwork, meraki_id, Answers, Codec, Progress, is_candidate, prefetched, has_meraki_id,
  sync_one,
}

-- A call that raises, or that is answered with an error status.
pub data HasFailed {A : Type 0} : Option (Response A) → Type 0 where
  unanswered : HasFailed none
  refused : (resp : Response A) → resp.is_success ≡ false → HasFailed (some resp)

failed-nothing :
    {A : Type 0} (resp : Option (Response A)) → HasFailed resp → body_or_nothing resp ≡ value none
unfolding body_or_nothing
failed-nothing none unanswered = refl
failed-nothing (some resp) (refused r h) = ground arith

module _ (d : Database) (codec : Codec) (now : ℕ) (actor_upn : Option String)
    (answers : Answers) where
  no_vlans :
      (mid : String)
      → HasFailed (answers.remote.get_vlans mid)
      → HasFailed (answers.remote.get_single_lan mid)
      → (prefetched d codec now actor_upn answers mid).vlans ≡ []
  unfolding prefetched fetch_one get_meraki_appliance_vlans get_meraki_appliance_single_lan
  no_vlans mid h k =
      let vlans = failed-nothing (answers.remote.get_vlans mid) h in
      let lan = failed-nothing (answers.remote.get_single_lan mid) k in
      elim (Bool-cases
        (any (is_candidate d codec now actor_upn answers mid) answers.network_records)) [
          | inr c ↦ rw c refl
          | inl c ↦ elim (Bool-cases (has_meraki_headers answers.remote)) [
            | inl e ↦ rw c (rw e (rw vlans (rw e (rw lan refl))))
            | inr e ↦ rw c (rw e (rw e refl))
          ]
        ]

  wiped :
      (n w : ℕ) (rows : List NetworkVlan)
      → find_vlan n w (upsert_vlans_for_network d n codec.int [] rows) ≡ none
  unfolding readable_vlans find_fresh
  wiped n w rows =
      ground (arith, upsert_vlans_for_network-mirrors d n codec.int [] rows n w tt, ==-refl n)

  -- If the calls for a network's VLANs and for its single LAN both fail, by an exception or an error
  -- status, while the database knows the network, the network has no VLAN left once its turn in the
  -- sync is over, whatever VLANs it had.
  pub sync_one-forgets :
      (n : MerakiNetwork) (known : Network) (p : Progress) (w : ℕ)
      → is_blank (meraki_id n) ≡ false
      → first (has_meraki_id (meraki_id n)) p.networks ≡ some known
      → HasFailed (answers.remote.get_vlans (meraki_id n))
      → HasFailed (answers.remote.get_single_lan (meraki_id n))
      → find_vlan known.id w (sync_one d codec now actor_upn answers n p).network_vlans ≡ none
  unfolding sync_one
  sync_one-forgets n known p w b f h k =
      rw (b, f, sync_one) (rw (no_vlans (meraki_id n) h k) (wiped known.id w p.network_vlans))
