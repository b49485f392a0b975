-- ===== src/Networks/Active.antt =====
-- Which networks are active after a sync, and what a failed call costs.
use feature_asset_inventory.Base.{
  ℕ, String, ◌≡◌, refl, inl, inr, Bool, true, false, not, ◌&&◌, ◌||◌, Option, none, some, List, [],
  ◌∷◌, arith, ◌==◌, is_blank, is_none, is_empty, str_eq, eq_iff, first, first-passes, any,
  any-append, member, Bool-cases,
}
use feature_asset_inventory.Store.{Store}
use feature_asset_inventory.Store.Table.{
  Database, get_row, put_row, ids, IsKeyed, put_row-IsKeyed, insert-IsKeyed, get_row-first,
  get_row_new,
}
use feature_asset_inventory.Store.Rows.{Network, network_row}
use feature_asset_inventory.Networks.Sync.{
  MerakiNetwork, meraki_id, Answers, Codec, no_counts, NetworkSyncResult, Progress, facts_of,
  new_network, renewed, write_network, has_meraki_id, sync_one, sync_all,
}
use feature_asset_inventory.Networks.Addresses.{Parser}
use feature_asset_inventory.Networks.Relink.{link-networks}
use feature_asset_inventory.Networks.Run.{
  seen_ids, archive_gone, synced, stored, has_unique_vlans, sync_from_meraki,
}

abbrev pub is_active : String → Network → Bool
is_active mid r = has_meraki_id mid r && is_none r.archived_at

-- There is an active network with the Meraki id.
abbrev pub has_active : String → List Network → Bool
has_active mid rows = any (is_active mid) rows

has_active-archive :
    (now : ℕ) (seen : List String) (mid : String) (rows : List Network)
    → has_active mid (archive_gone now seen rows) ≡ (member mid seen && has_active mid rows)
unfolding any archive_gone
has_active-archive now seen mid [] = ground arith
has_active-archive now seen mid (r ∷ rs) =
    ground (arith, eq_iff r.meraki_network_id mid, has_active-archive now seen mid rs)

put_row-absent :
    (e : Network) (rows : List Network) → get_row e.id rows ≡ none → put_row e rows ≡ rows
unfolding get_row put_row
put_row-absent e [] h = refl
put_row-absent e (x ∷ xs) h = ground (arith, put_row-absent e xs)

has_active-put :
    (mid : String) (e e' : Network) (rows : List Network)
    → e'.id ≡ e.id
    → e'.meraki_network_id ≡ e.meraki_network_id
    → is_none e'.archived_at ≡ true
    → IsKeyed rows
    → get_row e.id rows ≡ some e
    → has_active mid (put_row e' rows) ≡ (str_eq e.meraki_network_id mid || has_active mid rows)
unfolding any get_row put_row
has_active-put mid e e' [] i m a k h = absurd (cc)
has_active-put mid e e' (x ∷ xs) i m a k h = elim (Bool-cases (e.id == x.id)) [
  | inl t ↦
      let same : x ≡ e = ground arith in
      let absent : get_row e'.id xs ≡ none = ground arith in
      let kept : put_row e' xs ≡ xs = put_row-absent e' xs absent in
      let here : (e'.id == x.id) ≡ true = ground arith in
      rw (here, kept, m) (rw (a, same) (ground arith))
  | inr t ↦
      let elsewhere : (e'.id == x.id) ≡ false = ground arith in
      rw elsewhere (ground (arith, has_active-put mid e e' xs i m a k.1))
]

abbrev lists_id : String → MerakiNetwork → Bool
lists_id mid n = not (is_blank (meraki_id n)) && str_eq mid (meraki_id n)

module _ (d : Database) (codec : Codec) (now : ℕ) (actor_upn : Option String)
    (answers : Answers) where
  abbrev written : MerakiNetwork → Option Network → Progress → List Network
  written n o p = (write_network d codec now actor_upn answers n o p).networks

  abbrev added : MerakiNetwork → Progress → Network
  added n p =
      new_network d codec now actor_upn answers (meraki_id n)
        (facts_of d codec now actor_upn answers n) p.networks

  abbrev brought_up : MerakiNetwork → Network → Network
  brought_up n e =
      renewed d codec now actor_upn answers (facts_of d codec now actor_upn answers n) e

  added_is_new : (n : MerakiNetwork) (p : Progress) → get_row (added n p).id p.networks ≡ none
  added_is_new n p = get_row_new (added n p).id p.networks (d.fresh_is_new (ids p.networks))

  write-IsKeyed :
      (n : MerakiNetwork) (p : Progress)
      → IsKeyed p.networks
      → (o : Option Network) → IsKeyed (written n o p)
  write-IsKeyed n p k none = insert-IsKeyed (added n p) p.networks (added_is_new n p) k
  write-IsKeyed n p k (some e) = put_row-IsKeyed (brought_up n e) p.networks k

  write-has_active :
      (mid : String) (n : MerakiNetwork) (p : Progress)
      → IsKeyed p.networks
      → (o : Option Network) → first (has_meraki_id (meraki_id n)) p.networks ≡ o
      → has_active mid (written n o p) ≡ (str_eq mid (meraki_id n) || has_active mid p.networks)
  unfolding any
  write-has_active mid n p k none h = ground (
    arith,
    any-append (is_active mid) p.networks (added n p ∷ []),
    eq_iff mid (meraki_id n),
    eq_iff (meraki_id n) mid,
  )
  write-has_active mid n p k (some e) h = ground (
    arith,
    has_active-put mid e (brought_up n e) p.networks refl refl refl k
        (get_row-first (has_meraki_id (meraki_id n)) p.networks k h),
    first-passes (has_meraki_id (meraki_id n)) p.networks h,
    eq_iff e.meraki_network_id (meraki_id n),
    eq_iff mid (meraki_id n),
    eq_iff e.meraki_network_id mid,
  )

  abbrev after_one : MerakiNetwork → Progress → Progress
  after_one n p = sync_one d codec now actor_upn answers n p

  sync_one-IsKeyed :
      (n : MerakiNetwork) (p : Progress) → IsKeyed p.networks → IsKeyed (after_one n p).networks
  unfolding sync_one
  sync_one-IsKeyed n p k = elim (Bool-cases (is_blank (meraki_id n))) [
    | inl b ↦ rw b k
    | inr b ↦ rw b (write-IsKeyed n p k (first (has_meraki_id (meraki_id n)) p.networks))
  ]

  sync_one-has_active :
      (mid : String) (n : MerakiNetwork) (p : Progress)
      → IsKeyed p.networks
      → has_active mid (after_one n p).networks ≡ (lists_id mid n || has_active mid p.networks)
  unfolding sync_one
  sync_one-has_active mid n p k = elim (Bool-cases (is_blank (meraki_id n))) [
    | inl b ↦ rw b refl
    | inr b ↦
        rw b (write-has_active mid n p k (first (has_meraki_id (meraki_id n)) p.networks) refl)
  ]

  sync_all-has_active :
      (mid : String) (ns : List MerakiNetwork) (p : Progress)
      → IsKeyed p.networks
      → has_active mid (sync_all d codec now actor_upn answers ns p).networks
        ≡ (member mid (seen_ids ns) || has_active mid p.networks)
  unfolding sync_all seen_ids member
  sync_all-has_active mid [] p k = refl
  sync_all-has_active mid (n ∷ ns) p k = ground (
    arith,
    sync_all-has_active mid ns (after_one n p) (sync_one-IsKeyed n p k),
    sync_one-has_active mid n p k,
  )

  abbrev start : Store → Progress
  start db = record { networks = db.networks; network_vlans = db.network_vlans; counts = no_counts }

  synced-has_active :
      (db : Store) (mid : String)
      → IsKeyed db.networks
      → has_active mid (synced d codec now actor_upn answers db).networks
        ≡ member mid (seen_ids answers.network_records)
  unfolding synced
  synced-has_active db mid k =
      let ns = answers.network_records in
      ground (
        arith,
        has_active-archive now (seen_ids ns) mid
            (sync_all d codec now actor_upn answers ns (start db)).networks,
        sync_all-has_active mid ns (start db) k,
      )

  -- Let the networks have distinct keys, and let a sync return, when Meraki lists at least one
  -- network. Then the networks that are active are, by their Meraki ids, exactly those that Meraki
  -- lists: new ones are added, archived ones come back, and the others are archived.
  pub sync_from_meraki-active :
      (parser : Parser) (db : Store) (r : NetworkSyncResult) (mid : String)
      → IsKeyed db.networks
      → is_empty answers.network_records ≡ false
      → (sync_from_meraki d parser codec now actor_upn answers db).0 ≡ some r
      → has_active mid (sync_from_meraki d parser codec now actor_upn answers db).1.networks
        ≡ member mid (seen_ids answers.network_records)
  unfolding sync_from_meraki
  sync_from_meraki-active parser db r mid k n e =
      elim (Bool-cases (has_unique_vlans (synced d codec now actor_upn answers db).network_vlans)) [
        | inl u ↦
            rw (n, u, sync_from_meraki)
              (rw (link-networks parser answers.devices (stored d codec now actor_upn answers db)).0
                (synced-has_active db mid k))
        | inr u ↦ absurd (ground arith)
      ]
