-- ===== src/Networks/Mirror.antt =====
-- The table of VLANs mirrors what Meraki lists for a network.
use feature_asset_inventory.Base.{
  ℕ, ◌≡◌, refl, inl, inr, not, ◌&&◌, Option, none, some, List, [], ◌∷◌, ◌++◌, arith, ◌==◌, is_some,
  if◌then◌else◌, mem, Bool-cases,
}
use feature_asset_inventory.Store.Table.{Database}
use feature_asset_inventory.Store.Rows.{NetworkVlan}
use feature_asset_inventory.Python.Errors.{Outcome}
use feature_asset_inventory.Python.Json.{Json}
use feature_asset_inventory.Networks.Vlans.{
  MerakiVlan, Columns, readable_vlans, is_vlan, known_vids, update_vlan, new_vlan, write_vlan,
  write_vlans, seen_vids, delete_unseen, upsert_vlans_for_network,
}

abbrev pub columns : NetworkVlan → Columns
columns r = record { name = r.name; subnet_cidr = r.subnet_cidr; appliance_ip = r.appliance_ip }

-- What Meraki lists under an id.
unfoldable pub find_fresh : ℕ → List (ℕ × Columns) → Option Columns
find_fresh w [] = none
find_fresh w ((vid, c) ∷ vs) = if vid == w then some c else find_fresh w vs

-- What the table has for a VLAN of a network.
unfoldable pub find_vlan : ℕ → ℕ → List NetworkVlan → Option Columns
find_vlan m w [] = none
find_vlan m w (r ∷ rs) = if is_vlan m w r then some (columns r) else find_vlan m w rs

-- No id is listed twice.
abbrev pub IsDistinct : List (ℕ × Columns) → Type 0
IsDistinct [] = Unit
IsDistinct ((vid, c) ∷ vs) = (find_fresh vid vs ≡ none) × IsDistinct vs

-- The first of two that there is.
abbrev pub or_other : Option Columns → Option Columns → Option Columns
or_other none b = b
or_other (some a) b = some a

find-append :
    (m w : ℕ) (rows : List NetworkVlan) (r : NetworkVlan)
    → find_vlan m w (rows ++ r ∷ [])
      ≡ or_other (find_vlan m w rows) (if is_vlan m w r then some (columns r) else none)
unfolding find_vlan
find-append m w [] r = refl
find-append m w (x ∷ xs) r = ground (arith, find-append m w xs r)

-- The columns of a row that is there are replaced.
abbrev replaced : Option Columns → Columns → Option Columns
replaced none c = none
replaced (some b) c = some c

find-update :
    (n m w vid : ℕ) (c : Columns) (rows : List NetworkVlan)
    → find_vlan m w (update_vlan n vid c rows)
      ≡ (if n == m && vid == w then replaced (find_vlan m w rows) c else find_vlan m w rows)
unfolding find_vlan update_vlan
find-update n m w vid c [] = ground arith
find-update n m w vid c (r ∷ rs) = ground (arith, find-update n m w vid c rs)

find-delete :
    (n m w : ℕ) (seen : List ℕ) (rows : List NetworkVlan)
    → find_vlan m w (delete_unseen n seen rows)
      ≡ (if n == m && not (mem w seen) then none else find_vlan m w rows)
unfolding find_vlan delete_unseen
find-delete n m w seen [] = ground arith
find-delete n m w seen (r ∷ rs) = ground (arith, find-delete n m w seen rs)

find-known :
    (n w : ℕ) (rows : List NetworkVlan) → mem w (known_vids n rows) ≡ is_some (find_vlan n w rows)
unfolding find_vlan known_vids mem
find-known n w [] = refl
find-known n w (r ∷ rs) = ground (arith, find-known n w rs)

mem-seen : (w : ℕ) (vs : List (ℕ × Columns)) → mem w (seen_vids vs) ≡ is_some (find_fresh w vs)
unfolding mem seen_vids find_fresh
mem-seen w [] = refl
mem-seen w ((vid, c) ∷ vs) = ground (arith, mem-seen w vs)

module _ (d : Database) (n : ℕ) (by_vid : List ℕ) where
  find-write :
      (m w vid : ℕ) (c : Columns) (rows : List NetworkVlan)
      → mem vid by_vid ≡ is_some (find_vlan n vid rows)
      → find_vlan m w (write_vlan d n by_vid vid c rows)
        ≡ (if n == m && vid == w then some c else find_vlan m w rows)
  unfolding write_vlan
  find-write m w vid c rows h = elim (Bool-cases (mem vid by_vid)) [
    | inl e ↦ ground (arith, find-update n m w vid c rows)
    | inr e ↦ ground (arith, find-append m w rows (new_vlan d n vid c rows))
  ]

  -- The ids still to come are in the table exactly if they were at first.
  abbrev AreKnown : List (ℕ × Columns) → List NetworkVlan → Type 0
  AreKnown [] rows = Unit
  AreKnown ((vid, c) ∷ vs) rows =
      (mem vid by_vid ≡ is_some (find_vlan n vid rows)) × AreKnown vs rows

  AreKnown-write :
      (vid : ℕ) (c : Columns) (rows : List NetworkVlan) (vs : List (ℕ × Columns))
      → mem vid by_vid ≡ is_some (find_vlan n vid rows)
      → find_fresh vid vs ≡ none
      → AreKnown vs rows
      → AreKnown vs (write_vlan d n by_vid vid c rows)
  unfolding find_fresh
  AreKnown-write vid c rows [] h f k = tt
  AreKnown-write vid c rows ((w, b) ∷ vs) h f k =
      ground (arith, find-write n w vid c rows h, AreKnown-write vid c rows vs h)

  find-writes :
      (m w : ℕ) (vs : List (ℕ × Columns)) (rows : List NetworkVlan)
      → IsDistinct vs
      → AreKnown vs rows
      → find_vlan m w (write_vlans d n by_vid vs rows)
        ≡ (if n == m then or_other (find_fresh w vs) (find_vlan m w rows) else find_vlan m w rows)
  unfolding write_vlans find_fresh
  find-writes m w [] rows u k = ground arith
  find-writes m w ((vid, c) ∷ vs) rows u k = ground (
    arith,
    find-writes m w vs (write_vlan d n by_vid vid c rows) u.1
        (AreKnown-write vid c rows vs k.0 u.0 k.1),
    find-write m w vid c rows k.0,
  )

known-AreKnown :
    (d : Database) (n : ℕ) (vs : List (ℕ × Columns)) (rows : List NetworkVlan)
    → AreKnown d n (known_vids n rows) vs rows
known-AreKnown d n [] rows = tt
known-AreKnown d n ((vid, c) ∷ vs) rows = (find-known n vid rows, known-AreKnown d n vs rows)

module _ (d : Database) (n : ℕ) (int : Json → Outcome ℕ) (fresh : List MerakiVlan)
    (rows : List NetworkVlan) where
  -- If Meraki lists no id twice among those that can be read, the table has, after the VLANs of the
  -- network `n` are written, exactly those VLANs for `n`, with the columns that Meraki gives, and for
  -- every other network what it had before.
  pub upsert_vlans_for_network-mirrors :
      (m w : ℕ)
      → IsDistinct (readable_vlans int fresh)
      → find_vlan m w (upsert_vlans_for_network d n int fresh rows)
        ≡ (if n == m then find_fresh w (readable_vlans int fresh) else find_vlan m w rows)
  unfolding upsert_vlans_for_network
  upsert_vlans_for_network-mirrors m w u =
      let vs = readable_vlans int fresh in
      let written = write_vlans d n (known_vids n rows) vs rows in
      ground (
        arith,
        find-delete n m w (seen_vids vs) written,
        mem-seen w vs,
        find-writes d n (known_vids n rows) m w vs rows u (known-AreKnown d n vs rows),
      )
