-- ===== src/Networks/Best.antt =====
-- Which VLAN an address is taken to be on.
use feature_asset_inventory.Base.{
  String, ◌≡◌, refl, inl, inr, Bool, true, false, Option, none, some, List, [], ◌∷◌, arith,
  if◌then◌else◌, first, strip, is_blank, Bool-cases, Option-cases,
}
use feature_asset_inventory.Store.{Store}
use feature_asset_inventory.Networks.Addresses.{Ip, contains, Parser}
use feature_asset_inventory.Networks.Index.{
  VlanSubnet, precedes, insert_subnet, sort_index, vlan_subnets, build_vlan_index, match_ip,
}

-- The better of a candidate and the best of the rest.
abbrev pub better : VlanSubnet → Option VlanSubnet → VlanSubnet
better s none = s
better s (some t) = if precedes s t then s else t

-- The best of the subnets with the address, whatever their order: no index, no sorting.
unfoldable pub best : Ip → List VlanSubnet → Option VlanSubnet
best ip [] = none
best ip (s ∷ ss) =
    let rest = best ip ss in if contains s.network ip then some (better s rest) else rest

precedes_trans :
    (s t u : VlanSubnet) → precedes s t ≡ true → precedes t u ≡ true → precedes s u ≡ true
unfolding precedes
precedes_trans s t u h k = ground arith

precedes_total : (s t : VlanSubnet) → precedes s t ≡ false → precedes t s ≡ true
unfolding precedes
precedes_total s t h = ground arith

-- The first subnet precedes all of them.
abbrev Leads : VlanSubnet → List VlanSubnet → Type 0
Leads s [] = Unit
Leads s (t ∷ ts) = (precedes s t ≡ true) × Leads s ts

abbrev IsSorted : List VlanSubnet → Type 0
IsSorted [] = Unit
IsSorted (s ∷ ss) = Leads s ss × IsSorted ss

Leads-precedes :
    (s t : VlanSubnet) (ts : List VlanSubnet) → precedes s t ≡ true → Leads t ts → Leads s ts
Leads-precedes s t [] h l = tt
Leads-precedes s t (u ∷ us) h l = (precedes_trans s t u h l.0, Leads-precedes s t us h l.1)

Leads-insert :
    (u s : VlanSubnet) (ts : List VlanSubnet)
    → precedes u s ≡ true
    → Leads u ts
    → Leads u (insert_subnet s ts)
unfolding insert_subnet
Leads-insert u s [] h l = (h, tt)
Leads-insert u s (t ∷ ts) h l = ground (arith, Leads-insert u s ts h l.1)

insert-IsSorted :
    (s : VlanSubnet) (ts : List VlanSubnet) → IsSorted ts → IsSorted (insert_subnet s ts)
unfolding insert_subnet
insert-IsSorted s [] h = (tt, tt)
insert-IsSorted s (t ∷ ts) h = elim (Bool-cases (precedes s t)) [
  | inl e ↦ rw e ((e, Leads-precedes s t ts e h.0), h)
  | inr e ↦ rw e (Leads-insert t s ts (precedes_total s t e) h.0, insert-IsSorted s ts h.1)
]

sort-IsSorted : (ss : List VlanSubnet) → IsSorted (sort_index ss)
unfolding sort_index
sort-IsSorted [] = tt
sort-IsSorted (s ∷ ss) = insert-IsSorted s (sort_index ss) (sort-IsSorted ss)

module _ (ip : Ip) where
  abbrev on : VlanSubnet → Bool
  on s = contains s.network ip

  first-Leads :
      (s : VlanSubnet) (ts : List VlanSubnet) {t : VlanSubnet}
      → Leads s ts
      → first on ts ≡ some t
      → precedes s t ≡ true
  unfolding first
  first-Leads s [] l h = cc
  first-Leads s (u ∷ us) {t} l h = ground (arith, first-Leads s us {t = t} l.1)

  better-Leads : (s : VlanSubnet) (ts : List VlanSubnet) → Leads s ts → better s (first on ts) ≡ s
  better-Leads s ts l = elim (Option-cases (first on ts)) [
    | inl e ↦ rw e refl
    | inr (t, e) ↦ rw e (rw (first-Leads s ts {t = t} l e) refl)
  ]

  first-insert :
      (s : VlanSubnet) (ts : List VlanSubnet)
      → IsSorted ts
      → first on (insert_subnet s ts)
        ≡ (if on s then some (better s (first on ts)) else first on ts)
  unfolding first insert_subnet
  first-insert s [] h = refl
  first-insert s (t ∷ ts) h = elim (Bool-cases (precedes s t)) [
    | inl e ↦ elim (Bool-cases (on t)) [
      | inl f ↦ ground arith
      | inr f ↦ ground (arith, better-Leads s ts (Leads-precedes s t ts e h.0))
    ]
    | inr e ↦ ground (arith, first-insert s ts h.1)
  ]

  first-sort : (ss : List VlanSubnet) → first on (sort_index ss) ≡ best ip ss
  unfolding first sort_index best
  first-sort [] = refl
  first-sort (s ∷ ss) =
      ground (arith, first-insert s (sort_index ss) (sort-IsSorted ss), first-sort ss)

abbrev pub best_if : Option Ip → List VlanSubnet → Option VlanSubnet
best_if none ss = none
best_if (some ip) ss = best ip ss

-- The address that a text stands for, if it is not empty and can be read.
abbrev pub address_of : Parser → String → Option Ip
address_of parser text = if is_blank text then none else parser.ip_address (strip text)

module _ (parser : Parser) (db : Store) where
  -- A text is matched, in the sorted index, with the VLAN that a search through all of them, with no
  -- order, finds best: among those with the address, the longest prefix, and then the least network
  -- and VLAN. A text that is empty or cannot be read is matched with none.
  pub match_ip-best :
      (text : String)
      → match_ip parser text (build_vlan_index parser db)
        ≡ best_if (address_of parser text) (vlan_subnets parser db.networks db.network_vlans)
  unfolding match_ip
  match_ip-best text = elim (Option-cases (address_of parser text)) [
    | inl e ↦ ground arith
    | inr (ip, e) ↦ ground (arith, first-sort ip (vlan_subnets parser db.networks db.network_vlans))
  ]
