-- ===== src/Networks/Longest.antt =====
-- Overlapping VLANs: the most specific one wins.
use feature_asset_inventory.Base.{
  ℕ, ◌≤◌, String, ◌≡◌, refl, sym, ap, ◌∙◌, inl, inr, Bool, true, false, ◌&&◌, none, some, List, [],
  ◌∷◌, arith, ltb, any, Bool-cases, Option-cases,
}
use feature_asset_inventory.Store.{Store}
use feature_asset_inventory.Networks.Addresses.{Ip, contains, Parser}
use feature_asset_inventory.Networks.Index.{
  VlanSubnet, precedes, vlan_subnets, build_vlan_index, match_ip,
}
use feature_asset_inventory.Networks.Best.{best, best_if, address_of, match_ip-best}

module _ (ip : Ip) where
  -- A subnet with the address that has a longer prefix than `n` bits.
  abbrev pub is_longer : ℕ → VlanSubnet → Bool
  is_longer n t = contains t.network ip && ltb n t.network.prefixlen

  any-longer :
      (m n : ℕ) (ss : List VlanSubnet)
      → m ≤ n
      → any (is_longer m) ss ≡ false
      → any (is_longer n) ss ≡ false
  unfolding any
  any-longer m n [] h e = e
  any-longer m n (s ∷ ss) h e = ground (arith, any-longer m n ss)

  precedes-prefixlen :
      (s t : VlanSubnet) → precedes s t ≡ true → t.network.prefixlen ≤ s.network.prefixlen
  unfolding precedes
  precedes-prefixlen s t h = ground arith

  precedes-shorter :
      (s t : VlanSubnet) → precedes s t ≡ false → s.network.prefixlen ≤ t.network.prefixlen
  unfolding precedes
  precedes-shorter s t h = ground arith

  best-none :
      (ss : List VlanSubnet) → best ip ss ≡ none → any (λ t. contains t.network ip) ss ≡ false
  unfolding best any
  best-none [] h = refl
  best-none (s ∷ ss) h = ground (arith, best-none ss)

  none-longer :
      (n : ℕ) (ss : List VlanSubnet)
      → any (λ t. contains t.network ip) ss ≡ false
      → any (is_longer n) ss ≡ false
  unfolding any
  none-longer n [] h = h
  none-longer n (s ∷ ss) h = ground (arith, none-longer n ss)

  abbrev IsLongest : VlanSubnet → List VlanSubnet → Type 0
  IsLongest s ss = (contains s.network ip ≡ true) × (any (is_longer s.network.prefixlen) ss ≡ false)

  best-IsLongest : (ss : List VlanSubnet) (s : VlanSubnet) → best ip ss ≡ some s → IsLongest s ss
  unfolding best any
  best-IsLongest [] s h = absurd (cc)
  best-IsLongest (u ∷ us) s h = elim (Bool-cases (contains u.network ip)) [
    | inr c ↦ ground (arith, best-IsLongest us s)
    | inl c ↦ elim (Option-cases (best ip us)) [
      | inl e ↦ ground (arith, none-longer u.network.prefixlen us (best-none us e))
      | inr (t, e) ↦ elim (Bool-cases (precedes u t)) [
        | inl p ↦ ground (
          arith,
          best-IsLongest us t e,
          precedes-prefixlen u t p,
          any-longer t.network.prefixlen u.network.prefixlen us,
        )
        | inr p ↦ ground (arith, best-IsLongest us t e, precedes-shorter u t p)
      ]
    ]
  ]

module _ (parser : Parser) (db : Store) where
  -- The VLAN that a text is matched with has the address in it, and no VLAN of an active network that
  -- has the address in it has a longer prefix.
  pub match_ip-longest :
      (text : String) (ip : Ip) (s : VlanSubnet)
      → address_of parser text ≡ some ip
      → match_ip parser text (build_vlan_index parser db) ≡ some s
      → (contains s.network ip ≡ true)
        × (any (is_longer ip s.network.prefixlen) (vlan_subnets parser db.networks db.network_vlans)
            ≡ false)
  match_ip-longest text ip s a m =
      best-IsLongest ip (vlan_subnets parser db.networks db.network_vlans) s (
        sym (
          match_ip-best parser db text
          ∙ ap (λ o. best_if o (vlan_subnets parser db.networks db.network_vlans)) a)
        ∙ m)
