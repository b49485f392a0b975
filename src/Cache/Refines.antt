-- ===== src/Cache/Refines.antt =====
-- The cache against a map that forgets nothing: that an expired entry is dropped when it is met
-- cannot be observed.
use feature_asset_inventory.Base.{
  ℕ, ◌≤◌, String, ◌≡◌, refl, inl, inr, Option, none, some, List, [], ◌∷◌, arith, if◌then◌else◌,
  str_eq, eq_iff, Dict, lookup, insert, delete, lookup-insert, lookup-delete, Option-cases,
  Bool-cases,
}
use feature_asset_inventory.Cache.{Entry, is_expired, get, expiry, set, drop_key}

pub data Request (V : Type 0) : Type 0 where
  read : String → Request V
  write : String → V → Option ℕ → Request V
  remove : String → Request V

-- The requests with the clock at each.
abbrev pub Requests : Type 0 → Type 0
Requests V = List (ℕ × Request V)

-- The abstract cache: the entry that was last written for a key, if it was not removed since.
abbrev pub Map : Type 0 → Type 0
Map V = String → Option (Entry V)

module _ {V : Type 0} where
  abbrev pub live : ℕ → Option (Entry V) → Option V
  live now none = none
  live now (some e) = if is_expired now e then none else some e.1

  abbrev pub updated : String → Option (Entry V) → Map V → Map V
  updated key e m j = if str_eq key j then e else m j

  -- The replies of the abstract cache and of the source's.
  unfoldable pub replies : Map V → Requests V → List (Option V)
  replies m [] = []
  replies m ((now, read key) ∷ rs) = live now (m key) ∷ replies m rs
  replies m ((now, write key v ttl) ∷ rs) = replies (updated key (some (expiry ttl now, v)) m) rs
  replies m ((now, remove key) ∷ rs) = replies (updated key none m) rs

  unfoldable pub serve : Dict (Entry V) → Requests V → List (Option V)
  serve d [] = []
  serve d ((now, read key) ∷ rs) = (get key now d).0 ∷ serve (get key now d).1 rs
  serve d ((now, write key v ttl) ∷ rs) = serve (set key v ttl now d) rs
  serve d ((now, remove key) ∷ rs) = serve (drop_key key d) rs

  -- The clock does not go back.
  abbrev pub IsTimed : ℕ → Requests V → Type 0
  IsTimed t [] = Unit
  IsTimed t ((now, r) ∷ rs) = (t ≤ now) × IsTimed now rs

  -- From the time `t` on, each key reads the same.
  abbrev pub Agrees : ℕ → Dict (Entry V) → Map V → Type 0
  Agrees t d m = (key : String) (now : ℕ) → t ≤ now → live now (lookup key d) ≡ live now (m key)

  get-live :
      (key : String) (now : ℕ) (d : Dict (Entry V)) → (get key now d).0 ≡ live now (lookup key d)
  unfolding get
  get-live key now d = ground arith

  -- What a read drops has expired, and stays expired.
  live-get :
      (key j : String) (t now : ℕ) (d : Dict (Entry V))
      → t ≤ now
      → live now (lookup j (get key t d).1) ≡ live now (lookup j d)
  unfolding get
  live-get key j t now d h = elim (Option-cases (lookup key d)) [
    | inl n ↦ ground arith
    | inr (e, f) ↦ elim (Bool-cases (is_expired t e)) [
      | inl x ↦ ground (arith, lookup-delete j key d, eq_iff key j)
      | inr x ↦ ground arith
    ]
  ]

  Agrees-read :
      (key : String) (t now : ℕ) (d : Dict (Entry V)) (m : Map V)
      → t ≤ now
      → Agrees t d m
      → Agrees now (get key now d).1 m
  Agrees-read key t now d m h a j u k = ground (arith, live-get key j now u d, a j u)

  Agrees-write :
      (key : String) (e : Entry V) (t now : ℕ) (d : Dict (Entry V)) (m : Map V)
      → t ≤ now
      → Agrees t d m
      → Agrees now (insert key e d) (updated key (some e) m)
  Agrees-write key e t now d m h a j u k = ground (arith, lookup-insert j key e d, a j u)

  Agrees-remove :
      (key : String) (t now : ℕ) (d : Dict (Entry V)) (m : Map V)
      → t ≤ now
      → Agrees t d m
      → Agrees now (delete key d) (updated key none m)
  Agrees-remove key t now d m h a j u k = ground (arith, lookup-delete j key d, a j u)

  serve-replies :
      (t : ℕ) (d : Dict (Entry V)) (m : Map V) (rs : Requests V)
      → IsTimed t rs
      → Agrees t d m
      → serve d rs ≡ replies m rs
  unfolding serve replies set drop_key
  serve-replies t d m [] h a = refl
  serve-replies t d m ((now, read key) ∷ rs) h a = cc (
    get-live key now d,
    a key now h.0,
    serve-replies now (get key now d).1 m rs h.1 (Agrees-read key t now d m h.0 a),
  )
  serve-replies t d m ((now, write key v ttl) ∷ rs) h a =
      serve-replies now (insert key (expiry ttl now, v) d)
        (updated key (some (expiry ttl now, v)) m) rs h.1
        (Agrees-write key (expiry ttl now, v) t now d m h.0 a)
  serve-replies t d m ((now, remove key) ∷ rs) h a =
      serve-replies now (delete key d) (updated key none m) rs h.1
        (Agrees-remove key t now d m h.0 a)

  -- Where the clock does not go back, the cache, from empty, replies to any sequence of reads, writes
  -- and removals as the map does in which an entry stays until it is written over or removed, and a
  -- read finds an entry while its time has not passed.
  pub serve-refines : (rs : Requests V) → IsTimed 0 rs → serve [] rs ≡ replies (λ key. none) rs
  unfolding lookup
  serve-refines rs h = serve-replies 0 [] (λ key. none) rs h (λ key now u. refl)
