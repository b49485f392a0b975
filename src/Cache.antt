-- ===== src/Cache.antt =====
-- `MemoryCache` of app/platform/cache/memory_cache.py. The clock counts whole ticks, and a value is
-- never `None`.
pub mod Refines
use feature_asset_inventory.Base.{
  ℕ, ◌+◌, String, Bool, true, false, Option, none, some, ltb, if◌then◌else◌, Dict, lookup, insert,
  delete,
}

-- `(expires_at, value)`
abbrev pub Entry : Type 0 → Type 0
Entry V = Option ℕ × V

-- `expires_at is not None and expires_at < time.time()`
abbrev pub is_expired : {V : Type 0} → ℕ → Entry V → Bool
is_expired now e = elim e.0 [ none ↦ false | some t ↦ ltb t now ]

abbrev pub expiry : Option ℕ → ℕ → Option ℕ
expiry none now = none
expiry (some ttl_seconds) now = some (now + ttl_seconds)

module _ {V : Type 0} where
  -- The result, and the dictionary, which loses an entry that is found to have expired.
  unfoldable pub get : String → ℕ → Dict (Entry V) → Option V × Dict (Entry V)
  get key now store = elim (lookup key store) [
    | none ↦ (none, store)
    | some e ↦ if is_expired now e then (none, delete key store) else (some e.1, store)
  ]

  unfoldable pub set : String → V → Option ℕ → ℕ → Dict (Entry V) → Dict (Entry V)
  set key value ttl_seconds now = insert key (expiry ttl_seconds now, value)

  unfoldable pub drop_key : String → Dict (Entry V) → Dict (Entry V)
  drop_key = delete
