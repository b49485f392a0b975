-- ===== src/Reservation/Exclusive.antt =====
-- The reservation rule: an asset is held by at most one record at a time.
use feature_asset_inventory.Base.{ℕ, ◌≡◌, ◌⊎◌, inl, inr, ◌∙◌, sym, Bool, true}

-- `holds i a`: the record with key `i` reserves the asset `a`.
abbrev pub Exclusive : (ℕ → ℕ → Bool) → Type 0
Exclusive holds = (i j a : ℕ) → holds i a ≡ true → holds j a ≡ true → i ≡ j

module _ (old new : ℕ → ℕ → Bool) where
  -- Reservations that only go away keep the rule.
  pub Exclusive-shrink :
      ((i a : ℕ) → new i a ≡ true → old i a ≡ true) → Exclusive old → Exclusive new
  Exclusive-shrink less ex i j a hi hj = ex i j a (less i a hi) (less j a hj)

  -- One record may gain assets, if no other record holds them.
  pub Exclusive-grow :
      (k : ℕ) (gained : ℕ → Bool)
      → ((i a : ℕ) → new i a ≡ true → (old i a ≡ true) ⊎ ((i ≡ k) × (gained a ≡ true)))
      → ((j a : ℕ) → gained a ≡ true → old j a ≡ true → j ≡ k)
      → Exclusive old
      → Exclusive new
  Exclusive-grow k gained more free ex i j a hi hj = elim (more i a hi) [
    | inl oi ↦ elim (more j a hj) [ inl oj ↦ ex i j a oi oj | inr (ek, g) ↦ free i a g oi ∙ sym ek ]
    | inr (ei, g) ↦ elim (more j a hj) [
      | inl oj ↦ ei ∙ sym (free j a g oj)
      | inr (ek, _) ↦ ei ∙ sym ek
    ]
  ]
