-- ===== src/Reservation/AutoAssign/Dedupe.antt =====
-- `dedupe` keeps the set of ids and lists each once.
use feature_asset_inventory.Base.{
  ℕ, ◌≡◌, refl, inl, inr, false, ◌&&◌, not, List, [], ◌∷◌, arith, mem, Bool-cases,
}
use feature_asset_inventory.Reservation.AutoAssign.{dedupe_from, dedupe}

-- No id is listed twice.
abbrev pub IsDistinct : List ℕ → Type 0
IsDistinct [] = Unit
IsDistinct (x ∷ xs) = (mem x xs ≡ false) × IsDistinct xs

mem-dedupe_from :
    (k : ℕ) (seen xs : List ℕ) → mem k (dedupe_from seen xs) ≡ (mem k xs && not (mem k seen))
unfolding dedupe_from mem
mem-dedupe_from k seen [] = refl
mem-dedupe_from k seen (x ∷ xs) = elim (Bool-cases (mem x seen)) [
  | inl e ↦ rw e (ground (arith, mem-dedupe_from k seen xs))
  | inr e ↦ rw e (ground (arith, mem-dedupe_from k (x ∷ seen) xs))
]

dedupe_from-IsDistinct : (seen xs : List ℕ) → IsDistinct (dedupe_from seen xs)
unfolding dedupe_from mem
dedupe_from-IsDistinct seen [] = tt
dedupe_from-IsDistinct seen (x ∷ xs) = elim (Bool-cases (mem x seen)) [
  | inl e ↦ rw e (dedupe_from-IsDistinct seen xs)
  | inr e ↦
      rw e (ground (arith, mem-dedupe_from x (x ∷ seen) xs), dedupe_from-IsDistinct (x ∷ seen) xs)
]

-- The result lists the same ids, and each of them once.
pub dedupe_lem : (xs : List ℕ) → IsDistinct (dedupe xs) × ((k : ℕ) → mem k (dedupe xs) ≡ mem k xs)
unfolding dedupe mem
dedupe_lem xs = (dedupe_from-IsDistinct [] xs, λ k. ground (arith, mem-dedupe_from k [] xs))
