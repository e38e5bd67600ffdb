-- ===== src/Matching/Depth/Entries.antt =====
-- The ordered map of price levels: its order, its bounds and its sum under `add_level`.
use oclob.Base.{ℕ, ◌+◌, ◌≤◌, ◌<◌, ◌≡◌, true, List, [], ◌∷◌, arith, length, u32_max, u64_bound}
use oclob.Matching.{Key, key_lt, add_level}

abbrev pub total : List (Key × ℕ) → ℕ
total [] = 0
total ((k, q) ∷ levels) = q + total levels

-- All keys come after `key`.
abbrev pub Above : Key → List (Key × ℕ) → Type 0
Above key [] = Unit
Above key ((k, q) ∷ levels) = (key_lt key k ≡ true) × Above key levels

abbrev pub IsSorted : List (Key × ℕ) → Type 0
IsSorted [] = Unit
IsSorted ((k, q) ∷ levels) = Above k levels × IsSorted levels

-- A side's wire byte and a price of the circuit.
abbrev pub IsKey : Key → Type 0
IsKey (side, price) = (side ≤ 1) × (0 < price) × (price ≤ u32_max)

abbrev pub AreLevels : List (Key × ℕ) → Type 0
AreLevels [] = Unit
AreLevels ((k, q) ∷ levels) = IsKey k × (0 < q) × AreLevels levels

module _ (key : Key) (quantity : ℕ) where
  add_level-Above :
      (k : Key) (levels : List (Key × ℕ))
      → key_lt k key ≡ true
      → Above k levels
      → Above k (add_level key quantity levels)
  unfolding add_level
  add_level-Above k [] h a = (h, tt)
  add_level-Above k ((j, q) ∷ levels) h a = ground (arith, add_level-Above k levels h a.1)

  Above-trans :
      (j : Key) (levels : List (Key × ℕ)) → key_lt key j ≡ true → Above j levels → Above key levels
  Above-trans j [] h a = tt
  Above-trans j ((k, q) ∷ levels) h a = (ground arith, Above-trans j levels h a.1)

  pub add_level-IsSorted :
      (levels : List (Key × ℕ)) → IsSorted levels → IsSorted (add_level key quantity levels)
  unfolding add_level
  add_level-IsSorted [] s = (tt, tt)
  add_level-IsSorted ((j, q) ∷ levels) s =
      ground (arith, add_level-IsSorted levels s.1, add_level-Above j levels, Above-trans j levels)

  pub total-add_level :
      (levels : List (Key × ℕ))
      → total levels + quantity < u64_bound
      → total (add_level key quantity levels) ≡ total levels + quantity
  unfolding add_level
  total-add_level [] h = omega arith
  total-add_level ((j, q) ∷ levels) h = ground (arith, total-add_level levels)

  pub length-add_level :
      (levels : List (Key × ℕ)) → length (add_level key quantity levels) ≤ length levels + 1
  unfolding add_level
  length-add_level [] = omega arith
  length-add_level ((j, q) ∷ levels) = ground (arith, length-add_level levels)

  pub add_level-AreLevels :
      (levels : List (Key × ℕ))
      → IsKey key
      → 0 < quantity
      → total levels + quantity < u64_bound
      → AreLevels levels
      → AreLevels (add_level key quantity levels)
  unfolding add_level
  add_level-AreLevels [] k p h a = (k, p, tt)
  add_level-AreLevels ((j, q) ∷ levels) k p h a = ground (arith, add_level-AreLevels levels k p)
