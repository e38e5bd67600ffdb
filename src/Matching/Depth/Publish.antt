-- ===== src/Matching/Depth/Publish.antt =====
-- From the map of levels to the list that is published, and the loop of the check over it.
use oclob.Base.{
  ℕ, ◌*◌, ◌≤◌, ◌≡◌, refl, true, false, Option, none, some, List, [], ◌∷◌, ok, arith, length, All,
  u32_max,
}
use oclob.Matching.{
  Key, key_lt, MpcPriceLevel, to_level, to_levels, level_key, level_out_of_bounds, not_after,
  validate_levels_from,
}
use oclob.Matching.Depth.Entries.{total, IsSorted, Above, IsKey, AreLevels}
use oclob.Matching.Depth.Sorting.{level_total, Differ, Precedes, AreDistinct, IsOrdered}

-- Distinct keys of the map stay distinct under the order of publication.
to_level-Differ :
    (k j : Key) (q r : ℕ)
    → IsKey k
    → IsKey j
    → key_lt k j ≡ true
    → Differ (to_level (k, q)) (to_level (j, r))
to_level-Differ k j q r a b h = ground arith

All-Differ :
    (k : Key) (q : ℕ) (levels : List (Key × ℕ))
    → IsKey k
    → AreLevels levels
    → Above k levels
    → All (Differ (to_level (k, q))) (to_levels levels)
All-Differ k q [] a b h = tt
All-Differ k q ((j, r) ∷ levels) a b h =
    (to_level-Differ k j q r a b.0 h.0, All-Differ k q levels a b.2 h.1)

pub to_levels-AreDistinct :
    (levels : List (Key × ℕ)) → AreLevels levels → IsSorted levels → AreDistinct (to_levels levels)
to_levels-AreDistinct [] a s = tt
to_levels-AreDistinct ((k, q) ∷ levels) a s =
    (All-Differ k q levels a.0 a.2 s.0, to_levels-AreDistinct levels a.2 s.1)

abbrev pub IsPublishable : MpcPriceLevel → Type 0
IsPublishable v = level_out_of_bounds v ≡ false

pub to_levels-IsPublishable :
    (levels : List (Key × ℕ))
    → AreLevels levels
    → total levels ≤ 9 * u32_max
    → All IsPublishable (to_levels levels)
to_levels-IsPublishable [] a b = tt
to_levels-IsPublishable ((k, q) ∷ levels) a b =
    (ground arith, to_levels-IsPublishable levels a.2 (omega (arith, b)))

-- Ordered levels within the bounds pass the loop of the check.
pub validate_levels_from_ordered :
    (previous : Option Key) (levels : List MpcPriceLevel)
    → All IsPublishable levels
    → All (λ v. not_after previous (level_key v) ≡ false) levels
    → IsOrdered levels
    → validate_levels_from previous levels ≡ ok tt
unfolding validate_levels_from
validate_levels_from_ordered previous [] b f o = refl
validate_levels_from_ordered previous (v ∷ levels) b f o =
    rw (b.0, f.0)
      (validate_levels_from_ordered (some (level_key v)) levels b.1 (All-not_after v levels o.0)
        o.1)
  where
    All-not_after :
        (v : MpcPriceLevel) (levels : List MpcPriceLevel)
        → All (Precedes v) levels
        → All (λ w. not_after (some (level_key v)) (level_key w) ≡ false) levels
    All-not_after v [] h = tt
    All-not_after v (w ∷ levels) h = (rw h.0, All-not_after v levels h.1)

pub All-first :
    (levels : List MpcPriceLevel) → All (λ v. not_after none (level_key v) ≡ false) levels
All-first [] = tt
All-first (v ∷ levels) = (refl, All-first levels)

pub level_total-to_levels :
    (levels : List (Key × ℕ))
    → (level_total (to_levels levels) ≡ total levels) × (length (to_levels levels) ≡ length levels)
level_total-to_levels [] = omega arith
level_total-to_levels ((k, q) ∷ levels) = omega (arith, level_total-to_levels levels)
