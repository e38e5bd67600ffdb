-- ===== src/Matching/Depth/Sorting.antt =====
-- `sort_by_key` on levels with different keys gives the strict order that the depth check wants.
use oclob.Base.{ℕ, ◌+◌, ◌≡◌, true, false, List, [], ◌∷◌, arith, length, All}
use oclob.Matching.{key_lt, key_eq, MpcPriceLevel, level_key, insert_by_key, sort_by_key}

abbrev pub level_total : List MpcPriceLevel → ℕ
level_total [] = 0
level_total (v ∷ levels) = v.quantity + level_total levels

abbrev pub Differ : MpcPriceLevel → MpcPriceLevel → Type 0
Differ v w = key_eq (level_key v) (level_key w) ≡ false

abbrev pub Precedes : MpcPriceLevel → MpcPriceLevel → Type 0
Precedes v w = key_lt (level_key v) (level_key w) ≡ true

abbrev pub AreDistinct : List MpcPriceLevel → Type 0
AreDistinct [] = Unit
AreDistinct (v ∷ levels) = All (Differ v) levels × AreDistinct levels

abbrev pub IsOrdered : List MpcPriceLevel → Type 0
IsOrdered [] = Unit
IsOrdered (v ∷ levels) = All (Precedes v) levels × IsOrdered levels

module _ (P : MpcPriceLevel → Type 0) where
  All-insert_by_key :
      (v : MpcPriceLevel) (levels : List MpcPriceLevel)
      → P v
      → All P levels
      → All P (insert_by_key v levels)
  unfolding insert_by_key
  All-insert_by_key v [] p h = (p, tt)
  All-insert_by_key v (w ∷ levels) p h = ground (arith, All-insert_by_key v levels p h.1)

  pub All-sort_by_key : (levels : List MpcPriceLevel) → All P levels → All P (sort_by_key levels)
  unfolding sort_by_key
  All-sort_by_key [] h = tt
  All-sort_by_key (v ∷ levels) h =
      All-insert_by_key v (sort_by_key levels) h.0 (All-sort_by_key levels h.1)

Precedes-total :
    (v w : MpcPriceLevel) → Differ v w → key_lt (level_key w) (level_key v) ≡ false → Precedes v w
Precedes-total v w = ground arith

Precedes-trans :
    (u v : MpcPriceLevel) (levels : List MpcPriceLevel)
    → Precedes u v
    → All (Precedes v) levels
    → All (Precedes u) levels
Precedes-trans u v [] p h = tt
Precedes-trans u v (w ∷ levels) p h = (ground arith, Precedes-trans u v levels p h.1)

insert_by_key-IsOrdered :
    (v : MpcPriceLevel) (levels : List MpcPriceLevel)
    → All (Differ v) levels
    → IsOrdered levels
    → IsOrdered (insert_by_key v levels)
unfolding insert_by_key
insert_by_key-IsOrdered v [] d o = (tt, tt)
insert_by_key-IsOrdered v (w ∷ levels) d o = ground (
  arith,
  insert_by_key-IsOrdered v levels d.1 o.1,
  All-insert_by_key (Precedes w) v levels,
  Precedes-total v w,
  Precedes-trans v w levels,
)

pub sort_by_key-IsOrdered :
    (levels : List MpcPriceLevel) → AreDistinct levels → IsOrdered (sort_by_key levels)
unfolding sort_by_key
sort_by_key-IsOrdered [] d = tt
sort_by_key-IsOrdered (v ∷ levels) d =
    insert_by_key-IsOrdered v (sort_by_key levels) (All-sort_by_key (Differ v) levels d.0)
      (sort_by_key-IsOrdered levels d.1)

level_total-insert_by_key :
    (v : MpcPriceLevel) (levels : List MpcPriceLevel)
    → (level_total (insert_by_key v levels) ≡ v.quantity + level_total levels)
      × (length (insert_by_key v levels) ≡ length levels + 1)
unfolding insert_by_key
level_total-insert_by_key v [] = omega arith
level_total-insert_by_key v (w ∷ levels) = ground (arith, level_total-insert_by_key v levels)

-- Sorting keeps the sum and the number of the levels.
pub level_total-sort_by_key :
    (levels : List MpcPriceLevel)
    → (level_total (sort_by_key levels) ≡ level_total levels)
      × (length (sort_by_key levels) ≡ length levels)
unfolding sort_by_key
level_total-sort_by_key [] = omega arith
level_total-sort_by_key (v ∷ levels) =
    omega (arith, level_total-insert_by_key v (sort_by_key levels), level_total-sort_by_key levels)
