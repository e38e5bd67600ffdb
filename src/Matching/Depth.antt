-- ===== src/Matching/Depth.antt =====
-- The depth that `expected_batch` publishes: it passes the publisher's own check, and accounts for
-- every unit that is left.
pub mod Entries
pub mod Sorting
pub mod Remainders
pub mod Publish
use oclob.Base.{
  ℕ, ◌+◌, ◌-◌, ◌*◌, ◌≤◌, ◌≡◌, Bool, true, false, Option, none, some, List, [], ok, arith, length,
  u32_max, le→ltb_false, if◌then◌else◌,
}
use oclob.Matching.{
  Key, PrivateMatchBatch, MpcPriceLevel, to_levels, fill_slots, depth_entries, sort_by_key,
  expected_batch, validate_public_levels,
}
use oclob.Matching.Slots.{filled, fill_slots-AreSound, fill_slots_total}
use Entries.{total, IsSorted, AreLevels}
use Sorting.{level_total, All-sort_by_key, sort_by_key-IsOrdered, level_total-sort_by_key}
use Remainders.{
  InCircuit, Grown, resting_total, resting_total_bound, filled-le-resting_total,
  depth_entries-Grown,
}
use Publish.{
  IsPublishable, to_levels-AreDistinct, to_levels-IsPublishable, validate_levels_from_ordered,
  All-first, level_total-to_levels,
}

abbrev pub published : Option (List MpcPriceLevel) → List MpcPriceLevel
published none = []
published (some levels) = levels

remaining_bound :
    (batch : PrivateMatchBatch)
    → InCircuit batch
    → let (slots, left) = fill_slots batch batch.arriving_quantity batch.resting in
      (if batch.arriving_can_rest then left else 0) ≤ u32_max
remaining_bound batch c =
    let (conserved, _) = fill_slots_total batch batch.arriving_quantity batch.resting in
    ground (arith, conserved, c.quantity_bounded)

expected_entries-Grown :
    (batch : PrivateMatchBatch)
    → InCircuit batch
    → let (slots, left) = fill_slots batch batch.arriving_quantity batch.resting in
      let remaining = if batch.arriving_can_rest then left else 0 in
      Grown []
        (depth_entries batch slots remaining)
        (resting_total batch.resting - filled slots + remaining)
        (length batch.resting + 1)
expected_entries-Grown batch c =
    let (slots, left) = fill_slots batch batch.arriving_quantity batch.resting in
    depth_entries-Grown batch slots (if batch.arriving_can_rest then left else 0) c
      (fill_slots-AreSound batch batch.arriving_quantity batch.resting) (remaining_bound batch c)

-- A map of at most nine levels within the bounds is published in a form that the check accepts.
entries-validate_public_levels :
    (entries : List (Key × ℕ))
    → IsSorted entries
    → AreLevels entries
    → total entries ≤ 9 * u32_max
    → length entries ≤ 9
    → validate_public_levels (sort_by_key (to_levels entries)) ≡ ok tt
unfolding validate_public_levels
entries-validate_public_levels entries s a t n =
    let levels = to_levels entries in
    let (_, sorted_length) = level_total-sort_by_key levels in
    let (_, levels_length) = level_total-to_levels entries in
    rw
      (le→ltb_false 9 (length (sort_by_key levels))
        (omega (arith, sorted_length, levels_length, n)))
      (validate_levels_from_ordered none (sort_by_key levels)
        (All-sort_by_key IsPublishable levels (to_levels-IsPublishable entries a t))
        (All-first (sort_by_key levels))
        (sort_by_key-IsOrdered levels (to_levels-AreDistinct entries a s)))

-- For a batch within the circuit's bounds, the published depth passes `validate_public_levels`:
-- at most nine levels, in strict order, with prices and quantities in bounds.
pub expected_batch-validate_public_levels :
    (batch : PrivateMatchBatch)
    → InCircuit batch
    → validate_public_levels (published (expected_batch batch).public_levels) ≡ ok tt
unfolding expected_batch
expected_batch-validate_public_levels batch c =
    let grown = expected_entries-Grown batch c in
    let bound = resting_total_bound batch.resting c.resting_bounded in
    entries-validate_public_levels _ grown.sorted grown.positive
      (omega (arith, grown.sum, bound, c.slots_fit, remaining_bound batch c))
      (omega (arith, grown.size, c.slots_fit))

-- For a batch within the circuit's bounds, the published quantities add up to what the resting
-- orders held, less what was traded, and what remains of the arriving order.
pub expected_batch_depth_total :
    (batch : PrivateMatchBatch)
    → InCircuit batch
    → let result = expected_batch batch in
      level_total (published result.public_levels) + filled result.slots
      ≡ resting_total batch.resting + result.arriving_remaining
unfolding expected_batch
expected_batch_depth_total batch c =
    let (slots, left) = fill_slots batch batch.arriving_quantity batch.resting in
    let entries = depth_entries batch slots (if batch.arriving_can_rest then left else 0) in
    omega (
      arith,
      (expected_entries-Grown batch c).sum,
      level_total-sort_by_key (to_levels entries),
      level_total-to_levels entries,
      filled-le-resting_total batch batch.resting slots
          (fill_slots-AreSound batch batch.arriving_quantity batch.resting),
    )
