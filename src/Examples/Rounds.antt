-- ===== src/Examples/Rounds.antt =====
-- One matching round: a buy order against three resting orders, of which one is too dear.
use oclob.Base.{ℕ, ◌+◌, ◌-◌, ◌≡◌, true, [], ◌∷◌, ok, arith, min, if◌then◌else◌}
use oclob.Order.{Side}
use oclob.Matching.{PrivateRestingInput, PrivateMatchBatch, expected_batch, validate_public_levels}
use oclob.Matching.Slots.{
  AreSound, InPriority, liquidity, filled, expected_batch-AreSound, expected_batch-InPriority,
  expected_batch_total,
}
use oclob.Matching.Depth.{
  published, expected_batch-validate_public_levels, expected_batch_depth_total,
}
use oclob.Matching.Depth.Remainders.{InCircuit, resting_total}
use oclob.Matching.Depth.Sorting.{level_total}

abbrev offer : ℕ → ℕ → ℕ → PrivateRestingInput
offer commitment price quantity = record {
  commitment = commitment;
  side = Side.sell;
  price = price;
  quantity = quantity;
}

abbrev round : PrivateMatchBatch
round = record {
  resting = offer 1 100 4 ∷ offer 2 101 3 ∷ offer 3 103 5 ∷ [];
  arriving_side = Side.buy;
  arriving_price = 101;
  arriving_quantity = 9;
  arriving_can_rest = true;
}

round-InCircuit : InCircuit round
round-InCircuit = record {
  slots_fit = omega arith;
  resting_bounded = (
    (omega arith, omega arith, omega arith),
    ((omega arith, omega arith, omega arith), ((omega arith, omega arith, omega arith), tt)),
  );
  price_positive = omega arith;
  price_bounded = omega arith;
  quantity_bounded = omega arith;
}

expected_batch-AreSound_example : AreSound round round.resting (expected_batch round).slots
expected_batch-AreSound_example = expected_batch-AreSound round

expected_batch-InPriority_example : InPriority round round.resting (expected_batch round).slots
expected_batch-InPriority_example = expected_batch-InPriority round

expected_batch_total_example :
    let result = expected_batch round in
    (filled result.slots ≡ min 9 (liquidity round round.resting))
    × (result.arriving_remaining ≡ (if true then 9 - filled result.slots else 0))
expected_batch_total_example = expected_batch_total round

expected_batch-validate_public_levels_example :
    validate_public_levels (published (expected_batch round).public_levels) ≡ ok tt
expected_batch-validate_public_levels_example =
    expected_batch-validate_public_levels round round-InCircuit

expected_batch_depth_total_example :
    let result = expected_batch round in
    level_total (published result.public_levels) + filled result.slots
    ≡ resting_total round.resting + result.arriving_remaining
expected_batch_depth_total_example = expected_batch_depth_total round round-InCircuit
