-- ===== src/Matching/Depth/Remainders.antt =====
-- The map of levels that `expected_batch` fills: every step keeps its order and adds to its sum.
use oclob.Base.{
  ℕ, ◌+◌, ◌-◌, ◌*◌, ◌≤◌, ◌<◌, ◌≡◌, List, [], ◌∷◌, arith, length, All, u32_max, u64_bound, ltb,
  ltb→lt, ltb-false, Bool-cases, inl, inr, if◌then◌else◌,
}
use oclob.Order.{Side, side_wire}
use oclob.Matching.{
  Key, PrivateRestingInput, PrivateMatchBatch, MpcSlotResult, add_level, add_remainders,
  depth_entries,
}
use oclob.Matching.Slots.{filled, IsSound, AreSound}
use oclob.Matching.Depth.Entries.{
  total, IsSorted, AreLevels, add_level-IsSorted, total-add_level, length-add_level,
  add_level-AreLevels,
}

-- The circuit's bounds: at most eight resting orders, with 32-bit prices and quantities.
abbrev pub IsBounded : PrivateRestingInput → Type 0
IsBounded r = (0 < r.price) × (r.price ≤ u32_max) × (r.quantity ≤ u32_max)

pub record InCircuit (batch : PrivateMatchBatch) : Type 0 where
  pub slots_fit : length batch.resting ≤ 8
  pub resting_bounded : All IsBounded batch.resting
  pub price_positive : 0 < batch.arriving_price
  pub price_bounded : batch.arriving_price ≤ u32_max
  pub quantity_bounded : batch.arriving_quantity ≤ u32_max

abbrev pub resting_total : List PrivateRestingInput → ℕ
resting_total [] = 0
resting_total (r ∷ rest) = r.quantity + resting_total rest

-- What holds of the map of levels after a step that adds `amount` in at most `count` places.
pub record Grown (levels levels' : List (Key × ℕ)) (amount count : ℕ) : Type 0 where
  pub sorted : IsSorted levels'
  pub positive : AreLevels levels'
  pub sum : total levels' ≡ total levels + amount
  pub size : length levels' ≤ length levels + count

side_wire_bound : (s : Side) → side_wire s ≤ 1
side_wire_bound s = ground arith

pub resting_total_bound :
    (rest : List PrivateRestingInput)
    → All IsBounded rest
    → resting_total rest ≤ length rest * u32_max
resting_total_bound [] h = omega arith
resting_total_bound (r ∷ rest) h = omega (arith, h.0.2, resting_total_bound rest h.1)

offer-le-quantity :
    (batch : PrivateMatchBatch) (r : PrivateRestingInput) (slot : MpcSlotResult)
    → IsSound batch r slot
    → slot.trade_quantity ≤ r.quantity
offer-le-quantity batch r slot h = ground (arith, h.within_offer)

pub filled-le-resting_total :
    (batch : PrivateMatchBatch) (rest : List PrivateRestingInput) (slots : List MpcSlotResult)
    → AreSound batch rest slots
    → filled slots ≤ resting_total rest
filled-le-resting_total batch [] [] h = omega arith
filled-le-resting_total batch [] (slot ∷ slots) h = absurd h
filled-le-resting_total batch (r ∷ rest) [] h = absurd h
filled-le-resting_total batch (r ∷ rest) (slot ∷ slots) h =
    omega (arith, filled-le-resting_total batch rest slots h.1, offer-le-quantity batch r slot h.0)

-- Adding one quantity, if it is positive, keeps the map in order and adds to its sum.
add_positive :
    (side : Side) (price quantity : ℕ) (levels : List (Key × ℕ))
    → 0 < price
    → price ≤ u32_max
    → total levels + quantity < u64_bound
    → IsSorted levels
    → AreLevels levels
    → Grown levels
        (if ltb 0 quantity then add_level (side_wire side, price) quantity levels else levels)
        quantity
        1
add_positive side price quantity levels p b h s a = elim (Bool-cases (ltb 0 quantity)) [
  | inl some_left ↦ rw some_left (record {
    sorted = add_level-IsSorted (side_wire side, price) quantity levels s;
    positive =
        add_level-AreLevels (side_wire side, price) quantity levels (side_wire_bound side, p, b)
          (ltb→lt _ _ some_left) h a;
    sum = total-add_level (side_wire side, price) quantity levels h;
    size = length-add_level (side_wire side, price) quantity levels;
  })
  | inr none_left ↦
      let zero_left : quantity ≤ 0 = ltb-false _ _ none_left in
      rw none_left (record { sorted = s; positive = a; sum = omega arith; size = omega arith })
]

-- What the resting orders keep is entered in the map.
pub add_remainders-Grown :
    (batch : PrivateMatchBatch) (rest : List PrivateRestingInput) (slots : List MpcSlotResult)
    (levels : List (Key × ℕ))
    → AreSound batch rest slots
    → All IsBounded rest
    → total levels + resting_total rest < u64_bound
    → IsSorted levels
    → AreLevels levels
    → Grown levels
        (add_remainders rest slots levels)
        (resting_total rest - filled slots)
        (length rest)
unfolding add_remainders
add_remainders-Grown batch [] [] levels sound bounded room s a = record {
  sorted = s;
  positive = a;
  sum = omega arith;
  size = omega arith;
}
add_remainders-Grown batch [] (slot ∷ slots) levels sound bounded room s a = absurd sound
add_remainders-Grown batch (r ∷ rest) [] levels sound bounded room s a = absurd sound
add_remainders-Grown batch (r ∷ rest) (slot ∷ slots) levels sound bounded room s a =
    let left = r.quantity - slot.trade_quantity in
    let within : slot.trade_quantity ≤ r.quantity = offer-le-quantity batch r slot sound.0 in
    let first =
      add_positive r.side r.price left levels bounded.0.0 bounded.0.1 (omega (arith, room)) s a in
    let levels' =
      if ltb 0 left then add_level (side_wire r.side, r.price) left levels else levels in
    let later =
      add_remainders-Grown batch rest slots levels' sound.1 bounded.1
        (omega (arith, room, first.sum)) first.sorted first.positive in
    record {
      sorted = later.sorted;
      positive = later.positive;
      sum =
          omega
            (arith, later.sum, first.sum, within, filled-le-resting_total batch rest slots sound.1);
      size = omega (arith, later.size, first.size);
    }

-- The map from which the depth of a batch is published, for slots that are sound.
pub depth_entries-Grown :
    (batch : PrivateMatchBatch) (slots : List MpcSlotResult) (remaining : ℕ)
    → InCircuit batch
    → AreSound batch batch.resting slots
    → remaining ≤ u32_max
    → Grown []
        (depth_entries batch slots remaining)
        (resting_total batch.resting - filled slots + remaining)
        (length batch.resting + 1)
unfolding depth_entries
depth_entries-Grown batch slots remaining c sound small =
    let bound = resting_total_bound batch.resting c.resting_bounded in
    let first =
      add_remainders-Grown batch batch.resting slots [] sound c.resting_bounded
        (omega (arith, bound, c.slots_fit)) tt tt in
    let last =
      add_positive batch.arriving_side batch.arriving_price remaining
        (add_remainders batch.resting slots []) c.price_positive c.price_bounded
        (omega (arith, bound, c.slots_fit, first.sum)) first.sorted first.positive in
    record {
      sorted = last.sorted;
      positive = last.positive;
      sum = omega (arith, last.sum, first.sum);
      size = omega (arith, last.size, first.size);
    }
