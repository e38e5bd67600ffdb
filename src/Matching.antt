-- ===== src/Matching.antt =====
-- rust/oclob-core/src/lib.rs: the private batch that one MPC round matches, `expected_batch`, the
-- reference that its public result is held to, and `validate_public_levels`, the check of
-- published depth.
pub mod Equality
pub mod Slots
pub mod Depth
use oclob.Base.{
  ℕ, ◌+◌, ◌-◌, ◌*◌, ◌%◌, Bool, true, false, not, ◌&&◌, ◌||◌, String, Option, none, some, List, [],
  ◌∷◌, Result, ok, err, ◌>>=◌, ◌>>◌, reject_if, length, u32_max, u64_max, u64_bound, min, ltb, leb,
  ◌==◌, if◌then◌else◌,
}
use oclob.Order.{Side, side_wire, side_eq, max_match_slots}
use oclob.Order.Authority.{OrderCommitment}

pub record PrivateRestingInput : Type 0 where
  pub commitment : OrderCommitment
  pub side : Side
  pub price : ℕ
  pub quantity : ℕ

pub record PrivateMatchBatch : Type 0 where
  pub resting : List PrivateRestingInput
  pub arriving_side : Side
  pub arriving_price : ℕ
  pub arriving_quantity : ℕ
  pub arriving_can_rest : Bool

pub record MpcSlotResult : Type 0 where
  pub matched : Bool
  pub trade_price : ℕ
  pub trade_quantity : ℕ

pub record MpcPriceLevel : Type 0 where
  pub side : Side
  pub price : ℕ
  pub quantity : ℕ

pub record MpcBatchResult : Type 0 where
  pub slots : List MpcSlotResult
  pub arriving_remaining : ℕ
  pub public_levels : Option (List MpcPriceLevel)

-- Whether an arriving price reaches a resting one.
abbrev pub crosses : Side → ℕ → ℕ → Bool
crosses Side.buy arriving_price price = leb price arriving_price
crosses Side.sell arriving_price price = leb arriving_price price

-- The test of one slot in `expected_batch`.
abbrev pub slot_crossed : PrivateMatchBatch → ℕ → PrivateRestingInput → Bool
slot_crossed batch arriving_remaining resting =
    not (side_eq resting.side batch.arriving_side)
    && (crosses batch.arriving_side batch.arriving_price resting.price
        && (ltb 0 arriving_remaining && ltb 0 resting.quantity))

unfoldable pub slot_result : PrivateMatchBatch → ℕ → PrivateRestingInput → MpcSlotResult
slot_result batch arriving_remaining resting =
    let crossed = slot_crossed batch arriving_remaining resting in
    record {
      matched = crossed;
      trade_price = if crossed then resting.price else 0;
      trade_quantity = if crossed then min arriving_remaining resting.quantity else 0;
    }

-- The first loop of `expected_batch`: the slots, and what is left of the arriving quantity.
unfoldable pub fill_slots :
    PrivateMatchBatch → ℕ → List PrivateRestingInput → List MpcSlotResult × ℕ
unfolding slot_result
fill_slots batch arriving_remaining [] = ([], arriving_remaining)
fill_slots batch arriving_remaining (resting ∷ rest) =
    let slot = slot_result batch arriving_remaining resting in
    let (slots, left) = fill_slots batch (arriving_remaining - slot.trade_quantity) rest in
    (slot ∷ slots, left)

-- Keys of `BTreeMap<(u8, u64), u64>`, in lexicographic order.
abbrev pub Key : Type 0
Key = ℕ × ℕ

abbrev pub key_lt : Key → Key → Bool
key_lt (a, b) (c, d) = ltb a c || (a == c && ltb b d)

abbrev pub key_eq : Key → Key → Bool
key_eq (a, b) (c, d) = a == c && b == d

-- `*levels.entry(key).or_default() += quantity`
unfoldable pub add_level : Key → ℕ → List (Key × ℕ) → List (Key × ℕ)
add_level key quantity [] = (key, quantity) ∷ []
add_level key quantity ((k, q) ∷ levels) =
    let rest = add_level key quantity levels in
    if key_eq key k
    then (k, (q + quantity) % u64_bound) ∷ levels
    else if key_lt key k
    then (key, quantity) ∷ (k, q) ∷ levels
    else (k, q) ∷ rest

-- The loop over `batch.resting.iter().zip(&slots)`.
unfoldable pub add_remainders :
    List PrivateRestingInput → List MpcSlotResult → List (Key × ℕ) → List (Key × ℕ)
unfolding add_level
add_remainders [] slots levels = levels
add_remainders (resting ∷ rest) [] levels = levels
add_remainders (resting ∷ rest) (fill ∷ slots) levels =
    let quantity = resting.quantity - fill.trade_quantity in
    add_remainders rest slots (
      if ltb 0 quantity
      then add_level (side_wire resting.side, resting.price) quantity levels
      else levels)

abbrev pub to_level : Key × ℕ → MpcPriceLevel
to_level ((side, price), quantity) = record {
  side = if side == 0 then Side.buy else Side.sell;
  price = price;
  quantity = quantity;
}

abbrev pub to_levels : List (Key × ℕ) → List MpcPriceLevel
to_levels [] = []
to_levels (entry ∷ levels) = to_level entry ∷ to_levels levels

-- Bids from the highest price down, then asks from the lowest price up.
abbrev pub level_key : MpcPriceLevel → Key
level_key v = (side_wire v.side, if side_eq v.side Side.buy then u64_max - v.price else v.price)

-- `sort_by_key` is stable: an element goes before those behind it with an equal key.
unfoldable pub insert_by_key : MpcPriceLevel → List MpcPriceLevel → List MpcPriceLevel
insert_by_key v [] = v ∷ []
insert_by_key v (w ∷ levels) =
    let rest = insert_by_key v levels in
    if key_lt (level_key w) (level_key v) then w ∷ rest else v ∷ w ∷ levels

unfoldable pub sort_by_key : List MpcPriceLevel → List MpcPriceLevel
unfolding insert_by_key
sort_by_key [] = []
sort_by_key (v ∷ levels) = insert_by_key v (sort_by_key levels)

-- The levels of the depth that is published with the slots.
unfoldable pub depth_entries : PrivateMatchBatch → List MpcSlotResult → ℕ → List (Key × ℕ)
unfolding add_level add_remainders
depth_entries batch slots remaining =
    let levels = add_remainders batch.resting slots [] in
    if ltb 0 remaining
    then add_level (side_wire batch.arriving_side, batch.arriving_price) remaining levels
    else levels

unfoldable pub expected_batch : PrivateMatchBatch → MpcBatchResult
unfolding fill_slots depth_entries sort_by_key
expected_batch batch =
    let (slots, arriving_remaining) = fill_slots batch batch.arriving_quantity batch.resting in
    let remaining = if batch.arriving_can_rest then arriving_remaining else 0 in
    record {
      slots = slots;
      arriving_remaining = remaining;
      public_levels = some (sort_by_key (to_levels (depth_entries batch slots remaining)));
    }

abbrev pub level_out_of_bounds : MpcPriceLevel → Bool
level_out_of_bounds level =
    level.price == 0
    || (ltb u32_max level.price
        || (level.quantity == 0 || ltb (u32_max * (max_match_slots + 1)) level.quantity))

-- `previous.is_some_and(|p| p >= key)`
abbrev pub not_after : Option Key → Key → Bool
not_after none key = false
not_after (some p) key = not (key_lt p key)

unfoldable pub validate_levels_from : Option Key → List MpcPriceLevel → Result (Unit {0}) String
validate_levels_from previous [] = ok tt
validate_levels_from previous (level ∷ levels) = do
  reject_if (level_out_of_bounds level) "public depth is outside circuit bounds"
  reject_if (not_after previous (level_key level)) "public depth has duplicate or unordered levels"
  validate_levels_from (some (level_key level)) levels

unfoldable pub validate_public_levels : List MpcPriceLevel → Result (Unit {0}) String
unfolding validate_levels_from
validate_public_levels levels = do
  reject_if (ltb (max_match_slots + 1) (length levels)) "public depth exceeds circuit capacity"
  validate_levels_from none levels
