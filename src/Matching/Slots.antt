-- ===== src/Matching/Slots.antt =====
-- The slots of `expected_batch`: what each of them may trade, how much is traded in all, and in
-- which order.
use oclob.Base.{
  ℕ, ◌+◌, ◌-◌, ◌≤◌, ◌<◌, ◌≡◌, true, false, not, ◌&&◌, List, [], ◌∷◌, arith, min, if◌then◌else◌,
}
use oclob.Order.{side_eq}
use oclob.Matching.{
  PrivateRestingInput, PrivateMatchBatch, MpcSlotResult, crosses, slot_result, fill_slots,
  expected_batch,
}

-- What a resting order offers to the arriving one: its quantity, if it stands on the other side
-- at a price that the arriving order accepts.
abbrev pub on_offer : PrivateMatchBatch → PrivateRestingInput → ℕ
on_offer batch resting =
    if not (side_eq resting.side batch.arriving_side)
      && crosses batch.arriving_side batch.arriving_price resting.price
    then resting.quantity
    else 0

abbrev pub liquidity : PrivateMatchBatch → List PrivateRestingInput → ℕ
liquidity batch [] = 0
liquidity batch (resting ∷ rest) = on_offer batch resting + liquidity batch rest

abbrev pub filled : List MpcSlotResult → ℕ
filled [] = 0
filled (slot ∷ slots) = slot.trade_quantity + filled slots

-- A slot trades at the resting price, at most what is on offer, and something exactly if it is
-- marked as matched.
pub record IsSound (batch : PrivateMatchBatch) (resting : PrivateRestingInput)
    (slot : MpcSlotResult) : Type 0 where
  pub within_offer : slot.trade_quantity ≤ on_offer batch resting
  pub traded : slot.matched ≡ true → (0 < slot.trade_quantity) × (slot.trade_price ≡ resting.price)
  pub untouched : slot.matched ≡ false → (slot.trade_quantity ≡ 0) × (slot.trade_price ≡ 0)

-- One slot for each resting order, in their order.
abbrev pub AreSound : PrivateMatchBatch → List PrivateRestingInput → List MpcSlotResult → Type 0
AreSound batch [] [] = Unit
AreSound batch [] (slot ∷ slots) = ⊥
AreSound batch (resting ∷ rest) [] = ⊥
AreSound batch (resting ∷ rest) (slot ∷ slots) =
    IsSound batch resting slot × AreSound batch rest slots

-- An order that keeps some of its offer is followed by no trade.
abbrev pub InPriority : PrivateMatchBatch → List PrivateRestingInput → List MpcSlotResult → Type 0
InPriority batch (resting ∷ rest) (slot ∷ slots) =
    (slot.trade_quantity < on_offer batch resting → filled slots ≡ 0) × InPriority batch rest slots
InPriority batch rest slots = Unit

module _ (batch : PrivateMatchBatch) where
  slot_result-IsSound :
      (remaining : ℕ) (resting : PrivateRestingInput)
      → IsSound batch resting (slot_result batch remaining resting)
  unfolding slot_result
  slot_result-IsSound remaining resting = ground arith

  -- A slot takes all that is on offer, or all that is left.
  slot_result-min :
      (remaining : ℕ) (resting : PrivateRestingInput)
      → (slot_result batch remaining resting).trade_quantity
        ≡ min remaining (on_offer batch resting)
  unfolding slot_result
  slot_result-min remaining resting = ground arith

  pub fill_slots-AreSound :
      (remaining : ℕ) (rest : List PrivateRestingInput)
      → AreSound batch rest (fill_slots batch remaining rest).0
  unfolding fill_slots
  fill_slots-AreSound remaining [] = tt
  fill_slots-AreSound remaining (resting ∷ rest) =
      let left = remaining - (slot_result batch remaining resting).trade_quantity in
      (slot_result-IsSound remaining resting, fill_slots-AreSound left rest)

  pub fill_slots_total :
      (remaining : ℕ) (rest : List PrivateRestingInput)
      → let (slots, left) = fill_slots batch remaining rest in
        (filled slots + left ≡ remaining) × (filled slots ≡ min remaining (liquidity batch rest))
  unfolding fill_slots
  fill_slots_total remaining [] = omega arith
  fill_slots_total remaining (resting ∷ rest) =
      let quantity = (slot_result batch remaining resting).trade_quantity in
      omega (arith, slot_result-min remaining resting, fill_slots_total (remaining - quantity) rest)

  fill_slots-InPriority :
      (remaining : ℕ) (rest : List PrivateRestingInput)
      → InPriority batch rest (fill_slots batch remaining rest).0
  unfolding fill_slots
  fill_slots-InPriority remaining [] = tt
  fill_slots-InPriority remaining (resting ∷ rest) =
      let left = remaining - (slot_result batch remaining resting).trade_quantity in
      (
        λ kept. omega (arith, slot_result-min remaining resting, fill_slots_total left rest),
        fill_slots-InPriority left rest,
      )

-- Every slot of the reference result trades at its resting order's price, no more than that order
-- offers, and only where the prices cross.
pub expected_batch-AreSound :
    (batch : PrivateMatchBatch) → AreSound batch batch.resting (expected_batch batch).slots
unfolding expected_batch
expected_batch-AreSound batch = fill_slots-AreSound batch batch.arriving_quantity batch.resting

-- Slots are filled in the order of the batch: a slot that leaves some of its order's offer is
-- followed by no further trade.
pub expected_batch-InPriority :
    (batch : PrivateMatchBatch) → InPriority batch batch.resting (expected_batch batch).slots
unfolding expected_batch
expected_batch-InPriority batch = fill_slots-InPriority batch batch.arriving_quantity batch.resting

-- The total that trades is the smaller of the arriving quantity and the liquidity on offer. What
-- does not trade remains if the order can rest, and nothing remains if it cannot.
pub expected_batch_total :
    (batch : PrivateMatchBatch)
    → let result = expected_batch batch in
      (filled result.slots ≡ min batch.arriving_quantity (liquidity batch batch.resting))
      × (result.arriving_remaining
          ≡ (if batch.arriving_can_rest then batch.arriving_quantity - filled result.slots else 0))
unfolding expected_batch
expected_batch_total batch =
    let (conserved, total) = fill_slots_total batch batch.arriving_quantity batch.resting in
    (total, ground arith)
