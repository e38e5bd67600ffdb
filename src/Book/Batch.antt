-- ===== src/Book/Batch.antt =====
-- `apply_mpc_batch_result` accepts the reference result for the book's own batch, and no other.
use oclob.Base.{
  ℕ, ◌+◌, ◌≡◌, refl, ◌∙◌, true, false, some, List, [], ◌∷◌, ok, err, arith, All, All-take, contains,
  keep, Bool-cases, inl, inr,
}
use oclob.Crypto.{Primitives}
use oclob.Order.{OrderError, SecretOrder, max_match_slots}
use oclob.Order.Authority.{OrderCommitment, OrderAuthority, verify_authority}
use oclob.Matching.{
  PrivateRestingInput, PrivateMatchBatch, MpcSlotResult, MpcBatchResult, expected_batch,
}
use oclob.Matching.Equality.{batch_result_eq, batch_result_eq_iff}
use oclob.Matching.Slots.{filled, IsSound, AreSound, expected_batch-AreSound}
use oclob.Book.Store.{RestingOrder, PrivateBook, order_commitment}
use oclob.Book.Flat.{holds, view, lookup}
use oclob.Book.Orders.{IsDistinct, resting_quantity, take-IsDistinct, keep-IsDistinct}
use oclob.Book.Found.{AllFound, All-keep, opposite_orders-AllFound, opposite_orders-IsDistinct}
use oclob.Book.Queries.{to_resting_inputs, is_live, opposite_orders, batch_of, private_match_batch}
use oclob.Book.Remainders.{Offered, OtherInputs, DistinctInputs, Within, AllWithin, fills_of}
use oclob.Book.Slots.{Filled, apply_slots-Filled}
use oclob.Book.Invariant.{
  IsBook, Succeeds, can_rest, rest_remainder-Rested, admit-IsBook, admit_recorded,
  check_admission-eq-ok,
}
use oclob.Book.Operations.{check_admission, rest_remainder, apply_slots}
use oclob.Book.Commands.{apply_mpc_batch_result}
use oclob.Book.Operations.Transitions.{BookTransition}

inputs-Offered :
    (orders part : List RestingOrder)
    → AllFound orders part
    → All (Offered orders) (to_resting_inputs part)
inputs-Offered orders [] f = tt
inputs-Offered orders (o ∷ part) f = ((o, f.0, refl), inputs-Offered orders part f.1)

inputs-OtherInputs :
    (c : OrderCommitment) (part : List RestingOrder)
    → holds c part ≡ false
    → OtherInputs c (to_resting_inputs part)
inputs-OtherInputs c [] h = tt
inputs-OtherInputs c (o ∷ part) h = (ground arith, inputs-OtherInputs c part (ground arith))

inputs-DistinctInputs :
    (part : List RestingOrder) → IsDistinct part → DistinctInputs (to_resting_inputs part)
inputs-DistinctInputs [] d = tt
inputs-DistinctInputs (o ∷ part) d =
    (inputs-OtherInputs (order_commitment o) part d.0, inputs-DistinctInputs part d.1)

sound-Within :
    (batch : PrivateMatchBatch) (r : PrivateRestingInput) (slot : MpcSlotResult)
    → IsSound batch r slot
    → Within r slot
sound-Within batch r slot s = (ground (arith, s.within_offer), λ skipped. (s.untouched skipped).0)

AreSound-AllWithin :
    (batch : PrivateMatchBatch) (rest : List PrivateRestingInput) (slots : List MpcSlotResult)
    → AreSound batch rest slots
    → AllWithin rest slots
AreSound-AllWithin batch [] [] s = tt
AreSound-AllWithin batch [] (slot ∷ slots) s = s
AreSound-AllWithin batch (r ∷ rest) [] s = s
AreSound-AllWithin batch (r ∷ rest) (slot ∷ slots) s =
    (sound-Within batch r slot s.0, AreSound-AllWithin batch rest slots s.1)

-- The slots of the reference result are applied to the book in full.
batch-Filled :
    (taker : OrderCommitment) (arriving : SecretOrder) (now : ℕ) (book : PrivateBook)
    → IsDistinct (view book)
    → let batch = batch_of book arriving now in
      let slots = (expected_batch batch).slots in
      (book' : PrivateBook) × (apply_slots taker batch.resting slots book
        ≡ (ok (fills_of taker batch.resting slots), book'))
      × Filled book book' slots
unfolding batch_of
batch-Filled taker arriving now book distinct =
    let batch = batch_of book arriving now in
    let live = keep (is_live now) (opposite_orders book arriving.side) in
    let found =
      All-take (λ o. lookup (order_commitment o) (view book) ≡ some o) max_match_slots live
        (All-keep _ (is_live now) (opposite_orders book arriving.side)
          (opposite_orders-AllFound book distinct arriving.side)) in
    let apart = take-IsDistinct max_match_slots live (
      keep-IsDistinct (is_live now) (opposite_orders book arriving.side)
        (opposite_orders-IsDistinct book distinct arriving.side)) in
    apply_slots-Filled taker batch.resting (expected_batch batch).slots book distinct
      (inputs-DistinctInputs _ apart) (inputs-Offered (view book) _ found)
      (AreSound-AllWithin batch batch.resting _ (expected_batch-AreSound batch))

-- What a matched order leaves: the fills of the slots, the quantities moved, the command admitted
-- at its sequence number, and the invariant.
pub record Matched (arriving : SecretOrder) (authority : OrderAuthority) (sequence : ℕ)
    (batch : PrivateMatchBatch) (before : PrivateBook) (t : BookTransition) (after : PrivateBook)
    : Type 0 where
  pub fills : t.fills ≡ fills_of authority.commitment batch.resting (expected_batch batch).slots
  pub remaining : t.arriving_remaining ≡ (expected_batch batch).arriving_remaining
  pub moved :
      resting_quantity (view after) + filled (expected_batch batch).slots
      ≡ resting_quantity (view before) + can_rest arriving (expected_batch batch).arriving_remaining
  pub admitted : contains authority.commitment after.admitted ≡ true
  pub next : after.sequence ≡ sequence
  pub invariant : IsBook after

module _ (p : Primitives) (arriving : SecretOrder) (authority : OrderAuthority) (sequence now : ℕ)
    (book : PrivateBook) where
  -- On a book that satisfies the invariant, an admissible order with a verified authority, whose
  -- round published the reference result of the book's own batch, is always applied: the fills
  -- are those of the matched slots, the resting quantity loses what traded and gains the
  -- remainder of a good-till-cancelled order, the commitment is recorded, the book is at the
  -- order's sequence number, and the invariant is kept.
  pub apply_mpc_batch_result-expected :
      IsBook book
      → verify_authority p authority arriving now ≡ ok tt
      → check_admission arriving authority.commitment sequence book ≡ ok tt
      → let batch = batch_of book arriving now in
        Succeeds
          (Matched arriving authority sequence batch book)
          (apply_mpc_batch_result p arriving authority sequence now (expected_batch batch) book)
  unfolding apply_mpc_batch_result private_match_batch
  apply_mpc_batch_result-expected h verified admissible =
      let batch = batch_of book arriving now in
      let result = expected_batch batch in
      let command = authority.commitment in
      let (market, unused, _) = check_admission-eq-ok arriving command sequence book admissible in
      let same = (batch_result_eq_iff result result).1 refl in
      let (middle, e, f) = batch-Filled command arriving now book h.distinct in
      let rested =
        rest_remainder-Rested arriving authority sequence result.arriving_remaining middle
          f.distinct (f.none_new command (h.known command unused)) in
      let final = rest_remainder arriving authority sequence result.arriving_remaining middle in
      let (recorded, next, same_view) = admit_recorded command sequence final in
      rw (verified, admissible, market, same, e)
        (record {
          fills = refl;
          remaining = refl;
          moved = rw same_view (omega (arith, rested.quantity, f.moved));
          admitted = recorded;
          next = next;
          invariant =
              admit-IsBook command sequence final book (rested.frame.admitted ∙ f.frame.admitted)
                rested.distinct'
                (λ c absent other. rested.none_new c other (f.none_new c (h.known c absent)));
        })

  -- For an admissible order with a verified authority, any result but the reference result of
  -- the book's own batch is refused as invalid, and the book stays as it was.
  pub apply_mpc_batch_result-other :
      (result : MpcBatchResult)
      → verify_authority p authority arriving now ≡ ok tt
      → check_admission arriving authority.commitment sequence book ≡ ok tt
      → ¬ (result ≡ expected_batch (batch_of book arriving now))
      → apply_mpc_batch_result p arriving authority sequence now result book
        ≡ (err OrderError.invalid_mpc_result, book)
  unfolding apply_mpc_batch_result private_match_batch
  apply_mpc_batch_result-other result verified admissible other =
      let (market, _, _) =
        check_admission-eq-ok arriving authority.commitment sequence book admissible in
      let expected = expected_batch (batch_of book arriving now) in
      elim (Bool-cases (batch_result_eq result expected)) [
        | inl same ↦ absurd (other ((batch_result_eq_iff result expected).0 same))
        | inr differs ↦ rw (verified, admissible, market, differs)
      ]
