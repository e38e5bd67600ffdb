-- ===== src/Book/Slots.antt =====
-- The loop of `apply_mpc_batch_result` succeeds on every batch that the book offers, and moves
-- exactly the traded quantities out of the book.
use oclob.Base.{
  ◌+◌, ◌-◌, ◌≡◌, refl, false, List, [], ◌∷◌, ok, arith, All, le→ltb_false, Bool-cases, inl, inr,
}
use oclob.Order.Authority.{OrderCommitment}
use oclob.Matching.{PrivateRestingInput, MpcSlotResult}
use oclob.Matching.Slots.{filled}
use oclob.Book.Store.{PrivateBook}
use oclob.Book.Flat.{holds, view}
use oclob.Book.Orders.{
  IsDistinct, resting_quantity, holds-changed_absent, changed-IsDistinct, quantity-changed,
  holds_of_lookup,
}
use oclob.Book.Remainders.{
  SameFrame, SameFrame-refl, SameFrame-trans, change_remainder-Done, Offered, DistinctInputs,
  Offered-changed, AllWithin, fills_of,
}
use oclob.Book.Operations.{apply_slots}

-- The state that the loop leaves behind `book`.
pub record Filled (book book' : PrivateBook) (slots : List MpcSlotResult) : Type 0 where
  pub moved : resting_quantity (view book') + filled slots ≡ resting_quantity (view book)
  pub distinct : IsDistinct (view book')
  pub none_new : (c : OrderCommitment) → holds c (view book) ≡ false → holds c (view book') ≡ false
  pub frame : SameFrame book book'

module _ (taker : OrderCommitment) where
  pub apply_slots-Filled :
      (rest : List PrivateRestingInput) (slots : List MpcSlotResult) (book : PrivateBook)
      → IsDistinct (view book)
      → DistinctInputs rest
      → All (Offered (view book)) rest
      → AllWithin rest slots
      → (book' : PrivateBook) × (apply_slots taker rest slots book
          ≡ (ok (fills_of taker rest slots), book'))
        × Filled book book' slots
  unfolding apply_slots
  apply_slots-Filled [] [] book d apart offered w = (
    book,
    refl,
    record { moved = omega arith; distinct = d; none_new = λ c h. h; frame = SameFrame-refl book },
  )
  apply_slots-Filled [] (slot ∷ slots) book d apart offered w = absurd w
  apply_slots-Filled (r ∷ rest) [] book d apart offered w = absurd w
  apply_slots-Filled (r ∷ rest) (slot ∷ slots) book d apart offered w =
      elim (Bool-cases slot.matched) [
        | inr skipped ↦
            let (book', e, f) = apply_slots-Filled rest slots book d apart.1 offered.1 w.1 in
            (
              book',
              rw (skipped, e),
              record {
                moved = omega (arith, f.moved, w.0.1 skipped);
                distinct = f.distinct;
                none_new = f.none_new;
                frame = f.frame;
              },
            )
        | inl matched ↦
            let (o, found, has) = offered.0 in
            let left = r.quantity - slot.trade_quantity in
            let (middle, e1, done) =
              change_remainder-Done r.commitment left book
                (holds_of_lookup r.commitment (view book) o found) in
            let distinct : IsDistinct (view middle) =
              rw done.orders_now (changed-IsDistinct r.commitment left (view book) d) in
            let still : All (Offered (view middle)) rest =
              rw done.orders_now
                (Offered-changed r.commitment left (view book) rest apart.0 offered.1) in
            let (book', e2, f) = apply_slots-Filled rest slots middle distinct apart.1 still w.1 in
            let change : resting_quantity (view middle) + o.remaining
                ≡ resting_quantity (view book) + left =
              rw done.orders_now (quantity-changed r.commitment left (view book) o found) in
            (
              book',
              rw (matched, le→ltb_false r.quantity slot.trade_quantity w.0.0, e1, e2),
              record {
                moved = omega (arith, f.moved, change, has, w.0.0);
                distinct = f.distinct;
                none_new = λ c h.
                    f.none_new c
                      (rw done.orders_now (holds-changed_absent r.commitment left c (view book) h));
                frame = SameFrame-trans done.frame f.frame;
              },
            )
      ]
