-- ===== src/Book/Inserted.antt =====
-- What one more order, anywhere in a list, changes.
use oclob.Base.{◌+◌, ◌≡◌, false, ◌||◌, ◌==◌, List, [], ◌∷◌, ◌++◌, arith, All, All-append}
use oclob.Order.Authority.{OrderCommitment}
use oclob.Book.Store.{RestingOrder, order_commitment}
use oclob.Book.Flat.{holds, holds-append, Inserts}
use oclob.Book.Orders.{
  IsDistinct, resting_quantity, append-IsDistinct, IsDistinct-append, Apart-symm,
}

quantity-append :
    (xs ys : List RestingOrder)
    → resting_quantity (xs ++ ys) ≡ resting_quantity xs + resting_quantity ys
quantity-append [] ys = omega arith
quantity-append (x ∷ xs) ys = omega (arith, quantity-append xs ys)

pub All-split {κ} :
    (P : RestingOrder → Type κ) (xs ys : List RestingOrder) → All P (xs ++ ys) → All P xs × All P ys
All-split P [] ys h = (tt, h)
All-split P (x ∷ xs) ys h = let (a, b) = All-split P xs ys h.1 in ((h.0, a), b)

module _ (o : RestingOrder) {orders orders' : List RestingOrder} where
  pub quantity-Inserts :
      Inserts o orders orders' → resting_quantity orders' ≡ resting_quantity orders + o.remaining
  quantity-Inserts (before, after, e, e') =
      rw (e, e') (omega (arith, quantity-append before after, quantity-append before (o ∷ after)))

  pub All-Inserts :
      (P : RestingOrder → Type 0) → Inserts o orders orders' → P o → All P orders → All P orders'
  All-Inserts P (before, after, e, e') p h =
      let (a, b) = All-split P before after (rw e at h) in
      rw e' (All-append P before (o ∷ after) a (p, b))

  pub IsDistinct-Inserts :
      Inserts o orders orders'
      → holds (order_commitment o) orders ≡ false
      → IsDistinct orders
      → IsDistinct orders'
  IsDistinct-Inserts (before, after, e, e') fresh h =
      let (a, b, apart) = IsDistinct-append before after (rw e at h) in
      let split = holds-append (order_commitment o) before after in
      let fresh' : holds (order_commitment o) (before ++ after) ≡ false = rw e at fresh in
      let in_before : holds (order_commitment o) before ≡ false = ground (arith, split) in
      let in_after : holds (order_commitment o) after ≡ false = ground (arith, split) in
      rw e' (
        append-IsDistinct before (o ∷ after) a (in_after, b)
          (Apart-symm (o ∷ after) before (in_before, Apart-symm before after apart)))

  pub holds-Inserts :
      (c : OrderCommitment)
      → Inserts o orders orders'
      → holds c orders' ≡ (order_commitment o == c || holds c orders)
  holds-Inserts c (before, after, e, e') =
      rw (e, e') (ground (arith, holds-append c before after, holds-append c before (o ∷ after)))
