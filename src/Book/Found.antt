-- ===== src/Book/Found.antt =====
-- The opposite side of the book, in the order of matching, holds orders that are found in the
-- whole book by their commitments.
use mathlib.Core.List.{reverse, reverse-append}
use oclob.Base.{
  ℕ, ◌≡◌, refl, Bool, false, some, List, [], ◌∷◌, ◌++◌, arith, All, All-append, append_assoc,
  append-nil, keep,
}
use oclob.Order.{Side}
use oclob.Book.Store.{RestingOrder, Queue, Levels, PrivateBook, order_commitment, orders_of}
use oclob.Book.Flat.{holds, lookup, view}
use oclob.Book.Orders.{IsDistinct, append-IsDistinct, IsDistinct-append, Apart-symm}
use oclob.Book.Inserted.{All-split}
use oclob.Book.Queries.{opposite_orders}

-- Every order of the second list is found in the first.
abbrev pub AllFound : List RestingOrder → List RestingOrder → Type 0
AllFound orders part = All (λ o. lookup (order_commitment o) orders ≡ some o) part

found_later :
    (x : RestingOrder) (orders part : List RestingOrder)
    → holds (order_commitment x) part ≡ false
    → AllFound orders part
    → AllFound (x ∷ orders) part
found_later x orders [] h f = tt
found_later x orders (o ∷ part) h f = (ground arith, found_later x orders part (ground arith) f.1)

pub IsDistinct-AllFound : (orders : List RestingOrder) → IsDistinct orders → AllFound orders orders
IsDistinct-AllFound [] h = tt
IsDistinct-AllFound (o ∷ orders) h =
    (ground arith, found_later o orders orders h.0 (IsDistinct-AllFound orders h.1))

pub All-keep :
    (P : RestingOrder → Type 0) (p : RestingOrder → Bool) (orders : List RestingOrder)
    → All P orders
    → All P (keep p orders)
All-keep P p [] h = tt
All-keep P p (o ∷ orders) h = ground (arith, All-keep P p orders h.1)

orders_of-append : (xs ys : Levels) → orders_of (xs ++ ys) ≡ orders_of xs ++ orders_of ys
orders_of-append [] ys = refl
orders_of-append ((price, queue) ∷ xs) ys =
    rw (orders_of-append xs ys, append_assoc queue (orders_of xs) (orders_of ys))

-- Reversing the levels puts a level's queue behind the others, in its own order.
orders_of-reverse :
    (price : ℕ) (queue : Queue) (levels : Levels)
    → orders_of (reverse ((price, queue) ∷ levels)) ≡ orders_of (reverse levels) ++ queue
orders_of-reverse price queue levels = rw (
  reverse-append ((price, queue) ∷ []) levels,
  orders_of-append (reverse levels) ((price, queue) ∷ []),
  append-nil queue,
)

All-reverse_levels :
    (P : RestingOrder → Type 0) (levels : Levels)
    → All P (orders_of levels)
    → All P (orders_of (reverse levels))
All-reverse_levels P [] h = h
All-reverse_levels P ((price, queue) ∷ levels) h =
    let (a, b) = All-split P queue (orders_of levels) h in
    rw (orders_of-reverse price queue levels)
      (All-append P (orders_of (reverse levels)) queue (All-reverse_levels P levels b) a)

reverse_levels-IsDistinct :
    (levels : Levels) → IsDistinct (orders_of levels) → IsDistinct (orders_of (reverse levels))
reverse_levels-IsDistinct [] h = h
reverse_levels-IsDistinct ((price, queue) ∷ levels) h =
    let (a, b, apart) = IsDistinct-append queue (orders_of levels) h in
    rw (orders_of-reverse price queue levels) (
      append-IsDistinct (orders_of (reverse levels)) queue (reverse_levels-IsDistinct levels b) a (
        All-reverse_levels (λ o. holds (order_commitment o) queue ≡ false) levels
          (Apart-symm queue (orders_of levels) apart)))

module _ (book : PrivateBook) (distinct : IsDistinct (view book)) where
  pub opposite_orders-AllFound : (side : Side) → AllFound (view book) (opposite_orders book side)
  unfolding opposite_orders
  opposite_orders-AllFound side =
      let (bids, asks) =
        All-split (λ o. lookup (order_commitment o) (view book) ≡ some o) (orders_of book.bids)
          (orders_of book.asks) (IsDistinct-AllFound (view book) distinct) in
      by_side side bids asks
    where
      by_side :
          (side : Side)
          → AllFound (view book) (orders_of book.bids)
          → AllFound (view book) (orders_of book.asks)
          → AllFound (view book) (opposite_orders book side)
      by_side Side.buy bids asks = asks
      by_side Side.sell bids asks = All-reverse_levels _ book.bids bids

  pub opposite_orders-IsDistinct : (side : Side) → IsDistinct (opposite_orders book side)
  unfolding opposite_orders
  opposite_orders-IsDistinct Side.buy =
      (IsDistinct-append (orders_of book.bids) (orders_of book.asks) distinct).1
  opposite_orders-IsDistinct Side.sell =
      reverse_levels-IsDistinct book.bids
        (IsDistinct-append (orders_of book.bids) (orders_of book.asks) distinct).0
