-- ===== src/Book/Flat.antt =====
-- The book as one list of resting orders, and how the functions on levels and queues act on it:
-- which level holds an order, and when a level goes, cannot be seen there.
use Prim.Native.Nat.{compare, Ordering}
use oclob.Base.{
  ℕ, ◌≡◌, refl, Bool, true, false, ◌||◌, Option, none, some, Result, List, [], ◌∷◌, ◌++◌, ok, err,
  arith, find, is_empty, append_assoc, sym, ◌==◌, if◌then◌else◌,
}
use oclob.Order.{Side, OrderError}
use oclob.Order.Authority.{OrderCommitment}
use oclob.Book.Store.{
  RestingOrder, Queue, Levels, PrivateBook, order_commitment, update_queue, update_levels,
  update_remainder, orders_of, all_orders, push_record, push_back, insert_record, insert_on,
}

abbrev pub holds : OrderCommitment → List RestingOrder → Bool
holds c [] = false
holds c (o ∷ orders) = order_commitment o == c || holds c orders

-- The first order with the commitment gets a new remainder, and goes if that is 0.
abbrev pub changed : OrderCommitment → ℕ → List RestingOrder → List RestingOrder
changed c remaining [] = []
changed c remaining (o ∷ orders) =
    if order_commitment o == c
    then (if remaining == 0 then orders else record o { remaining = remaining } ∷ orders)
    else o ∷ changed c remaining orders

abbrev pub view : PrivateBook → List RestingOrder
view book = all_orders book.bids book.asks

abbrev pub lookup : OrderCommitment → List RestingOrder → Option RestingOrder
lookup c orders = find (λ o. order_commitment o == c) orders

pub holds-append :
    (c : OrderCommitment) (xs ys : List RestingOrder)
    → holds c (xs ++ ys) ≡ (holds c xs || holds c ys)
holds-append c [] ys = refl
holds-append c (x ∷ xs) ys = ground (arith, holds-append c xs ys)

changed-append :
    (c : OrderCommitment) (r : ℕ) (xs ys : List RestingOrder)
    → changed c r (xs ++ ys) ≡ (if holds c xs then changed c r xs ++ ys else xs ++ changed c r ys)
changed-append c r [] ys = refl
changed-append c r (x ∷ xs) ys = ground (arith, changed-append c r xs ys)

update_queue-changed :
    (c : OrderCommitment) (r : ℕ) (queue : Queue)
    → update_queue c r queue ≡ (if holds c queue then some (changed c r queue) else none)
unfolding update_queue
update_queue-changed c r [] = refl
update_queue-changed c r (o ∷ queue) = ground (arith, update_queue-changed c r queue)

-- What an attempt to update some levels shows of the orders in them.
abbrev Updates : OrderCommitment → ℕ → Levels → Option Levels → Type 0
Updates c r levels none = holds c (orders_of levels) ≡ false
Updates c r levels (some levels') =
    (holds c (orders_of levels) ≡ true) × (orders_of levels' ≡ changed c r (orders_of levels))

orders_of_level :
    (price : ℕ) (queue : Queue) (levels : Levels)
    → orders_of (if is_empty queue then levels else (price, queue) ∷ levels)
      ≡ queue ++ orders_of levels
orders_of_level price [] levels = refl
orders_of_level price (o ∷ queue) levels = refl

later_level :
    (c : OrderCommitment) (r price : ℕ) (queue : Queue) (levels : Levels) (found : Option Levels)
    → holds c queue ≡ false
    → Updates c r levels found
    → Updates c r
        ((price, queue) ∷ levels)
        (elim found [ none ↦ none | some levels' ↦ some ((price, queue) ∷ levels') ])
later_level c r price queue levels none absent h = rw (holds-append, absent) h
later_level c r price queue levels (some levels') absent h =
    (rw (holds-append, absent) h.0, rw (changed-append, absent, h.1))

-- One step of `update_levels`, by what its first queue gives.
first_level :
    (c : OrderCommitment) (r price : ℕ) (queue : Queue) (levels : Levels) (found : Option Queue)
    → found ≡ (if holds c queue then some (changed c r queue) else none)
    → Updates c r levels (update_levels c r levels)
    → Updates c r ((price, queue) ∷ levels) (elim found [
      | some queue' ↦ some (if is_empty queue' then levels else (price, queue') ∷ levels)
      | none ↦ elim (update_levels c r levels) [
        | none ↦ none
        | some levels' ↦ some ((price, queue) ∷ levels')
      ]
    ])
first_level c r price queue levels none e ih =
    let absent : holds c queue ≡ false = ground arith in
    later_level c r price queue levels (update_levels c r levels) absent ih
first_level c r price queue levels (some queue') e ih =
    let here : holds c queue ≡ true = ground arith in
    let new : queue' ≡ changed c r queue = ground arith in
    (rw (holds-append, here), rw (orders_of_level price queue' levels, new, changed-append, here))

update_levels-Updates :
    (c : OrderCommitment) (r : ℕ) (levels : Levels) → Updates c r levels (update_levels c r levels)
unfolding update_levels
update_levels-Updates c r [] = refl
update_levels-Updates c r ((price, queue) ∷ levels) =
    first_level c r price queue levels (update_queue c r queue) (update_queue-changed c r queue)
      (update_levels-Updates c r levels)

-- What `update_remainder` does to all the orders, bids and asks.
abbrev pub Remainder :
    OrderCommitment → ℕ → Levels → Levels → Result (Levels × Levels) OrderError → Type 0
Remainder c r bids asks (ok (bids', asks')) =
    (holds c (all_orders bids asks) ≡ true)
    × (all_orders bids' asks' ≡ changed c r (all_orders bids asks))
Remainder c r bids asks (err e) =
    (holds c (all_orders bids asks) ≡ false) × (e ≡ OrderError.invalid_mpc_result)

in_asks :
    (c : OrderCommitment) (r : ℕ) (bids asks : Levels) (found : Option Levels)
    → holds c (orders_of bids) ≡ false
    → Updates c r asks found
    → Remainder c r bids asks
        (elim found [ some asks' ↦ ok (bids, asks') | none ↦ err OrderError.invalid_mpc_result ])
in_asks c r bids asks none absent h = (rw (holds-append, absent) h, refl)
in_asks c r bids asks (some asks') absent h =
    (rw (holds-append, absent) h.0, rw (changed-append, absent, h.1))

in_bids :
    (c : OrderCommitment) (r : ℕ) (bids asks : Levels) (found : Option Levels)
    → Updates c r bids found
    → Remainder c r bids asks (elim found [
      | some bids' ↦ ok (bids', asks)
      | none ↦ elim (update_levels c r asks) [
        | some asks' ↦ ok (bids, asks')
        | none ↦ err OrderError.invalid_mpc_result
      ]
    ])
in_bids c r bids asks none h =
    in_asks c r bids asks (update_levels c r asks) h (update_levels-Updates c r asks)
in_bids c r bids asks (some bids') h = (rw (holds-append, h.0), rw (changed-append, h.0, h.1))

pub update_remainder-Remainder :
    (c : OrderCommitment) (r : ℕ) (bids asks : Levels)
    → Remainder c r bids asks (update_remainder bids asks c r)
unfolding update_remainder
update_remainder-Remainder c r bids asks =
    in_bids c r bids asks (update_levels c r bids) (update_levels-Updates c r bids)

-- `orders'` is `orders` with one more order somewhere.
abbrev pub Inserts : RestingOrder → List RestingOrder → List RestingOrder → Type 0
Inserts o orders orders' =
    (before : List RestingOrder) × (after : List RestingOrder) × (orders ≡ before ++ after)
    × (orders' ≡ before ++ o ∷ after)

-- One step of `upsert`, by how the new price compares with the level's.
push_step :
    (order : Ordering) (o : RestingOrder) (price : ℕ) (queue : Queue) (levels rest : Levels)
    → Inserts o (orders_of levels) (orders_of rest)
    → Inserts o (queue ++ orders_of levels) (
        orders_of (elim order [
          | Ordering.lt ↦ (o.secret.limit_price, push_back o []) ∷ (price, queue) ∷ levels
          | Ordering.eq ↦ (price, push_back o queue) ∷ levels
          | Ordering.gt ↦ (price, queue) ∷ rest
        ]))
push_step Ordering.lt o price queue levels rest h = ([], queue ++ orders_of levels, refl, refl)
push_step Ordering.eq o price queue levels rest h =
    (queue, orders_of levels, refl, append_assoc queue (o ∷ []) (orders_of levels))
push_step Ordering.gt o price queue levels rest (before, after, e, e') = (
  queue ++ before,
  after,
  rw e (sym (append_assoc queue before after)),
  rw e' (sym (append_assoc queue before (o ∷ after))),
)

push_record-Inserts :
    (o : RestingOrder) (levels : Levels)
    → Inserts o (orders_of levels) (orders_of (push_record o levels))
push_record-Inserts o [] = ([], [], refl, refl)
push_record-Inserts o ((price, queue) ∷ levels) =
    push_step (compare o.secret.limit_price price) o price queue levels (push_record o levels)
      (push_record-Inserts o levels)

-- A new resting order joins the others, which keep their order.
pub insert_record-Inserts :
    (o : RestingOrder) (book : PrivateBook) → Inserts o (view book) (view (insert_record o book))
unfolding insert_record
insert_record-Inserts o book = on_side o.secret.side
  where
    on_side : (side : Side) → Inserts o (view book) (view (insert_on side o book))
    on_side Side.buy =
        let (before, after, e, e') = push_record-Inserts o book.bids in
        (
          before,
          after ++ orders_of book.asks,
          rw e (append_assoc before after (orders_of book.asks)),
          rw e' (append_assoc before (o ∷ after) (orders_of book.asks)),
        )
    on_side Side.sell =
        let (before, after, e, e') = push_record-Inserts o book.asks in
        (
          orders_of book.bids ++ before,
          after,
          rw e (sym (append_assoc (orders_of book.bids) before after)),
          rw e' (sym (append_assoc (orders_of book.bids) before (o ∷ after))),
        )
