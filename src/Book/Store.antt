-- ===== src/Book/Store.antt =====
-- The book's two sides, maps from a price to the queue of resting orders at that price, and the
-- functions that insert, find, change and remove a resting order.
use oclob.Base.{
  ℕ, ◌||◌, Option, none, some, List, [], ◌∷◌, ◌++◌, Result, ok, err, ◌>>◌, reject_if, map_err,
  BTreeMap, upsert, is_empty, length, find, ltb, ◌==◌, if◌then◌else◌,
}
use oclob.Order.{Side, OrderError, SecretOrder}
use oclob.Order.Authority.{OrderCommitment, OrderAuthority}

pub record RestingOrder : Type 0 where
  pub secret : SecretOrder
  pub authority : OrderAuthority
  pub remaining : ℕ
  pub sequence : ℕ

abbrev pub Queue : Type 0
Queue = List RestingOrder

abbrev pub Levels : Type 0
Levels = BTreeMap Queue

pub record PrivateBook : Type 0 where
  pub market_id : List ℕ
  pub sequence : ℕ
  pub bids : Levels
  pub asks : Levels
  pub admitted : List OrderCommitment

abbrev pub order_commitment : RestingOrder → OrderCommitment
order_commitment o = o.authority.commitment

-- `PrivateBook::new`
unfoldable pub new_book : List ℕ → Result PrivateBook OrderError
new_book market_id = do
  reject_if (is_empty market_id || ltb 64 (length market_id))
      (OrderError.invalid "market id must contain 1-64 bytes")
  ok (record { market_id = market_id; sequence = 0; bids = []; asks = []; admitted = [] })

abbrev pub push_back : RestingOrder → Queue → Queue
push_back o queue = queue ++ o ∷ []

abbrev pub push_record : RestingOrder → Levels → Levels
push_record o = upsert o.secret.limit_price [] (push_back o)

abbrev pub insert_on : Side → RestingOrder → PrivateBook → PrivateBook
insert_on Side.buy o book = record book { bids = push_record o book.bids }
insert_on Side.sell o book = record book { asks = push_record o book.asks }

-- `PrivateBook::insert_record`
unfoldable pub insert_record : RestingOrder → PrivateBook → PrivateBook
insert_record o book = insert_on o.secret.side o book

-- `queue.remove(index)` or `queue[index].remaining = remaining` at the first order that has the
-- commitment.
unfoldable pub update_queue : OrderCommitment → ℕ → Queue → Option Queue
update_queue commitment remaining [] = none
update_queue commitment remaining (o ∷ queue) =
    let rest = update_queue commitment remaining queue in
    if order_commitment o == commitment
    then some (if remaining == 0 then queue else record o { remaining = remaining } ∷ queue)
    else elim rest [ none ↦ none | some queue' ↦ some (o ∷ queue') ]

-- One side of `update_remainder`: the first level that holds the order, which goes when it is
-- empty.
unfoldable pub update_levels : OrderCommitment → ℕ → Levels → Option Levels
unfolding update_queue
update_levels commitment remaining [] = none
update_levels commitment remaining ((price, queue) ∷ levels) =
    let rest = update_levels commitment remaining levels in
    elim (update_queue commitment remaining queue) [
      | some queue' ↦ some (if is_empty queue' then levels else (price, queue') ∷ levels)
      | none ↦ elim rest [ none ↦ none | some levels' ↦ some ((price, queue) ∷ levels') ]
    ]

unfoldable pub update_remainder :
    Levels → Levels → OrderCommitment → ℕ → Result (Levels × Levels) OrderError
unfolding update_levels
update_remainder bids asks commitment remaining = elim (update_levels commitment remaining bids) [
  | some bids' ↦ ok (bids', asks)
  | none ↦ elim (update_levels commitment remaining asks) [
    | some asks' ↦ ok (bids, asks')
    | none ↦ err OrderError.invalid_mpc_result
  ]
]

unfoldable pub remove_by_commitment :
    Levels → Levels → OrderCommitment → Result (Levels × Levels) OrderError
unfolding update_remainder
remove_by_commitment bids asks commitment =
    map_err (update_remainder bids asks commitment 0) (λ _. OrderError.unknown_order)

-- `book.values().flat_map(|queue| queue.iter())`
abbrev pub orders_of : Levels → List RestingOrder
orders_of [] = []
orders_of ((price, queue) ∷ levels) = queue ++ orders_of levels

-- All resting orders, bids first, each side from its lowest price.
abbrev pub all_orders : Levels → Levels → List RestingOrder
all_orders bids asks = orders_of bids ++ orders_of asks

unfoldable pub find_record : Levels → Levels → OrderCommitment → Option RestingOrder
find_record bids asks commitment =
    find (λ o. order_commitment o == commitment) (all_orders bids asks)
