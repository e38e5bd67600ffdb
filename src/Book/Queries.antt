-- ===== src/Book/Queries.antt =====
-- What the book answers without changing: the batch for a round of matching, the capacity test,
-- the best opposite order with the single-slot reference result, and the expired orders.
use mathlib.Core.List.{reverse}
use oclob.Base.{
  ℕ, ◌+◌, ◌-◌, Bool, true, false, not, ◌&&◌, ◌||◌, Option, none, some, List, [], ◌∷◌, Result, ok,
  ◌>>◌, reject_if, map, keep, take, min, ltb, leb, ◌==◌, bytes_eq, bool_eq, if◌then◌else◌,
}
use oclob.Order.{Side, OrderError, SecretOrder, max_match_slots, is_gtc}
use oclob.Order.Authority.{OrderCommitment}
use oclob.Matching.{PrivateRestingInput, PrivateMatchBatch, crosses}
use oclob.Book.Store.{
  RestingOrder, Queue, Levels, PrivateBook, order_commitment, orders_of, all_orders,
}
use oclob.Book.Roots.{sort_commitments}

-- The resting orders on the other side, best price first and in arrival order at each price.
unfoldable pub opposite_orders : PrivateBook → Side → List RestingOrder
opposite_orders book Side.buy = orders_of book.asks
opposite_orders book Side.sell = orders_of (reverse book.bids)

abbrev pub is_live : ℕ → RestingOrder → Bool
is_live now o = leb now o.secret.expires_at

abbrev pub to_resting_input : RestingOrder → PrivateRestingInput
to_resting_input o = record {
  commitment = order_commitment o;
  side = o.secret.side;
  price = o.secret.limit_price;
  quantity = o.remaining;
}

abbrev pub to_resting_inputs : List RestingOrder → List PrivateRestingInput
to_resting_inputs [] = []
to_resting_inputs (o ∷ orders) = to_resting_input o ∷ to_resting_inputs orders

-- The batch that `private_match_batch` builds for an order of this market.
unfoldable pub batch_of : PrivateBook → SecretOrder → ℕ → PrivateMatchBatch
unfolding opposite_orders
batch_of book arriving now = record {
  resting =
      to_resting_inputs
        (take max_match_slots (keep (is_live now) (opposite_orders book arriving.side)));
  arriving_side = arriving.side;
  arriving_price = arriving.limit_price;
  arriving_quantity = arriving.quantity;
  arriving_can_rest = is_gtc arriving.time_in_force;
}

unfoldable pub private_match_batch :
    PrivateBook → SecretOrder → ℕ → Result PrivateMatchBatch OrderError
private_match_batch book arriving now = do
  reject_if (not (bytes_eq arriving.market_id book.market_id)) OrderError.wrong_market
  ok (batch_of book arriving now)

-- The loop of `exceeds_fixed_match_capacity`.
capacity_exceeded : SecretOrder → ℕ → ℕ → List RestingOrder → Bool
capacity_exceeded arriving remaining matches [] = false
capacity_exceeded arriving remaining matches (resting ∷ orders) =
    let more =
      capacity_exceeded arriving (remaining - min remaining resting.remaining) (matches + 1)
        orders in
    if not (crosses arriving.side arriving.limit_price resting.secret.limit_price) || remaining == 0
    then false
    else if ltb max_match_slots (matches + 1)
    then true
    else more

unfoldable pub exceeds_fixed_match_capacity : PrivateBook → SecretOrder → ℕ → Bool
unfolding capacity_exceeded opposite_orders
exceeds_fixed_match_capacity book arriving now =
    capacity_exceeded arriving arriving.quantity 0
      (keep (is_live now) (opposite_orders book arriving.side))

abbrev pub front : Queue → Option RestingOrder
front [] = none
front (o ∷ queue) = some o

-- The front of the first level, and of the last.
abbrev pub front_of_first : Levels → Option RestingOrder
front_of_first [] = none
front_of_first ((price, queue) ∷ levels) = front queue

unfoldable pub best_opposite : PrivateBook → Side → Option RestingOrder
best_opposite book Side.buy = front_of_first book.asks
best_opposite book Side.sell = front_of_first (reverse book.bids)

-- `PrivateMatchInput`
pub record PrivateMatchInput : Type 0 where
  pub resting_side : Side
  pub resting_price : ℕ
  pub resting_quantity : ℕ
  pub arriving_side : Side
  pub arriving_price : ℕ
  pub arriving_quantity : ℕ

unfoldable pub private_match_input :
    PrivateBook → SecretOrder → Result (Option PrivateMatchInput) OrderError
unfolding best_opposite
private_match_input book arriving = do
  reject_if (not (bytes_eq arriving.market_id book.market_id)) OrderError.wrong_market
  ok (elim (best_opposite book arriving.side) [
    | none ↦ none
    | some resting ↦ some (record {
      resting_side = resting.secret.side;
      resting_price = resting.secret.limit_price;
      resting_quantity = resting.remaining;
      arriving_side = arriving.side;
      arriving_price = arriving.limit_price;
      arriving_quantity = arriving.quantity;
    })
  ])

-- `MpcMatchResult`
pub record MpcMatchResult : Type 0 where
  pub matched : Bool
  pub trade_price : ℕ
  pub trade_quantity : ℕ
  pub resting_remaining : ℕ
  pub arriving_remaining : ℕ

abbrev pub match_result_eq : MpcMatchResult → MpcMatchResult → Bool
match_result_eq a b =
    bool_eq a.matched b.matched
    && (a.trade_price == b.trade_price
        && (a.trade_quantity == b.trade_quantity
            && (a.resting_remaining == b.resting_remaining
                && a.arriving_remaining == b.arriving_remaining)))

unfoldable pub result_against : SecretOrder → Option RestingOrder → MpcMatchResult
result_against arriving none = record {
  matched = false;
  trade_price = 0;
  trade_quantity = 0;
  resting_remaining = 0;
  arriving_remaining = arriving.quantity;
}
result_against arriving (some resting) =
    let crossed = crosses arriving.side arriving.limit_price resting.secret.limit_price in
    let quantity = if crossed then min arriving.quantity resting.remaining else 0 in
    record {
      matched = crossed;
      trade_price = if crossed then resting.secret.limit_price else 0;
      trade_quantity = quantity;
      resting_remaining = resting.remaining - quantity;
      arriving_remaining = arriving.quantity - quantity;
    }

unfoldable pub expected_result : PrivateBook → SecretOrder → MpcMatchResult
unfolding best_opposite result_against
expected_result book arriving = result_against arriving (best_opposite book arriving.side)

abbrev pub is_expired : ℕ → RestingOrder → Bool
is_expired cutoff o = ltb o.secret.expires_at cutoff

unfoldable pub expired_commitments : PrivateBook → ℕ → List OrderCommitment
unfolding sort_commitments
expired_commitments book cutoff =
    sort_commitments
      (map order_commitment (keep (is_expired cutoff) (all_orders book.bids book.asks)))
