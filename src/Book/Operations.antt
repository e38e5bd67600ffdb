-- ===== src/Book/Operations.antt =====
-- The steps that the commands of the book are made of: admission, the fill of the best order or of a
-- batch's slots, removals, and the order that rests.
pub mod Transitions
use mathlib.Core.List.{reverse}
use oclob.Base.{
  ℕ, ◌+◌, ◌-◌, ◌%◌, Bool, true, false, not, ◌&&◌, ◌||◌, Option, none, some, List, [], ◌∷◌, ◌++◌,
  Result, ok, err, reject_if, ok_or, checked_add, contains, set_insert, is_empty, be_bytes,
  bytes_eq, u64_bound, ltb, leb, ◌==◌, ◌!=◌, if◌then◌else◌,
}
use oclob.Crypto.{Primitives, Digest32, codes}
use oclob.Order.{Side, OrderError, SecretOrder, is_gtc, cancellation_digest}
use oclob.Order.Authority.{OrderCommitment, OrderAuthority, verify_authority}
use oclob.Matching.{PrivateRestingInput, MpcSlotResult, MpcBatchResult, expected_batch}
use oclob.Matching.Equality.{batch_result_eq}
use oclob.Book.Store.{
  RestingOrder, Queue, Levels, PrivateBook, order_commitment, insert_record, update_remainder,
  remove_by_commitment, find_record,
}
use oclob.Book.Action.{Action, pure, reads, gets, modify, fail_if, ◌>>=◌, ◌>>◌}
use oclob.Book.Roots.{public_snapshot, private_root, expiry_commitment}
use oclob.Book.Queries.{
  private_match_batch, best_opposite, MpcMatchResult, match_result_eq, expected_result,
  expired_commitments,
}
use Transitions.{
  PublicFill, BookTransition, SecretCancellation, CancellationTransition, ExpiryTransition,
  cancellation_commitment,
}

abbrev pub next_sequence : PrivateBook → ℕ
next_sequence book = (book.sequence + 1) % u64_bound

abbrev pub not_next : OrderError
not_next = OrderError.invalid "certificate sequence is not next"

unfoldable pub check_admission :
    SecretOrder → OrderCommitment → ℕ → PrivateBook → Result (Unit {0}) OrderError
check_admission order commitment certificate_sequence book =
    if not (bytes_eq order.market_id book.market_id)
    then err OrderError.wrong_market
    else if contains commitment book.admitted
    then err OrderError.replay
    else if certificate_sequence != next_sequence book
    then err not_next
    else ok tt

-- `self.admitted.insert(command); self.sequence = certificate_sequence`
unfoldable pub admit : OrderCommitment → ℕ → PrivateBook → PrivateBook
admit commitment certificate_sequence book = record book {
  admitted = set_insert commitment book.admitted;
  sequence = certificate_sequence;
}

-- What remains of an arriving order rests if the order is good till cancelled.
unfoldable pub rest_remainder : SecretOrder → OrderAuthority → ℕ → ℕ → PrivateBook → PrivateBook
unfolding insert_record
rest_remainder arriving authority certificate_sequence remaining book =
    if ltb 0 remaining && is_gtc arriving.time_in_force
    then insert_record
        (record {
          secret = arriving;
          authority = authority;
          remaining = remaining;
          sequence = certificate_sequence;
        })
        book
    else book

abbrev pop_front : Queue → Queue
pop_front [] = []
pop_front (o ∷ queue) = queue

abbrev remove_front : Levels → Levels
remove_front [] = []
remove_front ((price, queue) ∷ levels) =
    if is_empty (pop_front queue) then levels else (price, pop_front queue) ∷ levels

abbrev set_front : ℕ → Levels → Levels
set_front remaining [] = []
set_front remaining ((price, []) ∷ levels) = (price, []) ∷ levels
set_front remaining ((price, o ∷ queue) ∷ levels) =
    (price, record o { remaining = remaining } ∷ queue) ∷ levels

-- `remove_best`, and the assignment through `best_opposite_mut`.
unfoldable pub remove_best : Side → PrivateBook → PrivateBook
remove_best Side.buy book = record book { asks = remove_front book.asks }
remove_best Side.sell book = record book { bids = reverse (remove_front (reverse book.bids)) }

unfoldable pub set_best : Side → ℕ → PrivateBook → PrivateBook
set_best Side.buy remaining book = record book { asks = set_front remaining book.asks }
set_best Side.sell remaining book = record book {
  bids = reverse (set_front remaining (reverse book.bids));
}

unfoldable pub apply_fill :
    SecretOrder → OrderCommitment → MpcMatchResult → Action (Option PublicFill)
unfolding best_opposite remove_best set_best
apply_fill arriving taker result =
    if result.matched
    then (do
      resting ←
          reads (λ book. ok_or (best_opposite book arriving.side) OrderError.invalid_mpc_result)
      modify (
          if result.resting_remaining == 0
          then remove_best arriving.side
          else set_best arriving.side result.resting_remaining)
      pure (
          some (record {
            maker_order = order_commitment resting;
            taker_order = taker;
            price = result.trade_price;
            quantity = result.trade_quantity;
          })))
    else pure none

abbrev pub optional_list : Option PublicFill → List PublicFill
optional_list none = []
optional_list (some fill) = fill ∷ []

abbrev pub first : List PublicFill → Option PublicFill
first [] = none
first (fill ∷ fills) = some fill

-- `update_remainder` on the book's two sides.
unfoldable pub change_remainder : OrderCommitment → ℕ → Action (Unit {0})
unfolding update_remainder
change_remainder commitment remaining book =
    elim (update_remainder book.bids book.asks commitment remaining) [
      | ok (bids', asks') ↦ (ok tt, record book { bids = bids'; asks = asks' })
      | err e ↦ (err e, book)
    ]

unfoldable pub remove_order : OrderCommitment → Action (Unit {0})
unfolding remove_by_commitment
remove_order commitment book = elim (remove_by_commitment book.bids book.asks commitment) [
  | ok (bids', asks') ↦ (ok tt, record book { bids = bids'; asks = asks' })
  | err e ↦ (err e, book)
]

-- The loop of `apply_mpc_batch_result` over the batch and the published slots.
unfoldable pub apply_slots :
    OrderCommitment → List PrivateRestingInput → List MpcSlotResult → Action (List PublicFill)
apply_slots taker [] slots = pure []
apply_slots taker (resting ∷ rest) [] = pure []
apply_slots taker (resting ∷ rest) (slot ∷ slots) =
    let later = apply_slots taker rest slots in
    if slot.matched
    then (do
      fail_if (ltb resting.quantity slot.trade_quantity) OrderError.invalid_mpc_result
      change_remainder resting.commitment (resting.quantity - slot.trade_quantity)
      fills ← later
      pure (
          record {
            maker_order = resting.commitment;
            taker_order = taker;
            price = slot.trade_price;
            quantity = slot.trade_quantity;
          }
          ∷ fills))
    else later

-- The loop of `apply_expiry`: each order is found, counted and removed.
unfoldable pub release_orders : List OrderCommitment → ℕ → Action ℕ
unfolding remove_order find_record
release_orders [] released = pure released
release_orders (commitment ∷ commitments) released = do
  o ← reads (λ book. ok_or (find_record book.bids book.asks commitment) OrderError.unknown_order)
  released' ← reads (λ book.
      ok_or (checked_add released o.remaining) (OrderError.invalid "expired quantity overflowed"))
  remove_order commitment
  release_orders commitments released'
