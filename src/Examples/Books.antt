-- ===== src/Examples/Books.antt =====
-- A book with a bid and two asks: a batch that fills both asks, an insertion, a cancellation and
-- an expiry.
use oclob.Base.{ℕ, ◌≡◌, refl, false, [], ◌∷◌, some, ok, err, arith, contains, is_empty, be_bytes}
use oclob.Order.{put_bytes, OrderError, SecretOrder, cancellation_digest}
use oclob.Order.Authority.{OrderCommitment, commitment_of}
use oclob.Order.Wire.{canonical_payload}
use oclob.Matching.{MpcBatchResult, expected_batch}
use oclob.Book.Store.{RestingOrder, PrivateBook}
use oclob.Book.Roots.{expiry_commitment}
use oclob.Book.Queries.{batch_of, expired_commitments}
use oclob.Book.Invariant.{IsBook, Succeeds}
use oclob.Book.Operations.{check_admission}
use oclob.Book.Commands.{insert_resting, apply_mpc_batch_result, apply_cancellation, apply_expiry}
use oclob.Book.Operations.Transitions.{SecretCancellation, cancellation_commitment}
use oclob.Book.Batch.{Matched, apply_mpc_batch_result-expected, apply_mpc_batch_result-other}
use oclob.Book.Cancel.{
  Resting, Cancelled, insert_resting-Resting, apply_cancellation-Cancelled,
  apply_cancellation_refused,
}
use oclob.Book.Expiry.{Expired, apply_expiry-Expired}
use oclob.Examples.Setting.{toy}
use oclob.Examples.Orders.{market, ask, bid, authority_for, bid_verified}

abbrev pub resting : OrderCommitment → SecretOrder → ℕ → RestingOrder
resting commitment secret remaining = record {
  secret = record secret { cancellation_secret_digest = cancellation_digest toy 5 };
  authority = record {
    commitment = commitment;
    authorization_deadline = 70;
    verifying_key = 9;
    signature = [];
  };
  remaining = remaining;
  sequence = 1;
}

abbrev low_bid : RestingOrder
low_bid = resting 41 (record bid { limit_price = 99; expires_at = 30 }) 5

abbrev best_ask : RestingOrder
best_ask = resting 42 ask 4

abbrev next_ask : RestingOrder
next_ask = resting 43 (record ask { limit_price = 101 }) 3

abbrev pub book : PrivateBook
book = record {
  market_id = market;
  sequence = 3;
  bids = (99, low_bid ∷ []) ∷ [];
  asks = (100, best_ask ∷ []) ∷ (101, next_ask ∷ []) ∷ [];
  admitted = 41 ∷ 42 ∷ 43 ∷ [];
}

pub book-IsBook : IsBook book
book-IsBook = record { distinct = (refl, (refl, (refl, tt))); known = λ c h. ground arith }

bid_admissible : check_admission bid (commitment_of toy bid) 4 book ≡ ok tt
unfolding check_admission commitment_of canonical_payload be_bytes
bid_admissible = refl

apply_mpc_batch_result-expected_example :
    Succeeds (Matched bid (authority_for bid) 4 (batch_of book bid 10) book) (
      apply_mpc_batch_result toy bid
        (authority_for bid)
        4
        10
        (expected_batch (batch_of book bid 10))
        book)
apply_mpc_batch_result-expected_example =
    apply_mpc_batch_result-expected toy bid (authority_for bid) 4 10 book book-IsBook bid_verified
      bid_admissible

abbrev pub forged : MpcBatchResult
forged = record { slots = []; arriving_remaining = 0; public_levels = some [] }

forged_differs : ¬ (forged ≡ expected_batch (batch_of book bid 10))
unfolding expected_batch batch_of
forged_differs h = cc

apply_mpc_batch_result-other_example :
    apply_mpc_batch_result toy bid (authority_for bid) 4 10 forged book
    ≡ (err OrderError.invalid_mpc_result, book)
apply_mpc_batch_result-other_example =
    apply_mpc_batch_result-other toy bid (authority_for bid) 4 10 book forged bid_verified
      bid_admissible forged_differs

pub forged_refused :
    (apply_mpc_batch_result toy bid (authority_for bid) 4 10 forged book).0
    ≡ err OrderError.invalid_mpc_result
forged_refused =
    rw
      (apply_mpc_batch_result-other toy bid (authority_for bid) 4 10 book forged bid_verified
        bid_admissible forged_differs)
      refl

insert_resting-Resting_example :
    Succeeds
      (Resting bid (authority_for bid) 4 book)
      (insert_resting toy bid (authority_for bid) 4 10 book)
insert_resting-Resting_example =
    insert_resting-Resting toy book bid (authority_for bid) 4 10 book-IsBook bid_verified
      bid_admissible refl

abbrev cancel_best : SecretCancellation
cancel_best = record { target = 42; secret = 5; nonce = 6; salt = 7 }

cancel_best_unused : contains (cancellation_commitment toy cancel_best) book.admitted ≡ false
unfolding cancellation_commitment be_bytes
cancel_best_unused = refl

apply_cancellation-Cancelled_example :
    Succeeds (Cancelled toy cancel_best best_ask 4 book) (apply_cancellation toy cancel_best 4 book)
apply_cancellation-Cancelled_example =
    apply_cancellation-Cancelled toy book cancel_best 4 best_ask book-IsBook refl cancel_best_unused
      refl refl

cancel_late :
    (apply_cancellation toy cancel_best 5 book).0
    ≡ err (OrderError.invalid "certificate sequence is not next")
unfolding apply_cancellation
cancel_late = refl

apply_cancellation_refused_example : (apply_cancellation toy cancel_best 5 book).1 ≡ book
apply_cancellation_refused_example =
    apply_cancellation_refused toy book cancel_best 5
      (OrderError.invalid "certificate sequence is not next") cancel_late

abbrev expiry_command : OrderCommitment
expiry_command = expiry_commitment toy market 40 (expired_commitments book 40)

some_expired : is_empty (expired_commitments book 40) ≡ false
unfolding expired_commitments
some_expired = refl

expiry_unused : contains expiry_command book.admitted ≡ false
unfolding expiry_commitment expired_commitments put_bytes be_bytes
expiry_unused = refl

apply_expiry-Expired_example :
    Succeeds (Expired 40 expiry_command 4 book) (apply_expiry toy 40 expiry_command 4 book)
apply_expiry-Expired_example =
    apply_expiry-Expired toy book 40 expiry_command 4 book-IsBook (omega arith) refl some_expired
      refl expiry_unused
