-- ===== src/Examples/Refusals.antt =====
-- Commands that are refused on the book of Books, and the one way a refusal is not clean: an
-- expiry whose released quantity overflows 64 bits stops with part of the orders removed.
use oclob.Base.{◌≡◌, refl, false, [], ◌∷◌, err, arith, be_bytes}
use oclob.Order.{OrderError, put_bytes}
use oclob.Order.Wire.{canonical_payload}
use oclob.Order.Authority.{OrderCommitment, commitment_of}
use oclob.Book.Store.{PrivateBook}
use oclob.Book.Roots.{expiry_commitment}
use oclob.Book.Flat.{view, holds}
use oclob.Book.Queries.{MpcMatchResult, expired_commitments}
use oclob.Book.Operations.{check_admission}
use oclob.Book.Commands.{apply_mpc_result, insert_resting, apply_mpc_batch_result, apply_expiry}
use oclob.Book.Refused.{
  apply_mpc_result_refused, insert_resting_refused, apply_mpc_batch_result_refused,
  apply_expiry_refused,
}
use oclob.Examples.Setting.{toy}
use oclob.Examples.Orders.{market, ask, bid, authority_for, bid_verified}
use oclob.Examples.Books.{book, book-IsBook, forged, forged_refused, resting}

bid_replayed :
    (insert_resting toy bid (authority_for bid) 5 10 book).0
    ≡ err (OrderError.invalid "certificate sequence is not next")
unfolding insert_resting check_admission commitment_of canonical_payload be_bytes
bid_replayed = rw bid_verified refl

insert_resting_refused_example : (insert_resting toy bid (authority_for bid) 5 10 book).1 ≡ book
insert_resting_refused_example =
    insert_resting_refused toy book bid (authority_for bid) 5 10
      (OrderError.invalid "certificate sequence is not next") bid_replayed

-- The result of a single match that takes nothing, though the best ask crosses.
abbrev idle : MpcMatchResult
idle = record {
  matched = false;
  trade_price = 0;
  trade_quantity = 0;
  resting_remaining = 4;
  arriving_remaining = 9;
}

idle_refused :
    (apply_mpc_result toy bid (authority_for bid) 4 10 idle book).0
    ≡ err OrderError.invalid_mpc_result
unfolding apply_mpc_result check_admission commitment_of canonical_payload be_bytes
idle_refused = rw bid_verified refl

apply_mpc_result_refused_example :
    (apply_mpc_result toy bid (authority_for bid) 4 10 idle book).1 ≡ book
apply_mpc_result_refused_example =
    apply_mpc_result_refused toy book bid (authority_for bid) 4 10 idle
      OrderError.invalid_mpc_result idle_refused

apply_mpc_batch_result_refused_example :
    (apply_mpc_batch_result toy bid (authority_for bid) 4 10 forged book).1 ≡ book
apply_mpc_batch_result_refused_example =
    apply_mpc_batch_result_refused toy book bid (authority_for bid) 4 10 forged
      OrderError.invalid_mpc_result book-IsBook forged_refused

expiry_not_canonical :
    (apply_expiry toy 40 77 4 book).0
    ≡ err (OrderError.invalid "expiry command is empty or non-canonical")
unfolding apply_expiry expiry_commitment put_bytes be_bytes
expiry_not_canonical = refl

apply_expiry_refused_example : (apply_expiry toy 40 77 4 book).1 ≡ book
apply_expiry_refused_example =
    apply_expiry_refused toy book 40 77 4
      (OrderError.invalid "expiry command is empty or non-canonical") book-IsBook (omega arith)
      expiry_not_canonical

-- Two expired asks whose remainders do not fit 64 bits together.
abbrev heavy_book : PrivateBook
heavy_book = record {
  market_id = market;
  sequence = 3;
  bids = [];
  asks = (100, resting 42 ask 9223372036854775808 ∷ resting 43 ask 9223372036854775808 ∷ []) ∷ [];
  admitted = 42 ∷ 43 ∷ [];
}

abbrev heavy_expiry : OrderCommitment
heavy_expiry = expiry_commitment toy market 60 (expired_commitments heavy_book 60)

heavy_expiry_fails :
    (apply_expiry toy 60 heavy_expiry 4 heavy_book).0
    ≡ err (OrderError.invalid "expired quantity overflowed")
unfolding apply_expiry expiry_commitment put_bytes be_bytes
heavy_expiry_fails = refl

heavy_expiry_removes : holds 42 (view (apply_expiry toy 60 heavy_expiry 4 heavy_book).1) ≡ false
unfolding apply_expiry expiry_commitment put_bytes be_bytes
heavy_expiry_removes = refl
