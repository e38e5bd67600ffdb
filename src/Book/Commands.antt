-- ===== src/Book/Commands.antt =====
-- The commands of `PrivateBook`: insertion, the two forms of matching, cancellation and expiry. Each
-- admits a command at the next sequence number and reports the transition.
use oclob.Base.{ℕ, not, ◌||◌, reject_if, ok_or, contains, is_empty, ◌!=◌}
use oclob.Crypto.{Primitives}
use oclob.Order.{OrderError, SecretOrder, is_gtc, cancellation_digest}
use oclob.Order.Authority.{OrderCommitment, OrderAuthority, verify_authority}
use oclob.Matching.{MpcBatchResult, expected_batch}
use oclob.Matching.Equality.{batch_result_eq}
use oclob.Book.Store.{insert_record, find_record}
use oclob.Book.Action.{Action, pure, reads, gets, modify, fail_if, ◌>>=◌, ◌>>◌}
use oclob.Book.Roots.{public_snapshot, private_root, expiry_commitment}
use oclob.Book.Queries.{
  private_match_batch, MpcMatchResult, match_result_eq, expected_result, expired_commitments,
}
use oclob.Book.Operations.Transitions.{
  BookTransition, SecretCancellation, CancellationTransition, ExpiryTransition,
  cancellation_commitment,
}
use oclob.Book.Operations.{
  change_remainder, next_sequence, not_next, check_admission, admit, rest_remainder, apply_fill,
  optional_list, first, remove_order, apply_slots, release_orders,
}

module _ (p : Primitives) where
  unfoldable pub insert_resting : SecretOrder → OrderAuthority → ℕ → ℕ → Action (Unit {0})
  unfolding check_admission insert_record admit
  insert_resting order authority certificate_sequence now = do
    reads (λ book. verify_authority p authority order now)
    reads (check_admission order authority.commitment certificate_sequence)
    fail_if (not (is_gtc order.time_in_force)) (OrderError.invalid "only GTC orders can rest")
    modify (
        insert_record (record {
          secret = order;
          authority = authority;
          remaining = order.quantity;
          sequence = certificate_sequence;
        }))
    modify (admit authority.commitment certificate_sequence)

  unfoldable pub apply_mpc_result :
      SecretOrder → OrderAuthority → ℕ → ℕ → MpcMatchResult → Action BookTransition
  unfolding check_admission expected_result apply_fill rest_remainder admit
  apply_mpc_result arriving authority certificate_sequence now result = do
    reads (λ book. verify_authority p authority arriving now)
    reads (check_admission arriving authority.commitment certificate_sequence)
    private_before ← gets (private_root p)
    public_before ← gets (public_snapshot p)
    expected ← gets (λ book. expected_result book arriving)
    fail_if (not (match_result_eq result expected)) OrderError.invalid_mpc_result
    fill ← apply_fill arriving authority.commitment result
    modify (rest_remainder arriving authority certificate_sequence result.arriving_remaining)
    modify (admit authority.commitment certificate_sequence)
    public_after ← gets (public_snapshot p)
    private_after ← gets (private_root p)
    pure (record {
      sequence = certificate_sequence;
      private_before_root = private_before;
      private_after_root = private_after;
      public_before_root = public_before.state_root;
      public_after = public_after;
      fill = fill;
      fills = optional_list fill;
      arriving_remaining = result.arriving_remaining;
    })

  unfoldable pub apply_mpc_batch_result :
      SecretOrder → OrderAuthority → ℕ → ℕ → MpcBatchResult → Action BookTransition
  unfolding check_admission private_match_batch batch_result_eq apply_slots change_remainder
      rest_remainder admit
  apply_mpc_batch_result arriving authority certificate_sequence now result = do
    reads (λ book. verify_authority p authority arriving now)
    reads (check_admission arriving authority.commitment certificate_sequence)
    batch ← reads (λ book. private_match_batch book arriving now)
    fail_if (not (batch_result_eq result (expected_batch batch))) OrderError.invalid_mpc_result
    private_before ← gets (private_root p)
    public_before ← gets (public_snapshot p)
    fills ← apply_slots authority.commitment batch.resting result.slots
    modify (rest_remainder arriving authority certificate_sequence result.arriving_remaining)
    modify (admit authority.commitment certificate_sequence)
    public_after ← gets (public_snapshot p)
    private_after ← gets (private_root p)
    pure (record {
      sequence = certificate_sequence;
      private_before_root = private_before;
      private_after_root = private_after;
      public_before_root = public_before.state_root;
      public_after = public_after;
      fill = first fills;
      fills = fills;
      arriving_remaining = result.arriving_remaining;
    })

  unfoldable pub apply_cancellation : SecretCancellation → ℕ → Action CancellationTransition
  unfolding find_record remove_order admit
  apply_cancellation cancellation certificate_sequence = do
    let command = cancellation_commitment p cancellation
    reads (λ book. reject_if (certificate_sequence != next_sequence book) not_next)
    reads (λ book. reject_if (contains command book.admitted) OrderError.replay)
    o ← reads (λ book.
        ok_or (find_record book.bids book.asks cancellation.target) OrderError.unknown_order)
    fail_if (o.secret.cancellation_secret_digest != cancellation_digest p cancellation.secret)
        OrderError.invalid_cancellation
    private_before ← gets (private_root p)
    public_before ← gets (public_snapshot p)
    remove_order cancellation.target
    modify (admit command certificate_sequence)
    public_after ← gets (public_snapshot p)
    private_after ← gets (private_root p)
    pure (record {
      sequence = certificate_sequence;
      cancellation_commitment = command;
      target_commitment = cancellation.target;
      released_quantity = o.remaining;
      private_before_root = private_before;
      private_after_root = private_after;
      public_before_root = public_before.state_root;
      public_after = public_after;
    })

  unfoldable pub apply_expiry : ℕ → OrderCommitment → ℕ → Action ExpiryTransition
  unfolding expired_commitments release_orders admit
  apply_expiry cutoff command certificate_sequence = do
    reads (λ book. reject_if (certificate_sequence != next_sequence book) not_next)
    reads (λ book. reject_if (contains command book.admitted) OrderError.replay)
    expired_orders ← gets (λ book. expired_commitments book cutoff)
    reads (λ book.
        reject_if
          (is_empty expired_orders
            || command != expiry_commitment p book.market_id cutoff expired_orders)
          (OrderError.invalid "expiry command is empty or non-canonical"))
    private_before ← gets (private_root p)
    public_before ← gets (public_snapshot p)
    released_quantity ← release_orders expired_orders 0
    modify (admit command certificate_sequence)
    public_after ← gets (public_snapshot p)
    private_after ← gets (private_root p)
    pure (record {
      sequence = certificate_sequence;
      expiry_commitment = command;
      cutoff = cutoff;
      expired_orders = expired_orders;
      released_quantity = released_quantity;
      private_before_root = private_before;
      private_after_root = private_after;
      public_before_root = public_before.state_root;
      public_after = public_after;
    })
