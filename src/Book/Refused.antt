-- ===== src/Book/Refused.antt =====
-- A command that is refused leaves the book as it was, also where it changes the book step by step.
use oclob.Base.{
  ||-false, ◌||◌, ◌!=◌, ℕ, ◌<◌, ◌≡◌, ok, err, Result, arith, contains, is_empty, u64_bound,
  Bool-cases, Result-cases, inl, inr,
}
use oclob.Crypto.{Primitives}
use oclob.Order.{OrderError, SecretOrder}
use oclob.Order.Authority.{OrderAuthority, OrderCommitment, verify_authority}
use oclob.Matching.{MpcBatchResult, expected_batch}
use oclob.Matching.Equality.{batch_result_eq, batch_result_eq_iff}
use oclob.Book.Store.{PrivateBook}
use oclob.Book.Flat.{view}
use oclob.Book.Orders.{resting_quantity}
use oclob.Book.Roots.{expiry_commitment}
use oclob.Book.Queries.{MpcMatchResult, batch_of, expired_commitments}
use oclob.Book.Invariant.{IsBook, Succeeds}
use oclob.Book.Operations.{apply_fill, check_admission, next_sequence}
use oclob.Book.Commands.{apply_mpc_result, insert_resting, apply_mpc_batch_result, apply_expiry}
use oclob.Book.Batch.{Matched, apply_mpc_batch_result-expected, apply_mpc_batch_result-other}
use oclob.Book.Expiry.{apply_expiry-Expired}

-- What succeeds is not refused.
Succeeds-err :
    {A : Type 0} (P : A → PrivateBook → Type 0) (r : Result A OrderError × PrivateBook)
    (e : OrderError)
    → Succeeds P r
    → r.0 ≡ err e
    → ⊥
Succeeds-err P (ok a, book) e s h = cc
Succeeds-err P (err f, book) e s h = s

module _ (p : Primitives) (book : PrivateBook) where
  -- An insertion that is refused, for whatever reason, leaves the book as it was.
  pub insert_resting_refused :
      (order : SecretOrder) (authority : OrderAuthority) (sequence now : ℕ) (e : OrderError)
      → (insert_resting p order authority sequence now book).0 ≡ err e
      → (insert_resting p order authority sequence now book).1 ≡ book
  unfolding insert_resting
  insert_resting_refused order authority sequence now e h = ground arith

  -- On a book that satisfies the invariant, a published batch result that is refused, for whatever
  -- reason, leaves the book as it was: no fill is applied in part.
  pub apply_mpc_batch_result_refused :
      (arriving : SecretOrder) (authority : OrderAuthority) (sequence now : ℕ)
      (result : MpcBatchResult) (e : OrderError)
      → IsBook book
      → (apply_mpc_batch_result p arriving authority sequence now result book).0 ≡ err e
      → (apply_mpc_batch_result p arriving authority sequence now result book).1 ≡ book
  unfolding apply_mpc_batch_result
  apply_mpc_batch_result_refused arriving authority sequence now result e h failed =
      elim (Result-cases (verify_authority p authority arriving now)) [
        | inr (f, unverified) ↦ rw unverified
        | inl (_, verified) ↦
            elim (Result-cases (check_admission arriving authority.commitment sequence book)) [
              | inr (f, refused) ↦ rw (verified, refused)
              | inl (_, admissible) ↦
                  let expected = expected_batch (batch_of book arriving now) in
                  elim (Bool-cases (batch_result_eq result expected)) [
                    | inl same ↦
                        let batch = batch_of book arriving now in
                        let applied : Succeeds (Matched arriving authority sequence batch book)
                            (apply_mpc_batch_result p arriving authority sequence now result book) =
                          rw ((batch_result_eq_iff result expected).0 same) (
                            apply_mpc_batch_result-expected p arriving authority sequence now book h
                              verified admissible) in
                        absurd (Succeeds-err _ _ e applied failed)
                    | inr differs ↦ ground (
                      arith,
                      apply_mpc_batch_result-other p arriving authority sequence now book result
                          verified admissible,
                      (batch_result_eq_iff result expected).1,
                    )
                  ]
            ]
      ]

  -- On a book that satisfies the invariant and whose whole quantity fits 64 bits, an expiry that is
  -- refused, for whatever reason, leaves the book as it was: no order is removed.
  pub apply_expiry_refused :
      (cutoff : ℕ) (command : OrderCommitment) (sequence : ℕ) (e : OrderError)
      → IsBook book
      → resting_quantity (view book) < u64_bound
      → (apply_expiry p cutoff command sequence book).0 ≡ err e
      → (apply_expiry p cutoff command sequence book).1 ≡ book
  unfolding apply_expiry
  apply_expiry_refused cutoff command sequence e h room failed =
      let orders = expired_commitments book cutoff in
      let canonical = expiry_commitment p book.market_id cutoff orders in
      elim (Bool-cases (sequence != next_sequence book)) [
        | inl out_of_turn ↦ rw out_of_turn
        | inr in_turn ↦ elim (Bool-cases (contains command book.admitted)) [
          | inl replayed ↦ rw (in_turn, replayed)
          | inr unused ↦ elim (Bool-cases (is_empty orders || command != canonical)) [
            | inl refused ↦ rw (in_turn, unused, refused)
            | inr accepted ↦ absurd (
                Succeeds-err _ _ e
                  (apply_expiry-Expired p book cutoff command sequence h room
                    (ground (arith, in_turn))
                    (||-false (is_empty orders) (command != canonical) accepted).0
                    (ground (arith, (||-false (is_empty orders) (command != canonical) accepted).1))
                    unused)
                  failed)
          ]
        ]
      ]

  -- The best order is looked up before the book is changed.
  apply_fill_refused :
      (arriving : SecretOrder) (taker : OrderCommitment) (result : MpcMatchResult) (e : OrderError)
      → (apply_fill arriving taker result book).0 ≡ err e
      → (apply_fill arriving taker result book).1 ≡ book
  unfolding apply_fill
  apply_fill_refused arriving taker result e h = ground arith

  -- A published result of a single match that is refused, for whatever reason, leaves the book as it
  -- was.
  pub apply_mpc_result_refused :
      (arriving : SecretOrder) (authority : OrderAuthority) (sequence now : ℕ)
      (result : MpcMatchResult) (e : OrderError)
      → (apply_mpc_result p arriving authority sequence now result book).0 ≡ err e
      → (apply_mpc_result p arriving authority sequence now result book).1 ≡ book
  unfolding apply_mpc_result
  apply_mpc_result_refused arriving authority sequence now result e h =
      ground (arith, apply_fill_refused arriving authority.commitment result e)
