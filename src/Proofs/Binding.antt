-- ===== src/Proofs/Binding.antt =====
-- rust/oclob-proofs/src/lib.rs and optimistic.rs: what ties a verified transition to the
-- certificate and the fills that are about to settle.
use oclob.Base.{ℕ, not, ◌||◌, List, [], Result, ◌>>◌, reject_if, bytes_eq, ◌!=◌}
use oclob.Crypto.{Primitives, Digest32}
use oclob.Order.Authority.{OrderCommitment}
use oclob.Book.Operations.Transitions.{PublicFill}
use oclob.Ordering.Certificate.{OrderCertificate, certificate_digest}
use oclob.Proofs.{ProofError, TransitionStatement, public_fills_digest, other_taker}

-- `TransitionAuthorization`: the statement and the root of trust of a transition whose proof was
-- verified, or whose challenge window has closed.
pub record TransitionAuthorization : Type 0 where
  pub statement : TransitionStatement
  pub trust_root : Digest32

module _ (p : Primitives) where
  unfoldable pub verify_admission_binding :
      TransitionAuthorization → OrderCertificate → Digest32 → Result (Unit {0}) ProofError
  verify_admission_binding t certificate expected =
      reject_if
        (t.trust_root != expected
          || (not (bytes_eq t.statement.market_id certificate.statement.market_id)
              || (t.statement.sequence != certificate.statement.sequence
                  || (t.statement.order_certificate_digest != certificate_digest p certificate
                      || t.statement.fill_digest != public_fills_digest p []))))
        ProofError.statement_mismatch

  unfoldable pub verify_settlement_binding :
      TransitionAuthorization
      → List ℕ
      → OrderCommitment
      → List PublicFill
      → Digest32
      → Result (Unit {0}) ProofError
  verify_settlement_binding t market arriving fills expected =
      reject_if
        (t.trust_root != expected
          || (not (bytes_eq t.statement.market_id market)
              || (t.statement.fill_digest != public_fills_digest p fills
                  || other_taker arriving fills)))
        ProofError.statement_mismatch

  unfoldable pub verify_execution_binding :
      TransitionAuthorization
      → OrderCertificate
      → OrderCommitment
      → List PublicFill
      → Digest32
      → Result (Unit {0}) ProofError
  unfolding verify_settlement_binding
  verify_execution_binding t certificate arriving fills expected = do
    verify_settlement_binding t certificate.statement.market_id arriving fills expected
    reject_if
        (t.statement.sequence != certificate.statement.sequence
          || t.statement.order_certificate_digest != certificate_digest p certificate)
        ProofError.statement_mismatch
