-- ===== src/Proofs.antt =====
-- rust/oclob-proofs/src/lib.rs: the statements that a committee signs about one step of the book,
-- and their digests. Of `MpcReceipt` and `MpcBatchReceipt` (rust/oclob-mpc/src/lib.rs) the protocol's
-- name and the two times are left out: nothing reads them.
pub mod Attest
pub mod Honest
pub mod Overlap
pub mod Binding
use oclob.Base.{
  ℕ, Bool, not, ◌||◌, List, [], ◌∷◌, ◌++◌, Option, none, some, Result, ok, err, ◌>>=◌, ◌>>◌,
  reject_if, be_bytes, bytes_eq, length, BTreeMap, ◌==◌, ◌!=◌, ltb, if◌then◌else◌, true, false,
}
use oclob.Crypto.{Primitives, Digest32, VerifyingKey, codes}
use oclob.Order.{put_bytes}
use oclob.Order.Authority.{OrderCommitment}
use oclob.Matching.{MpcBatchResult}
use oclob.Book.Queries.{MpcMatchResult}
use oclob.Book.Operations.Transitions.{
  PublicFill, BookTransition, CancellationTransition, ExpiryTransition,
}
use oclob.Ordering.{CommitteePolicy, validate_policy}
use oclob.Ordering.Certificate.{OrderCertificate, certificate_digest}

pub data ProofError : Type 0 where
  statement_mismatch insufficient_quorum invalid_signature invalid_committee : ProofError

pub record MpcReceipt : Type 0 where
  pub parties : ℕ
  pub max_corrupt_nodes : ℕ
  pub program_sha256 : Digest32
  pub public_output_sha256 : Digest32
  pub all_parties_agreed : Bool
  pub result : MpcMatchResult

pub record MpcBatchReceipt : Type 0 where
  pub parties : ℕ
  pub max_corrupt_nodes : ℕ
  pub program_sha256 : Digest32
  pub public_output_sha256 : Digest32
  pub all_parties_agreed : Bool
  pub result : MpcBatchResult

pub record TransitionStatement : Type 0 where
  pub market_id : List ℕ
  pub sequence : ℕ
  pub order_certificate_digest : Digest32
  pub eligibility_proof_digest : Digest32
  pub private_before_root : Digest32
  pub private_after_root : Digest32
  pub public_before_root : Digest32
  pub public_after_root : Digest32
  pub mpc_program_digest : Digest32
  pub mpc_output_digest : Digest32
  pub fill_digest : Digest32

pub record CancellationStatement : Type 0 where
  pub market_id : List ℕ
  pub sequence : ℕ
  pub certificate_digest : Digest32
  pub target_commitment : Digest32
  pub private_before_root : Digest32
  pub private_after_root : Digest32
  pub public_before_root : Digest32
  pub public_after_root : Digest32

pub record ExpiryStatement : Type 0 where
  pub market_id : List ℕ
  pub sequence : ℕ
  pub certificate_digest : Digest32
  pub cutoff : ℕ
  pub expired_orders : List Digest32
  pub private_before_root : Digest32
  pub private_after_root : Digest32
  pub public_before_root : Digest32
  pub public_after_root : Digest32

-- Whether some fill was not taken by the arriving order.
abbrev pub other_taker : OrderCommitment → List PublicFill → Bool
other_taker arriving [] = false
other_taker arriving (fill ∷ fills) = (fill.taker_order != arriving) || other_taker arriving fills

abbrev pub other_optional_taker : OrderCommitment → Option PublicFill → Bool
other_optional_taker arriving none = false
other_optional_taker arriving (some fill) = fill.taker_order != arriving

fill_bytes : List PublicFill → List ℕ
fill_bytes [] = []
fill_bytes (fill ∷ fills) =
    be_bytes 32 fill.maker_order
    ++ (be_bytes 32 fill.taker_order
        ++ (be_bytes 8 fill.price ++ (be_bytes 8 fill.quantity ++ fill_bytes fills)))

digest_bytes : List Digest32 → List ℕ
digest_bytes [] = []
digest_bytes (d ∷ ds) = be_bytes 32 d ++ digest_bytes ds

unfoldable pub key_bytes : BTreeMap VerifyingKey → List ℕ
key_bytes [] = []
key_bytes ((id, key) ∷ keys) = be_bytes 2 id ++ (be_bytes 32 key.digest ++ key_bytes keys)

abbrev has_zero_id : BTreeMap VerifyingKey → Bool
has_zero_id [] = false
has_zero_id ((id, key) ∷ keys) = (id == 0) || has_zero_id keys

module _ (p : Primitives) where
  unfoldable pub public_fills_digest : List PublicFill → Digest32
  unfolding fill_bytes
  public_fills_digest fills =
      p.sha256 (codes "OCLOB:PUBLIC-FILL:v2" ++ (be_bytes 8 (length fills) ++ fill_bytes fills))

  abbrev statement_of :
      OrderCertificate → BookTransition → Digest32 → Digest32 → Digest32 → TransitionStatement
  statement_of certificate transition program output eligibility = record {
    market_id = certificate.statement.market_id;
    sequence = certificate.statement.sequence;
    order_certificate_digest = certificate_digest p certificate;
    eligibility_proof_digest = eligibility;
    private_before_root = transition.private_before_root;
    private_after_root = transition.private_after_root;
    public_before_root = transition.public_before_root;
    public_after_root = transition.public_after.state_root;
    mpc_program_digest = program;
    mpc_output_digest = output;
    fill_digest = public_fills_digest transition.fills;
  }

  abbrev disagrees : OrderCertificate → BookTransition → Bool → Digest32 → Bool
  disagrees certificate transition agreed eligibility =
      certificate.statement.sequence != transition.sequence
      || (not (bytes_eq certificate.statement.market_id transition.public_after.market_id)
          || (not agreed || eligibility == 0))

  -- `TransitionStatement::from_execution`
  unfoldable pub from_execution :
      OrderCertificate
      → BookTransition
      → MpcReceipt
      → Digest32
      → Result TransitionStatement ProofError
  from_execution certificate transition mpc eligibility = do
    reject_if (disagrees certificate transition mpc.all_parties_agreed eligibility)
        ProofError.statement_mismatch
    reject_if (other_optional_taker certificate.statement.commitment transition.fill)
        ProofError.statement_mismatch
    ok (statement_of certificate transition mpc.program_sha256 mpc.public_output_sha256 eligibility)

  -- `TransitionStatement::from_batch_execution`
  unfoldable pub from_batch_execution :
      OrderCertificate
      → BookTransition
      → MpcBatchReceipt
      → Digest32
      → Result TransitionStatement ProofError
  from_batch_execution certificate transition mpc eligibility = do
    reject_if (disagrees certificate transition mpc.all_parties_agreed eligibility)
        ProofError.statement_mismatch
    reject_if (other_taker certificate.statement.commitment transition.fills)
        ProofError.statement_mismatch
    ok (statement_of certificate transition mpc.program_sha256 mpc.public_output_sha256 eligibility)

  -- `CancellationStatement::from_transition`
  unfoldable pub from_cancellation :
      OrderCertificate → CancellationTransition → Result CancellationStatement ProofError
  from_cancellation certificate transition = do
    reject_if
        (certificate.statement.sequence != transition.sequence
          || (certificate.statement.commitment != transition.cancellation_commitment
              || not (bytes_eq certificate.statement.market_id transition.public_after.market_id)))
        ProofError.statement_mismatch
    ok (record {
      market_id = certificate.statement.market_id;
      sequence = transition.sequence;
      certificate_digest = certificate_digest p certificate;
      target_commitment = transition.target_commitment;
      private_before_root = transition.private_before_root;
      private_after_root = transition.private_after_root;
      public_before_root = transition.public_before_root;
      public_after_root = transition.public_after.state_root;
    })

  -- `ExpiryStatement::from_transition`
  unfoldable pub from_expiry :
      OrderCertificate → ExpiryTransition → Result ExpiryStatement ProofError
  from_expiry certificate transition = do
    reject_if
        (certificate.statement.sequence != transition.sequence
          || (certificate.statement.commitment != transition.expiry_commitment
              || not (bytes_eq certificate.statement.market_id transition.public_after.market_id)))
        ProofError.statement_mismatch
    ok (record {
      market_id = certificate.statement.market_id;
      sequence = transition.sequence;
      certificate_digest = certificate_digest p certificate;
      cutoff = transition.cutoff;
      expired_orders = transition.expired_orders;
      private_before_root = transition.private_before_root;
      private_after_root = transition.private_after_root;
      public_before_root = transition.public_before_root;
      public_after_root = transition.public_after.state_root;
    })

  -- `TransitionStatement::digest`
  unfoldable pub transition_digest : TransitionStatement → Digest32
  unfolding digest_bytes
  transition_digest s = p.sha256 (
      codes "OCLOB:TRANSITION-STATEMENT:v3"
      ++ (put_bytes s.market_id
          ++ (be_bytes 8 s.sequence
              ++ digest_bytes (
                  s.order_certificate_digest ∷ s.eligibility_proof_digest ∷ s.private_before_root
                  ∷ s.private_after_root ∷ s.public_before_root ∷ s.public_after_root
                  ∷ s.mpc_program_digest ∷ s.mpc_output_digest ∷ s.fill_digest ∷ []))))

  -- `CancellationStatement::digest`
  unfoldable pub cancellation_statement_digest : CancellationStatement → Digest32
  unfolding digest_bytes
  cancellation_statement_digest s = p.sha256 (
      codes "OCLOB:CANCELLATION-STATEMENT:v2"
      ++ (put_bytes s.market_id
          ++ (be_bytes 8 s.sequence
              ++ digest_bytes (
                  s.certificate_digest ∷ s.target_commitment ∷ s.private_before_root
                  ∷ s.private_after_root ∷ s.public_before_root ∷ s.public_after_root ∷ []))))

  -- `ExpiryStatement::digest`
  unfoldable pub expiry_statement_digest : ExpiryStatement → Digest32
  unfolding digest_bytes
  expiry_statement_digest s = p.sha256 (
      codes "OCLOB:EXPIRY-STATEMENT:v2"
      ++ (put_bytes s.market_id
          ++ (be_bytes 8 s.sequence
              ++ (be_bytes 32 s.certificate_digest
                  ++ (be_bytes 8 s.cutoff
                      ++ (be_bytes 8 (length s.expired_orders)
                          ++ (digest_bytes s.expired_orders
                              ++ digest_bytes (
                                  s.private_before_root ∷ s.private_after_root
                                  ∷ s.public_before_root ∷ s.public_after_root ∷ []))))))))

  unfoldable pub committee_trust_root :
      BTreeMap VerifyingKey → CommitteePolicy → Result Digest32 ProofError
  unfolding key_bytes validate_policy
  committee_trust_root keys policy = elim (validate_policy policy) [
    | err e ↦ err ProofError.invalid_committee
    | ok _ ↦
        if length keys != policy.nodes || has_zero_id keys
        then err ProofError.invalid_committee
        else ok (
            p.sha256 (
              codes "OCLOB:TRANSITION-COMMITTEE:v2"
              ++ (be_bytes 8 policy.nodes
                  ++ (be_bytes 8 policy.max_corrupt_nodes
                      ++ (be_bytes 8 policy.reconstruction_quorum
                          ++ (be_bytes 8 policy.ordering_quorum
                              ++ (be_bytes 8 policy.settlement_authorization_quorum
                                  ++ key_bytes keys)))))))
  ]
