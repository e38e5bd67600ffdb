-- ===== src/Proofs/Attest.antt =====
-- rust/oclob-proofs/src/lib.rs: the attestations of a statement. `TransitionProof`,
-- `CancellationProof` and `ExpiryProof` have `attest` and `verify` in the same words, but for the
-- statement whose digest is signed.
use oclob.Base.{
  ℕ, List, [], ◌∷◌, Result, ok, ◌>>=◌, ◌>>◌, reject_if, ok_or, map_err, take, be_bytes, length,
  contains, get, BTreeMap, ltb,
}
use oclob.Crypto.{
  Primitives, Digest32, SigningKey, VerifyingKey, try_sign, signature_try_from, verify_strict,
}
use oclob.Ordering.{CommitteePolicy, validate_policy}
use oclob.Proofs.{
  ProofError, TransitionStatement, CancellationStatement, ExpiryStatement, transition_digest,
  cancellation_statement_digest, expiry_statement_digest, committee_trust_root,
}

pub record TransitionAttestation : Type 0 where
  pub node_id : ℕ
  pub signature : List ℕ

pub record TransitionProof : Type 0 where
  pub statement : TransitionStatement
  pub attestations : List TransitionAttestation

pub record CancellationProof : Type 0 where
  pub statement : CancellationStatement
  pub attestations : List TransitionAttestation

pub record ExpiryProof : Type 0 where
  pub statement : ExpiryStatement
  pub attestations : List TransitionAttestation

pub record VerifiedTransitionProof : Type 0 where
  pub proof : TransitionProof
  pub committee_trust_root : Digest32

module _ (p : Primitives) where
  unfoldable pub sign_all :
      Digest32 → List (ℕ × SigningKey) → Result (List TransitionAttestation) ProofError
  sign_all digest [] = ok []
  sign_all digest ((id, key) ∷ signers) = do
    signature ← map_err (try_sign p key (be_bytes 32 digest)) (λ _. ProofError.invalid_signature)
    rest ← sign_all digest signers
    ok (record { node_id = id; signature = signature.bytes } ∷ rest)

  -- `attest`, for the digest of a statement.
  unfoldable pub attest_digest :
      Digest32
      → List (ℕ × SigningKey)
      → CommitteePolicy
      → Result (List TransitionAttestation) ProofError
  unfolding sign_all
  attest_digest digest signers policy = do
    map_err (validate_policy policy) (λ _. ProofError.invalid_committee)
    reject_if (ltb (length signers) policy.ordering_quorum) ProofError.insufficient_quorum
    sign_all digest (take policy.ordering_quorum signers)

  -- The loop of `verify`: the nodes seen so far, and the attestations that are left.
  unfoldable pub check_attestations :
      Digest32
      → BTreeMap VerifyingKey
      → List ℕ
      → List TransitionAttestation
      → Result (List ℕ) ProofError
  check_attestations digest keys distinct [] = ok distinct
  check_attestations digest keys distinct (a ∷ attestations) = do
    reject_if (contains a.node_id distinct) ProofError.invalid_signature
    key ← ok_or (get a.node_id keys) ProofError.invalid_signature
    signature ← map_err (signature_try_from p a.signature) (λ _. ProofError.invalid_signature)
    map_err (verify_strict p key (be_bytes 32 digest) signature) (λ _. ProofError.invalid_signature)
    check_attestations digest keys (a.node_id ∷ distinct) attestations

  -- `verify`, for the digest of a statement.
  unfoldable pub verify_digest :
      Digest32
      → List TransitionAttestation
      → BTreeMap VerifyingKey
      → CommitteePolicy
      → Result (Unit {0}) ProofError
  unfolding check_attestations
  verify_digest digest attestations keys policy = do
    map_err (validate_policy policy) (λ _. ProofError.invalid_committee)
    distinct ← check_attestations digest keys [] attestations
    reject_if (ltb (length distinct) policy.ordering_quorum) ProofError.insufficient_quorum

  -- `TransitionProof::attest`
  unfoldable pub attest_transition :
      TransitionStatement
      → List (ℕ × SigningKey)
      → CommitteePolicy
      → Result TransitionProof ProofError
  attest_transition statement signers policy = do
    attestations ← attest_digest (transition_digest p statement) signers policy
    ok (record { statement = statement; attestations = attestations })

  -- `TransitionProof::verify`
  unfoldable pub verify_transition :
      TransitionProof → BTreeMap VerifyingKey → CommitteePolicy → Result (Unit {0}) ProofError
  verify_transition proof keys policy =
      verify_digest (transition_digest p proof.statement) proof.attestations keys policy

  -- `CancellationProof::attest`
  unfoldable pub attest_cancellation :
      CancellationStatement
      → List (ℕ × SigningKey)
      → CommitteePolicy
      → Result CancellationProof ProofError
  attest_cancellation statement signers policy = do
    attestations ← attest_digest (cancellation_statement_digest p statement) signers policy
    ok (record { statement = statement; attestations = attestations })

  -- `CancellationProof::verify`
  unfoldable pub verify_cancellation :
      CancellationProof → BTreeMap VerifyingKey → CommitteePolicy → Result (Unit {0}) ProofError
  verify_cancellation proof keys policy =
      verify_digest (cancellation_statement_digest p proof.statement) proof.attestations keys policy

  -- `ExpiryProof::attest`
  unfoldable pub attest_expiry :
      ExpiryStatement → List (ℕ × SigningKey) → CommitteePolicy → Result ExpiryProof ProofError
  attest_expiry statement signers policy = do
    attestations ← attest_digest (expiry_statement_digest p statement) signers policy
    ok (record { statement = statement; attestations = attestations })

  -- `ExpiryProof::verify`
  unfoldable pub verify_expiry :
      ExpiryProof → BTreeMap VerifyingKey → CommitteePolicy → Result (Unit {0}) ProofError
  verify_expiry proof keys policy =
      verify_digest (expiry_statement_digest p proof.statement) proof.attestations keys policy

  -- `TransitionProof::into_verified`
  unfoldable pub into_verified :
      TransitionProof
      → BTreeMap VerifyingKey
      → CommitteePolicy
      → Result VerifiedTransitionProof ProofError
  into_verified proof keys policy = do
    verify_transition proof keys policy
    root ← committee_trust_root p keys policy
    ok (record { proof = proof; committee_trust_root = root })
