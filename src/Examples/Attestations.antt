-- ===== src/Examples/Attestations.antt =====
-- Proofs that five of the seven nodes attest.
use oclob.Base.{ℕ, ◌≡◌, ◌<◌, refl, List, [], ◌∷◌, ok, arith, All, map, length, be_bytes}
use oclob.Crypto.{
  SigningKey, verifying_key, try_sign, signature_try_from, verify_strict, fingerprint,
}
use oclob.Order.{put_bytes}
use oclob.Ordering.{seven_node, validate_policy}
use oclob.Ordering.Sets.{Unique, shared}
use oclob.Proofs.{
  public_fills_digest, TransitionStatement, CancellationStatement, ExpiryStatement,
  transition_digest, cancellation_statement_digest, expiry_statement_digest,
}
use oclob.Proofs.Attest.{
  TransitionAttestation, TransitionProof, CancellationProof, ExpiryProof, attest_transition,
  verify_transition, attest_cancellation, verify_cancellation, attest_expiry, verify_expiry,
  attest_digest, verify_digest,
}
use oclob.Proofs.Honest.{signer_ids, IsMember, attest_verifies}
use oclob.Proofs.Overlap.{attesters, verify_transition_overlap}
use oclob.Examples.Setting.{toy, toy-IsCorrect, toy_envelope}
use oclob.Examples.Orders.{market}
use oclob.Examples.Committee.{node_key, node_keys}
use oclob.Examples.Settlement.{authorization}

abbrev signer : ℕ → ℕ × SigningKey
signer id = (id, node_key id)

abbrev signers : List (ℕ × SigningKey)
signers = map signer (2 ∷ 3 ∷ 4 ∷ 5 ∷ 6 ∷ 7 ∷ [])

abbrev transition : TransitionStatement
transition = authorization.statement

abbrev cancellation : CancellationStatement
cancellation = record {
  market_id = market;
  sequence = 1;
  certificate_digest = 2;
  target_commitment = 3;
  private_before_root = 4;
  private_after_root = 5;
  public_before_root = 6;
  public_after_root = 7;
}

abbrev expiry : ExpiryStatement
expiry = record {
  market_id = market;
  sequence = 2;
  certificate_digest = 3;
  cutoff = 50;
  expired_orders = 8 ∷ 9 ∷ [];
  private_before_root = 4;
  private_after_root = 5;
  public_before_root = 6;
  public_after_root = 7;
}

-- The attestation that a node makes of a digest.
abbrev attestation : ℕ → ℕ → TransitionAttestation
attestation digest id = record {
  node_id = id;
  signature = toy_envelope (node_key id).seeds (be_bytes 32 digest);
}

abbrev first_five : List ℕ
first_five = 2 ∷ 3 ∷ 4 ∷ 5 ∷ 6 ∷ []

abbrev transition_proof : TransitionProof
transition_proof = record {
  statement = transition;
  attestations = map (attestation (transition_digest toy transition)) first_five;
}

abbrev cancellation_proof : CancellationProof
cancellation_proof = record {
  statement = cancellation;
  attestations = map (attestation (cancellation_statement_digest toy cancellation)) first_five;
}

abbrev expiry_proof : ExpiryProof
expiry_proof = record {
  statement = expiry;
  attestations = map (attestation (expiry_statement_digest toy expiry)) first_five;
}

attested_transition : attest_transition toy transition signers seven_node ≡ ok transition_proof
unfolding attest_transition attest_digest validate_policy try_sign
attested_transition = refl

attested_cancellation :
    attest_cancellation toy cancellation signers seven_node ≡ ok cancellation_proof
unfolding attest_cancellation attest_digest validate_policy try_sign
attested_cancellation = refl

attested_expiry : attest_expiry toy expiry signers seven_node ≡ ok expiry_proof
unfolding attest_expiry attest_digest validate_policy try_sign
attested_expiry = refl

signers-Unique : Unique (signer_ids signers)
signers-Unique = (refl, (refl, (refl, (refl, (refl, (refl, tt))))))

signers_known : All (IsMember toy node_keys) signers
signers_known = (refl, (refl, (refl, (refl, (refl, (refl, tt))))))

attest_verifies_example :
    ((transition ≡ transition)
      × (verify_transition toy transition_proof node_keys seven_node ≡ ok tt))
    × (((cancellation ≡ cancellation)
          × (verify_cancellation toy cancellation_proof node_keys seven_node ≡ ok tt))
        × ((expiry ≡ expiry) × (verify_expiry toy expiry_proof node_keys seven_node ≡ ok tt)))
attest_verifies_example =
    attest_verifies toy node_keys toy-IsCorrect transition cancellation expiry signers seven_node
      transition_proof cancellation_proof expiry_proof signers-Unique signers_known
      attested_transition attested_cancellation attested_expiry

-- Another transition, attested from the other end.
abbrev other_proof : TransitionProof
other_proof = record {
  statement = record transition { sequence = 9 };
  attestations =
      map (attestation (transition_digest toy (record transition { sequence = 9 })))
        (7 ∷ 6 ∷ 5 ∷ 4 ∷ 3 ∷ []);
}

other_verified : verify_transition toy other_proof node_keys seven_node ≡ ok tt
unfolding verify_transition verify_digest validate_policy transition_digest be_bytes
    signature_try_from verify_strict fingerprint verifying_key put_bytes public_fills_digest
other_verified = refl

verify_transition_overlap_example :
    2
    < length (shared (attesters transition_proof.attestations) (attesters other_proof.attestations))
verify_transition_overlap_example =
    verify_transition_overlap toy transition_proof other_proof seven_node node_keys (omega arith)
      attest_verifies_example.0.1 other_verified
