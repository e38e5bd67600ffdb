-- ===== src/Proofs/Overlap.antt =====
-- Two proofs that verify under one committee share more attesters than may be corrupt.
use oclob.Base.{
  ℕ, ◌+◌, ◌≤◌, ◌<◌, ◌≡◌, true, List, [], ◌∷◌, ok, arith, All, length, BTreeMap, get, contains,
  be_bytes, reject_if-eq-ok, ok_or, ok_or-eq-ok, map_err, >>=-eq-ok, ltb-false,
}
use oclob.Crypto.{Primitives, Digest32, VerifyingKey, signature_try_from, verify_strict}
use oclob.Ordering.{CommitteePolicy, validate_policy}
use oclob.Ordering.Sets.{Unique, members, shared, length-shared}
use oclob.Ordering.Quorum.{
  IsNew, contains-members, loop_step, voters_weaken, All-IsNew, length-members, policy_quorums,
}
use oclob.Proofs.{ProofError, transition_digest}
use oclob.Proofs.Attest.{
  TransitionAttestation, TransitionProof, check_attestations, verify_digest, verify_transition,
}

abbrev pub attesters : List TransitionAttestation → List ℕ
attesters [] = []
attesters (a ∷ attestations) = a.node_id ∷ attesters attestations

module _ (p : Primitives) where
  check_attestations-attesters :
      (digest : Digest32) (keys : BTreeMap VerifyingKey) (distinct : List ℕ)
      (attestations : List TransitionAttestation) {seen : List ℕ}
      → check_attestations p digest keys distinct attestations ≡ ok seen
      → Unique (attesters attestations)
        × (All (IsNew keys distinct) (attesters attestations)
            × (length seen ≡ length distinct + length (attesters attestations)))
  unfolding check_attestations
  check_attestations-attesters digest keys distinct [] h = (tt, (tt, ground arith))
  check_attestations-attesters digest keys distinct (a ∷ attestations) h =
      let (fresh, (key, known), h4) =
        loop_step (contains a.node_id distinct) ProofError.invalid_signature
          (ok_or (get a.node_id keys) ProofError.invalid_signature)
          (λ key. map_err (signature_try_from p a.signature) (λ _. ProofError.invalid_signature))
          (λ key signature.
            map_err (verify_strict p key (be_bytes 32 digest) signature)
              (λ _. ProofError.invalid_signature))
          (check_attestations p digest keys (a.node_id ∷ distinct) attestations) h in
      let (unique, (new, count)) =
        check_attestations-attesters digest keys (a.node_id ∷ distinct) attestations h4 in
      let (unlike, rest) = voters_weaken keys a.node_id distinct (attesters attestations) new in
      (
        (unlike, unique),
        (
          ((contains-members a.node_id keys key (ok_or-eq-ok _ _ known), fresh), rest),
          omega (arith, count),
        ),
      )

  -- A proof that verifies has attestations of at least a quorum of different nodes.
  verify_digest-attesters :
      (digest : Digest32) (attestations : List TransitionAttestation) (keys : BTreeMap VerifyingKey)
      (policy : CommitteePolicy)
      → verify_digest p digest attestations keys policy ≡ ok tt
      → (policy.ordering_quorum ≤ length (attesters attestations))
        × (Unique (attesters attestations)
            × (All (λ k. contains k (members keys) ≡ true) (attesters attestations)
                × (validate_policy policy ≡ ok tt)))
  unfolding verify_digest
  verify_digest-attesters digest attestations keys policy h =
      let (_, valid, r1) =
        >>=-eq-ok (map_err (validate_policy policy) (λ _. ProofError.invalid_committee)) _ h in
      let (seen, checked, r2) = >>=-eq-ok (check_attestations p digest keys [] attestations) _ r1 in
      let (unique, (new, count)) =
        check_attestations-attesters digest keys [] attestations checked in
      let enough =
        ltb-false (length seen) policy.ordering_quorum
          (reject_if-eq-ok _ ProofError.insufficient_quorum r2) in
      (
        omega (arith, enough, count),
        (unique, (All-IsNew keys [] (attesters attestations) new, ground (arith, valid))),
      )

  -- If two transition proofs verify under one policy and one table of at most as many keys as the
  -- policy has nodes, then more nodes attested both than the policy allows to be corrupt.
  pub verify_transition_overlap :
      (a b : TransitionProof) (policy : CommitteePolicy) (keys : BTreeMap VerifyingKey)
      → length keys ≤ policy.nodes
      → verify_transition p a keys policy ≡ ok tt
      → verify_transition p b keys policy ≡ ok tt
      → policy.max_corrupt_nodes
        < length (shared (attesters a.attestations) (attesters b.attestations))
  unfolding verify_transition
  verify_transition_overlap a b policy keys few va vb =
      let (enough_a, (unique_a, (known_a, valid))) =
        verify_digest-attesters (transition_digest p a.statement) a.attestations keys policy va in
      let (enough_b, (unique_b, (known_b, _))) =
        verify_digest-attesters (transition_digest p b.statement) b.attestations keys policy vb in
      let overlap = length-shared _ _ (members keys) unique_a unique_b known_a known_b in
      omega
        (arith, overlap, few, length-members keys, enough_a, enough_b, policy_quorums policy valid)
