-- ===== src/Proofs/Honest.antt =====
-- Attestations by honest committee nodes verify.
use oclob.Base.{
  ok_inj, ℕ, zero, suc, ◌+◌, ◌≡◌, refl, false, List, [], ◌∷◌, ok, some, arith, All, All-take, take,
  length, length-take_le, BTreeMap, get, contains, be_bytes, reject_if, reject_if-eq-ok, map_err,
  >>=-eq-ok, ltb, ltb-false,
}
use oclob.Crypto.{
  Primitives, IsCorrect, Digest32, SigningKey, VerifyingKey, verifying_key, try_sign,
}
use oclob.Crypto.SignVerify.{try_sign-verify_strict}
use oclob.Ordering.{CommitteePolicy, validate_policy}
use oclob.Ordering.Sets.{Unique}
use oclob.Proofs.{
  ProofError, TransitionStatement, CancellationStatement, ExpiryStatement, transition_digest,
  cancellation_statement_digest, expiry_statement_digest,
}
use oclob.Proofs.Attest.{
  TransitionAttestation, TransitionProof, CancellationProof, ExpiryProof, sign_all, attest_digest,
  check_attestations, verify_digest, attest_transition, verify_transition, attest_cancellation,
  verify_cancellation, attest_expiry, verify_expiry,
}

abbrev pub signer_ids : List (ℕ × SigningKey) → List ℕ
signer_ids [] = []
signer_ids ((id, key) ∷ signers) = id ∷ signer_ids signers

contains-take :
    (id n : ℕ) (signers : List (ℕ × SigningKey))
    → contains id (signer_ids signers) ≡ false
    → contains id (signer_ids (take n signers)) ≡ false
contains-take id zero signers h = refl
contains-take id (suc n) [] h = refl
contains-take id (suc n) ((k, key) ∷ signers) h = ground (arith, contains-take id n signers, h)

module _ (p : Primitives) (keys : BTreeMap VerifyingKey) where
  -- The committee has the signer's key under its id.
  abbrev pub IsMember : ℕ × SigningKey → Type 0
  IsMember (id, key) = get id keys ≡ some (verifying_key p key)

  IsFresh : List ℕ → ℕ × SigningKey → Type 0
  IsFresh distinct (id, key) = contains id distinct ≡ false

  IsFresh-cons :
      (id : ℕ) (distinct : List ℕ) (signers : List (ℕ × SigningKey))
      → contains id (signer_ids signers) ≡ false
      → All (IsFresh distinct) signers
      → All (IsFresh (id ∷ distinct)) signers
  unfolding IsFresh
  IsFresh-cons id distinct [] other h = tt
  IsFresh-cons id distinct ((k, key) ∷ signers) other (first, rest) =
      (ground (arith, other, first), IsFresh-cons id distinct signers (ground (arith, other)) rest)

  -- The attestations of signers that the loop has not seen pass it, and each counts.
  sign_all-check_attestations :
      IsCorrect p
      → (digest : Digest32) (signers : List (ℕ × SigningKey)) (distinct : List ℕ)
        (attestations : List TransitionAttestation)
      → Unique (signer_ids signers)
      → All (IsFresh distinct) signers
      → All IsMember signers
      → sign_all p digest signers ≡ ok attestations
      → (seen : List ℕ) × ((check_attestations p digest keys distinct attestations ≡ ok seen)
          × (length seen ≡ length distinct + length signers))
  unfolding sign_all check_attestations IsFresh
  sign_all-check_attestations c digest [] distinct attestations u f m h =
      let is : [] ≡ attestations = cc in rw (← is) (distinct, (refl, omega arith))
  sign_all-check_attestations c digest ((id, key) ∷ signers) distinct attestations (other, u)
        (first, f) (known, m) h =
      let (signature, signed, r1) =
        >>=-eq-ok
          (map_err (try_sign p key (be_bytes 32 digest)) (λ _. ProofError.invalid_signature)) _ h in
      let (rest, signed_rest, r2) = >>=-eq-ok (sign_all p digest signers) _ r1 in
      let made : try_sign p key (be_bytes 32 digest) ≡ ok signature = ground (arith, signed) in
      let (reads, verifies) = try_sign-verify_strict p c key (be_bytes 32 digest) signature made in
      let (seen, (checked, count)) =
        sign_all-check_attestations c digest signers (id ∷ distinct) rest u
          (IsFresh-cons id distinct signers other f) m signed_rest in
      rw (← ok_inj _ _ r2)
        (seen, (rw (first, known, reads, verifies, checked) refl, omega (arith, count)))

  Unique-take :
      (n : ℕ) (signers : List (ℕ × SigningKey))
      → Unique (signer_ids signers)
      → Unique (signer_ids (take n signers))
  Unique-take zero signers u = tt
  Unique-take (suc n) [] u = tt
  Unique-take (suc n) ((id, key) ∷ signers) (other, u) =
      (contains-take id n signers other, Unique-take n signers u)

  All-IsFresh : (signers : List (ℕ × SigningKey)) → All (IsFresh []) signers
  unfolding IsFresh
  All-IsFresh [] = tt
  All-IsFresh ((id, key) ∷ signers) = (refl, All-IsFresh signers)

  attest_digest-verify_digest :
      IsCorrect p
      → (digest : Digest32) (signers : List (ℕ × SigningKey)) (policy : CommitteePolicy)
        (attestations : List TransitionAttestation)
      → Unique (signer_ids signers)
      → All IsMember signers
      → attest_digest p digest signers policy ≡ ok attestations
      → verify_digest p digest attestations keys policy ≡ ok tt
  unfolding attest_digest verify_digest
  attest_digest-verify_digest c digest signers policy attestations u m h =
      let quorum = policy.ordering_quorum in
      let (_, valid, r1) =
        >>=-eq-ok (map_err (validate_policy policy) (λ _. ProofError.invalid_committee)) _ h in
      let (_, enough, r2) =
        >>=-eq-ok (reject_if (ltb (length signers) quorum) ProofError.insufficient_quorum) _ r1 in
      let count =
        length-take_le quorum signers
          (ltb-false (length signers) quorum (reject_if-eq-ok _ _ enough)) in
      let (seen, (checked, length_seen)) =
        sign_all-check_attestations c digest (take quorum signers) [] attestations
          (Unique-take quorum signers u) (All-IsFresh (take quorum signers))
          (All-take IsMember quorum signers m) r2 in
      let full : ltb (length seen) quorum ≡ false = ground (arith, count, length_seen) in
      rw (valid, checked, full) refl

  -- If the primitives keep their promises, and the signers are members of the committee with
  -- different ids, then a proof that `attest` makes, of a match transition, of a cancellation or of
  -- an expiry, is of the statement that was given, and verifies.
  pub attest_verifies :
      IsCorrect p
      → (transition : TransitionStatement) (cancellation : CancellationStatement)
        (expiry : ExpiryStatement) (signers : List (ℕ × SigningKey)) (policy : CommitteePolicy)
        (a : TransitionProof) (b : CancellationProof) (e : ExpiryProof)
      → Unique (signer_ids signers)
      → All IsMember signers
      → attest_transition p transition signers policy ≡ ok a
      → attest_cancellation p cancellation signers policy ≡ ok b
      → attest_expiry p expiry signers policy ≡ ok e
      → ((a.statement ≡ transition) × (verify_transition p a keys policy ≡ ok tt))
        × (((b.statement ≡ cancellation) × (verify_cancellation p b keys policy ≡ ok tt))
            × ((e.statement ≡ expiry) × (verify_expiry p e keys policy ≡ ok tt)))
  unfolding attest_transition verify_transition attest_cancellation verify_cancellation
      attest_expiry verify_expiry
  attest_verifies c transition cancellation expiry signers policy a b e u m ha hb he =
      let (as', made_a, ra) =
        >>=-eq-ok (attest_digest p (transition_digest p transition) signers policy) _ ha in
      let (bs, made_b, rb) =
        >>=-eq-ok (attest_digest p (cancellation_statement_digest p cancellation) signers policy) _
          hb in
      let (es, made_e, re) =
        >>=-eq-ok (attest_digest p (expiry_statement_digest p expiry) signers policy) _ he in
      rw (← ok_inj _ _ ra, ← ok_inj _ _ rb, ← ok_inj _ _ re)
        (
          (refl, attest_digest-verify_digest c _ signers policy as' u m made_a),
          (
            (refl, attest_digest-verify_digest c _ signers policy bs u m made_b),
            (refl, attest_digest-verify_digest c _ signers policy es u m made_e),
          ),
        )
