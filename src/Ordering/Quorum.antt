-- ===== src/Ordering/Quorum.antt =====
-- Two certificates that verify under one committee share more voters than may be corrupt.
use oclob.Base.{
  ℕ, ◌+◌, ◌≤◌, ◌<◌, ◌≡◌, refl, Bool, true, false, some, List, [], ◌∷◌, Result, ok, err, ◌>>=◌, ◌>>◌,
  arith, All, BTreeMap, get, contains, length, be_bytes, map_err, ok_or, reject_if, reject_if-eq-ok,
  >>=-eq-ok, ok_or-eq-ok, ||-false, ltb,
}
use oclob.Crypto.{Primitives, Digest32, VerifyingKey, signature_try_from, verify_strict}
use oclob.Ordering.{
  CommitteePolicy, OrderingError, OrderVote, is_malformed, validate_policy, vote_digest,
}
use oclob.Ordering.Certificate.{OrderCertificate, check_votes, verify_certificate}
use oclob.Ordering.Sets.{Unique, members, voters, shared, length-shared}

-- A voter that is in the committee and not in `distinct`.
abbrev pub IsNew : BTreeMap VerifyingKey → List ℕ → ℕ → Type 0
IsNew keys distinct n = (contains n (members keys) ≡ true) × (contains n distinct ≡ false)

pub contains-members :
    (n : ℕ) (keys : BTreeMap VerifyingKey) (key : VerifyingKey)
    → get n keys ≡ some key
    → contains n (members keys) ≡ true
contains-members n [] key h = absurd (cc)
contains-members n ((id, k) ∷ keys) key h = ground (arith, contains-members n keys key)

-- What a successful round of the loop has passed.
pub loop_step :
    {K S R E : Type 0} (rejected : Bool) (e : E) (key : Result K E) (signature : K → Result S E)
    (check : K → S → Result (Unit {0}) E) (rest : Result R E) {result : R}
    → (do reject_if rejected e; k ← key; s ← signature k; check k s; rest) ≡ ok result
    → (rejected ≡ false) × ((k : K) × (key ≡ ok k)) × (rest ≡ ok result)
loop_step true e key signature check rest h = absurd (cc)
loop_step false e (err f) signature check rest h = absurd (cc)
loop_step false e (ok k) signature check rest h =
    let (s, _, h1) = >>=-eq-ok (signature k) (λ s. check k s >> rest) h in
    let (_, _, h2) = >>=-eq-ok (check k s) (λ _. rest) h1 in (refl, (k, refl), h2)

-- What a successful verification has passed.
verify_step :
    (valid : Result (Unit {0}) OrderingError) (malformed few : Bool)
    (checked : Result (List ℕ) OrderingError) (last : List ℕ → Result (Unit {0}) OrderingError)
    → (do
      valid
      reject_if malformed OrderingError.invalid_vote
      reject_if few OrderingError.insufficient_quorum
      distinct ← checked
      last distinct)
      ≡ ok tt
    → (valid ≡ ok tt) × (few ≡ false) × ((distinct : List ℕ) × (checked ≡ ok distinct))
verify_step (err e) malformed few checked last h = absurd (cc)
verify_step (ok _) true few checked last h = absurd (cc)
verify_step (ok _) false true checked last h = absurd (cc)
verify_step (ok _) false false (err e) last h = absurd (cc)
verify_step (ok _) false false (ok distinct) last h = (refl, refl, (distinct, refl))

-- Voters that are new to a longer list are new to its rest, and differ from its head.
pub voters_weaken :
    (keys : BTreeMap VerifyingKey) (n : ℕ) (distinct ns : List ℕ)
    → All (IsNew keys (n ∷ distinct)) ns
    → (contains n ns ≡ false) × All (IsNew keys distinct) ns
voters_weaken keys n distinct [] h = (refl, tt)
voters_weaken keys n distinct (k ∷ ns) h =
    let (unlike, rest) = voters_weaken keys n distinct ns h.1 in
    (ground (arith, unlike, h.0.1), ((h.0.0, ground (arith, h.0.1)), rest))

pub All-IsNew :
    (keys : BTreeMap VerifyingKey) (distinct ns : List ℕ)
    → All (IsNew keys distinct) ns
    → All (λ k. contains k (members keys) ≡ true) ns
All-IsNew keys distinct [] h = tt
All-IsNew keys distinct (n ∷ ns) h = (h.0.0, All-IsNew keys distinct ns h.1)

length-voters : (votes : List OrderVote) → length (voters votes) ≡ length votes
length-voters [] = refl
length-voters (v ∷ votes) = ground (arith, length-voters votes)

pub length-members : (keys : BTreeMap VerifyingKey) → length (members keys) ≡ length keys
length-members [] = refl
length-members ((id, key) ∷ keys) = ground (arith, length-members keys)

-- Two quorums are more than the nodes and the corrupt nodes together.
pub policy_quorums :
    (policy : CommitteePolicy)
    → validate_policy policy ≡ ok tt
    → policy.nodes + policy.max_corrupt_nodes < policy.ordering_quorum + policy.ordering_quorum
unfolding validate_policy
policy_quorums policy h = ground (arith, reject_if-eq-ok _ _ h)

module _ (p : Primitives) where
  -- Votes that pass the loop come from different nodes of the committee.
  check_votes-voters :
      (wanted : Digest32) (keys : BTreeMap VerifyingKey) (distinct : List ℕ)
      (votes : List OrderVote) {result : List ℕ}
      → check_votes p wanted keys distinct votes ≡ ok result
      → Unique (voters votes) × All (IsNew keys distinct) (voters votes)
  unfolding check_votes
  check_votes-voters wanted keys distinct [] h = (tt, tt)
  check_votes-voters wanted keys distinct (v ∷ votes) h =
      let (fresh, (key, known), h4) =
        loop_step _ OrderingError.invalid_vote
          (ok_or (get v.node_id keys) OrderingError.invalid_node)
          (λ key. map_err (signature_try_from p v.signature) (λ _. OrderingError.invalid_vote))
          (λ key signature.
            map_err (verify_strict p key (be_bytes 32 wanted) signature)
              (λ _. OrderingError.invalid_vote))
          (check_votes p wanted keys (v.node_id ∷ distinct) votes) h in
      let (unique, new) = check_votes-voters wanted keys (v.node_id ∷ distinct) votes h4 in
      let (unlike, rest) = voters_weaken keys v.node_id distinct (voters votes) new in
      (
        (unlike, unique),
        (
          (contains-members v.node_id keys key (ok_or-eq-ok _ _ known), (||-false _ _ fresh).0),
          rest,
        ),
      )

  -- A certificate that verifies has votes of at least a quorum of different nodes.
  verify_certificate-voters :
      (c : OrderCertificate) (policy : CommitteePolicy) (keys : BTreeMap VerifyingKey) (now : ℕ)
      → verify_certificate p c policy keys now ≡ ok tt
      → (policy.ordering_quorum ≤ length (voters c.votes))
        × Unique (voters c.votes)
        × All (λ k. contains k (members keys) ≡ true) (voters c.votes)
        × (validate_policy policy ≡ ok tt)
  unfolding verify_certificate
  verify_certificate-voters c policy keys now h =
      let (valid, enough, (distinct, checked)) =
        verify_step (validate_policy policy) (is_malformed c.statement now)
          (ltb (length c.votes) policy.ordering_quorum)
          (check_votes p (vote_digest p c.statement) keys [] c.votes)
          (λ distinct.
            reject_if (ltb (length distinct) policy.ordering_quorum)
              OrderingError.insufficient_quorum)
          h in
      let (unique, new) = check_votes-voters _ keys [] c.votes checked in
      (ground (arith, enough, length-voters c.votes), unique, All-IsNew keys [] _ new, valid)

  -- If two certificates verify under one policy and one table of at most as many keys as the
  -- policy has nodes, more nodes voted for both than the policy allows to be corrupt.
  pub verify_certificate_overlap :
      (a b : OrderCertificate) (policy : CommitteePolicy) (keys : BTreeMap VerifyingKey)
      (now later : ℕ)
      → length keys ≤ policy.nodes
      → verify_certificate p a policy keys now ≡ ok tt
      → verify_certificate p b policy keys later ≡ ok tt
      → policy.max_corrupt_nodes < length (shared (voters a.votes) (voters b.votes))
  verify_certificate_overlap a b policy keys now later few va vb =
      let (enough_a, unique_a, known_a, valid) = verify_certificate-voters a policy keys now va in
      let (enough_b, unique_b, known_b, _) = verify_certificate-voters b policy keys later vb in
      let overlap = length-shared _ _ (members keys) unique_a unique_b known_a known_b in
      omega
        (arith, overlap, few, length-members keys, enough_a, enough_b, policy_quorums policy valid)
