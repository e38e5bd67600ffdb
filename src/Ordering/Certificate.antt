-- ===== src/Ordering/Certificate.antt =====
-- rust/oclob-ordering/src/lib.rs: an order certificate, its digest and its verification against
-- the committee's policy and keys.
use oclob.Base.{
  ℕ, ◌||◌, List, [], ◌∷◌, ◌++◌, Result, ok, ◌>>=◌, ◌>>◌, reject_if, ok_or, map_err, BTreeMap, get,
  contains, length, be_bytes, ltb, ◌!=◌, if◌then◌else◌,
}
use oclob.Crypto.{Primitives, Digest32, codes, VerifyingKey, signature_try_from, verify_strict}
use oclob.Order.{put_bytes}
use oclob.Ordering.{
  CommitteePolicy, OrderingError, OrderVote, Statement, is_malformed, validate_policy, vote_digest,
}

-- `OrderCertificate`: its statement's fields and the votes.
pub record OrderCertificate : Type 0 where
  pub statement : Statement
  pub votes : List OrderVote

abbrev insert_vote : OrderVote → List OrderVote → List OrderVote
insert_vote v [] = v ∷ []
insert_vote v (w ∷ votes) =
    let rest = insert_vote v votes in if ltb w.node_id v.node_id then w ∷ rest else v ∷ w ∷ votes

-- `sort_by_key` is stable.
abbrev sort_votes : List OrderVote → List OrderVote
sort_votes [] = []
sort_votes (v ∷ votes) = insert_vote v (sort_votes votes)

vote_bytes : List OrderVote → List ℕ
vote_bytes [] = []
vote_bytes (v ∷ votes) =
    be_bytes 2 v.node_id
    ++ (be_bytes 32 v.statement_digest ++ (put_bytes v.signature ++ vote_bytes votes))

module _ (p : Primitives) where
  -- `OrderCertificate::digest`
  unfoldable pub certificate_digest : OrderCertificate → Digest32
  unfolding vote_bytes
  certificate_digest c = p.sha256 (
      codes "OCLOB:ORDER-CERTIFICATE:v2"
      ++ put_bytes c.statement.market_id
      ++ be_bytes 8 c.statement.sequence
      ++ be_bytes 32 c.statement.commitment
      ++ be_bytes 32 c.statement.previous_certificate
      ++ be_bytes 8 c.statement.expires_at
      ++ vote_bytes (sort_votes c.votes))

  -- The loop of `verify`: the nodes seen so far, and the votes that are left.
  unfoldable pub check_votes :
      Digest32 → BTreeMap VerifyingKey → List ℕ → List OrderVote → Result (List ℕ) OrderingError
  check_votes wanted keys distinct [] = ok distinct
  check_votes wanted keys distinct (v ∷ votes) = do
    reject_if (contains v.node_id distinct || v.statement_digest != wanted)
        OrderingError.invalid_vote
    key ← ok_or (get v.node_id keys) OrderingError.invalid_node
    signature ← map_err (signature_try_from p v.signature) (λ _. OrderingError.invalid_vote)
    map_err (verify_strict p key (be_bytes 32 wanted) signature) (λ _. OrderingError.invalid_vote)
    check_votes wanted keys (v.node_id ∷ distinct) votes

  -- `OrderCertificate::verify`
  unfoldable pub verify_certificate :
      OrderCertificate
      → CommitteePolicy
      → BTreeMap VerifyingKey
      → ℕ
      → Result (Unit {0}) OrderingError
  unfolding check_votes
  verify_certificate c policy keys now = do
    validate_policy policy
    reject_if (is_malformed c.statement now) OrderingError.invalid_vote
    reject_if (ltb (length c.votes) policy.ordering_quorum) OrderingError.insufficient_quorum
    distinct ← check_votes (vote_digest p c.statement) keys [] c.votes
    reject_if (ltb (length distinct) policy.ordering_quorum) OrderingError.insufficient_quorum
