-- ===== src/Ordering.antt =====
-- rust/oclob-ordering/src/lib.rs: the committee's policy and a node that votes for the order of
-- commitments, at most once for each sequence number.
pub mod Equivocation
pub mod Certificate
pub mod Sets
pub mod Quorum
pub mod Log
pub mod Chain
pub mod Certify
use oclob.Base.{
  ℕ, ◌+◌, ◌*◌, Bool, true, false, not, ◌||◌, Option, none, some, List, [], ◌++◌, Result, ok, err,
  ◌>>=◌, ◌>>◌, reject_if, map_err, BTreeMap, get, insert, is_empty, length, be_bytes, bool_eq, ltb,
  leb, ◌==◌, ◌!=◌, if◌then◌else◌,
}
use oclob.Crypto.{Primitives, Digest32, codes, SigningKey, try_sign}
use oclob.Order.{put_bytes}
use oclob.Order.Authority.{OrderCommitment}

pub data OrderingError : Type 0 where
  invalid_policy invalid_node invalid_vote insufficient_quorum equivocation broken_chain replay :
      OrderingError

pub record CommitteePolicy : Type 0 where
  pub nodes : ℕ
  pub max_corrupt_nodes : ℕ
  pub reconstruction_quorum : ℕ
  pub ordering_quorum : ℕ
  pub settlement_authorization_quorum : ℕ

abbrev pub seven_node : CommitteePolicy
seven_node = record {
  nodes = 7;
  max_corrupt_nodes = 2;
  reconstruction_quorum = 3;
  ordering_quorum = 5;
  settlement_authorization_quorum = 3;
}

-- `CommitteePolicy::validate`
unfoldable pub validate_policy : CommitteePolicy → Result (Unit {0}) OrderingError
validate_policy policy =
    reject_if
      (policy.nodes != 7
        || (policy.max_corrupt_nodes != 2
            || (policy.reconstruction_quorum != policy.max_corrupt_nodes + 1
                || (leb policy.ordering_quorum (2 * policy.max_corrupt_nodes)
                    || (ltb policy.nodes policy.ordering_quorum
                        || policy.settlement_authorization_quorum
                          != policy.reconstruction_quorum)))))
      OrderingError.invalid_policy

pub record OrderVote : Type 0 where
  pub node_id : ℕ
  pub statement_digest : Digest32
  pub signature : List ℕ

pub record OrderingNode : Type 0 where
  pub id : ℕ
  pub key : SigningKey
  pub voted : BTreeMap Digest32

-- `OrderingNode::new`
unfoldable pub new_node : ℕ → SigningKey → Result OrderingNode OrderingError
new_node id key = do
  reject_if (id == 0) OrderingError.invalid_node
  ok (record { id = id; key = key; voted = [] })

-- What a vote and a certificate are about.
pub record Statement : Type 0 where
  pub market_id : List ℕ
  pub sequence : ℕ
  pub commitment : OrderCommitment
  pub previous_certificate : Digest32
  pub expires_at : ℕ

-- The test that `vote` and `verify` share. Only the first certificate has no predecessor.
abbrev pub is_malformed : Statement → ℕ → Bool
is_malformed s now =
    s.sequence == 0
    || (is_empty s.market_id
        || (ltb 64 (length s.market_id)
            || (s.commitment == 0
                || (not (bool_eq (s.sequence == 1) (s.previous_certificate == 0))
                    || ltb s.expires_at now))))

module _ (p : Primitives) where
  unfoldable pub vote_digest : Statement → Digest32
  vote_digest s = p.sha256 (
      codes "OCLOB:ORDER-VOTE:v2"
      ++ put_bytes s.market_id
      ++ be_bytes 8 s.sequence
      ++ be_bytes 32 s.commitment
      ++ be_bytes 32 s.previous_certificate
      ++ be_bytes 8 s.expires_at)

  -- Whether the node voted for something else at this sequence number.
  abbrev pub equivocates : OrderingNode → Statement → Bool
  equivocates node s = elim (get s.sequence node.voted) [
    | none ↦ false
    | some existing ↦ existing != vote_digest s
  ]

  -- `OrderingNode::vote`: the node changes only if the vote is cast.
  unfoldable pub vote : Statement → ℕ → OrderingNode → Result OrderVote OrderingError × OrderingNode
  vote s now node =
      if is_malformed s now
      then (err OrderingError.invalid_vote, node)
      else if equivocates node s
      then (err OrderingError.equivocation, node)
      else elim (try_sign p node.key (be_bytes 32 (vote_digest s))) [
        | err _ ↦ (err OrderingError.invalid_vote, node)
        | ok signature ↦ (
          ok (record {
            node_id = node.id;
            statement_digest = vote_digest s;
            signature = signature.bytes;
          }),
          record node { voted = insert s.sequence (vote_digest s) node.voted },
        )
      ]
