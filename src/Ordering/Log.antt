-- ===== src/Ordering/Log.antt =====
-- rust/oclob-ordering/src/lib.rs: the log of certificates, and the committee that certifies an
-- order and appends it to the log.
use oclob.Base.{
  ℕ, zero, suc, ◌+◌, ◌||◌, List, [], ◌∷◌, ◌++◌, Result, ok, err, BTreeMap, contains, set_insert,
  length, ◌!=◌, if◌then◌else◌,
}
use oclob.Crypto.{Primitives, Digest32, VerifyingKey}
use oclob.Order.Authority.{OrderCommitment}
use oclob.Ordering.{CommitteePolicy, OrderingError, OrderingNode, OrderVote, Statement, vote}
use oclob.Ordering.Certificate.{OrderCertificate, certificate_digest, verify_certificate}

pub record OrderingLog : Type 0 where
  pub certificates : List OrderCertificate
  pub commitments : List OrderCommitment

pub record OrderingCommittee : Type 0 where
  pub policy : CommitteePolicy
  pub nodes : List OrderingNode
  pub keys : BTreeMap VerifyingKey
  pub log : OrderingLog

-- `OrderingLog::default`
abbrev pub empty_log : OrderingLog
empty_log = record { certificates = []; commitments = [] }

-- `OrderingLog::next_sequence`
abbrev pub next_sequence : OrderingLog → ℕ
next_sequence log = length log.certificates + 1

-- `Iterator::collect` into a `Result`: the nodes before the first error keep the vote they cast.
abbrev collected :
    Result OrderVote OrderingError
    → Result (List OrderVote) OrderingError
    → Result (List OrderVote) OrderingError
collected (err e) rest = err e
collected (ok v) (err e) = err e
collected (ok v) (ok votes) = ok (v ∷ votes)

module _ (p : Primitives) where
  -- The digest of the last certificate of a list that follows a certificate with digest `before`.
  abbrev pub last_digest : Digest32 → List OrderCertificate → Digest32
  last_digest before [] = before
  last_digest before (c ∷ cs) = last_digest (certificate_digest p c) cs

  -- `OrderingLog::head`
  abbrev pub head : OrderingLog → Digest32
  head log = last_digest 0 log.certificates

  -- `OrderingLog::append`: the log changes only if the certificate is accepted.
  unfoldable pub append :
      OrderCertificate
      → CommitteePolicy
      → BTreeMap VerifyingKey
      → ℕ
      → OrderingLog
      → Result (Unit {0}) OrderingError × OrderingLog
  append c policy keys now log = elim (verify_certificate p c policy keys now) [
    | err e ↦ (err e, log)
    | ok _ ↦
        if c.statement.sequence != next_sequence log || c.statement.previous_certificate != head log
        then (err OrderingError.broken_chain, log)
        else if contains c.statement.commitment log.commitments
        then (err OrderingError.replay, log)
        else (
          ok tt,
          record {
            certificates = log.certificates ++ (c ∷ []);
            commitments = set_insert c.statement.commitment log.commitments;
          },
        )
  ]

  -- The first `count` nodes vote, one after the other, up to the first refusal.
  unfoldable pub collect_votes :
      Statement
      → ℕ
      → ℕ
      → List OrderingNode
      → Result (List OrderVote) OrderingError × List OrderingNode
  collect_votes s now zero nodes = (ok [], nodes)
  collect_votes s now (suc count) [] = (ok [], [])
  collect_votes s now (suc count) (node ∷ nodes) =
      let rest = collect_votes s now count nodes in
      let voted = vote p s now node in
      elim voted.0 [
        | err e ↦ (err e, voted.1 ∷ nodes)
        | ok v ↦ (collected (ok v) rest.0, voted.1 ∷ rest.1)
      ]

  -- `OrderingCommittee::certify`
  unfoldable pub certify :
      List ℕ
      → OrderCommitment
      → ℕ
      → ℕ
      → OrderingCommittee
      → Result OrderCertificate OrderingError × OrderingCommittee
  unfolding append collect_votes
  certify market_id commitment expires_at now committee =
      if contains commitment committee.log.commitments
      then (err OrderingError.replay, committee)
      else let s : Statement = record {
        market_id = market_id;
        sequence = next_sequence committee.log;
        commitment = commitment;
        previous_certificate = head committee.log;
        expires_at = expires_at;
      } in
        let collected_votes =
          collect_votes s now committee.policy.ordering_quorum committee.nodes in
        let voted : OrderingCommittee = record committee { nodes = collected_votes.1 } in
        elim collected_votes.0 [
          | err e ↦ (err e, voted)
          | ok votes ↦
              let c : OrderCertificate = record { statement = s; votes = votes } in
              let appended = append c committee.policy committee.keys now committee.log in
              elim appended.0 [
                | err e ↦ (err e, record voted { log = appended.1 })
                | ok _ ↦ (ok c, record voted { log = appended.1 })
              ]
        ]
