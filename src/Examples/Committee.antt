-- ===== src/Examples/Committee.antt =====
-- The committee of seven nodes, its first two certificates and a node that is asked twice.
use oclob.Base.{ℕ, ◌<◌, ◌≡◌, refl, List, [], ◌∷◌, ok, BTreeMap, arith, length, map, be_bytes}
use oclob.Crypto.{
  SigningKey, VerifyingKey, verifying_key, fingerprint, signature_try_from, verify_strict,
}
use oclob.Order.{put_bytes}
use oclob.Ordering.{OrderingNode, OrderVote, Statement, seven_node, validate_policy, vote_digest}
use oclob.Ordering.Certificate.{OrderCertificate, verify_certificate}
use oclob.Ordering.Sets.{voters, shared}
use oclob.Ordering.Quorum.{verify_certificate_overlap}
use oclob.Ordering.Equivocation.{votes_cast, AreConsistent, votes_cast-AreConsistent}
use oclob.Ordering.Log.{OrderingCommittee, empty_log, append, certify}
use oclob.Ordering.Chain.{IsLog, Appended, append-IsLog}
use oclob.Ordering.Certify.{Certified, certify-IsLog}
use oclob.Examples.Setting.{toy, toy_envelope}
use oclob.Examples.Orders.{market}

abbrev pub node_key : ℕ → SigningKey
node_key id = record { seeds = id ∷ [] }

abbrev node : ℕ → OrderingNode
node id = record { id = id; key = node_key id; voted = [] }

abbrev pub ids : List ℕ
ids = 1 ∷ 2 ∷ 3 ∷ 4 ∷ 5 ∷ 6 ∷ 7 ∷ []

abbrev pub node_keys : BTreeMap VerifyingKey
node_keys = map (λ id. (id, verifying_key toy (node_key id))) ids

abbrev committee : OrderingCommittee
committee = record { policy = seven_node; nodes = map node ids; keys = node_keys; log = empty_log }

empty_IsLog : IsLog toy empty_log
empty_IsLog = record { chain = tt; distinct = tt; recorded = λ k. refl }

certify-IsLog_example :
    IsLog toy (certify toy market 77 60 10 committee).1.log
    × Certified toy market 77 60 10 committee (certify toy market 77 60 10 committee)
certify-IsLog_example = certify-IsLog toy market 77 60 10 committee empty_IsLog

abbrev first_statement : ℕ → Statement
first_statement commitment = record {
  market_id = market;
  sequence = 1;
  commitment = commitment;
  previous_certificate = 0;
  expires_at = 60;
}

votes_cast-AreConsistent_example : AreConsistent (
    votes_cast toy
      ((first_statement 77, 10) ∷ (first_statement 78, 10) ∷ (first_statement 77, 11) ∷ [])
      (node 1))
votes_cast-AreConsistent_example =
    votes_cast-AreConsistent toy
      ((first_statement 77, 10) ∷ (first_statement 78, 10) ∷ (first_statement 77, 11) ∷ []) (node 1)

abbrev signed_vote : Statement → ℕ → OrderVote
signed_vote s id = record {
  node_id = id;
  statement_digest = vote_digest toy s;
  signature = toy_envelope (node_key id).seeds (be_bytes 32 (vote_digest toy s));
}

abbrev certificate : Statement → List ℕ → OrderCertificate
certificate s signers = record { statement = s; votes = map (signed_vote s) signers }

abbrev early : OrderCertificate
early = certificate (first_statement 77) (1 ∷ 2 ∷ 3 ∷ 4 ∷ 5 ∷ [])

abbrev late : OrderCertificate
late = certificate (first_statement 78) (7 ∷ 6 ∷ 5 ∷ 4 ∷ 3 ∷ [])

early_verified : verify_certificate toy early seven_node node_keys 10 ≡ ok tt
unfolding verify_certificate vote_digest validate_policy put_bytes be_bytes signature_try_from
    verify_strict fingerprint verifying_key
early_verified = refl

late_verified : verify_certificate toy late seven_node node_keys 11 ≡ ok tt
unfolding verify_certificate vote_digest validate_policy put_bytes be_bytes signature_try_from
    verify_strict fingerprint verifying_key
late_verified = refl

verify_certificate_overlap_example : 2 < length (shared (voters early.votes) (voters late.votes))
verify_certificate_overlap_example =
    verify_certificate_overlap toy early late seven_node node_keys 10 11 (omega arith)
      early_verified late_verified

append-IsLog_example :
    IsLog toy (append toy early seven_node node_keys 10 empty_log).1
    × Appended toy early
        (verify_certificate toy early seven_node node_keys 10)
        empty_log
        (append toy early seven_node node_keys 10 empty_log)
append-IsLog_example = append-IsLog toy early seven_node node_keys 10 empty_log empty_IsLog
