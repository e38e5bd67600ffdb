-- ===== src/Settlement/Rounds.antt =====
-- rust/oclob-settlement/src/lib.rs: the digests of `settle_batch_collaborative`, and its loop.
use oclob.Base.{
  ℕ, ◌+◌, not, List, [], ◌∷◌, ◌++◌, Result, ok, ◌>>=◌, ◌>>◌, reject_if, map_err, insert, contains,
  set_insert, length, be_bytes,
}
use oclob.Crypto.{Primitives, Digest32, codes}
use oclob.Order.{put_bytes}
use oclob.Book.Operations.Transitions.{PublicFill}
use oclob.Settlement.{SettlementError}
use oclob.Settlement.Fills.{ConsumedFill, consume_fill}
use oclob.Settlement.Remainders.{apply_collaborative_remainders}
use oclob.Settlement.Engine.{ParticipantBalances, SettlementCommittee}
use oclob.Settlement.Batch.{
  Rails, CollaborativeFillProof, SettlementPackage, MemberReceipt, Staged, direction_eq,
  staged_result, transfer, conserved, find_accounts, expected_direction, by_role, member_bytes,
}

-- What the loop knows of the batch.
pub record BatchContext : Type 0 where
  pub market_id : List ℕ
  pub round_id : Digest32
  pub market_proof_digest : Digest32
  pub committee : SettlementCommittee
  pub now : ℕ

module _ (p : Primitives) (rails : Rails) where
  unfoldable pub canonical_securities_asset_id : List ℕ → Digest32
  canonical_securities_asset_id market_id =
      p.sha256 (codes "OCLOB:DEFMI:ASSET:SECURITIES:v1" ++ put_bytes market_id)

  unfoldable pub combined_root : Digest32 → Digest32 → Digest32 → Digest32
  combined_root securities cash reservations = p.sha256 (
      codes "OCLOB:DEFMI-CANONICAL-STATE:v1"
      ++ (be_bytes 32 securities ++ (be_bytes 32 cash ++ be_bytes 32 reservations)))

  unfoldable pub settlement_batch_digest : Digest32 → List MemberReceipt → Digest32
  unfolding member_bytes
  settlement_batch_digest transition members = p.sha256 (
      codes "OCLOB:DEFMI-ATOMIC-BATCH:v1"
      ++ (be_bytes 32 transition ++ (be_bytes 8 (length members) ++ member_bytes members)))

  unfoldable pub resource_id : List ℕ → Digest32
  resource_id name = p.sha256 (codes "OCLOB:DEFMI-RESOURCE:v1" ++ name)

  -- The package of a fill, once its proof was verified.
  unfoldable pub verified_package :
      BatchContext
      → ℕ
      → CollaborativeFillProof
      → ConsumedFill
      → ParticipantBalances
      → ParticipantBalances
      → Result SettlementPackage SettlementError
  unfolding canonical_securities_asset_id
  verified_package context index proof consumed seller buyer = do
    reject_if (not (direction_eq proof.limit_direction (expected_direction consumed.maker_kind)))
        (SettlementError.proof "MPC limit proof has the opposite Taker direction")
    job ←
        map_err (rails.collaborative_job_id context.round_id index context.market_proof_digest)
          SettlementError.proof
    map_err
        (rails.verify_for_settlement proof (record {
          expected_job_id = job;
          market_proof_digest = context.market_proof_digest;
          maker_handle = (by_role consumed.maker_kind seller.handle buyer.handle).0;
          taker_handle = (by_role consumed.maker_kind seller.handle buyer.handle).1;
          maker_reserve = consumed.maker_reserve_commitment;
          taker_reserve = consumed.taker_reserve_commitment;
          asset_id = canonical_securities_asset_id context.market_id;
          committee = context.committee;
          now = context.now;
        }))
        SettlementError.proof

  abbrev pub member_receipt : PublicFill → SettlementPackage → ConsumedFill → MemberReceipt
  member_receipt fill bundle consumed = record {
    instruction_nullifier = bundle.instruction_nullifier;
    zkpi_digest = p.sha256 bundle.instruction_wire;
    package_digest = bundle.digest;
    maker_order = fill.maker_order;
    taker_order = fill.taker_order;
    maker_reservation_remaining = consumed.maker_remaining;
    taker_reservation_remaining = consumed.taker_remaining;
  }

  -- One round of the loop.
  unfoldable pub settle_fill :
      BatchContext
      → ℕ
      → PublicFill
      → CollaborativeFillProof
      → Staged
      → Result Staged SettlementError
  unfolding verified_package
  settle_fill context index fill proof staged = do
    taken ← staged_result (consume_fill fill context.market_id context.now staged.reservations)
    accounts ← find_accounts taken.0 staged.participants
    bundle ← verified_package context index proof taken.0 accounts.0 accounts.1
    reservations ←
        apply_collaborative_remainders taken.0 bundle.securities_remainder bundle.cash_remainder
          proof.maker_pool_remainder taken.1
    reject_if (contains bundle.instruction_nullifier staged.spent) SettlementError.replay_accepted
    after ← transfer rails fill bundle accounts.0 accounts.1
    let participants =
        insert taken.0.buyer_handle after.1
          (insert taken.0.seller_handle after.0 staged.participants)
    reject_if (not (conserved rails participants)) SettlementError.insolvent
    ok (record {
      reservations = reservations;
      participants = participants;
      spent = set_insert bundle.instruction_nullifier staged.spent;
      members = member_receipt fill bundle taken.0 ∷ staged.members;
    })

  unfoldable pub settle_fills :
      BatchContext
      → ℕ
      → List PublicFill
      → List CollaborativeFillProof
      → Staged
      → Result Staged SettlementError
  unfolding settle_fill
  settle_fills context index [] proofs staged = ok staged
  settle_fills context index (fill ∷ fills) [] staged = ok staged
  settle_fills context index (fill ∷ fills) (proof ∷ proofs) staged = do
    staged' ← settle_fill context index fill proof staged
    settle_fills context (index + 1) fills proofs staged'
