-- ===== src/Settlement/Settle.antt =====
-- rust/oclob-settlement/src/lib.rs: the guards and the end of `settle_batch_collaborative`.
use oclob.Base.{
  ℕ, ◌+◌, true, not, ◌||◌, none, some, List, [], ◌∷◌, ◌++◌, Result, ok, err, ◌>>=◌, ◌>>◌, reject_if,
  ok_or, map_err, BTreeMap, values, is_empty, length, checked_add, be_bytes, ltb, ◌==◌, ◌!=◌,
}
use mathlib.Core.List.{reverse}
use oclob.Crypto.{Primitives, Digest32, codes}
use oclob.Order.{max_match_slots}
use oclob.Order.Authority.{OrderCommitment}
use oclob.Book.Operations.Transitions.{PublicFill}
use oclob.Proofs.{other_taker, transition_digest}
use oclob.Proofs.Binding.{TransitionAuthorization, verify_settlement_binding}
use oclob.Settlement.{SettlementError, ReservationRecord, is_active, checked_sum}
use oclob.Settlement.Fills.{find_reservation}
use oclob.Settlement.Roots.{reservation_root}
use oclob.Settlement.Remainders.{reconcile_arriving_collaborative}
use oclob.Settlement.Engine.{ParticipantBalances, SettlementEngine, next_height}
use oclob.Settlement.Batch.{
  Rails, CollaborativeFillProof, SettlementReceipt, Staged, has_empty_fill, has_repeated_maker,
  quantities, securities_accounts, cash_accounts, conserved, refresh_all, set_last_remaining,
}
use oclob.Settlement.Rounds.{
  BatchContext, settle_fills, combined_root, settlement_batch_digest, resource_id,
}

module _ (p : Primitives) (rails : Rails) where
  -- The guards before the loop, and what the loop is to know.
  unfoldable pub check_batch :
      List PublicFill
      → List CollaborativeFillProof
      → Digest32
      → TransitionAuthorization
      → OrderCommitment
      → ℕ
      → ℕ
      → SettlementEngine
      → Result BatchContext SettlementError
  unfolding find_reservation verify_settlement_binding
  check_batch fills proofs round_id transition arriving arriving_remaining now engine = do
    reject_if
        (is_empty fills
          || (length fills != length proofs
              || (ltb max_match_slots (length fills)
                  || (round_id == 0 || (has_empty_fill fills || other_taker arriving fills)))))
        SettlementError.invalid_fill
    found ← find_reservation arriving "taker reservation is absent" engine.reservations
    let r : ReservationRecord = found.1
    reject_if (not (is_active r.status) || ltb r.expires_at now)
        (SettlementError.reservation "an inactive or expired arriving reservation cannot settle")
    filled ←
        ok_or (checked_sum 0 (quantities fills))
          (SettlementError.reservation "fill quantity overflowed")
    reject_if
        (elim (checked_add filled arriving_remaining) [
          | none ↦ true
          | some total ↦ total != r.original_quantity
        ])
        (SettlementError.reservation "fills and arriving remainder do not conserve order quantity")
    reject_if (has_repeated_maker [] fills) (
        SettlementError.reservation
          "one resting order cannot appear twice in an atomic match batch")
    map_err
        (verify_settlement_binding p transition r.market_id arriving fills
          engine.transition_committee_trust_root)
        (λ _. SettlementError.proof "the ordered input, MPC receipt and book transition disagree")
    reject_if (transition.statement.mpc_output_digest == 0)
        (SettlementError.proof "transition omitted the MPC public-output digest")
    committee ←
        ok_or engine.committee
          (SettlementError.proof "MPC PQ settlement committee is not pinned in DeFMI")
    ok (record {
      market_id = r.market_id;
      round_id = round_id;
      market_proof_digest = transition.statement.mpc_output_digest;
      committee = committee;
      now = now;
    })

  -- After the loop: the arriving reservation, the capacities, and the last checks.
  unfoldable pub close_batch :
      List PublicFill
      → OrderCommitment
      → ℕ
      → SettlementEngine
      → Staged
      → Result Staged SettlementError
  unfolding refresh_all
  close_batch fills arriving arriving_remaining engine staged = do
    reconciled ← reconcile_arriving_collaborative arriving arriving_remaining staged.reservations
    reservations ← refresh_all staged.participants reconciled.1
    reject_if (not (conserved rails staged.participants)) SettlementError.insolvent
    reject_if (length staged.spent != length engine.spent_instructions + length fills)
        SettlementError.replay_accepted
    ok (record staged {
      reservations = reservations;
      members = set_last_remaining reconciled.0 staged.members;
    })

  unfoldable pub stage_batch :
      List PublicFill
      → List CollaborativeFillProof
      → Digest32
      → TransitionAuthorization
      → OrderCommitment
      → ℕ
      → ℕ
      → SettlementEngine
      → Result Staged SettlementError
  unfolding check_batch settle_fills close_batch
  stage_batch fills proofs round_id transition arriving arriving_remaining now engine = do
    context ← check_batch fills proofs round_id transition arriving arriving_remaining now engine
    staged ← settle_fills p rails context 0 fills proofs (record {
      reservations = engine.reservations;
      participants = engine.participants;
      spent = engine.spent_instructions;
      members = [];
    })
    close_batch fills arriving arriving_remaining engine staged

  abbrev pub securities_root : BTreeMap ParticipantBalances → Digest32
  securities_root participants =
      rails.ledger_snapshot (securities_accounts rails (values participants))

  abbrev pub cash_root : BTreeMap ParticipantBalances → Digest32
  cash_root participants = rails.ledger_snapshot (cash_accounts rails (values participants))

  -- The receipt's roots, before and after.
  abbrev pub receipt_of : SettlementEngine → Staged → Digest32 → ℕ → Digest32 → SettlementReceipt
  receipt_of engine staged transition height digest =
      let after = reservation_root p staged.reservations in
      record {
        batch_digest = settlement_batch_digest p rails transition (reverse staged.members);
        members = reverse staged.members;
        securities_before_root = securities_root engine.participants;
        securities_after_root = securities_root staged.participants;
        cash_before_root = cash_root engine.participants;
        cash_after_root = cash_root staged.participants;
        reservation_before_root = reservation_root p engine.reservations;
        reservation_after_root = after;
        canonical_state_root =
            combined_root p rails (securities_root staged.participants)
              (cash_root staged.participants) after;
        canonical_receipt_digest = digest;
        canonical_height = height;
      }

  -- The canonical readback of the staged state; it gives the receipt's digest.
  unfoldable pub accept_batch :
      TransitionAuthorization → SettlementEngine → Staged → ℕ → Result Digest32 SettlementError
  unfolding combined_root settlement_batch_digest
  accept_batch transition engine staged height = do
    let statement = transition_digest p transition.statement
    let receipt : SettlementReceipt = receipt_of engine staged statement height 0
    let before =
        combined_root p rails receipt.securities_before_root receipt.cash_before_root
          receipt.reservation_before_root
    let after = receipt.canonical_state_root
    securities ←
        map_err (rails.readback (resource_id p rails (codes "OCLOB:SECURITIES-RAIL")) after)
          SettlementError.finality
    cash ←
        map_err (rails.readback (resource_id p rails (codes "OCLOB:CASH-RAIL")) after)
          SettlementError.finality
    binding ← map_err rails.manifest_digest SettlementError.finality
    map_err
        (rails.accept_canonical_transition binding
          (record {
            transaction_id = receipt.batch_digest;
            block_id = p.sha256 (
                codes "OCLOB:DEFMI-BLOCK:v1"
                ++ (be_bytes 32 receipt.batch_digest ++ be_bytes 32 after));
            height = height;
            statement = statement;
            before_state_root = before;
            after_state_root = after;
          })
          statement before (securities ∷ cash ∷ []))
        SettlementError.finality

  -- `settle_batch_collaborative`: the height moves before the readback is asked for.
  unfoldable pub settle_batch_collaborative :
      List PublicFill
      → List CollaborativeFillProof
      → Digest32
      → TransitionAuthorization
      → OrderCommitment
      → ℕ
      → ℕ
      → SettlementEngine
      → Result SettlementReceipt SettlementError × SettlementEngine
  unfolding stage_batch accept_batch
  settle_batch_collaborative fills proofs round_id transition arriving arriving_remaining now
        engine =
      elim (stage_batch fills proofs round_id transition arriving arriving_remaining now engine) [
        | err e ↦ (err e, engine)
        | ok staged ↦ elim (next_height engine) [
          | err e ↦ (err e, engine)
          | ok height ↦ elim (accept_batch transition engine staged height) [
            | err e ↦ (err e, record engine { height = height })
            | ok digest ↦ (
              ok (
                  receipt_of engine staged (transition_digest p transition.statement) height
                    digest),
              record engine {
                participants = staged.participants;
                reservations = staged.reservations;
                spent_instructions = staged.spent;
                height = height;
              },
            )
          ]
        ]
      ]
