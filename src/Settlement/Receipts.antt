-- ===== src/Settlement/Receipts.antt =====
-- What a settled batch leaves behind: its receipt, and the instructions that it spent.
use oclob.Base.{
  ℕ, ◌+◌, ◌≡◌, ◌∙◌, refl, List, ◌++◌, ok, arith, Result-cases, length, length-reverse, inl, inr,
}
use mathlib.Core.List.{reverse, reverse-reverse}
use oclob.Crypto.{Primitives, Digest32}
use oclob.Order.Authority.{OrderCommitment}
use oclob.Book.Operations.Transitions.{PublicFill}
use oclob.Ordering.Sets.{Unique}
use oclob.Proofs.{transition_digest}
use oclob.Proofs.Binding.{TransitionAuthorization}
use oclob.Settlement.Roots.{reservation_root}
use oclob.Settlement.Engine.{SettlementEngine, next_height}
use oclob.Settlement.Batch.{Rails, CollaborativeFillProof, SettlementReceipt, Staged}
use oclob.Settlement.Settle.{
  stage_batch, accept_batch, receipt_of, securities_root, cash_root, settle_batch_collaborative,
}
use oclob.Settlement.Rounds.{combined_root, settlement_batch_digest}
use oclob.Settlement.Spent.{nullifiers, stage_batch-Spends}

module _ (p : Primitives) (rails : Rails) where
  -- What a batch that settled went through.
  pub record Settled (fills : List PublicFill) (proofs : List CollaborativeFillProof)
      (round_id : Digest32) (transition : TransitionAuthorization) (arriving : OrderCommitment)
      (remaining now : ℕ) (engine : SettlementEngine) (receipt : SettlementReceipt)
      (after : SettlementEngine) : Type 0 where
    pub staged : Staged
    digest : Digest32
    pub staging :
        stage_batch p rails fills proofs round_id transition arriving remaining now engine
        ≡ ok staged
    pub receipt_is :
        receipt
        ≡ receipt_of p rails engine staged
            (transition_digest p transition.statement)
            (engine.height + 1)
            digest
    pub after_is : after ≡ record engine {
      participants = staged.participants;
      reservations = staged.reservations;
      spent_instructions = staged.spent;
      height = engine.height + 1;
    }

  pub settle_batch_collaborative-Settled :
      (fills : List PublicFill) (proofs : List CollaborativeFillProof) (round_id : Digest32)
      (transition : TransitionAuthorization) (arriving : OrderCommitment) (remaining now : ℕ)
      (engine after : SettlementEngine) (receipt : SettlementReceipt)
      → settle_batch_collaborative p rails fills proofs round_id transition arriving remaining now
          engine
        ≡ (ok receipt, after)
      → Settled fills proofs round_id transition arriving remaining now engine receipt after
  unfolding settle_batch_collaborative
  settle_batch_collaborative-Settled fills proofs round_id transition arriving remaining now engine
        after receipt h =
      let staging =
        stage_batch p rails fills proofs round_id transition arriving remaining now engine in
      elim (Result-cases staging) [
        | inr (e, is) ↦ let bad = rw (settle_batch_collaborative, is) at h in absurd (cc)
        | inl (staged, is) ↦ elim (Result-cases (next_height engine)) [
          | inr (e, is_height) ↦
              let bad = rw (settle_batch_collaborative, is, is_height) at h in absurd (cc)
          | inl (height, is_height) ↦
              let height_is : height ≡ engine.height + 1 = ground (arith, is_height) in
              elim (Result-cases (accept_batch p rails transition engine staged height)) [
                | inr (e, is_accepted) ↦
                    let bad = rw (settle_batch_collaborative, is, is_height, is_accepted) at h in
                    absurd (cc)
                | inl (digest, is_accepted) ↦
                    let good =
                      rw (settle_batch_collaborative, is, is_height, is_accepted, height_is) at h in
                    record {
                      staged = staged;
                      digest = digest;
                      staging = is;
                      receipt_is = cc;
                      after_is = cc;
                    }
              ]
        ]
      ]

  -- The receipt of a batch that settles has the roots of the securities, the cash and the
  -- reservations of the engine before it, and of the engine after it, with the combined root of the
  -- latter; the digest of the attested transition and of its own members; and the height of the
  -- engine after it, which is the next one.
  pub settle_batch_collaborative_receipt :
      (fills : List PublicFill) (proofs : List CollaborativeFillProof) (round_id : Digest32)
      (transition : TransitionAuthorization) (arriving : OrderCommitment) (remaining now : ℕ)
      (engine after : SettlementEngine) (receipt : SettlementReceipt)
      → settle_batch_collaborative p rails fills proofs round_id transition arriving remaining now
          engine
        ≡ (ok receipt, after)
      → (receipt.securities_before_root ≡ securities_root p rails engine.participants)
        × ((receipt.cash_before_root ≡ cash_root p rails engine.participants)
            × ((receipt.reservation_before_root ≡ reservation_root p engine.reservations)
                × ((receipt.securities_after_root ≡ securities_root p rails after.participants)
                    × ((receipt.cash_after_root ≡ cash_root p rails after.participants)
                        × ((receipt.reservation_after_root ≡ reservation_root p after.reservations)
                            × ((receipt.batch_digest
                                  ≡ settlement_batch_digest p rails
                                      (transition_digest p transition.statement)
                                      receipt.members)
                                × ((receipt.canonical_state_root
                                      ≡ combined_root p rails
                                          (securities_root p rails after.participants)
                                          (cash_root p rails after.participants)
                                          (reservation_root p after.reservations))
                                    × ((receipt.canonical_height ≡ after.height)
                                        × (after.height ≡ engine.height + 1)))))))))
  settle_batch_collaborative_receipt fills proofs round_id transition arriving remaining now engine
        after receipt h =
      let s =
        settle_batch_collaborative-Settled fills proofs round_id transition arriving remaining now
          engine after receipt h in
      rw (s.receipt_is, s.after_is)
        (refl, (refl, (refl, (refl, (refl, (refl, (refl, (refl, (refl, refl)))))))))

  -- A batch that settles gives a receipt for each of its fills. The engine's spent instructions are
  -- then those of the receipts, the last one first, before the ones it had, and if those were without
  -- repetition, so are they: no instruction was spent before or is spent twice.
  pub settle_batch_collaborative_spends :
      (fills : List PublicFill) (proofs : List CollaborativeFillProof) (round_id : Digest32)
      (transition : TransitionAuthorization) (arriving : OrderCommitment) (remaining now : ℕ)
      (engine after : SettlementEngine) (receipt : SettlementReceipt)
      → Unique engine.spent_instructions
      → settle_batch_collaborative p rails fills proofs round_id transition arriving remaining now
          engine
        ≡ (ok receipt, after)
      → (after.spent_instructions
          ≡ nullifiers (reverse receipt.members) ++ engine.spent_instructions)
        × ((length receipt.members ≡ length fills) × Unique after.spent_instructions)
  settle_batch_collaborative_spends fills proofs round_id transition arriving remaining now engine
        after receipt unique h =
      let s =
        settle_batch_collaborative-Settled fills proofs round_id transition arriving remaining now
          engine after receipt h in
      let (spent, (count, fresh)) =
        stage_batch-Spends p rails fills proofs round_id transition arriving remaining now engine
          s.staged s.staging unique in
      rw (s.receipt_is, s.after_is, reverse-reverse)
        (spent, (length-reverse s.staged.members ∙ count, fresh))
