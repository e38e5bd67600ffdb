-- ===== src/Settlement/Spent.antt =====
-- The instructions that the fills of a batch spend.
use oclob.Base.{
  ℕ, ◌+◌, ◌≡◌, ◌∙◌, refl, sym, ap, false, ◌||◌, List, [], ◌∷◌, ◌++◌, ok, reject_if, arith,
  >>=-eq-ok, reject_if-eq-ok, contains, set_insert, length, length-append, ltb, ||-false,
  append_assoc, append-nil, is_empty, ◌==◌, ◌!=◌,
}
use oclob.Crypto.{Primitives, Digest32}
use oclob.Order.{max_match_slots}
use oclob.Order.Authority.{OrderCommitment}
use oclob.Book.Operations.Transitions.{PublicFill}
use oclob.Ordering.Sets.{Unique}
use oclob.Proofs.{other_taker}
use oclob.Proofs.Binding.{TransitionAuthorization}
use oclob.Settlement.{SettlementError}
use oclob.Settlement.Engine.{SettlementEngine}
use oclob.Settlement.Batch.{
  Rails, CollaborativeFillProof, MemberReceipt, Staged, has_empty_fill, set_last_remaining,
}
use oclob.Settlement.Settle.{check_batch, stage_batch}
use oclob.Settlement.Rounds.{BatchContext, settle_fill, settle_fills, member_receipt}
use oclob.Settlement.Filled.{settle_fill-Filled, close_batch-Closed}

abbrev pub nullifiers : List MemberReceipt → List Digest32
nullifiers [] = []
nullifiers (m ∷ ms) = m.instruction_nullifier ∷ nullifiers ms

-- What some fills added to the receipts and to the spent instructions.
record Spends (fills : ℕ) (staged staged' : Staged) : Type 0 where
  new : List MemberReceipt
  members : staged'.members ≡ new ++ staged.members
  spent : staged'.spent ≡ nullifiers new ++ staged.spent
  count : length new ≡ fills
  fresh : Unique staged.spent → Unique staged'.spent

nullifiers-append :
    (xs ys : List MemberReceipt) → nullifiers (xs ++ ys) ≡ nullifiers xs ++ nullifiers ys
nullifiers-append [] ys = refl
nullifiers-append (x ∷ xs) ys = ap (λ ns. x.instruction_nullifier ∷ ns) (nullifiers-append xs ys)

nullifiers-set_last_remaining :
    (n : ℕ) (ms : List MemberReceipt) → nullifiers (set_last_remaining n ms) ≡ nullifiers ms
nullifiers-set_last_remaining n [] = refl
nullifiers-set_last_remaining n (m ∷ ms) = refl

length-set_last_remaining :
    (n : ℕ) (ms : List MemberReceipt) → length (set_last_remaining n ms) ≡ length ms
length-set_last_remaining n [] = refl
length-set_last_remaining n (m ∷ ms) = refl

abbrev members_of : Staged → List MemberReceipt
members_of staged = staged.members

abbrev spent_of : Staged → List Digest32
spent_of staged = staged.spent

set_insert_fresh :
    (n : Digest32) (spent : List Digest32)
    → contains n spent ≡ false
    → set_insert n spent ≡ n ∷ spent
set_insert_fresh n spent h = ground (arith, h)

module _ (p : Primitives) (rails : Rails) where
  settle_fill-Spends :
      (context : BatchContext) (index : ℕ) (fill : PublicFill) (proof : CollaborativeFillProof)
      (staged staged' : Staged)
      → settle_fill p rails context index fill proof staged ≡ ok staged'
      → (m : MemberReceipt) × ((staged'.members ≡ m ∷ staged.members)
          × ((staged'.spent ≡ m.instruction_nullifier ∷ staged.spent)
              × (contains m.instruction_nullifier staged.spent ≡ false)))
  settle_fill-Spends context index fill proof staged staged' e =
      let f = settle_fill-Filled p rails context index fill proof staged staged' e in
      (
        member_receipt p rails fill f.bundle f.c,
        (
          f.members,
          (
            f.spent ∙ set_insert_fresh f.bundle.instruction_nullifier staged.spent f.unspent,
            f.unspent,
          ),
        ),
      )

  settle_fills-Spends :
      (context : BatchContext) (index : ℕ) (fills : List PublicFill)
      (proofs : List CollaborativeFillProof) (staged staged' : Staged)
      → length fills ≡ length proofs
      → settle_fills p rails context index fills proofs staged ≡ ok staged'
      → Spends (length fills) staged staged'
  unfolding settle_fills
  settle_fills-Spends context index [] proofs staged staged' l e =
      let is : staged ≡ staged' = cc in
      rw (← is) (record { new = []; members = refl; spent = refl; count = refl; fresh = λ u. u })
  settle_fills-Spends context index (fill ∷ fills) [] staged staged' l e = absurd (omega (arith, l))
  settle_fills-Spends context index (fill ∷ fills) (proof ∷ proofs) staged staged' l e =
      let (middle, e1, e2) = >>=-eq-ok (settle_fill p rails context index fill proof staged) _ e in
      let (m, (members_are, (spent_is, fresh))) =
        settle_fill-Spends context index fill proof staged middle e1 in
      let s =
        settle_fills-Spends context (index + 1) fills proofs middle staged' (omega (arith, l)) e2 in
      record {
        new = s.new ++ (m ∷ []);
        members =
            s.members
            ∙ ap (λ ms. s.new ++ ms) members_are
            ∙ sym (append_assoc s.new (m ∷ []) staged.members);
        spent =
            s.spent
            ∙ ap (λ ns. nullifiers s.new ++ ns) spent_is
            ∙ sym (append_assoc (nullifiers s.new) (m.instruction_nullifier ∷ []) staged.spent)
            ∙ ap (λ ns. ns ++ staged.spent) (sym (nullifiers-append s.new (m ∷ [])));
        count = omega (arith, length-append s.new (m ∷ []), s.count);
        fresh = λ u. s.fresh (rw spent_is (fresh, u));
      }

  pub check_batch-length :
      (fills : List PublicFill) (proofs : List CollaborativeFillProof) (round_id : Digest32)
      (transition : TransitionAuthorization) (arriving : OrderCommitment) (remaining now : ℕ)
      (engine : SettlementEngine) (context : BatchContext)
      → check_batch p rails fills proofs round_id transition arriving remaining now engine
        ≡ ok context
      → length fills ≡ length proofs
  unfolding check_batch
  check_batch-length fills proofs round_id transition arriving remaining now engine context e =
      let (u, e1, r1) =
        >>=-eq-ok
          (reject_if
            (is_empty fills
              || (length fills != length proofs
                  || (ltb max_match_slots (length fills)
                      || (round_id == 0 || (has_empty_fill fills || other_taker arriving fills)))))
            SettlementError.invalid_fill)
          _ e in
      let (_, rest) = ||-false _ _ (reject_if-eq-ok _ _ e1) in
      let (same, _) = ||-false (length fills != length proofs) _ rest in ground (arith, same)

  pub stage_batch-Spends :
      (fills : List PublicFill) (proofs : List CollaborativeFillProof) (round_id : Digest32)
      (transition : TransitionAuthorization) (arriving : OrderCommitment) (remaining now : ℕ)
      (engine : SettlementEngine) (final : Staged)
      → stage_batch p rails fills proofs round_id transition arriving remaining now engine
        ≡ ok final
      → Unique engine.spent_instructions
      → (final.spent ≡ nullifiers final.members ++ engine.spent_instructions)
        × ((length final.members ≡ length fills) × Unique final.spent)
  unfolding stage_batch
  stage_batch-Spends fills proofs round_id transition arriving remaining now engine final e unique =
      let (context, e1, r1) =
        >>=-eq-ok
          (check_batch p rails fills proofs round_id transition arriving remaining now engine) _
          e in
      let start : Staged = record {
        reservations = engine.reservations;
        participants = engine.participants;
        spent = engine.spent_instructions;
        members = [];
      } in
      let (staged, e2, r2) = >>=-eq-ok (settle_fills p rails context 0 fills proofs start) _ r1 in
      let s =
        settle_fills-Spends context 0 fills proofs start staged
          (check_batch-length fills proofs round_id transition arriving remaining now engine context
            e1)
          e2 in
      let c = close_batch-Closed p rails fills arriving remaining engine staged final r2 in
      let new_are : staged.members ≡ s.new = s.members ∙ append-nil s.new in
      let same : nullifiers final.members ≡ nullifiers s.new =
        ap nullifiers c.members
        ∙ nullifiers-set_last_remaining c.left staged.members
        ∙ ap nullifiers new_are in
      let count : length final.members ≡ length staged.members =
        ap length c.members ∙ length-set_last_remaining c.left staged.members in
      (
        c.spent ∙ s.spent ∙ ap (λ ns. ns ++ engine.spent_instructions) (sym same),
        (count ∙ ap length new_are ∙ s.count, rw c.spent (s.fresh unique)),
      )
