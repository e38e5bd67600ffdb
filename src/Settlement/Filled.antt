-- ===== src/Settlement/Filled.antt =====
-- The steps of one round of the settlement loop, and of the end of a batch, one by one.
use oclob.Base.{
  ok_inj, ℕ, ◌+◌, length, ◌!=◌, ◌≡◌, ap, false, not, sym, ◌∙◌, ok, Result, err, reject_if,
  >>=-eq-ok, reject_if-eq-ok, contains, set_insert, insert, List, ◌∷◌,
}
use oclob.Crypto.{Primitives}
use oclob.Order.Authority.{OrderCommitment}
use oclob.Book.Operations.Transitions.{PublicFill}
use oclob.Settlement.{SettlementError, ReservationBook}
use oclob.Settlement.Fills.{ConsumedFill, consume_fill}
use oclob.Settlement.Remainders.{reconcile_arriving_collaborative, apply_collaborative_remainders}
use oclob.Settlement.Engine.{ParticipantBalances, SettlementEngine}
use oclob.Settlement.Batch.{
  Rails, CollaborativeFillProof, SettlementPackage, Staged, staged_result, find_accounts, transfer,
  conserved, refresh_all, set_last_remaining,
}
use oclob.Settlement.Settle.{close_batch}
use oclob.Settlement.Rounds.{BatchContext, verified_package, settle_fill, member_receipt}

staged_result-eq-ok :
    {A B : Type 0} (r : Result A SettlementError × B) (a : A) (b : B)
    → staged_result r ≡ ok (a, b)
    → r ≡ (ok a, b)
staged_result-eq-ok (ok x, y) a b h = cc
staged_result-eq-ok (err e, y) a b h = absurd (cc)

-- What a round that succeeds went through.
pub record Filled (p : Primitives) (rails : Rails) (context : BatchContext) (fill : PublicFill)
    (proof : CollaborativeFillProof) (staged staged' : Staged) : Type 0 where
  pub c : ConsumedFill
  pub middle : ReservationBook
  pub accounts : ParticipantBalances × ParticipantBalances
  pub bundle : SettlementPackage
  pub after : ParticipantBalances × ParticipantBalances
  pub consumes :
      consume_fill fill context.market_id context.now staged.reservations ≡ (ok c, middle)
  pub finds : find_accounts c staged.participants ≡ ok accounts
  pub recommits :
      apply_collaborative_remainders c bundle.securities_remainder bundle.cash_remainder
        proof.maker_pool_remainder middle
      ≡ ok staged'.reservations
  pub unspent : contains bundle.instruction_nullifier staged.spent ≡ false
  pub transfers : transfer rails fill bundle accounts.0 accounts.1 ≡ ok after
  pub participants :
      staged'.participants
      ≡ insert c.buyer_handle after.1 (insert c.seller_handle after.0 staged.participants)
  pub spent : staged'.spent ≡ set_insert bundle.instruction_nullifier staged.spent
  pub members : staged'.members ≡ member_receipt p rails fill bundle c ∷ staged.members

module _ (p : Primitives) (rails : Rails) where
  pub settle_fill-Filled :
      (context : BatchContext) (index : ℕ) (fill : PublicFill) (proof : CollaborativeFillProof)
      (staged staged' : Staged)
      → settle_fill p rails context index fill proof staged ≡ ok staged'
      → Filled p rails context fill proof staged staged'
  unfolding settle_fill
  settle_fill-Filled context index fill proof staged staged' e =
      let (step, e1, r1) =
        >>=-eq-ok
          (staged_result (consume_fill fill context.market_id context.now staged.reservations)) _
          e in
      let c : ConsumedFill = step.0 in
      let (accounts, e2, r2) = >>=-eq-ok (find_accounts c staged.participants) _ r1 in
      let (bundle, e3, r3) =
        >>=-eq-ok (verified_package p rails context index proof c accounts.0 accounts.1) _ r2 in
      let (book, e4, r4) =
        >>=-eq-ok
          (apply_collaborative_remainders c bundle.securities_remainder bundle.cash_remainder
            proof.maker_pool_remainder step.1)
          _ r3 in
      let (u, e5, r5) =
        >>=-eq-ok
          (reject_if (contains bundle.instruction_nullifier staged.spent)
            SettlementError.replay_accepted)
          _ r4 in
      let (after, e6, r6) = >>=-eq-ok (transfer rails fill bundle accounts.0 accounts.1) _ r5 in
      let participants =
        insert c.buyer_handle after.1 (insert c.seller_handle after.0 staged.participants) in
      let (u', e7, r7) =
        >>=-eq-ok (reject_if (not (conserved rails participants)) SettlementError.insolvent) _ r6 in
      let is = ok_inj _ _ r7 in
      record {
        c = c;
        middle = step.1;
        accounts = accounts;
        bundle = bundle;
        after = after;
        consumes = staged_result-eq-ok _ c step.1 e1;
        finds = e2;
        recommits = e4 ∙ ap (λ (x : Staged). ok x.reservations) is;
        unspent = reject_if-eq-ok _ _ e5;
        transfers = e6;
        participants = ap (λ (x : Staged). x.participants) (sym is);
        spent = ap (λ (x : Staged). x.spent) (sym is);
        members = ap (λ (x : Staged). x.members) (sym is);
      }

  -- What the end of a batch that succeeds went through.
  pub record Closed (arriving : OrderCommitment) (remaining : ℕ) (staged staged' : Staged)
      : Type 0 where
    pub left : ℕ
    pub middle : ReservationBook
    pub reconciles :
        reconcile_arriving_collaborative arriving remaining staged.reservations ≡ ok (left, middle)
    pub refreshes : refresh_all staged.participants middle ≡ ok staged'.reservations
    pub participants : staged'.participants ≡ staged.participants
    pub spent : staged'.spent ≡ staged.spent
    pub members : staged'.members ≡ set_last_remaining left staged.members

  pub close_batch-Closed :
      (fills : List PublicFill) (arriving : OrderCommitment) (remaining : ℕ)
      (engine : SettlementEngine) (staged staged' : Staged)
      → close_batch p rails fills arriving remaining engine staged ≡ ok staged'
      → Closed arriving remaining staged staged'
  unfolding close_batch
  close_batch-Closed fills arriving remaining engine staged staged' e =
      let (reconciled, e1, r1) =
        >>=-eq-ok (reconcile_arriving_collaborative arriving remaining staged.reservations) _ e in
      let (book, e2, r2) = >>=-eq-ok (refresh_all staged.participants reconciled.1) _ r1 in
      let (u, e3, r3) =
        >>=-eq-ok (reject_if (not (conserved rails staged.participants)) SettlementError.insolvent)
          _ r2 in
      let (v, e4, r4) =
        >>=-eq-ok
          (reject_if (length staged.spent != length engine.spent_instructions + length fills)
            SettlementError.replay_accepted)
          _ r3 in
      let is = ok_inj _ _ r4 in
      record {
        left = reconciled.0;
        middle = reconciled.1;
        reconciles = e1;
        refreshes = e2 ∙ ap (λ (x : Staged). ok x.reservations) is;
        participants = ap (λ (x : Staged). x.participants) (sym is);
        spent = ap (λ (x : Staged). x.spent) (sym is);
        members = ap (λ (x : Staged). x.members) (sym is);
      }
