-- ===== src/Settlement/Atomic.antt =====
-- The fills of a batch together, the end of a batch, and `settle_batch_collaborative` as a whole.
use oclob.Base.{
  ℕ, ◌+◌, ◌≡◌, ◌∙◌, refl, List, [], ◌∷◌, ok, err, arith, >>=-eq-ok, Result-cases, BTreeMap, inl,
  inr,
}
use oclob.Crypto.{Primitives, Digest32}
use oclob.Order.Authority.{OrderCommitment}
use oclob.Book.Operations.Transitions.{PublicFill}
use oclob.Proofs.Binding.{TransitionAuthorization}
use oclob.Settlement.{SettlementError, ReservationKind, ReservationBook}
use oclob.Settlement.Engine.{ParticipantBalances, SettlementEngine, next_height}
use oclob.Settlement.Batch.{Rails, CollaborativeFillProof, Staged}
use oclob.Settlement.Settle.{
  check_batch, close_batch, stage_batch, accept_batch, settle_batch_collaborative,
}
use oclob.Settlement.Rounds.{BatchContext, settle_fill, settle_fills}
use oclob.Settlement.Filled.{close_batch-Closed}
use oclob.Settlement.Names.{SameNames}
use oclob.Settlement.Frees.{Frees, reconcile-Frees}
use oclob.Settlement.Accounts.{supply}
use oclob.Settlement.Capacities.{Refreshed, refresh_all-Refreshed}
use oclob.Settlement.Solvency.{IsCovered, IsCurrent, IsSolvent, Settles, settle_fill-Settles}

Settles-trans :
    (a b c : BTreeMap ParticipantBalances) (first middle last : ReservationBook)
    → Settles a b first middle
    → Settles b c middle last
    → Settles a c first last
Settles-trans a b c first middle last s t = record {
  names = λ id. t.names id ∙ s.names id;
  covered = t.covered;
  conserves = λ kind. t.conserves kind ∙ s.conserves kind;
}

pub Frees-IsCovered :
    (book book' : ReservationBook) (accounts : BTreeMap ParticipantBalances)
    → IsCovered book accounts
    → Frees book book'
    → IsCovered book' accounts
Frees-IsCovered book book' accounts h f = record {
  reservations = f.keeps;
  sorted = h.sorted;
  opened = λ handle entity known. h.opened handle entity (rw f.frame.participant_entities at known);
  covered = λ handle kind. omega (arith, h.covered handle kind, f.frees handle kind);
}

-- The records and the bindings are what covers; the capacities are free.
Refreshed-IsCovered :
    (book book' : ReservationBook) (accounts : BTreeMap ParticipantBalances)
    → IsCovered book accounts
    → Refreshed accounts book book'
    → IsCovered book' accounts
Refreshed-IsCovered book book' accounts h r = record {
  reservations = record {
    sorted = rw r.records h.reservations.sorted;
    idle = rw r.records h.reservations.idle;
    bound = rw (r.records, r.participant_entities) h.reservations.bound;
    paired = rw (r.participant_entities, r.entity_participants) h.reservations.paired;
  };
  sorted = h.sorted;
  opened = rw r.participant_entities h.opened;
  covered = rw r.records h.covered;
}

module _ (p : Primitives) (rails : Rails) where
  settle_fills-Settles :
      (context : BatchContext) (index : ℕ) (fills : List PublicFill)
      (proofs : List CollaborativeFillProof) (staged staged' : Staged)
      → IsCovered staged.reservations staged.participants
      → settle_fills p rails context index fills proofs staged ≡ ok staged'
      → Settles staged.participants staged'.participants staged.reservations staged'.reservations
  unfolding settle_fills
  settle_fills-Settles context index [] proofs staged staged' h e =
      let is : staged ≡ staged' = cc in
      rw (← is) (record { names = λ id. refl; covered = h; conserves = λ kind. refl })
  settle_fills-Settles context index (fill ∷ fills) [] staged staged' h e =
      let is : staged ≡ staged' = cc in
      rw (← is) (record { names = λ id. refl; covered = h; conserves = λ kind. refl })
  settle_fills-Settles context index (fill ∷ fills) (proof ∷ proofs) staged staged' h e =
      let (middle, e1, e2) = >>=-eq-ok (settle_fill p rails context index fill proof staged) _ e in
      let first = settle_fill-Settles p rails context index fill proof staged middle h e1 in
      Settles-trans staged.participants middle.participants staged'.participants staged.reservations
        middle.reservations staged'.reservations first
        (settle_fills-Settles context (index + 1) fills proofs middle staged' first.covered e2)

  -- The end of a batch keeps the staged copies covered, and makes the capacities current.
  close_batch-IsCovered :
      (fills : List PublicFill) (arriving : OrderCommitment) (remaining : ℕ)
      (engine : SettlementEngine) (staged staged' : Staged)
      → IsCovered staged.reservations staged.participants
      → close_batch p rails fills arriving remaining engine staged ≡ ok staged'
      → IsCovered staged'.reservations staged.participants
        × (IsCurrent staged'.reservations staged.participants
            × ((staged'.participants ≡ staged.participants)
                × SameNames staged.reservations staged'.reservations))
  close_batch-IsCovered fills arriving remaining engine staged staged' h e =
      let c = close_batch-Closed p rails fills arriving remaining engine staged staged' e in
      let freed =
        reconcile-Frees arriving remaining staged.reservations c.left c.middle h.reservations
          c.reconciles in
      let covered = Frees-IsCovered staged.reservations c.middle staged.participants h freed in
      let r =
        refresh_all-Refreshed staged.participants c.middle staged'.reservations h.sorted
          covered.reservations.paired c.refreshes in
      (
        Refreshed-IsCovered c.middle staged'.reservations staged.participants covered r,
        (
          (λ handle entity kind balances known.
              r.current handle entity kind balances (rw r.participant_entities at known)),
          (c.participants, rw r.records freed.frame.names),
        ),
      )

  -- What `stage_batch` makes of a solvent engine.
  staged_all :
      (staged final : Staged) (accounts : BTreeMap ParticipantBalances) (book : ReservationBook)
      → Settles accounts staged.participants book staged.reservations
      → IsCovered final.reservations staged.participants
        × (IsCurrent final.reservations staged.participants
            × ((final.participants ≡ staged.participants)
                × SameNames staged.reservations final.reservations))
      → Settles accounts final.participants book final.reservations
        × IsCurrent final.reservations final.participants
  staged_all staged final accounts book s (covered, (current, (is, same))) = rw is (
    record { names = λ id. same id ∙ s.names id; covered = covered; conserves = s.conserves },
    current,
  )

  pub stage_batch-Settles :
      (fills : List PublicFill) (proofs : List CollaborativeFillProof) (round_id : Digest32)
      (transition : TransitionAuthorization) (arriving : OrderCommitment) (remaining now : ℕ)
      (engine : SettlementEngine) (final : Staged)
      → IsSolvent engine
      → stage_batch p rails fills proofs round_id transition arriving remaining now engine
        ≡ ok final
      → Settles engine.participants final.participants engine.reservations final.reservations
        × IsCurrent final.reservations final.participants
  unfolding stage_batch
  stage_batch-Settles fills proofs round_id transition arriving remaining now engine final h e =
      let (context, e1, r1) =
        >>=-eq-ok
          (check_batch p rails fills proofs round_id transition arriving remaining now engine) _
          e in
      let start : Staged = record {
        reservations = engine.reservations;
        participants = engine.participants;
        spent = engine.spent_instructions;
        members = [];
      } in
      let (staged, e2, r2) = >>=-eq-ok (settle_fills p rails context 0 fills proofs start) _ r1 in
      let settled = settle_fills-Settles context 0 fills proofs start staged h.covered e2 in
      staged_all staged final engine.participants engine.reservations settled
        (close_batch-IsCovered fills arriving remaining engine staged final settled.covered r2)

  -- Settling a batch, whether it succeeds or is refused, keeps a solvent engine solvent, and the
  -- accounts hold as much cash and as many securities as before.
  pub settle_batch_collaborative-IsSolvent :
      (fills : List PublicFill) (proofs : List CollaborativeFillProof) (round_id : Digest32)
      (transition : TransitionAuthorization) (arriving : OrderCommitment) (remaining now : ℕ)
      (engine : SettlementEngine)
      → IsSolvent engine
      → let after =
          (settle_batch_collaborative p rails fills proofs round_id transition arriving remaining
            now engine).1 in
        IsSolvent after
        × ((kind : ReservationKind)
            → supply kind after.participants ≡ supply kind engine.participants)
  unfolding settle_batch_collaborative
  settle_batch_collaborative-IsSolvent fills proofs round_id transition arriving remaining now
        engine h =
      let staging =
        stage_batch p rails fills proofs round_id transition arriving remaining now engine in
      elim (Result-cases staging) [
        | inr (e, is) ↦ rw (settle_batch_collaborative, is) (h, λ kind. refl)
        | inl (staged, is) ↦
            let (s, current) =
              stage_batch-Settles fills proofs round_id transition arriving remaining now engine
                staged h is in
            elim (Result-cases (next_height engine)) [
              | inr (e, is_height) ↦
                  rw (settle_batch_collaborative, is, is_height) (h, λ kind. refl)
              | inl (height, is_height) ↦
                  elim (Result-cases (accept_batch p rails transition engine staged height)) [
                    | inr (e, is_accepted) ↦
                        rw (settle_batch_collaborative, is, is_height, is_accepted)
                          (record { covered = h.covered; current = h.current }, λ kind. refl)
                    | inl (digest, is_accepted) ↦
                        rw (settle_batch_collaborative, is, is_height, is_accepted)
                          (record { covered = s.covered; current = current }, s.conserves)
                  ]
            ]
      ]

  -- A batch that is refused changes neither the accounts, nor the reservations, nor the spent
  -- instructions.
  pub settle_batch_collaborative_atomic :
      (fills : List PublicFill) (proofs : List CollaborativeFillProof) (round_id : Digest32)
      (transition : TransitionAuthorization) (arriving : OrderCommitment) (remaining now : ℕ)
      (engine after : SettlementEngine) (e : SettlementError)
      → settle_batch_collaborative p rails fills proofs round_id transition arriving remaining now
          engine
        ≡ (err e, after)
      → (after.participants ≡ engine.participants)
        × ((after.reservations ≡ engine.reservations)
            × (after.spent_instructions ≡ engine.spent_instructions))
  unfolding settle_batch_collaborative
  settle_batch_collaborative_atomic fills proofs round_id transition arriving remaining now engine
        after e h =
      ground arith
