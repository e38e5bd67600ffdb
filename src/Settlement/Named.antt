-- ===== src/Settlement/Named.antt =====
-- The names of the reservations over the operations of the engine and over all its histories.
use oclob.Base.{
  ℕ, ◌≡◌, refl, Bool, List, [], ◌∷◌, Result, ok, err, reject_if, arith, >>=-eq-ok, ok_or, ok_inj,
  map_err, BTreeMap, get, is_empty, IsSorted,
}
use oclob.Crypto.{Primitives, Digest32, VerifyingKey}
use oclob.Order.Authority.{OrderCommitment}
use oclob.Book.Operations.Transitions.{PublicFill}
use oclob.Ordering.{CommitteePolicy}
use oclob.Proofs.{committee_trust_root}
use oclob.Proofs.Binding.{TransitionAuthorization}
use oclob.Settlement.{SettlementError, SettlementOrder, ReservationBook, Point}
use oclob.Settlement.Reservations.{bind_participant, reserve}
use oclob.Settlement.Remainders.{release_reservation}
use oclob.Settlement.Engine.{
  ParticipantBalances, QuorumPolicy, SettlementCommittee, SettlementEngine, commit, next_height,
  release_all, bind_eligible_participant, pin_settlement_committee, new_engine, stage_binding,
  stage_pin, stage_reserve, stage_release, stage_releases, reserve_order, release_order,
  release_orders_atomic,
}
use oclob.Settlement.Batch.{Rails, CollaborativeFillProof, SettlementReceipt}
use oclob.Settlement.Settle.{settle_batch_collaborative}
use oclob.Settlement.Names.{IsNamed, SameNames-IsNamed}
use oclob.Settlement.Usage.{IsReservations}
use oclob.Settlement.Frees.{Frees, release_reservation-Frees}
use oclob.Settlement.Solvency.{IsSolvent}
use oclob.Settlement.Atomic.{stage_batch-Settles, settle_batch_collaborative_atomic}
use oclob.Settlement.Admission.{reserve-Admitted}
use oclob.Settlement.Operations.{new_engine-IsSolvent}
use oclob.Settlement.Receipts.{settle_batch_collaborative-Settled}
use oclob.Settlement.Reachable.{Step, Reach, Reach-Keeps}
use oclob.Settlement.Admitted.{admitted-IsNamed}

abbrev AreNamed : SettlementEngine → Type 0
AreNamed engine = IsNamed engine.reservations

commit-AreNamed :
    {A : Type 0} (staged : Result (A × SettlementEngine) SettlementError)
    (engine : SettlementEngine)
    → AreNamed engine
    → ((a : A) (engine' : SettlementEngine) → staged ≡ ok (a, engine') → AreNamed engine')
    → AreNamed (commit staged engine).1
commit-AreNamed (ok (a, engine')) engine h keeps = keeps a engine' refl
commit-AreNamed (err e) engine h keeps = h

same_records-IsNamed :
    (book book' : ReservationBook) → book'.records ≡ book.records → IsNamed book → IsNamed book'
same_records-IsNamed book book' same h = record {
  sorted = rw same h.sorted;
  keyed = rw same h.keyed;
  distinct = rw same h.distinct;
}

Frees-IsNamed : (book book' : ReservationBook) → Frees book book' → IsNamed book → IsNamed book'
Frees-IsNamed book book' f h = SameNames-IsNamed book book' f.keeps.sorted f.frame.names h

bind_eligible_participant-AreNamed :
    (participant entity : Digest32) (engine : SettlementEngine)
    → AreNamed engine
    → AreNamed (bind_eligible_participant participant entity engine).1
unfolding bind_eligible_participant stage_binding bind_participant
bind_eligible_participant-AreNamed participant entity engine h =
    commit-AreNamed (stage_binding participant entity engine) engine h (λ a engine' e.
      let (balances, found, r1) = >>=-eq-ok (ok_or (get participant engine.participants) _) _ e in
      let (book, bound, r2) =
        >>=-eq-ok
          (bind_participant participant entity balances.cash.value balances.securities.value
            engine.reservations)
          _ r1 in
      let is : record engine { reservations = book } ≡ engine' = cc in
      let same : book.records ≡ engine.reservations.records = ground (arith, bound) in
      rw (← is) (same_records-IsNamed engine.reservations book same h))

pin_settlement_committee-AreNamed :
    (valid : QuorumPolicy → List ℕ → Bool) (same : QuorumPolicy → QuorumPolicy → Bool)
    (c : SettlementCommittee) (engine : SettlementEngine)
    → AreNamed engine
    → AreNamed (pin_settlement_committee valid same c engine).1
unfolding pin_settlement_committee stage_pin
pin_settlement_committee-AreNamed valid same c engine h =
    commit-AreNamed (stage_pin valid same c engine) engine h (λ a engine' e.
      let book_is : engine'.reservations ≡ engine.reservations = ground arith in rw book_is h)

release_all-IsNamed :
    (commitments : List Digest32) (book book' : ReservationBook)
    → IsReservations book
    → IsNamed book
    → release_all commitments book ≡ ok book'
    → IsNamed book'
unfolding release_all
release_all-IsNamed [] book book' kept h e = let is : book ≡ book' = cc in rw (← is) h
release_all-IsNamed (commitment ∷ commitments) book book' kept h e =
    let (middle, e1, e2) = >>=-eq-ok (release_reservation commitment book) _ e in
    let f = release_reservation-Frees commitment book middle kept e1 in
    release_all-IsNamed commitments middle book' f.keeps (Frees-IsNamed book middle f h) e2

module _ (p : Primitives) where
  reserve_order-AreNamed :
      (order : SettlementOrder) (point : Point) (engine : SettlementEngine)
      → AreNamed engine
      → AreNamed (reserve_order p order point engine).1
  unfolding reserve_order stage_reserve
  reserve_order-AreNamed order point engine h =
      commit-AreNamed (stage_reserve p order point engine) engine h (λ a engine' e.
        let (book, reserved, r1) = >>=-eq-ok (reserve order point engine.reservations) _ e in
        let (height, counted, r2) = >>=-eq-ok (next_height engine) _ r1 in
        let is : record engine { reservations = book; height = height } ≡ engine' = cc in
        let (admitted, put) = reserve-Admitted order point engine.reservations book reserved in
        rw (← is, ← put) (admitted-IsNamed order point engine.reservations h admitted))

  release_order-AreNamed :
      (commitment : Digest32) (engine : SettlementEngine)
      → IsSolvent engine
      → AreNamed engine
      → AreNamed (release_order p commitment engine).1
  unfolding release_order stage_release
  release_order-AreNamed commitment engine solvent h =
      commit-AreNamed (stage_release p commitment engine) engine h (λ a engine' e.
        let (book, released, r1) =
          >>=-eq-ok (release_reservation commitment engine.reservations) _ e in
        let (height, counted, r2) = >>=-eq-ok (next_height engine) _ r1 in
        let is : record engine { reservations = book; height = height } ≡ engine' = cc in
        let f =
          release_reservation-Frees commitment engine.reservations book solvent.covered.reservations
            released in
        rw (← is) (Frees-IsNamed engine.reservations book f h))

  release_orders_atomic-AreNamed :
      (commitments : List Digest32) (engine : SettlementEngine)
      → IsSolvent engine
      → AreNamed engine
      → AreNamed (release_orders_atomic p commitments engine).1
  unfolding release_orders_atomic stage_releases
  release_orders_atomic-AreNamed commitments engine solvent h =
      commit-AreNamed (stage_releases p commitments engine) engine h (λ a engine' e.
        let (u, some_given, r0) = >>=-eq-ok (reject_if (is_empty commitments) _) _ e in
        let (book, released, r1) = >>=-eq-ok (release_all commitments engine.reservations) _ r0 in
        let (height, counted, r2) = >>=-eq-ok (next_height engine) _ r1 in
        let is : record engine { reservations = book; height = height } ≡ engine' = cc in
        rw (← is) (
          release_all-IsNamed commitments engine.reservations book solvent.covered.reservations h
            released))

  settle_batch_collaborative-AreNamed :
      (rails : Rails) (fills : List PublicFill) (proofs : List CollaborativeFillProof)
      (round_id : Digest32) (transition : TransitionAuthorization) (arriving : OrderCommitment)
      (remaining now : ℕ) (engine after : SettlementEngine)
      (result : Result SettlementReceipt SettlementError)
      → IsSolvent engine
      → AreNamed engine
      → settle_batch_collaborative p rails fills proofs round_id transition arriving remaining now
          engine
        ≡ (result, after)
      → AreNamed after
  settle_batch_collaborative-AreNamed rails fills proofs round_id transition arriving remaining now
        engine after (err e) solvent h is =
      let (accounts, (book, spent)) =
        settle_batch_collaborative_atomic p rails fills proofs round_id transition arriving
          remaining now engine after e is in
      rw book h
  settle_batch_collaborative-AreNamed rails fills proofs round_id transition arriving remaining now
        engine after (ok receipt) solvent h is =
      let s =
        settle_batch_collaborative-Settled p rails fills proofs round_id transition arriving
          remaining now engine after receipt is in
      let (settles, current) =
        stage_batch-Settles p rails fills proofs round_id transition arriving remaining now engine
          s.staged solvent s.staging in
      rw s.after_is (
        SameNames-IsNamed engine.reservations s.staged.reservations
          settles.covered.reservations.sorted settles.names h)

  Step-AreNamed : {a b : SettlementEngine} → IsSolvent a → AreNamed a → Step p a b → AreNamed b
  Step-AreNamed {a} solvent h (Step.bind participant entity) =
      bind_eligible_participant-AreNamed participant entity a h
  Step-AreNamed {a} solvent h (Step.pin valid same c) =
      pin_settlement_committee-AreNamed valid same c a h
  Step-AreNamed {a} solvent h (Step.reserves order point) = reserve_order-AreNamed order point a h
  Step-AreNamed {a} solvent h (Step.releases commitment) =
      release_order-AreNamed commitment a solvent h
  Step-AreNamed {a} solvent h (Step.releases_all commitments) =
      release_orders_atomic-AreNamed commitments a solvent h
  Step-AreNamed {a} solvent h
        (Step.settles rails fills proofs round_id transition arriving remaining now) =
      settle_batch_collaborative-AreNamed rails fills proofs round_id transition arriving remaining
        now a _ _ solvent h refl

  Reach-AreNamed :
      {start engine : SettlementEngine}
      → IsSolvent start
      → AreNamed start
      → Reach p start engine
      → AreNamed engine
  Reach-AreNamed solvent h Reach.here = h
  Reach-AreNamed solvent h (Reach.later {a} {b} r s) =
      Step-AreNamed (Reach-Keeps p solvent r).0 (Reach-AreNamed solvent h r) s

  new_engine-AreNamed :
      (accounts : BTreeMap ParticipantBalances) (keys : BTreeMap VerifyingKey)
      (policy : CommitteePolicy) (engine : SettlementEngine)
      → new_engine p accounts keys policy ≡ ok engine
      → AreNamed engine
  unfolding new_engine
  new_engine-AreNamed accounts keys policy engine e =
      let (root, e1, r1) = >>=-eq-ok (map_err (committee_trust_root p keys policy) _) _ e in
      rw (← ok_inj _ _ r1) (record {
        sorted = tt;
        keyed = λ id r found. absurd (cc);
        distinct = λ i j r s found_r found_s equal. absurd (cc);
      })

-- In an engine that calls of its operations reach from a new one, whose accounts are in the order
-- of their handles, whatever the order, the arguments and the outcomes of the calls, every
-- reservation stands under its own id and no two reservations are for one order.
pub reachable_IsNamed :
    (p : Primitives) (accounts : BTreeMap ParticipantBalances) (keys : BTreeMap VerifyingKey)
    (policy : CommitteePolicy) (start engine : SettlementEngine)
    → IsSorted accounts
    → new_engine p accounts keys policy ≡ ok start
    → Reach p start engine
    → IsNamed engine.reservations
reachable_IsNamed p accounts keys policy start engine sorted opened r =
    Reach-AreNamed p (new_engine-IsSolvent p accounts keys policy start sorted opened).0
      (new_engine-AreNamed p accounts keys policy start opened) r
