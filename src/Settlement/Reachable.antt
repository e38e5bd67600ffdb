-- ===== src/Settlement/Reachable.antt =====
-- The operations of the engine as steps, and what holds in every engine that they reach.
use oclob.Base.{ℕ, Bool, ◌≡◌, ◌∙◌, ap, refl, List, ok, BTreeMap, IsSorted}
use oclob.Crypto.{Primitives, Digest32, VerifyingKey}
use oclob.Order.Authority.{OrderCommitment}
use oclob.Book.Operations.Transitions.{PublicFill}
use oclob.Ordering.{CommitteePolicy}
use oclob.Proofs.Binding.{TransitionAuthorization}
use oclob.Settlement.{SettlementOrder, ReservationKind, Point}
use oclob.Settlement.Engine.{
  ParticipantBalances, QuorumPolicy, SettlementCommittee, SettlementEngine,
  bind_eligible_participant, pin_settlement_committee, new_engine, reserve_order, release_order,
  release_orders_atomic,
}
use oclob.Settlement.Batch.{Rails, CollaborativeFillProof}
use oclob.Settlement.Settle.{settle_batch_collaborative}
use oclob.Settlement.Accounts.{supply}
use oclob.Settlement.Solvency.{IsSolvent}
use oclob.Settlement.Atomic.{settle_batch_collaborative-IsSolvent}
use oclob.Settlement.Operations.{
  Keeps, bind_eligible_participant-IsSolvent, pin_settlement_committee-IsSolvent,
  reserve_order-IsSolvent, release_order-IsSolvent, release_orders_atomic-IsSolvent,
  new_engine-IsSolvent,
}

-- One call of an operation, whether it succeeds or not.
pub data Step (p : Primitives) (engine : SettlementEngine) : SettlementEngine → Type 0 where
  bind :
      (participant entity : Digest32)
      → Step p engine (bind_eligible_participant participant entity engine).1
  pin :
      (valid : QuorumPolicy → List ℕ → Bool) (same : QuorumPolicy → QuorumPolicy → Bool)
      (c : SettlementCommittee)
      → Step p engine (pin_settlement_committee valid same c engine).1
  reserves :
      (order : SettlementOrder) (point : Point)
      → Step p engine (reserve_order p order point engine).1
  releases : (commitment : Digest32) → Step p engine (release_order p commitment engine).1
  releases_all :
      (commitments : List Digest32) → Step p engine (release_orders_atomic p commitments engine).1
  settles :
      (rails : Rails) (fills : List PublicFill) (proofs : List CollaborativeFillProof)
      (round_id : Digest32) (transition : TransitionAuthorization) (arriving : OrderCommitment)
      (remaining now : ℕ)
      → Step p engine
          (settle_batch_collaborative p rails fills proofs round_id transition arriving remaining
            now engine).1

pub data Reach (p : Primitives) (start : SettlementEngine) : SettlementEngine → Type 0 where
  here : Reach p start start
  later : {a b : SettlementEngine} → Reach p start a → Step p a b → Reach p start b

Step-Keeps : (p : Primitives) {a b : SettlementEngine} → IsSolvent a → Step p a b → Keeps a b
Step-Keeps p {a} h (Step.bind participant entity) =
    bind_eligible_participant-IsSolvent participant entity a h
Step-Keeps p {a} h (Step.pin valid same c) = pin_settlement_committee-IsSolvent valid same c a h
Step-Keeps p {a} h (Step.reserves order point) = reserve_order-IsSolvent p order point a h
Step-Keeps p {a} h (Step.releases commitment) = release_order-IsSolvent p commitment a h
Step-Keeps p {a} h (Step.releases_all commitments) =
    release_orders_atomic-IsSolvent p commitments a h
Step-Keeps p {a} h (Step.settles rails fills proofs round_id transition arriving remaining now) =
    settle_batch_collaborative-IsSolvent p rails fills proofs round_id transition arriving remaining
      now a h

pub Reach-Keeps :
    (p : Primitives) {start engine : SettlementEngine}
    → IsSolvent start
    → Reach p start engine
    → Keeps start engine
Reach-Keeps p h Reach.here = (h, λ kind. refl)
Reach-Keeps p h (Reach.later {a} {b} r s) =
    let (solvent, supplies) = Reach-Keeps p h r in
    let (solvent', supplies') = Step-Keeps p solvent s in
    (solvent', λ kind. supplies' kind ∙ supplies kind)

-- An engine that calls of its operations reach from a new one, whose accounts are in the order of
-- their handles, whatever the order, the arguments and the outcomes of the calls, is solvent, and
-- its accounts hold the cash and the securities that they were opened with.
pub reachable_IsSolvent :
    (p : Primitives) (accounts : BTreeMap ParticipantBalances) (keys : BTreeMap VerifyingKey)
    (policy : CommitteePolicy) (start engine : SettlementEngine)
    → IsSorted accounts
    → new_engine p accounts keys policy ≡ ok start
    → Reach p start engine
    → IsSolvent engine
      × ((kind : ReservationKind) → supply kind engine.participants ≡ supply kind accounts)
reachable_IsSolvent p accounts keys policy start engine sorted opened r =
    let (fresh, accounts_is) = new_engine-IsSolvent p accounts keys policy start sorted opened in
    let (solvent, supplies) = Reach-Keeps p fresh r in
    (solvent, λ kind. supplies kind ∙ ap (supply kind) accounts_is)
