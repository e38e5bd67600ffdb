-- ===== src/Settlement/Engine.antt =====
-- rust/oclob-settlement/src/lib.rs: `SettlementEngine`, its accounts, and the operations on
-- reservations, each of which changes the engine only if it succeeds. The engine's keys and signing
-- shares, which never change, are left out. A FROST public key is its serialization, which is taken
-- to succeed; with the policy that is pinned together with it, it is one field, `committee`. Of a
-- quorum policy the fields that are read are kept.
use oclob.Base.{
  ℕ, ◌-◌, Bool, not, ◌||◌, Option, none, some, List, [], ◌∷◌, ◌++◌, Result, ok, err, ◌>>=◌, ◌>>◌,
  reject_if, ok_or, map_err, BTreeMap, get, is_empty, length, checked_add, be_bytes, bytes_eq, ◌!=◌,
}
use oclob.Crypto.{Primitives, Digest32, VerifyingKey, codes}
use oclob.Order.{put_bytes}
use oclob.Ordering.{CommitteePolicy}
use oclob.Proofs.{committee_trust_root}
use oclob.Settlement.{
  SettlementError, ReservationKind, SettlementOrder, ReservationBook, Point, kind_of,
}
use oclob.Settlement.Reservations.{empty_reservations, bind_participant, reserve, reserved_for}
use oclob.Settlement.Roots.{reservation_root}
use oclob.Settlement.Remainders.{release_reservation}

pub record ConfidentialBalance : Type 0 where
  pub value : ℕ
  pub commitment : Point
  pub opening : Option ℕ

abbrev pub commitment_only : ℕ → Point → ConfidentialBalance
commitment_only value commitment = record { value = value; commitment = commitment; opening = none }

pub record ParticipantBalances : Type 0 where
  pub handle : Point
  pub securities : ConfidentialBalance
  pub cash : ConfidentialBalance

pub record QuorumPolicy : Type 0 where
  pub threshold : ℕ
  pub members : List (List ℕ)
  pub rest : List ℕ

pub record SettlementCommittee : Type 0 where
  pub public_key : List ℕ
  pub pq_policy : QuorumPolicy

pub record SettlementEngine : Type 0 where
  pub participants : BTreeMap ParticipantBalances
  pub reservations : ReservationBook
  pub spent_instructions : List Digest32
  pub transition_committee_trust_root : Digest32
  pub committee : Option SettlementCommittee
  pub height : ℕ

pub record ReservationReceipt : Type 0 where
  pub reservation_id : Digest32
  pub order_commitment : Digest32
  pub kind : ReservationKind
  pub reserved : ℕ
  pub state_root : Digest32
  pub canonical_receipt_digest : Digest32
  pub canonical_height : ℕ

pub record ReservationReleaseReceipt : Type 0 where
  pub order_commitment : Digest32
  pub before_root : Digest32
  pub after_root : Digest32
  pub canonical_receipt_digest : Digest32
  pub canonical_height : ℕ

pub record ReservationBatchReleaseReceipt : Type 0 where
  pub order_commitments : List Digest32
  pub before_root : Digest32
  pub after_root : Digest32
  pub canonical_receipt_digest : Digest32
  pub canonical_height : ℕ

pub record ParticipantPortfolio : Type 0 where
  pub securities : ℕ
  pub cash : ℕ
  pub reserved_securities : ℕ
  pub reserved_cash : ℕ
  pub available_securities : ℕ
  pub available_cash : ℕ

-- The height that the engine moves to.
abbrev pub next_height : SettlementEngine → Result ℕ SettlementError
next_height engine =
    ok_or (checked_add engine.height 1) (SettlementError.reservation "DeFMI height exhausted")

-- An operation that stages its changes: the engine with them, or the engine as it was.
abbrev pub commit :
    {A : Type 0}
    → Result (A × SettlementEngine) SettlementError
    → SettlementEngine
    → Result A SettlementError × SettlementEngine
commit (ok (a, engine')) engine = (ok a, engine')
commit (err e) engine = (err e, engine)

unfoldable pub order_bytes : List Digest32 → List ℕ
order_bytes [] = []
order_bytes (d ∷ ds) = be_bytes 32 d ++ order_bytes ds

unfoldable pub release_all :
    List Digest32 → ReservationBook → Result ReservationBook SettlementError
release_all [] book = ok book
release_all (commitment ∷ commitments) book = do
  book' ← release_reservation commitment book
  release_all commitments book'

-- `bind_eligible_participant`
unfoldable pub stage_binding :
    Digest32 → Digest32 → SettlementEngine → Result (Unit {0} × SettlementEngine) SettlementError
stage_binding participant entity engine = do
  balances ←
      ok_or (get participant engine.participants)
        (SettlementError.reservation "participant account is absent")
  book ←
      bind_participant participant entity balances.cash.value balances.securities.value
        engine.reservations
  ok (tt, record engine { reservations = book })

unfoldable pub bind_eligible_participant :
    Digest32 → Digest32 → SettlementEngine → Result (Unit {0}) SettlementError × SettlementEngine
unfolding stage_binding
bind_eligible_participant participant entity engine =
    commit (stage_binding participant entity engine) engine

unfoldable pub participant_portfolio :
    Digest32 → SettlementEngine → Result ParticipantPortfolio SettlementError
unfolding reserved_for
participant_portfolio participant engine = do
  balances ←
      ok_or (get participant engine.participants)
        (SettlementError.reservation "participant account is absent")
  reserved_securities ← reserved_for participant ReservationKind.securities engine.reservations
  reserved_cash ← reserved_for participant ReservationKind.cash engine.reservations
  ok (record {
    securities = balances.securities.value;
    cash = balances.cash.value;
    reserved_securities = reserved_securities;
    reserved_cash = reserved_cash;
    available_securities = balances.securities.value - reserved_securities;
    available_cash = balances.cash.value - reserved_cash;
  })

-- `pin_collaborative_settlement_committee`; `valid` is the check of the zkpi crate.
unfoldable pub stage_pin :
    (QuorumPolicy → List ℕ → Bool)
    → (QuorumPolicy → QuorumPolicy → Bool)
    → SettlementCommittee
    → SettlementEngine
    → Result (Unit {0} × SettlementEngine) SettlementError
stage_pin valid same c engine = do
  reject_if
      (engine.height != 0
        || (not (is_empty engine.reservations.records) || not (is_empty engine.spent_instructions)))
      (SettlementError.proof "the MPC settlement committee must be pinned at DeFMI genesis")
  reject_if (not (valid c.pq_policy c.public_key))
      (SettlementError.proof "the settlement committee is invalid")
  reject_if (c.pq_policy.threshold != 3 || length c.pq_policy.members != 7)
      (SettlementError.proof "MPC settlement requires a three-of-seven PQ committee")
  reject_if (is_empty c.public_key) (SettlementError.proof "MPC settlement public key is empty")
  elim engine.committee [
    | none ↦ ok (tt, record engine { committee = some c })
    | some existing ↦ do
      reject_if
          (not (bytes_eq existing.public_key c.public_key)
            || not (same existing.pq_policy c.pq_policy))
          (SettlementError.proof "the MPC settlement committee is already pinned")
      ok (tt, engine)
  ]

unfoldable pub pin_settlement_committee :
    (QuorumPolicy → List ℕ → Bool)
    → (QuorumPolicy → QuorumPolicy → Bool)
    → SettlementCommittee
    → SettlementEngine
    → Result (Unit {0}) SettlementError × SettlementEngine
unfolding stage_pin
pin_settlement_committee valid same c engine = commit (stage_pin valid same c engine) engine

module _ (p : Primitives) where
  unfoldable pub reservation_receipt_digest : List ℕ → Digest32 → Digest32 → Digest32 → ℕ → Digest32
  reservation_receipt_digest operation order before after height = p.sha256 (
      codes "OCLOB:DEFMI-RESERVATION-RECEIPT:v1"
      ++ (put_bytes operation
          ++ (be_bytes 32 order
              ++ (be_bytes 32 before ++ (be_bytes 32 after ++ be_bytes 8 height)))))

  -- `new_with_transition_committee`: the accounts that it opens, whose keys are generated with an
  -- error that is left out, are an argument.
  unfoldable pub new_engine :
      BTreeMap ParticipantBalances
      → BTreeMap VerifyingKey
      → CommitteePolicy
      → Result SettlementEngine SettlementError
  new_engine participants keys policy = do
    root ←
        map_err (committee_trust_root p keys policy)
          (λ _. SettlementError.proof "the transition committee is invalid")
    ok (record {
      participants = participants;
      reservations = empty_reservations;
      spent_instructions = [];
      transition_committee_trust_root = root;
      committee = none;
      height = 0;
    })

  -- `reserve_order_with_commitment`
  unfoldable pub stage_reserve :
      SettlementOrder
      → Point
      → SettlementEngine
      → Result (ReservationReceipt × SettlementEngine) SettlementError
  stage_reserve order reserve_commitment engine = do
    let before = reservation_root p engine.reservations
    staged ← reserve order reserve_commitment engine.reservations
    height ← next_height engine
    let after = reservation_root p staged
    ok (
      record {
        reservation_id = order.reservation_id;
        order_commitment = order.commitment;
        kind = kind_of order.side;
        reserved = order.reservation_limit;
        state_root = after;
        canonical_receipt_digest =
            reservation_receipt_digest (codes "reserve") order.commitment before after height;
        canonical_height = height;
      },
      record engine { reservations = staged; height = height },
    )

  unfoldable pub reserve_order :
      SettlementOrder
      → Point
      → SettlementEngine
      → Result ReservationReceipt SettlementError × SettlementEngine
  unfolding stage_reserve
  reserve_order order reserve_commitment engine =
      commit (stage_reserve order reserve_commitment engine) engine

  unfoldable pub stage_release :
      Digest32
      → SettlementEngine
      → Result (ReservationReleaseReceipt × SettlementEngine) SettlementError
  stage_release commitment engine = do
    let before = reservation_root p engine.reservations
    staged ← release_reservation commitment engine.reservations
    let after = reservation_root p staged
    height ← next_height engine
    ok (
      record {
        order_commitment = commitment;
        before_root = before;
        after_root = after;
        canonical_receipt_digest =
            reservation_receipt_digest (codes "release") commitment before after height;
        canonical_height = height;
      },
      record engine { reservations = staged; height = height },
    )

  unfoldable pub release_order :
      Digest32
      → SettlementEngine
      → Result ReservationReleaseReceipt SettlementError × SettlementEngine
  unfolding stage_release
  release_order commitment engine = commit (stage_release commitment engine) engine

  unfoldable pub stage_releases :
      List Digest32
      → SettlementEngine
      → Result (ReservationBatchReleaseReceipt × SettlementEngine) SettlementError
  unfolding order_bytes release_all
  stage_releases commitments engine = do
    reject_if (is_empty commitments)
        (SettlementError.reservation "reservation release batch cannot be empty")
    let before = reservation_root p engine.reservations
    staged ← release_all commitments engine.reservations
    let after = reservation_root p staged
    height ← next_height engine
    let batch = p.sha256 (
        codes "OCLOB:RESERVATION-RELEASE-BATCH:v1"
        ++ (be_bytes 8 (length commitments) ++ order_bytes commitments))
    ok (
      record {
        order_commitments = commitments;
        before_root = before;
        after_root = after;
        canonical_receipt_digest =
            reservation_receipt_digest (codes "release-batch") batch before after height;
        canonical_height = height;
      },
      record engine { reservations = staged; height = height },
    )

  unfoldable pub release_orders_atomic :
      List Digest32
      → SettlementEngine
      → Result ReservationBatchReleaseReceipt SettlementError × SettlementEngine
  unfolding stage_releases
  release_orders_atomic commitments engine = commit (stage_releases commitments engine) engine
