-- ===== src/Settlement.antt =====
-- rust/oclob-settlement/src/lib.rs: reservations, accounts and the atomic settlement of a batch of
-- fills. This file has the data that they share. A `RistrettoPoint` is its compressed encoding, 32
-- bytes that two points share only if they are equal, with 0 for the identity. A pair of a digest
-- and a tag that keys a map is one number, in the order of the pairs.
pub mod Reservations
pub mod Fills
pub mod Remainders
pub mod Roots
pub mod Engine
pub mod Batch
pub mod Rounds
pub mod Settle
pub mod Names
pub mod Usage
pub mod Takes
pub mod Frees
pub mod Accounts
pub mod Capacities
pub mod Filled
pub mod Solvency
pub mod Atomic
pub mod Admission
pub mod Binding
pub mod Operations
pub mod Reachable
pub mod Portfolio
pub mod Spent
pub mod Receipts
pub mod Checked
pub mod Authorized
pub mod Released
pub mod Admitted
pub mod Named
pub mod Releasable
pub mod Refines
use oclob.Base.{
  ℕ, ◌+◌, ◌*◌, ◌-◌, ◌%◌, Bool, true, false, String, Option, none, some, List, [], ◌∷◌, Result, ok,
  err, BTreeMap, checked_add, checked_sub, u64_bound, leb, if◌then◌else◌,
}
use oclob.Crypto.{Digest32}
use oclob.Order.{Side, TimeInForce, SecretOrder}

pub data SettlementError : Type 0 where
  invalid_fill replay_accepted insolvent canonical_divergence : SettlementError
  cryptography proof finality reservation : String → SettlementError

pub data ReservationKind : Type 0 where
  cash securities : ReservationKind

pub data ReservationStatus : Type 0 where
  active consumed released : ReservationStatus

abbrev pub reservation_kind_tag : ReservationKind → ℕ
reservation_kind_tag ReservationKind.cash = 1
reservation_kind_tag ReservationKind.securities = 2

abbrev pub time_in_force_tag : TimeInForce → ℕ
time_in_force_tag TimeInForce.good_til_cancelled = 1
time_in_force_tag TimeInForce.immediate_or_cancel = 2

abbrev pub reservation_status_tag : ReservationStatus → ℕ
reservation_status_tag ReservationStatus.active = 1
reservation_status_tag ReservationStatus.consumed = 2
reservation_status_tag ReservationStatus.released = 3

abbrev pub kind_eq : ReservationKind → ReservationKind → Bool
kind_eq ReservationKind.cash ReservationKind.cash = true
kind_eq ReservationKind.cash ReservationKind.securities = false
kind_eq ReservationKind.securities ReservationKind.cash = false
kind_eq ReservationKind.securities ReservationKind.securities = true

abbrev pub is_active : ReservationStatus → Bool
is_active ReservationStatus.active = true
is_active ReservationStatus.consumed = false
is_active ReservationStatus.released = false

-- The kind of reservation that an order of a side needs.
abbrev pub kind_of : Side → ReservationKind
kind_of Side.buy = ReservationKind.cash
kind_of Side.sell = ReservationKind.securities

abbrev pub Point : Type 0
Point = Digest32

-- `SettlementOrderView`: what settlement reads of an order.
pub record SettlementOrder : Type 0 where
  pub market_id : List ℕ
  pub side : Side
  pub limit_price : ℕ
  pub quantity : ℕ
  pub time_in_force : TimeInForce
  pub expires_at : ℕ
  pub participant_handle : Digest32
  pub dekyx_nullifier : Digest32
  pub reservation_id : Digest32
  pub reservation_limit : ℕ
  pub max_fee : ℕ
  pub commitment : Digest32

pub record ReservationRecord : Type 0 where
  pub reservation_id : Digest32
  pub order_commitment : Digest32
  pub participant_handle : Digest32
  pub entity_nullifier : Digest32
  pub market_id : List ℕ
  pub kind : ReservationKind
  pub limit_price : ℕ
  pub time_in_force : TimeInForce
  pub original_quantity : ℕ
  pub remaining_quantity : ℕ
  pub max_fee : ℕ
  pub expires_at : ℕ
  pub reserved : ℕ
  pub remaining : ℕ
  pub reserve_commitment : Point
  pub status : ReservationStatus

pub record ReservationBook : Type 0 where
  pub capacities : BTreeMap ℕ
  pub participant_entities : BTreeMap Digest32
  pub entity_participants : BTreeMap Digest32
  pub records : BTreeMap ReservationRecord

-- The key `(entity, tag)` of a capacity; a tag is below 256.
abbrev pub capacity_key : Digest32 → ℕ → ℕ
capacity_key entity tag = entity * 256 + tag

-- `try_fold` with `checked_add`
abbrev pub checked_sum : ℕ → List ℕ → Option ℕ
checked_sum total [] = some total
checked_sum total (x ∷ xs) = elim (checked_add total x) [
  | none ↦ none
  | some total' ↦ checked_sum total' xs
]

abbrev pub range_bound : ℕ
range_bound = 4294967296

unfoldable pub checked_credit : ℕ → ℕ → Result ℕ SettlementError
checked_credit balance amount = elim (checked_add balance amount) [
  | none ↦ err (SettlementError.reservation "credited balance overflowed")
  | some credited ↦
      if leb range_bound credited
      then err (SettlementError.reservation "credited balance exceeds the DeFMI range-proof domain")
      else ok credited
]

unfoldable pub checked_debit : ℕ → ℕ → Result ℕ SettlementError
checked_debit balance amount = elim (checked_sub balance amount) [
  | none ↦ err SettlementError.insolvent
  | some rest ↦ ok rest
]
