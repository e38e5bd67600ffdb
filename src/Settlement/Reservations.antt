-- ===== src/Settlement/Reservations.antt =====
-- rust/oclob-settlement/src/lib.rs: `ReservationBook`, its bindings, capacities and records. An
-- operation that reports an error leaves the book as it was.
use oclob.Base.{
  ℕ, Bool, true, false, ◌&&◌, ◌||◌, Option, none, some, [], Result, ok, ◌>>=◌, ◌>>◌, reject_if,
  ok_or, map, keep, find, get, insert, values, checked_add, checked_mul, checked_sub, ltb, ◌==◌,
  ◌!=◌, if◌then◌else◌,
}
use oclob.Crypto.{Digest32}
use oclob.Settlement.{
  SettlementError, ReservationKind, ReservationStatus, SettlementOrder, ReservationRecord,
  ReservationBook, Point, reservation_kind_tag, kind_eq, is_active, kind_of, capacity_key,
  checked_sum,
}

abbrev pub empty_reservations : ReservationBook
empty_reservations = record {
  capacities = [];
  participant_entities = [];
  entity_participants = [];
  records = [];
}

-- Whether a map has another value than `v` at a key.
abbrev pub differs : Option ℕ → ℕ → Bool
differs none v = false
differs (some w) v = w != v

abbrev pub set_capacities : Digest32 → ℕ → ℕ → ReservationBook → ReservationBook
set_capacities entity cash securities book = record book {
  capacities =
      insert (capacity_key entity 2) securities
        (insert (capacity_key entity 1) cash book.capacities);
}

unfoldable pub bind_participant :
    Digest32 → Digest32 → ℕ → ℕ → ReservationBook → Result ReservationBook SettlementError
bind_participant participant entity cash securities book = do
  reject_if (participant == 0 || entity == 0)
      (SettlementError.reservation "participant and DeKYX entity identifiers are required")
  reject_if
      (differs (get participant book.participant_entities) entity
        || differs (get entity book.entity_participants) participant)
      (SettlementError.reservation
        "one participant handle and one DeKYX entity must remain one-to-one")
  ok (
      set_capacities entity cash securities (record book {
        participant_entities = insert participant entity book.participant_entities;
        entity_participants = insert entity participant book.entity_participants;
      }))

unfoldable pub refresh_capacity :
    Digest32 → ℕ → ℕ → ReservationBook → Result ReservationBook SettlementError
refresh_capacity participant cash securities book = do
  entity ←
      ok_or (get participant book.participant_entities)
        (SettlementError.reservation "participant has no DeKYX binding")
  ok (set_capacities entity cash securities book)

abbrev pub is_reserved_by : Digest32 → ReservationKind → ReservationRecord → Bool
is_reserved_by participant kind r =
    r.participant_handle == participant && (kind_eq r.kind kind && is_active r.status)

abbrev pub is_reserved_for_entity : Digest32 → ReservationKind → ReservationRecord → Bool
is_reserved_for_entity entity kind r =
    r.entity_nullifier == entity && (kind_eq r.kind kind && is_active r.status)

abbrev pub remaining_of : ReservationRecord → ℕ
remaining_of r = r.remaining

unfoldable pub reserved_for :
    Digest32 → ReservationKind → ReservationBook → Result ℕ SettlementError
reserved_for participant kind book =
    ok_or
      (checked_sum 0
        (map remaining_of (keep (is_reserved_by participant kind) (values book.records))))
      (SettlementError.reservation "reservation sum overflowed")

abbrev pub has_commitment : Digest32 → ReservationRecord → Bool
has_commitment commitment r = r.order_commitment == commitment

-- `record_id_for`
abbrev pub record_id_for : Digest32 → ReservationBook → Option Digest32
record_id_for commitment book = elim (find (has_commitment commitment) (values book.records)) [
  | none ↦ none
  | some r ↦ some r.reservation_id
]

abbrev pub is_some : {A : Type 0} → Option A → Bool
is_some none = false
is_some (some a) = true

-- The record that `reserve` adds.
abbrev pub new_record : SettlementOrder → Point → ReservationRecord
new_record order reserve_commitment = record {
  reservation_id = order.reservation_id;
  order_commitment = order.commitment;
  participant_handle = order.participant_handle;
  entity_nullifier = order.dekyx_nullifier;
  market_id = order.market_id;
  kind = kind_of order.side;
  limit_price = order.limit_price;
  time_in_force = order.time_in_force;
  original_quantity = order.quantity;
  remaining_quantity = order.quantity;
  max_fee = order.max_fee;
  expires_at = order.expires_at;
  reserved = order.reservation_limit;
  remaining = order.reservation_limit;
  reserve_commitment = reserve_commitment;
  status = ReservationStatus.active;
}

abbrev pub put_record : Digest32 → ReservationRecord → ReservationBook → ReservationBook
put_record id r book = record book { records = insert id r book.records }

-- Whether a reservation of `limit` on top of `in_use` is more than the capacity.
abbrev pub exceeds : ℕ → ℕ → ℕ → Bool
exceeds in_use limit capacity = elim (checked_add in_use limit) [
  | none ↦ true
  | some total ↦ ltb capacity total
]

-- `ReservationBook::reserve`, without its receipt, which reads the order and the root.
unfoldable pub reserve :
    SettlementOrder → Point → ReservationBook → Result ReservationBook SettlementError
reserve order reserve_commitment book = do
  reject_if (reserve_commitment == 0)
      (SettlementError.reservation "reservation commitment is the identity point")
  reject_if
      (elim (get order.participant_handle book.participant_entities) [
        | none ↦ true
        | some entity ↦ entity != order.dekyx_nullifier
      ])
      (SettlementError.reservation "order participant is not bound to the presented DeKYX entity")
  reject_if
      (is_some (get order.reservation_id book.records)
        || is_some (find (has_commitment order.commitment) (values book.records)))
      (SettlementError.reservation "reservation id or order commitment was already used")
  capacity ←
      ok_or
        (get (capacity_key order.dekyx_nullifier (reservation_kind_tag (kind_of order.side)))
          book.capacities)
        (SettlementError.reservation "entity has no canonical capacity")
  in_use ←
      ok_or
        (checked_sum 0 (
          map remaining_of (
            keep (is_reserved_for_entity order.dekyx_nullifier (kind_of order.side))
              (values book.records))))
        (SettlementError.reservation "reservation sum overflowed")
  reject_if (exceeds in_use order.reservation_limit capacity) (
      SettlementError.reservation
        "the entity-wide cash, inventory, or guarantee capacity is exceeded")
  ok (put_record order.reservation_id (new_record order reserve_commitment) book)

-- What the rest of an order needs: the reservation of a buyer keeps price and fee.
unfoldable pub required_for : ReservationKind → ℕ → ℕ → ℕ → Result ℕ SettlementError
required_for ReservationKind.cash limit_price quantity max_fee = do
  value ←
      ok_or (checked_mul limit_price quantity)
        (SettlementError.reservation "remaining cash reservation overflowed")
  ok_or (checked_add value max_fee)
      (SettlementError.reservation "remaining cash reservation overflowed")
required_for ReservationKind.securities limit_price quantity max_fee = ok quantity

unfoldable pub consume_record : ℕ → ℕ → ReservationRecord → Result ReservationRecord SettlementError
unfolding required_for
consume_record spent filled_quantity r = do
  after_spend ←
      ok_or (checked_sub r.remaining spent)
        (SettlementError.reservation "reservation cannot cover the fill")
  quantity ←
      ok_or (checked_sub r.remaining_quantity filled_quantity)
        (SettlementError.reservation "fill exceeds the order remainder")
  required ← if quantity == 0 then ok 0 else required_for r.kind r.limit_price quantity r.max_fee
  reject_if (ltb after_spend required)
      (SettlementError.reservation "reservation no longer covers the committed order remainder")
  ok (record r {
    remaining_quantity = quantity;
    remaining = required;
    status = if quantity == 0 then ReservationStatus.consumed else ReservationStatus.active;
  })
