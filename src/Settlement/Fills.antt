-- ===== src/Settlement/Fills.antt =====
-- rust/oclob-settlement/src/lib.rs: what a fill takes from the reservations of `ReservationBook`.
-- `consume_fill` changes the maker's record before the taker's, so it returns the book
-- also with an error. `expect` on a record that was just looked up is an error with its message.
use oclob.Base.{
  ℕ, Bool, not, ◌||◌, String, List, Result, ok, err, ◌>>=◌, ◌>>◌, reject_if, ok_or, get,
  checked_mul, bytes_eq, ltb, leb, ◌==◌, ◌!=◌,
}
use oclob.Crypto.{Digest32}
use oclob.Order.{TimeInForce}
use oclob.Book.Operations.Transitions.{PublicFill}
use oclob.Settlement.{
  SettlementError, ReservationKind, SettlementOrder, ReservationRecord, ReservationBook, Point,
  time_in_force_tag, kind_eq, is_active, kind_of,
}
use oclob.Settlement.Reservations.{record_id_for, put_record, consume_record}

-- The record that the commitment of an order names, with its id.
unfoldable pub find_reservation :
    Digest32 → String → ReservationBook → Result (Digest32 × ReservationRecord) SettlementError
find_reservation commitment absent book = do
  id ← ok_or (record_id_for commitment book) (SettlementError.reservation absent)
  r ← ok_or (get id book.records) (SettlementError.reservation absent)
  ok (id, r)

abbrev pub same_time_in_force : TimeInForce → TimeInForce → Bool
same_time_in_force a b = time_in_force_tag a == time_in_force_tag b

unfoldable pub validate_active_order :
    SettlementOrder → ReservationBook → Result (Unit {0}) SettlementError
unfolding find_reservation
validate_active_order order book = do
  found ← find_reservation order.commitment "reservation is absent" book
  let r : ReservationRecord = found.1
  reject_if
      (r.reservation_id != order.reservation_id
        || (r.order_commitment != order.commitment
            || (r.participant_handle != order.participant_handle
                || (r.entity_nullifier != order.dekyx_nullifier
                    || (not (bytes_eq r.market_id order.market_id)
                        || (not (kind_eq r.kind (kind_of order.side))
                            || (r.limit_price != order.limit_price
                                || (not (same_time_in_force r.time_in_force order.time_in_force)
                                    || (r.original_quantity != order.quantity
                                        || (r.remaining_quantity != order.quantity
                                            || (r.max_fee != order.max_fee
                                                || (r.expires_at != order.expires_at
                                                    || (r.reserved != order.reservation_limit
                                                        || (r.remaining != order.reservation_limit
                                                            || not
                                                            (is_active r.status)))))))))))))))
      (SettlementError.reservation "reservation candidate does not match the admitted order")

pub record ConsumedFill : Type 0 where
  pub maker_reservation_id : Digest32
  pub taker_reservation_id : Digest32
  pub maker_kind : ReservationKind
  pub maker_reserve_commitment : Point
  pub taker_reserve_commitment : Point
  pub maker_remaining : ℕ
  pub taker_remaining : ℕ
  pub seller_handle : Digest32
  pub buyer_handle : Digest32

-- What a fill takes from a reservation.
abbrev pub spent_by : ReservationKind → ℕ → ℕ → ℕ
spent_by ReservationKind.cash cash quantity = cash
spent_by ReservationKind.securities cash quantity = quantity

abbrev pub respects_limit : ℕ → ReservationRecord → Bool
respects_limit price r = elim r.kind [
  | ReservationKind.cash ↦ leb price r.limit_price
  | ReservationKind.securities ↦ leb r.limit_price price
]

abbrev pub seller_of : ReservationKind → Digest32 → Digest32 → Digest32
seller_of ReservationKind.cash maker taker = taker
seller_of ReservationKind.securities maker taker = maker

-- The guards of `consume_fill` on the two records that it found.
unfoldable pub check_fill :
    PublicFill
    → ℕ
    → List ℕ
    → ℕ
    → ReservationRecord
    → ReservationRecord
    → Result (Unit {0}) SettlementError
check_fill fill cash market_id now maker taker = do
  reject_if (kind_eq maker.kind taker.kind) (
      SettlementError.reservation
        "a fill must join one cash reservation and one inventory reservation")
  reject_if (not (bytes_eq maker.market_id market_id) || not (bytes_eq taker.market_id market_id))
      (SettlementError.reservation "a fill cannot cross reservations from another market")
  reject_if (ltb maker.expires_at now || ltb taker.expires_at now)
      (SettlementError.reservation "an expired reservation cannot be filled")
  reject_if
      (ltb maker.remaining_quantity fill.quantity || ltb taker.remaining_quantity fill.quantity)
      (SettlementError.reservation "fill quantity exceeds an order remainder")
  reject_if (not (respects_limit fill.price maker) || not (respects_limit fill.price taker))
      (SettlementError.reservation "fill price violates a committed order limit")
  reject_if
      (not (is_active maker.status) || ltb maker.remaining (spent_by maker.kind cash fill.quantity))
      (SettlementError.reservation "maker reservation cannot cover the fill")
  reject_if
      (not (is_active taker.status) || ltb taker.remaining (spent_by taker.kind cash fill.quantity))
      (SettlementError.reservation "taker reservation cannot cover the fill")

-- What `consume_fill` finds before it changes a record.
pub record Parties : Type 0 where
  pub cash : ℕ
  pub maker_id : Digest32
  pub maker : ReservationRecord
  pub taker_id : Digest32
  pub taker : ReservationRecord

unfoldable pub find_parties :
    PublicFill → List ℕ → ℕ → ReservationBook → Result Parties SettlementError
unfolding check_fill
find_parties fill market_id now book = do
  cash ←
      ok_or (checked_mul fill.price fill.quantity)
        (SettlementError.reservation "cash fill overflowed")
  maker_id ←
      ok_or (record_id_for fill.maker_order book)
        (SettlementError.reservation "maker reservation is absent")
  taker_id ←
      ok_or (record_id_for fill.taker_order book)
        (SettlementError.reservation "taker reservation is absent")
  reject_if (maker_id == taker_id)
      (SettlementError.reservation "maker and taker cannot consume the same reservation")
  maker ← ok_or (get maker_id book.records) (SettlementError.reservation "looked up maker")
  taker ← ok_or (get taker_id book.records) (SettlementError.reservation "looked up taker")
  check_fill fill cash market_id now maker taker
  ok (record {
    cash = cash;
    maker_id = maker_id;
    maker = maker;
    taker_id = taker_id;
    taker = taker;
  })

abbrev pub consumed_fill : Parties → ReservationRecord → ReservationRecord → ConsumedFill
consumed_fill parties maker taker =
    let before = parties.maker in
    record {
      maker_reservation_id = parties.maker_id;
      taker_reservation_id = parties.taker_id;
      maker_kind = before.kind;
      maker_reserve_commitment = before.reserve_commitment;
      taker_reserve_commitment = parties.taker.reserve_commitment;
      maker_remaining = maker.remaining;
      taker_remaining = taker.remaining;
      seller_handle =
          seller_of before.kind before.participant_handle parties.taker.participant_handle;
      buyer_handle =
          seller_of before.kind parties.taker.participant_handle before.participant_handle;
    }

-- The changes of `consume_fill`, the maker's first.
unfoldable pub consume_parties :
    PublicFill → Parties → ReservationBook → Result ConsumedFill SettlementError × ReservationBook
unfolding consume_record
consume_parties fill parties book =
    elim (consume_record (spent_by parties.maker.kind parties.cash fill.quantity) fill.quantity
      parties.maker) [
        | err e ↦ (err e, book)
        | ok maker ↦
            let middle = put_record parties.maker_id maker book in
            elim (consume_record (spent_by parties.taker.kind parties.cash fill.quantity)
              fill.quantity parties.taker) [
                | err e ↦ (err e, middle)
                | ok taker ↦ (
                  ok (consumed_fill parties maker taker),
                  put_record parties.taker_id taker middle,
                )
              ]
      ]

unfoldable pub consume_fill :
    PublicFill
    → List ℕ
    → ℕ
    → ReservationBook
    → Result ConsumedFill SettlementError × ReservationBook
unfolding find_parties consume_parties
consume_fill fill market_id now book = elim (find_parties fill market_id now book) [
  | err e ↦ (err e, book)
  | ok parties ↦ consume_parties fill parties book
]
