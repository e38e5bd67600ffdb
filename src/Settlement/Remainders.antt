-- ===== src/Settlement/Remainders.antt =====
-- rust/oclob-settlement/src/lib.rs: the end of a reservation of `ReservationBook`, and what is left
-- of it.
use oclob.Base.{
  ℕ, ◌-◌, not, ◌||◌, Result, ok, ◌>>=◌, ◌>>◌, reject_if, ok_or, get, ltb, ◌==◌, ◌!=◌, if◌then◌else◌,
}
use oclob.Crypto.{Digest32}
use oclob.Order.{is_gtc}
use oclob.Settlement.{
  SettlementError, ReservationKind, ReservationStatus, SettlementOrder, ReservationRecord,
  ReservationBook, Point, is_active, kind_of,
}
use oclob.Settlement.Reservations.{put_record, required_for}
use oclob.Settlement.Fills.{ConsumedFill, find_reservation}

abbrev pub set_commitment : Point → ReservationRecord → ReservationRecord
set_commitment point r = record r { reserve_commitment = point }

unfoldable pub apply_collaborative_remainders :
    ConsumedFill → Point → Point → Point → ReservationBook → Result ReservationBook SettlementError
apply_collaborative_remainders consumed securities_remainder cash_remainder maker_pool_remainder
      book =
    do
      maker ←
          ok_or (get consumed.maker_reservation_id book.records)
            (SettlementError.reservation "maker reservation disappeared")
      let middle =
          put_record consumed.maker_reservation_id (set_commitment maker_pool_remainder maker) book
      taker ←
          ok_or (get consumed.taker_reservation_id middle.records)
            (SettlementError.reservation "taker reservation disappeared")
      ok (
          put_record consumed.taker_reservation_id
            (set_commitment
              (elim consumed.maker_kind [
                | ReservationKind.securities ↦ cash_remainder
                | ReservationKind.cash ↦ securities_remainder
              ])
              taker)
            middle)

-- The record of the arriving order after its last fill.
abbrev pub reconciled : ReservationRecord → ℕ → ℕ → ReservationRecord
reconciled r remaining_quantity required = record r {
  remaining = required;
  remaining_quantity = if ltb 0 required then remaining_quantity else 0;
  status =
      if ltb 0 required
      then ReservationStatus.active
      else if ltb 0 (r.remaining - required)
      then ReservationStatus.released
      else ReservationStatus.consumed;
}

unfoldable pub reconcile_arriving :
    SettlementOrder → ℕ → ReservationBook → Result (ℕ × ReservationBook) SettlementError
unfolding find_reservation required_for
reconcile_arriving order remaining_quantity book = do
  found ← find_reservation order.commitment "taker reservation is absent" book
  required ←
      if remaining_quantity == 0 || not (is_gtc order.time_in_force)
      then ok 0
      else required_for (kind_of order.side) order.limit_price remaining_quantity order.max_fee
  reject_if (remaining_quantity != found.1.remaining_quantity)
      (SettlementError.reservation "reported arriving remainder differs from consumed fills")
  reject_if (ltb found.1.remaining required)
      (SettlementError.reservation "remaining order is not covered by its reservation")
  ok (required, put_record found.0 (reconciled found.1 remaining_quantity required) book)

abbrev pub finished : ReservationRecord → ReservationStatus → ReservationRecord
finished r status = record r { remaining = 0; remaining_quantity = 0; status = status }

unfoldable pub reconcile_arriving_collaborative :
    Digest32 → ℕ → ReservationBook → Result (ℕ × ReservationBook) SettlementError
unfolding find_reservation
reconcile_arriving_collaborative commitment remaining_quantity book = do
  found ← find_reservation commitment "taker reservation is absent" book
  let r : ReservationRecord = found.1
  reject_if (remaining_quantity != r.remaining_quantity)
      (SettlementError.reservation "reported arriving remainder differs from consumed fills")
  if remaining_quantity == 0 || not (is_gtc r.time_in_force)
      then ok (
        0,
        put_record found.0
            (finished r (
              if remaining_quantity == 0
              then ReservationStatus.consumed
              else ReservationStatus.released))
            book,
      )
      else ok
          (r.remaining, put_record found.0 (record r { status = ReservationStatus.active }) book)

-- `ReservationBook::release_order`
unfoldable pub release_reservation :
    Digest32 → ReservationBook → Result ReservationBook SettlementError
unfolding find_reservation
release_reservation commitment book = do
  found ← find_reservation commitment "reservation is absent" book
  reject_if (not (is_active found.1.status))
      (SettlementError.reservation "reservation is already terminal")
  ok (put_record found.0 (finished found.1 ReservationStatus.released) book)
