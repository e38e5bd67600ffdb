-- ===== src/Settlement/Portfolio.antt =====
-- What a participant has left, and when `reserve` admits an order.
use oclob.Base.{
  ok_inj, ℕ, ◌+◌, ◌≤◌, ◌<◌, ◌≡◌, false, none, some, ok, arith, >>=-eq-ok, ok_or-eq-ok, ok_or, find,
  get, values, ◌==◌, u64_bound,
}
use oclob.Crypto.{Digest32}
use oclob.Settlement.{ReservationKind, ReservationBook, SettlementOrder, Point, kind_of}
use oclob.Settlement.Reservations.{
  reserve, reserved_for, new_record, put_record, is_reserved_by, is_reserved_for_entity, exceeds,
  has_commitment,
}
use oclob.Settlement.Engine.{SettlementEngine, ParticipantPortfolio, participant_portfolio}
use oclob.Settlement.Usage.{used, checked_sum_kept, checked_sum_found}
use oclob.Settlement.Admission.{entity_usage, opened_balance}
use oclob.Settlement.Accounts.{balance, held}
use oclob.Settlement.Solvency.{IsSolvent}

reserved_for-used :
    (handle : Digest32) (kind : ReservationKind) (book : ReservationBook) (n : ℕ)
    → reserved_for handle kind book ≡ ok n
    → n ≡ used handle kind book
unfolding reserved_for
reserved_for-used handle kind book n h =
    checked_sum_kept (is_reserved_by handle kind) book.records n (ok_or-eq-ok _ _ h)

-- In a solvent engine the subtraction of a portfolio does not stop at 0: what a participant can
-- still use and what its reservations hold back are its balance, for the cash and the securities.
pub participant_portfolio_balances :
    (handle : Digest32) (engine : SettlementEngine) (portfolio : ParticipantPortfolio)
    → IsSolvent engine
    → participant_portfolio handle engine ≡ ok portfolio
    → (portfolio.available_cash + used handle ReservationKind.cash engine.reservations
        ≡ held handle ReservationKind.cash engine.participants)
      × (portfolio.available_securities + used handle ReservationKind.securities engine.reservations
          ≡ held handle ReservationKind.securities engine.participants)
unfolding participant_portfolio
participant_portfolio_balances handle engine portfolio h e =
    let (b, e1, r1) = >>=-eq-ok (ok_or (get handle engine.participants) _) _ e in
    let (securities, e2, r2) =
      >>=-eq-ok (reserved_for handle ReservationKind.securities engine.reservations) _ r1 in
    let (cash, e3, r3) =
      >>=-eq-ok (reserved_for handle ReservationKind.cash engine.reservations) _ r2 in
    let is = ok_inj _ _ r3 in
    let found = ok_or-eq-ok _ _ e1 in
    let cash_covered = rw found at (h.covered.covered handle ReservationKind.cash) in
    let securities_covered = rw found at (h.covered.covered handle ReservationKind.securities) in
    rw (← is, found)
      (
        omega (
          arith,
          cash_covered,
          reserved_for-used handle ReservationKind.cash engine.reservations cash e3,
        ),
        omega (
          arith,
          securities_covered,
          reserved_for-used handle ReservationKind.securities engine.reservations securities e2,
        ),
      )

fits :
    (in_use limit cap : ℕ)
    → in_use + limit ≤ cap
    → cap < u64_bound
    → exceeds in_use limit cap ≡ false
fits in_use limit cap h b = ground (arith, h, b)

-- A solvent engine admits an order of a bound participant if its reservation commitment is not the
-- identity, its reservation id and its commitment are new, the participant's balance of the kind
-- that it needs fits 64 bits, and its reservation fits in what that balance leaves beside the
-- participant's other reservations.
pub reserve_admits :
    (order : SettlementOrder) (point : Point) (engine : SettlementEngine)
    → IsSolvent engine
    → (point == 0) ≡ false
    → get order.participant_handle engine.reservations.participant_entities
      ≡ some order.dekyx_nullifier
    → get order.reservation_id engine.reservations.records ≡ none
    → find (has_commitment order.commitment) (values engine.reservations.records) ≡ none
    → used order.participant_handle (kind_of order.side) engine.reservations
        + order.reservation_limit
      ≤ held order.participant_handle (kind_of order.side) engine.participants
    → held order.participant_handle (kind_of order.side) engine.participants < u64_bound
    → reserve order point engine.reservations
      ≡ ok (put_record order.reservation_id (new_record order point) engine.reservations)
unfolding reserve
reserve_admits order point engine h proper known new_id new_order room bounded =
    let book = engine.reservations in
    let handle = order.participant_handle in
    let kind = kind_of order.side in
    let entity = order.dekyx_nullifier in
    let (b, found) =
      opened_balance (get handle engine.participants) (h.covered.opened handle entity known) in
    let cap = h.current handle entity kind b known found in
    let in_use = checked_sum_found (is_reserved_for_entity entity kind) book.records (
      omega (
        arith,
        entity_usage handle entity kind book h.covered.reservations known,
        room,
        bounded,
      )) in
    let amount = entity_usage handle entity kind book h.covered.reservations known in
    let room' = rw found at room in
    let bounded' = rw found at bounded in
    rw
      (
        proper,
        known,
        new_id,
        new_order,
        cap,
        in_use,
        amount,
        fits (used handle kind book) order.reservation_limit (balance kind b) room' bounded',
      )
      (ground arith)
