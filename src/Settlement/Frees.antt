-- ===== src/Settlement/Frees.antt =====
-- Operations on one reservation that never leave more in use: the end of an order, its release, and
-- a new commitment.
use oclob.Base.{
  ℕ, String, ◌≤◌, ◌≡◌, refl, ◌∙◌, not, ◌||◌, some, ok, arith, >>=-eq-ok, ok_or-eq-ok, ok_or,
  Bool-cases, inl, inr, get, get-AllValues, ◌==◌, if◌then◌else◌,
}
use oclob.Crypto.{Digest32}
use oclob.Order.{is_gtc}
use oclob.Settlement.{
  SettlementError, ReservationKind, ReservationStatus, ReservationRecord, ReservationBook, Point,
}
use oclob.Settlement.Reservations.{put_record}
use oclob.Settlement.Fills.{ConsumedFill, find_reservation}
use oclob.Settlement.Remainders.{
  apply_collaborative_remainders, set_commitment, finished, reconcile_arriving_collaborative,
  release_reservation,
}
use oclob.Settlement.Names.{put_record-SameNames}
use oclob.Settlement.Usage.{
  usage, used, IsIdle, IsReservations, put_record-IsReservations, put_record-used,
}
use oclob.Settlement.Takes.{SameAccounts}

pub record Frees (book book' : ReservationBook) : Type 0 where
  pub frame : SameAccounts book book'
  pub keeps : IsReservations book'
  pub frees :
      (handle : Digest32) (kind : ReservationKind) → used handle kind book' ≤ used handle kind book

pub Frees-trans : (a b c : ReservationBook) → Frees a b → Frees b c → Frees a c
Frees-trans a b c f g = record {
  frame = record {
    capacities = g.frame.capacities ∙ f.frame.capacities;
    participant_entities = g.frame.participant_entities ∙ f.frame.participant_entities;
    entity_participants = g.frame.entity_participants ∙ f.frame.entity_participants;
    names = λ id. g.frame.names id ∙ f.frame.names id;
  };
  keeps = g.keeps;
  frees = λ handle kind. omega (arith, f.frees handle kind, g.frees handle kind);
}

-- A record of the same order and participant that holds no more than before.
record Loosened (r r' : ReservationRecord) : Type 0 where
  id : r'.reservation_id ≡ r.reservation_id
  order : r'.order_commitment ≡ r.order_commitment
  handle : r'.participant_handle ≡ r.participant_handle
  entity : r'.entity_nullifier ≡ r.entity_nullifier
  idle : IsIdle r'
  less : (owner : Digest32) (kind : ReservationKind) → usage owner kind r' ≤ usage owner kind r

put_record-Frees :
    (id : Digest32) (r r' : ReservationRecord) (book : ReservationBook)
    → IsReservations book
    → get id book.records ≡ some r
    → Loosened r r'
    → Frees book (put_record id r' book)
put_record-Frees id r r' book h found l = record {
  frame = record {
    capacities = refl;
    participant_entities = refl;
    entity_participants = refl;
    names = put_record-SameNames id r r' book found l.id l.order;
  };
  keeps = put_record-IsReservations id r r' book h found l.handle l.entity l.idle;
  frees = λ owner kind.
      omega (arith, put_record-used owner kind id r r' book h found, l.less owner kind);
}

pub find_reservation-get :
    (commitment : Digest32) (absent : String) (book : ReservationBook)
    (found : Digest32 × ReservationRecord)
    → find_reservation commitment absent book ≡ ok found
    → get found.0 book.records ≡ some found.1
unfolding find_reservation
find_reservation-get commitment absent book (id, r) h = ground arith

set_commitment-Loosened :
    (point : Point) (r : ReservationRecord) → IsIdle r → Loosened r (set_commitment point r)
set_commitment-Loosened point r idle = record {
  id = refl;
  order = refl;
  handle = refl;
  entity = refl;
  idle = idle;
  less = λ owner kind. omega arith;
}

finished-Loosened :
    (r : ReservationRecord) (status : ReservationStatus) → Loosened r (finished r status)
finished-Loosened r status = record {
  id = refl;
  order = refl;
  handle = refl;
  entity = refl;
  idle = λ _. refl;
  less = λ owner kind. ground arith;
}

active-Loosened :
    (r : ReservationRecord) → IsIdle r → Loosened r (record r { status = ReservationStatus.active })
active-Loosened r idle = record {
  id = refl;
  order = refl;
  handle = refl;
  entity = refl;
  idle = λ h. cc;
  less = λ owner kind. ground (arith, idle);
}

pub apply_collaborative_remainders-Frees :
    (consumed : ConsumedFill) (securities cash pool : Point) (book book' : ReservationBook)
    → IsReservations book
    → apply_collaborative_remainders consumed securities cash pool book ≡ ok book'
    → Frees book book'
unfolding apply_collaborative_remainders
apply_collaborative_remainders-Frees consumed securities cash pool book book' h e =
    let maker_id = consumed.maker_reservation_id in
    let taker_id = consumed.taker_reservation_id in
    let (maker, found, e1) =
      >>=-eq-ok
        (ok_or (get maker_id book.records)
          (SettlementError.reservation "maker reservation disappeared"))
        _ e in
    let is_maker : get maker_id book.records ≡ some maker = ok_or-eq-ok _ _ found in
    let first = put_record-Frees maker_id maker (set_commitment pool maker) book h is_maker (
      set_commitment-Loosened pool maker
        (get-AllValues IsIdle maker_id maker book.records h.idle is_maker)) in
    let middle = put_record maker_id (set_commitment pool maker) book in
    let (taker, found', e2) =
      >>=-eq-ok
        (ok_or (get taker_id middle.records)
          (SettlementError.reservation "taker reservation disappeared"))
        _ e1 in
    let is_taker : get taker_id middle.records ≡ some taker = ok_or-eq-ok _ _ found' in
    let point : Point = elim consumed.maker_kind [
      | ReservationKind.securities ↦ cash
      | ReservationKind.cash ↦ securities
    ] in
    let second =
      put_record-Frees taker_id taker (set_commitment point taker) middle first.keeps is_taker (
        set_commitment-Loosened point taker
          (get-AllValues IsIdle taker_id taker middle.records first.keeps.idle is_taker)) in
    let is : put_record taker_id (set_commitment point taker) middle ≡ book' = ground (arith, e2) in
    rw (← is) (
      Frees-trans book middle (put_record taker_id (set_commitment point taker) middle) first
        second)

pub reconcile-Frees :
    (commitment : Digest32) (quantity : ℕ) (book : ReservationBook) (n : ℕ)
    (book' : ReservationBook)
    → IsReservations book
    → reconcile_arriving_collaborative commitment quantity book ≡ ok (n, book')
    → Frees book book'
unfolding reconcile_arriving_collaborative
reconcile-Frees commitment quantity book n book' h e =
    let (found, f, e1) =
      >>=-eq-ok (find_reservation commitment "taker reservation is absent" book) _ e in
    let id : Digest32 = found.0 in
    let r : ReservationRecord = found.1 in
    let is_found = find_reservation-get commitment "taker reservation is absent" book found f in
    elim (Bool-cases (quantity == 0 || not (is_gtc r.time_in_force))) [
      | inl over ↦
          let status =
            if quantity == 0 then ReservationStatus.consumed else ReservationStatus.released in
          let is : put_record id (finished r status) book ≡ book' = ground (arith, e1, over) in
          rw (← is)
            (put_record-Frees id r (finished r status) book h is_found (finished-Loosened r status))
      | inr kept ↦
          let r' : ReservationRecord = record r { status = ReservationStatus.active } in
          let is : put_record id r' book ≡ book' = ground (arith, e1, kept) in
          rw (← is) (
            put_record-Frees id r r' book h is_found
              (active-Loosened r (get-AllValues IsIdle id r book.records h.idle is_found)))
    ]

pub release_reservation-Frees :
    (commitment : Digest32) (book book' : ReservationBook)
    → IsReservations book
    → release_reservation commitment book ≡ ok book'
    → Frees book book'
unfolding release_reservation
release_reservation-Frees commitment book book' h e =
    let (found, f, e1) = >>=-eq-ok _ _ e in
    let is : put_record found.0 (finished found.1 ReservationStatus.released) book ≡ book' =
      ground (arith, e1) in
    rw (← is) (
      put_record-Frees found.0 found.1 (finished found.1 ReservationStatus.released) book h
        (find_reservation-get commitment "reservation is absent" book found f)
        (finished-Loosened found.1 ReservationStatus.released))
