-- ===== src/Settlement/Admission.antt =====
-- What `reserve` checks of an order, and the invariant of the engine over it.
use oclob.Base.{
  ok_inj, ℕ, ◌+◌, ◌≤◌, ◌≡◌, ◌∙◌, refl, sym, Bool, true, false, ◌&&◌, ◌||◌, Option, none, some, ok,
  reject_if, arith, >>=-eq-ok, reject_if-eq-ok, ok_or-eq-ok, ok_or, map, keep, find, BTreeMap, get,
  values, total, total-insert, total_ext, insert-IsSorted, insert-AllValues, ◌==◌, ◌!=◌,
  if◌then◌else◌, Bool-cases, inl, inr,
}
use oclob.Crypto.{Digest32}
use oclob.Settlement.{
  ReservationKind, ReservationRecord, ReservationBook, SettlementOrder, Point, kind_eq, kind_of,
  capacity_key, reservation_kind_tag, checked_sum,
}
use oclob.Settlement.Reservations.{
  reserve, new_record, put_record, is_reserved_for_entity, remaining_of, exceeds, is_some,
  has_commitment,
}
use oclob.Settlement.Engine.{ParticipantBalances}
use oclob.Settlement.Usage.{usage, used, IsIdle, IsBound, IsReservations, checked_sum_kept}
use oclob.Settlement.Accounts.{balance, held}
use oclob.Settlement.Capacities.{capacity}
use oclob.Settlement.Solvency.{IsCovered, IsCurrent}

-- What an admitted order was checked for.
pub record Admitted (order : SettlementOrder) (book : ReservationBook) : Type 0 where
  known : get order.participant_handle book.participant_entities ≡ some order.dekyx_nullifier
  pub fresh : get order.reservation_id book.records ≡ none
  pub unseen : find (has_commitment order.commitment) (values book.records) ≡ none
  cap : ℕ
  in_use : ℕ
  capped : capacity order.dekyx_nullifier (kind_of order.side) book ≡ some cap
  summed :
      checked_sum 0 (
        map remaining_of (
          keep
            (is_reserved_for_entity order.dekyx_nullifier (kind_of order.side))
            (values book.records)))
      ≡ some in_use
  fits : in_use + order.reservation_limit ≤ cap

exceeds-false : (in_use limit cap : ℕ) → exceeds in_use limit cap ≡ false → in_use + limit ≤ cap
exceeds-false in_use limit cap h = ground arith

known_entity :
    (found : Option Digest32) (entity : Digest32)
    → (elim found [ none ↦ true | some e ↦ e != entity ]) ≡ false
    → found ≡ some entity
known_entity none entity h = cc
known_entity (some e) entity h = ground arith

none_of : {A : Type 0} (found : Option A) (b : Bool) → (is_some found || b) ≡ false → found ≡ none
none_of none b h = refl
none_of (some a) b h = cc

none_after :
    {A : Type 0} (b : Bool) (found : Option A) → (b || is_some found) ≡ false → found ≡ none
none_after b none h = refl
none_after true (some a) h = cc
none_after false (some a) h = cc

pub reserve-Admitted :
    (order : SettlementOrder) (point : Point) (book book' : ReservationBook)
    → reserve order point book ≡ ok book'
    → Admitted order book × (put_record order.reservation_id (new_record order point) book ≡ book')
unfolding reserve
reserve-Admitted order point book book' h =
    let kind = kind_of order.side in
    let (u1, e1, r1) = >>=-eq-ok (reject_if (point == 0) _) _ h in
    let (u2, e2, r2) =
      >>=-eq-ok
        (reject_if
          (elim (get order.participant_handle book.participant_entities) [
            | none ↦ true
            | some entity ↦ entity != order.dekyx_nullifier
          ])
          _)
        _ r1 in
    let (u3, e3, r3) =
      >>=-eq-ok
        (reject_if
          (is_some (get order.reservation_id book.records)
            || is_some (find (has_commitment order.commitment) (values book.records)))
          _)
        _ r2 in
    let (cap, e4, r4) =
      >>=-eq-ok
        (ok_or
          (get (capacity_key order.dekyx_nullifier (reservation_kind_tag kind)) book.capacities) _)
        _ r3 in
    let (in_use, e5, r5) =
      >>=-eq-ok
        (ok_or
          (checked_sum 0 (
            map remaining_of
              (keep (is_reserved_for_entity order.dekyx_nullifier kind) (values book.records))))
          _)
        _ r4 in
    let (u6, e6, r6) = >>=-eq-ok (reject_if (exceeds in_use order.reservation_limit cap) _) _ r5 in
    (
      record {
        known = known_entity _ _ (reject_if-eq-ok _ _ e2);
        fresh = none_of _ _ (reject_if-eq-ok _ _ e3);
        unseen = none_after _ _ (reject_if-eq-ok _ _ e3);
        cap = cap;
        in_use = in_use;
        capped = ok_or-eq-ok _ _ e4;
        summed = ok_or-eq-ok _ _ e5;
        fits = exceeds-false in_use order.reservation_limit cap (reject_if-eq-ok _ _ e6);
      },
      ok_inj _ _ r6,
    )

-- What the records of an entity use is what those of its one participant use.
pub entity_usage :
    (handle entity : Digest32) (kind : ReservationKind) (book : ReservationBook)
    → IsReservations book
    → get handle book.participant_entities ≡ some entity
    → total (λ r. if is_reserved_for_entity entity kind r then r.remaining else 0) book.records
      ≡ used handle kind book
entity_usage handle entity kind book h known =
    total_ext (IsBound book.participant_entities)
      (λ r. if is_reserved_for_entity entity kind r then r.remaining else 0) (usage handle kind)
      book.records
      (λ r bound.
        let mine = h.paired handle entity known in
        let its = h.paired r.participant_handle r.entity_nullifier bound in ground arith)
      h.bound

pub opened_balance :
    (found : Option ParticipantBalances)
    → is_some found ≡ true
    → (b : ParticipantBalances) × (found ≡ some b)
opened_balance none h = cc
opened_balance (some b) h = (b, refl)

usage-le :
    (r : ReservationRecord) (handle : Digest32) (kind : ReservationKind)
    → usage handle kind r ≤ r.remaining
usage-le r handle kind = ground arith

kind_eq-true : (a b : ReservationKind) → kind_eq a b ≡ true → a ≡ b
kind_eq-true ReservationKind.cash ReservationKind.cash h = refl
kind_eq-true ReservationKind.cash ReservationKind.securities h = cc
kind_eq-true ReservationKind.securities ReservationKind.cash h = cc
kind_eq-true ReservationKind.securities ReservationKind.securities h = refl

module _ (order : SettlementOrder) (point : Point) (book : ReservationBook)
    (accounts : BTreeMap ParticipantBalances) (h : IsCovered book accounts)
    (current : IsCurrent book accounts) (a : Admitted order book) where
  abbrev admitted : ReservationBook
  admitted = put_record order.reservation_id (new_record order point) book

  -- The reservation fits beside those of the participant.
  room :
      used order.participant_handle (kind_of order.side) book + order.reservation_limit
      ≤ held order.participant_handle (kind_of order.side) accounts
  room =
      let handle = order.participant_handle in
      let kind = kind_of order.side in
      let (b, found) =
        opened_balance (get handle accounts) (h.opened handle order.dekyx_nullifier a.known) in
      let is_cap : some (balance kind b) ≡ some a.cap =
        sym (current handle order.dekyx_nullifier kind b a.known found) ∙ a.capped in
      let cap_is : balance kind b ≡ a.cap = cc in
      rw found (
        omega (
          arith,
          a.fits,
          cap_is,
          checked_sum_kept (is_reserved_for_entity order.dekyx_nullifier kind) book.records a.in_use
              a.summed,
          entity_usage handle order.dekyx_nullifier kind book h.reservations a.known,
        ))

  admitted_used :
      (handle : Digest32) (kind : ReservationKind)
      → used handle kind admitted
        ≡ used handle kind book + usage handle kind (new_record order point)
  admitted_used handle kind =
      let put =
        total-insert (usage handle kind) order.reservation_id (new_record order point) book.records
          h.reservations.sorted in
      let put' = rw a.fresh at put in omega (arith, put')

  admitted_covered :
      (handle : Digest32) (kind : ReservationKind)
      → used handle kind admitted ≤ held handle kind accounts
  admitted_covered handle kind =
      elim (Bool-cases
        ((order.participant_handle == handle) && kind_eq (kind_of order.side) kind)) [
          | inl mine ↦
              let is_handle : order.participant_handle ≡ handle = ground (arith, mine) in
              let is_kind : kind_of order.side ≡ kind = kind_eq-true _ _ (ground (arith, mine)) in
              rw (← is_handle, ← is_kind)
                (omega (
                  arith,
                  room,
                  admitted_used order.participant_handle (kind_of order.side),
                  usage-le (new_record order point) order.participant_handle (kind_of order.side),
                ))
          | inr other ↦
              let none_used : usage handle kind (new_record order point) ≡ 0 =
                ground (arith, other) in
              omega (arith, admitted_used handle kind, none_used, h.covered handle kind)
        ]

  admitted-IsCovered : IsCovered admitted accounts
  admitted-IsCovered = record {
    reservations = record {
      sorted =
          insert-IsSorted order.reservation_id (new_record order point) book.records
            h.reservations.sorted;
      idle =
          insert-AllValues IsIdle order.reservation_id (new_record order point) book.records
            (λ never. absurd (cc)) h.reservations.idle;
      bound =
          insert-AllValues (IsBound book.participant_entities) order.reservation_id
            (new_record order point) book.records a.known h.reservations.bound;
      paired = h.reservations.paired;
    };
    sorted = h.sorted;
    opened = h.opened;
    covered = admitted_covered;
  }

pub reserve-IsCovered :
    (order : SettlementOrder) (point : Point) (book book' : ReservationBook)
    (accounts : BTreeMap ParticipantBalances)
    → IsCovered book accounts
    → IsCurrent book accounts
    → reserve order point book ≡ ok book'
    → IsCovered book' accounts × IsCurrent book' accounts
reserve-IsCovered order point book book' accounts h current e =
    let (a, is) = reserve-Admitted order point book book' e in
    rw (← is) (admitted-IsCovered order point book accounts h current a, current)
