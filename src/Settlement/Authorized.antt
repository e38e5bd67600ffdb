-- ===== src/Settlement/Authorized.antt =====
-- What a batch that settles was checked for: its transition, its fills and the arriving order.
use oclob.Base.{
  ℕ, ◌+◌, ◌≡◌, ◌≤◌, ◌<◌, ◌∙◌, refl, sym, true, false, not, ◌||◌, none, some, List, [], ok,
  reject_if, arith, >>=-eq-ok, String, All, values, find, Option, ok_inj, reject_if-eq-ok, ok_or,
  ok_or-eq-ok, map_err, map_err-eq-ok, not-false, ||-false, length, is_empty, checked_add, bytes_eq,
  bytes_eq_iff, get, ltb, ◌==◌, ◌!=◌,
}
use oclob.Crypto.{Primitives, Digest32}
use oclob.Order.{max_match_slots}
use oclob.Order.Authority.{OrderCommitment}
use oclob.Book.Operations.Transitions.{PublicFill}
use oclob.Proofs.{public_fills_digest, other_taker}
use oclob.Proofs.Binding.{TransitionAuthorization, verify_settlement_binding}
use oclob.Settlement.{
  SettlementError, ReservationStatus, ReservationRecord, ReservationBook, is_active, checked_sum,
}
use oclob.Settlement.Reservations.{has_commitment, record_id_for}
use oclob.Settlement.Names.{IsNamed, find-get}
use oclob.Ordering.Sets.{Unique}
use oclob.Settlement.Fills.{find_reservation}
use oclob.Settlement.Engine.{SettlementEngine}
use oclob.Settlement.Batch.{
  Rails, CollaborativeFillProof, SettlementReceipt, has_empty_fill, has_repeated_maker, quantities,
}
use oclob.Settlement.Settle.{check_batch, stage_batch, settle_batch_collaborative}
use oclob.Settlement.Rounds.{BatchContext}
use oclob.Settlement.Usage.{sum, checked_sum_total}
use oclob.Settlement.Frees.{find_reservation-get}
use oclob.Settlement.Receipts.{settle_batch_collaborative-Settled}
use oclob.Settlement.Checked.{
  makers, has_empty_fill-false, other_taker-false, has_repeated_maker-false, has_empty_fill_of,
}

-- What the transition and the arriving order's reservation, the only one of its commitment, say of
-- the fills.
pub record IsAuthorized (p : Primitives) (fills : List PublicFill)
    (transition : TransitionAuthorization) (arriving : OrderCommitment) (remaining now : ℕ)
    (engine : SettlementEngine) : Type 0 where
  pub trusted : transition.trust_root ≡ engine.transition_committee_trust_root
  pub attested : transition.statement.fill_digest ≡ public_fills_digest p fills
  pub traded : All (λ fill. (0 < fill.quantity) × (0 < fill.price)) fills
  pub same_taker : All (λ fill. fill.taker_order ≡ arriving) fills
  pub makers_differ : Unique (makers fills)
  pub id : Digest32
  pub order : ReservationRecord
  pub found : get id engine.reservations.records ≡ some order
  pub names_it : order.order_commitment ≡ arriving
  pub only :
      (j : Digest32) (other : ReservationRecord)
      → get j engine.reservations.records ≡ some other
      → other.order_commitment ≡ arriving
      → j ≡ id
  pub active : order.status ≡ ReservationStatus.active
  pub live : now ≤ order.expires_at
  pub market : transition.statement.market_id ≡ order.market_id
  pub conserves : sum (quantities fills) + remaining ≡ order.original_quantity

is_active-true :
    (status : ReservationStatus) → is_active status ≡ true → status ≡ ReservationStatus.active
is_active-true ReservationStatus.active h = refl
is_active-true ReservationStatus.consumed h = cc
is_active-true ReservationStatus.released h = cc

id_of :
    (found : Option ReservationRecord) (id : Digest32)
    → (elim found [ none ↦ none | some r ↦ some r.reservation_id ]) ≡ some id
    → (r : ReservationRecord) × ((found ≡ some r) × (r.reservation_id ≡ id))
id_of none id h = absurd (cc)
id_of (some r) id h = (r, (refl, cc))

-- The reservation that is found for a commitment is of it.
find_reservation-names :
    (commitment : Digest32) (absent : String) (book : ReservationBook)
    (found : Digest32 × ReservationRecord)
    → IsNamed book
    → find_reservation commitment absent book ≡ ok found
    → found.1.order_commitment ≡ commitment
unfolding find_reservation
find_reservation-names commitment absent book found h e =
    let (id, e1, r1) = >>=-eq-ok (ok_or (record_id_for commitment book) _) _ e in
    let (r, e2, r2) = >>=-eq-ok (ok_or (get id book.records) _) _ r1 in
    let here : get id book.records ≡ some r = ok_or-eq-ok _ _ e2 in
    let is : (id, r) ≡ found = ok_inj _ _ r2 in
    let (r0, (first, own_id)) =
      id_of (find (has_commitment commitment) (values book.records)) id (ok_or-eq-ok _ _ e1) in
    let (k, (there, names)) = find-get commitment book.records r0 h.sorted first in
    let keyed : r0.reservation_id ≡ k = h.keyed k r0 there in
    let again : get id book.records ≡ some r0 = rw (← own_id, keyed) there in
    let same : r0 ≡ r = cc in rw (← is, ← same) names

binding_checks :
    (p : Primitives) (t : TransitionAuthorization) (market : List ℕ) (arriving : OrderCommitment)
    (fills : List PublicFill) (expected : Digest32) {u : Unit {0}}
    → verify_settlement_binding p t market arriving fills expected ≡ ok u
    → (t.trust_root ≡ expected)
      × ((t.statement.market_id ≡ market)
          × ((t.statement.fill_digest ≡ public_fills_digest p fills)
              × All (λ fill. fill.taker_order ≡ arriving) fills))
unfolding verify_settlement_binding
binding_checks p t market arriving fills expected h =
    let checks = reject_if-eq-ok _ _ h in
    let (trust, rest) = ||-false (t.trust_root != expected) _ checks in
    let (same_market, rest') = ||-false (not (bytes_eq t.statement.market_id market)) _ rest in
    let (fills_are, taker) =
      ||-false (t.statement.fill_digest != public_fills_digest p fills) (other_taker arriving fills)
        rest' in
    (
      ground (arith, trust),
      (
        ground (arith, same_market, bytes_eq_iff t.statement.market_id market),
        (ground (arith, fills_are), other_taker-false arriving fills taker),
      ),
    )

sum_checked :
    (xs : List ℕ) (filled remaining original : ℕ)
    → checked_sum 0 xs ≡ some filled
    → (elim (checked_add filled remaining) [ none ↦ true | some total ↦ total != original ]) ≡ false
    → sum xs + remaining ≡ original
sum_checked xs filled remaining original summed h =
    let is = checked_sum_total xs 0 filled summed in ground (arith, h, is)

module _ (p : Primitives) (rails : Rails) where
  check_batch-IsAuthorized :
      (fills : List PublicFill) (proofs : List CollaborativeFillProof) (round_id : Digest32)
      (transition : TransitionAuthorization) (arriving : OrderCommitment) (remaining now : ℕ)
      (engine : SettlementEngine) (context : BatchContext)
      → check_batch p rails fills proofs round_id transition arriving remaining now engine
        ≡ ok context
      → IsNamed engine.reservations
      → IsAuthorized p fills transition arriving remaining now engine
  unfolding check_batch
  check_batch-IsAuthorized fills proofs round_id transition arriving remaining now engine context e
        h =
      let (u1, e1, r1) =
        >>=-eq-ok
          (reject_if
            (is_empty fills
              || (length fills != length proofs
                  || (ltb max_match_slots (length fills)
                      || (round_id == 0 || (has_empty_fill fills || other_taker arriving fills)))))
            SettlementError.invalid_fill)
          _ e in
      let (found, e2, r2) =
        >>=-eq-ok (find_reservation arriving "taker reservation is absent" engine.reservations) _
          r1 in
      let r : ReservationRecord = found.1 in
      let (u3, e3, r3) =
        >>=-eq-ok (reject_if (not (is_active r.status) || ltb r.expires_at now) _) _ r2 in
      let (filled, e4, r4) = >>=-eq-ok (ok_or (checked_sum 0 (quantities fills)) _) _ r3 in
      let (u5, e5, r5) =
        >>=-eq-ok
          (reject_if
            (elim (checked_add filled remaining) [
              | none ↦ true
              | some total ↦ total != r.original_quantity
            ])
            _)
          _ r4 in
      let (u6, e6, r6) = >>=-eq-ok (reject_if (has_repeated_maker [] fills) _) _ r5 in
      let (u7, e7, r7) =
        >>=-eq-ok
          (map_err
            (verify_settlement_binding p transition r.market_id arriving fills
              engine.transition_committee_trust_root)
            (λ _.
              SettlementError.proof "the ordered input, MPC receipt and book transition disagree"))
          _ r6 in
      let bound : verify_settlement_binding p transition r.market_id arriving fills
            engine.transition_committee_trust_root
          ≡ ok u7 =
        map_err-eq-ok _ _ e7 in
      let (trusted, (market, (attested, taker))) =
        binding_checks p transition r.market_id arriving fills
          engine.transition_committee_trust_root bound in
      let names =
        find_reservation-names arriving "taker reservation is absent" engine.reservations found h
          e2 in
      let is_found =
        find_reservation-get arriving "taker reservation is absent" engine.reservations found e2 in
      let (is_active_now, live) =
        ||-false (not (is_active r.status)) (ltb r.expires_at now) (reject_if-eq-ok _ _ e3) in
      record {
        trusted = trusted;
        attested = attested;
        same_taker = taker;
        traded =
            has_empty_fill-false fills
              (has_empty_fill_of fills proofs round_id arriving (reject_if-eq-ok _ _ e1));
        makers_differ = (has_repeated_maker-false [] fills (reject_if-eq-ok _ _ e6)).0;
        id = found.0;
        order = r;
        found = is_found;
        names_it = names;
        only = λ j other there names_too.
            h.distinct j found.0 other r there is_found (names_too ∙ sym names);
        active = is_active-true r.status (not-false (is_active r.status) is_active_now);
        live = ground (arith, live);
        market = market;
        conserves =
            sum_checked (quantities fills) filled remaining r.original_quantity (ok_or-eq-ok _ _ e4)
              (reject_if-eq-ok _ _ e5);
      }

  -- Where every reservation stands under its own id and no two are for one order, a batch settles
  -- only if the transition's root of trust is the engine's and its statement has the digest of
  -- these fills and the market of the arriving order; if every fill has a quantity, a price and the
  -- arriving order as its taker, and no two have one maker; if the arriving order has a
  -- reservation, which is then the only one of its commitment, that is active and not expired; and
  -- if the filled quantities and the remainder are the original quantity of that reservation.
  pub settle_batch_collaborative-IsAuthorized :
      (fills : List PublicFill) (proofs : List CollaborativeFillProof) (round_id : Digest32)
      (transition : TransitionAuthorization) (arriving : OrderCommitment) (remaining now : ℕ)
      (engine after : SettlementEngine) (receipt : SettlementReceipt)
      → IsNamed engine.reservations
      → settle_batch_collaborative p rails fills proofs round_id transition arriving remaining now
          engine
        ≡ (ok receipt, after)
      → IsAuthorized p fills transition arriving remaining now engine
  unfolding stage_batch
  settle_batch_collaborative-IsAuthorized fills proofs round_id transition arriving remaining now
        engine after receipt named h =
      let s =
        settle_batch_collaborative-Settled p rails fills proofs round_id transition arriving
          remaining now engine after receipt h in
      let (context, e1, r1) =
        >>=-eq-ok
          (check_batch p rails fills proofs round_id transition arriving remaining now engine) _
          s.staging in
      check_batch-IsAuthorized fills proofs round_id transition arriving remaining now engine
        context e1 named
