-- ===== src/Examples/Settled.antt =====
-- Runs of the settlement theorems on the two participants.
use oclob.Base.{
  ◌≡◌, ◌≤◌, ◌<◌, true, be_bytes, refl, arith, [], ◌∷◌, ◌++◌, some, none, Result, ok, err, length,
  get, ◌+◌, u64_bound, find, values,
}
use mathlib.Core.List.{reverse}
use oclob.Ordering.{seven_node}
use oclob.Ordering.Sets.{Unique}
use oclob.Proofs.{public_fills_digest, transition_digest}
use oclob.Settlement.{
  SettlementError, ReservationKind, SettlementOrder, checked_debit, checked_credit,
}
use oclob.Settlement.Reservations.{
  bind_participant, refresh_capacity, reserve, new_record, put_record, has_commitment,
}
use oclob.Settlement.Fills.{consume_fill}
use oclob.Settlement.Roots.{reservation_root}
use oclob.Settlement.Remainders.{apply_collaborative_remainders, reconcile_arriving_collaborative}
use oclob.Settlement.Engine.{
  ParticipantPortfolio, ReservationReleaseReceipt, bind_eligible_participant,
  pin_settlement_committee, reserve_order, release_orders_atomic, participant_portfolio,
}
use oclob.Settlement.Batch.{SettlementReceipt, transfer, find_accounts}
use oclob.Settlement.Settle.{securities_root, cash_root, settle_batch_collaborative}
use oclob.Settlement.Rounds.{combined_root, settlement_batch_digest}
use oclob.Settlement.Usage.{used}
use oclob.Settlement.Accounts.{held, supply}
use oclob.Settlement.Solvency.{IsSolvent}
use oclob.Settlement.Atomic.{
  settle_batch_collaborative-IsSolvent, settle_batch_collaborative_atomic,
}
use oclob.Settlement.Operations.{Keeps, reserve_order-IsSolvent, release_orders_atomic-IsSolvent}
use oclob.Settlement.Reachable.{Step, Reach, reachable_IsSolvent}
use oclob.Settlement.Portfolio.{participant_portfolio_balances, reserve_admits}
use oclob.Settlement.Spent.{nullifiers}
use oclob.Settlement.Receipts.{
  settle_batch_collaborative_receipt, settle_batch_collaborative_spends,
}
use oclob.Settlement.Authorized.{IsAuthorized, settle_batch_collaborative-IsAuthorized}
use oclob.Settlement.Names.{IsNamed}
use oclob.Settlement.Named.{reachable_IsNamed}
use oclob.Settlement.Released.{Released}
use oclob.Settlement.Refines.{Trades, ledger_of, settle_batch_collaborative-Trades}
use oclob.Examples.Setting.{toy}
use oclob.Examples.Committee.{node_keys}
use oclob.Examples.Settlement.{
  accounts, start, opened_start, ready, sell_order, buy_order, pinned_committee, agreeing, refusing,
  fill, fill_proof, authorization, settled,
}

ready-Reach : Reach toy start ready
ready-Reach =
    Reach.later
      (Reach.later
        (Reach.later (Reach.later (Reach.later Reach.here (Step.bind 100 11)) (Step.bind 200 22))
          (Step.pin (λ _ _. true) (λ _ _. true) pinned_committee))
        (Step.reserves sell_order 66))
      (Step.reserves buy_order 77)

settled-Reach : Reach toy start (settled agreeing).1
settled-Reach =
    Reach.later ready-Reach
      (Step.settles agreeing (fill ∷ []) (fill_proof ∷ []) 7 authorization 502 1 100)

reachable_IsSolvent_example :
    IsSolvent (settled agreeing).1
    × ((kind : ReservationKind)
        → supply kind (settled agreeing).1.participants ≡ supply kind accounts)
reachable_IsSolvent_example =
    reachable_IsSolvent toy accounts node_keys seven_node start (settled agreeing).1
      ((omega arith, tt), (tt, tt)) opened_start settled-Reach

ready-IsSolvent : IsSolvent ready
ready-IsSolvent =
    (reachable_IsSolvent toy accounts node_keys seven_node start ready ((omega arith, tt), (tt, tt))
      opened_start ready-Reach).0

settle_batch_collaborative-IsSolvent_example :
    IsSolvent (settled agreeing).1
    × ((kind : ReservationKind)
        → supply kind (settled agreeing).1.participants ≡ supply kind ready.participants)
settle_batch_collaborative-IsSolvent_example =
    settle_batch_collaborative-IsSolvent toy agreeing (fill ∷ []) (fill_proof ∷ []) 7 authorization
      502 1 100 ready ready-IsSolvent

-- The outcome of a settlement, as a receipt or an error.
abbrev receipt_in : Result SettlementReceipt SettlementError → SettlementReceipt
receipt_in (ok receipt) = receipt
receipt_in (err e) = record {
  batch_digest = 0;
  members = [];
  securities_before_root = 0;
  securities_after_root = 0;
  cash_before_root = 0;
  cash_after_root = 0;
  reservation_before_root = 0;
  reservation_after_root = 0;
  canonical_state_root = 0;
  canonical_receipt_digest = 0;
  canonical_height = 0;
}

abbrev receipt : SettlementReceipt
receipt = receipt_in (settled agreeing).0

settled_ok : settled agreeing ≡ (ok receipt, (settled agreeing).1)
unfolding settle_batch_collaborative reserve_order reserve pin_settlement_committee
    bind_eligible_participant bind_participant public_fills_digest be_bytes consume_fill
    find_accounts apply_collaborative_remainders transfer checked_debit checked_credit
    reconcile_arriving_collaborative refresh_capacity
settled_ok = refl

settle_batch_collaborative_receipt_example :
    (receipt.securities_before_root ≡ securities_root toy agreeing ready.participants)
    × ((receipt.cash_before_root ≡ cash_root toy agreeing ready.participants)
        × ((receipt.reservation_before_root ≡ reservation_root toy ready.reservations)
            × ((receipt.securities_after_root
                  ≡ securities_root toy agreeing (settled agreeing).1.participants)
                × ((receipt.cash_after_root
                      ≡ cash_root toy agreeing (settled agreeing).1.participants)
                    × ((receipt.reservation_after_root
                          ≡ reservation_root toy (settled agreeing).1.reservations)
                        × ((receipt.batch_digest
                              ≡ settlement_batch_digest toy agreeing
                                  (transition_digest toy authorization.statement)
                                  receipt.members)
                            × ((receipt.canonical_state_root
                                  ≡ combined_root toy agreeing
                                      (securities_root toy agreeing
                                        (settled agreeing).1.participants)
                                      (cash_root toy agreeing (settled agreeing).1.participants)
                                      (reservation_root toy (settled agreeing).1.reservations))
                                × ((receipt.canonical_height ≡ (settled agreeing).1.height)
                                    × ((settled agreeing).1.height ≡ ready.height + 1)))))))))
settle_batch_collaborative_receipt_example =
    settle_batch_collaborative_receipt toy agreeing (fill ∷ []) (fill_proof ∷ []) 7 authorization
      502 1 100 ready (settled agreeing).1 receipt settled_ok

ready_unspent : Unique ready.spent_instructions
unfolding reserve_order reserve pin_settlement_committee bind_eligible_participant bind_participant
ready_unspent = tt

settle_batch_collaborative_spends_example :
    ((settled agreeing).1.spent_instructions
      ≡ nullifiers (reverse receipt.members) ++ ready.spent_instructions)
    × ((length receipt.members ≡ 1) × Unique (settled agreeing).1.spent_instructions)
settle_batch_collaborative_spends_example =
    settle_batch_collaborative_spends toy agreeing (fill ∷ []) (fill_proof ∷ []) 7 authorization 502
      1 100 ready (settled agreeing).1 receipt ready_unspent settled_ok

refused : settled refusing ≡ (err (SettlementError.finality "no quorum"), (settled refusing).1)
unfolding settle_batch_collaborative reserve_order reserve pin_settlement_committee
    bind_eligible_participant bind_participant public_fills_digest be_bytes consume_fill
    find_accounts apply_collaborative_remainders transfer checked_debit checked_credit
    reconcile_arriving_collaborative refresh_capacity
refused = refl

settle_batch_collaborative_atomic_example :
    ((settled refusing).1.participants ≡ ready.participants)
    × (((settled refusing).1.reservations ≡ ready.reservations)
        × ((settled refusing).1.spent_instructions ≡ ready.spent_instructions))
settle_batch_collaborative_atomic_example =
    settle_batch_collaborative_atomic toy refusing (fill ∷ []) (fill_proof ∷ []) 7 authorization 502
      1 100 ready (settled refusing).1 (SettlementError.finality "no quorum") refused

-- A third order of the buyer, for which 20 of its 37 left are enough.
abbrev third_order : SettlementOrder
third_order = record buy_order {
  reservation_id = 903;
  commitment = 503;
  quantity = 5;
  reservation_limit = 20;
  max_fee = 0;
}

reserve_order-IsSolvent_example : Keeps ready (reserve_order toy third_order 88 ready).1
reserve_order-IsSolvent_example = reserve_order-IsSolvent toy third_order 88 ready ready-IsSolvent

release_orders_atomic-IsSolvent_example :
    Keeps ready (release_orders_atomic toy (502 ∷ 501 ∷ []) ready).1
release_orders_atomic-IsSolvent_example =
    release_orders_atomic-IsSolvent toy (502 ∷ 501 ∷ []) ready ready-IsSolvent

abbrev buyer_portfolio : ParticipantPortfolio
buyer_portfolio = record {
  securities = 0;
  cash = 50;
  reserved_securities = 0;
  reserved_cash = 13;
  available_securities = 0;
  available_cash = 37;
}

buyer_portfolio_ok : participant_portfolio 200 ready ≡ ok buyer_portfolio
unfolding participant_portfolio reserve_order reserve pin_settlement_committee
    bind_eligible_participant bind_participant
buyer_portfolio_ok = refl

participant_portfolio_balances_example :
    (37 + used 200 ReservationKind.cash ready.reservations
      ≡ held 200 ReservationKind.cash ready.participants)
    × (0 + used 200 ReservationKind.securities ready.reservations
        ≡ held 200 ReservationKind.securities ready.participants)
participant_portfolio_balances_example =
    participant_portfolio_balances 200 ready buyer_portfolio ready-IsSolvent buyer_portfolio_ok

-- What `reserve_admits` asks of the third order.
third_order_fits :
    (get 200 ready.reservations.participant_entities ≡ some 22)
    × ((get 903 ready.reservations.records ≡ none)
        × ((find (has_commitment 503) (values ready.reservations.records) ≡ none)
            × ((used 200 ReservationKind.cash ready.reservations + 20
                  ≤ held 200 ReservationKind.cash ready.participants)
                × (held 200 ReservationKind.cash ready.participants < u64_bound))))
unfolding reserve_order reserve pin_settlement_committee bind_eligible_participant bind_participant
third_order_fits = (refl, (refl, (refl, (omega arith, omega arith))))

reserve_admits_example :
    reserve third_order 88 ready.reservations
    ≡ ok (put_record 903 (new_record third_order 88) ready.reservations)
reserve_admits_example =
    reserve_admits third_order 88 ready ready-IsSolvent refl third_order_fits.0 third_order_fits.1.0
      third_order_fits.1.1.0 third_order_fits.1.1.1.0 third_order_fits.1.1.1.1

ready-IsNamed : IsNamed ready.reservations
ready-IsNamed =
    reachable_IsNamed toy accounts node_keys seven_node start ready ((omega arith, tt), (tt, tt))
      opened_start ready-Reach

reachable_IsNamed_example : IsNamed (settled agreeing).1.reservations
reachable_IsNamed_example =
    reachable_IsNamed toy accounts node_keys seven_node start (settled agreeing).1
      ((omega arith, tt), (tt, tt)) opened_start settled-Reach

settle_batch_collaborative-IsAuthorized_example :
    IsAuthorized toy (fill ∷ []) authorization 502 1 100 ready
settle_batch_collaborative-IsAuthorized_example =
    settle_batch_collaborative-IsAuthorized toy agreeing (fill ∷ []) (fill_proof ∷ []) 7
      authorization 502 1 100 ready (settled agreeing).1 receipt ready-IsNamed settled_ok

-- The outcome of a release, as a receipt or an error.
abbrev released_in : Result ReservationReleaseReceipt SettlementError → ReservationReleaseReceipt
released_in (ok r) = r
released_in (err e) = record {
  order_commitment = 0;
  before_root = 0;
  after_root = 0;
  canonical_receipt_digest = 0;
  canonical_height = 0;
}

settle_batch_collaborative-Trades_example :
    Trades (fill ∷ []) (ledger_of ready.participants) (ledger_of (settled agreeing).1.participants)
settle_batch_collaborative-Trades_example =
    settle_batch_collaborative-Trades toy agreeing (fill ∷ []) (fill_proof ∷ []) 7 authorization 502
      1 100 ready (settled agreeing).1 receipt settled_ok
