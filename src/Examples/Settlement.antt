-- ===== src/Examples/Settlement.antt =====
-- Two participants, a sell and a buy order that hold back part of their balances, and a fill of
-- two units at price 3 between them.
use oclob.Base.{be_bytes, ℕ, ◌≡◌, refl, true, [], ◌∷◌, none, Result, ok, err, BTreeMap, ◌+◌, ◌-◌}
use oclob.Crypto.{Digest32, fingerprint, verifying_key}
use oclob.Order.{Side, TimeInForce}
use oclob.Book.Operations.Transitions.{PublicFill}
use oclob.Ordering.{seven_node, validate_policy}
use oclob.Proofs.{committee_trust_root, key_bytes, public_fills_digest}
use oclob.Proofs.Binding.{TransitionAuthorization}
use oclob.Settlement.{SettlementError, SettlementOrder}
use oclob.Settlement.Reservations.{empty_reservations}
use oclob.Settlement.Engine.{
  ParticipantBalances, SettlementCommittee, SettlementEngine, commitment_only, new_engine,
  bind_eligible_participant, pin_settlement_committee, reserve_order,
}
use oclob.Settlement.Batch.{Rails, CollaborativeFillProof, PriceLimitDirection, SettlementReceipt}
use oclob.Settlement.Settle.{settle_batch_collaborative}
use oclob.Examples.Setting.{toy}
use oclob.Examples.Orders.{market}
use oclob.Examples.Committee.{node_keys}

abbrev pub account : Digest32 → ℕ → ℕ → ParticipantBalances
account handle securities cash = record {
  handle = handle;
  securities = commitment_only securities (1000 + securities);
  cash = commitment_only cash (2000 + cash);
}

abbrev pub accounts : BTreeMap ParticipantBalances
accounts = (100, account 100 10 5) ∷ (200, account 200 0 50) ∷ []

abbrev pub pinned_committee : SettlementCommittee
pinned_committee = record {
  public_key = 9 ∷ [];
  pq_policy = record {
    threshold = 3;
    members = (1 ∷ []) ∷ (2 ∷ []) ∷ (3 ∷ []) ∷ (4 ∷ []) ∷ (5 ∷ []) ∷ (6 ∷ []) ∷ (7 ∷ []) ∷ [];
    rest = [];
  };
}

abbrev pub sell_order : SettlementOrder
sell_order = record {
  market_id = market;
  side = Side.sell;
  limit_price = 3;
  quantity = 4;
  time_in_force = TimeInForce.good_til_cancelled;
  expires_at = 1000;
  participant_handle = 100;
  dekyx_nullifier = 11;
  reservation_id = 901;
  reservation_limit = 4;
  max_fee = 0;
  commitment = 501;
}

abbrev pub buy_order : SettlementOrder
buy_order = record {
  market_id = market;
  side = Side.buy;
  limit_price = 4;
  quantity = 3;
  time_in_force = TimeInForce.good_til_cancelled;
  expires_at = 1000;
  participant_handle = 200;
  dekyx_nullifier = 22;
  reservation_id = 902;
  reservation_limit = 13;
  max_fee = 1;
  commitment = 502;
}

-- The engine that opens the accounts, with the digest of its committee.
abbrev pub opened : Result SettlementEngine SettlementError
opened = new_engine toy accounts node_keys seven_node

abbrev pub trust_root : ℕ
trust_root = 10196

abbrev pub start : SettlementEngine
start = record {
  participants = accounts;
  reservations = empty_reservations;
  spent_instructions = [];
  transition_committee_trust_root = trust_root;
  committee = none;
  height = 0;
}

pub opened_start : new_engine toy accounts node_keys seven_node ≡ ok start
unfolding new_engine committee_trust_root validate_policy key_bytes be_bytes fingerprint
    verifying_key
opened_start = refl

abbrev pub bound : SettlementEngine
bound = (bind_eligible_participant 200 22 (bind_eligible_participant 100 11 start).1).1

abbrev pub pinned : SettlementEngine
pinned = (pin_settlement_committee (λ _ _. true) (λ _ _. true) pinned_committee bound).1

abbrev pub ready : SettlementEngine
ready = (reserve_order toy buy_order 77 (reserve_order toy sell_order 66 pinned).1).1

-- The crates that settlement calls: every proof is good, and every ledger is conserved.
abbrev pub agreeing : Rails
agreeing = record {
  point_add = λ a b. a + b;
  point_sub = λ a b. a - b;
  securities_account = λ handle. handle;
  cash_account = λ handle. handle;
  ledger_snapshot = λ accounts. 1;
  ledger_conserved = λ accounts. true;
  collaborative_job_id = λ round index digest. ok 5;
  verify_for_settlement = λ proof context. ok (record {
    digest = 31;
    instruction_nullifier = 32;
    instruction_wire = 33 ∷ [];
    amount_commitment = 2;
    cash_commitment = 6;
    securities_remainder = 34;
    cash_remainder = 35;
  });
  manifest_digest = ok 41;
  readback = λ resource after. ok 42;
  accept_canonical_transition = λ binding transition statement before readbacks. ok 43;
}

-- The same, but the readback is refused.
abbrev pub refusing : Rails
refusing = record agreeing { readback = λ resource after. err "no quorum" }

abbrev pub fill : PublicFill
fill = record { maker_order = 501; taker_order = 502; price = 3; quantity = 2 }

abbrev pub fill_proof : CollaborativeFillProof
fill_proof = record {
  limit_direction = PriceLimitDirection.maximum_buy_price;
  maker_pool_remainder = 36;
  body = [];
}

abbrev pub authorization : TransitionAuthorization
authorization = record {
  statement = record {
    market_id = market;
    sequence = 1;
    order_certificate_digest = 2;
    eligibility_proof_digest = 3;
    private_before_root = 4;
    private_after_root = 5;
    public_before_root = 6;
    public_after_root = 7;
    mpc_program_digest = 8;
    mpc_output_digest = 9;
    fill_digest = public_fills_digest toy (fill ∷ []);
  };
  trust_root = trust_root;
}

abbrev pub settled : Rails → Result SettlementReceipt SettlementError × SettlementEngine
settled rails =
    settle_batch_collaborative toy rails (fill ∷ []) (fill_proof ∷ []) 7 authorization 502 1 100
      ready
