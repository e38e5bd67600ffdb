-- ===== src/Order.antt =====
-- rust/oclob-core/src/lib.rs: secret orders, their controls, the market's rules and the authority
-- over an order. A string is the list of its UTF-8 bytes.
pub mod Utf8
pub mod Validity
pub mod Wire
pub mod Authority
use Prim.Native.Nat.{compare, Ordering}
use oclob.Base.{
  ℕ, ◌+◌, ◌*◌, ◌%◌, ◌<◌, ◌≤◌, ◌≡◌, Bool, true, false, ◌||◌, not, String, Option, none, some, List,
  ◌++◌, Result, ok, err, ◌>>=◌, ◌>>◌, reject_if, ok_or, length, is_empty, be_bytes, checked_add,
  checked_mul, u64_bound, ltb, ◌==◌, ◌!=◌,
}
use oclob.Crypto.{Primitives, Digest32, codes}

pub data Side : Type 0 where
  buy sell : Side

-- `Side::wire`
abbrev pub side_wire : Side → ℕ
side_wire Side.buy = 0
side_wire Side.sell = 1

-- `Side::opposite`
abbrev pub opposite : Side → Side
opposite Side.buy = Side.sell
opposite Side.sell = Side.buy

abbrev pub side_eq : Side → Side → Bool
side_eq Side.buy Side.buy = true
side_eq Side.buy Side.sell = false
side_eq Side.sell Side.buy = false
side_eq Side.sell Side.sell = true

pub data TimeInForce : Type 0 where
  good_til_cancelled immediate_or_cancel : TimeInForce

-- `TimeInForce::wire`
abbrev pub time_in_force_wire : TimeInForce → ℕ
time_in_force_wire TimeInForce.good_til_cancelled = 1
time_in_force_wire TimeInForce.immediate_or_cancel = 2

abbrev pub is_gtc : TimeInForce → Bool
is_gtc TimeInForce.good_til_cancelled = true
is_gtc TimeInForce.immediate_or_cancel = false

pub data OrderError : Type 0 where
  invalid : String → OrderError
  authority replay invalid_mpc_result wrong_market unknown_order invalid_cancellation : OrderError

pub record OrderControls : Type 0 where
  pub order_id : Digest32
  pub ephemeral_public_key : Digest32
  pub dekyx_nullifier : Digest32
  pub reservation_id : Digest32
  pub reservation_limit : ℕ
  pub minimum_lot : ℕ
  pub max_fee : ℕ
  pub cancellation_secret_digest : Digest32

pub record SecretOrder : Type 0 where
  pub version : ℕ
  pub order_id : Digest32
  pub ephemeral_public_key : Digest32
  pub market_id : List ℕ
  pub side : Side
  pub limit_price : ℕ
  pub quantity : ℕ
  pub time_in_force : TimeInForce
  pub expires_at : ℕ
  pub participant_handle : Digest32
  pub dekyx_nullifier : Digest32
  pub reservation_id : Digest32
  pub reservation_limit : ℕ
  pub minimum_lot : ℕ
  pub max_fee : ℕ
  pub cancellation_secret_digest : Digest32
  pub client_nonce : Digest32
  pub salt : Digest32

-- `u64::is_multiple_of`: only 0 is a multiple of 0.
abbrev pub is_multiple_of : ℕ → ℕ → Bool
is_multiple_of n m = n % m == 0

-- The worst fill that an order permits must be reserved; a buyer pays price and fee.
unfoldable pub required_reserve : Side → ℕ → ℕ → ℕ → Result ℕ OrderError
required_reserve Side.buy limit_price quantity max_fee = do
  value ←
      ok_or (checked_mul limit_price quantity) (OrderError.invalid "reservation limit overflows")
  ok_or (checked_add value max_fee) (OrderError.invalid "reservation limit overflows")
required_reserve Side.sell limit_price quantity max_fee = ok quantity

unfoldable pub new_with_controls :
    List ℕ
    → Side
    → ℕ
    → ℕ
    → TimeInForce
    → ℕ
    → Digest32
    → Digest32
    → Digest32
    → OrderControls
    → Result SecretOrder OrderError
unfolding required_reserve
new_with_controls market_id side limit_price quantity time_in_force expires_at participant_handle
      client_nonce salt controls =
    do
      reject_if (is_empty market_id || ltb 64 (length market_id))
          (OrderError.invalid "market id must contain 1-64 bytes")
      reject_if (limit_price == 0 || (quantity == 0 || expires_at == 0))
          (OrderError.invalid "price, quantity and expiry must all be positive")
      reject_if
          (participant_handle == 0
            || (client_nonce == 0
                || (salt == 0
                    || (controls.order_id == 0
                        || (controls.ephemeral_public_key == 0
                            || (controls.dekyx_nullifier == 0
                                || (controls.reservation_id == 0
                                    || (controls.cancellation_secret_digest == 0
                                        || (controls.minimum_lot == 0
                                            || not (
                                                is_multiple_of quantity
                                                  controls.minimum_lot))))))))))
          (OrderError.invalid
            "order controls, participant handle, nonce and commitment salt are required")
      required ← required_reserve side limit_price quantity controls.max_fee
      reject_if (ltb controls.reservation_limit required)
          (OrderError.invalid "reservation does not cover the worst permitted fill")
      ok (record {
        version = 2;
        order_id = controls.order_id;
        ephemeral_public_key = controls.ephemeral_public_key;
        market_id = market_id;
        side = side;
        limit_price = limit_price;
        quantity = quantity;
        time_in_force = time_in_force;
        expires_at = expires_at;
        participant_handle = participant_handle;
        dekyx_nullifier = controls.dekyx_nullifier;
        reservation_id = controls.reservation_id;
        reservation_limit = controls.reservation_limit;
        minimum_lot = controls.minimum_lot;
        max_fee = controls.max_fee;
        cancellation_secret_digest = controls.cancellation_secret_digest;
        client_nonce = client_nonce;
        salt = salt;
      })

-- `put_bytes`, and `put_hash_bytes`, which feeds the same bytes to a hash.
unfoldable pub put_bytes : List ℕ → List ℕ
put_bytes bytes = be_bytes 8 (length bytes) ++ bytes

pub record MarketRules : Type 0 where
  pub tick_size : ℕ
  pub lot_size : ℕ
  pub maximum_fee : ℕ
  pub max_match_slots : ℕ

abbrev pub max_match_slots : ℕ
max_match_slots = 8

-- `MarketRules::p1`
abbrev pub p1 : MarketRules
p1 = record { tick_size = 1; lot_size = 1; maximum_fee = 0; max_match_slots = max_match_slots }

-- `MarketRules::validate`
unfoldable pub validate_rules : MarketRules → Result (Unit {0}) OrderError
validate_rules rules =
    reject_if
      (rules.tick_size == 0 || (rules.lot_size == 0 || rules.max_match_slots != max_match_slots))
      (OrderError.invalid "tick, lot, and fixed matching capacity must be valid")

unfoldable pub validate_market_rules : SecretOrder → MarketRules → Result (Unit {0}) OrderError
unfolding validate_rules
validate_market_rules o rules = do
  validate_rules rules
  reject_if
      (not (is_multiple_of o.limit_price rules.tick_size)
        || (not (is_multiple_of o.quantity rules.lot_size)
            || (o.minimum_lot != rules.lot_size || ltb rules.maximum_fee o.max_fee)))
      (OrderError.invalid "order violates tick, lot, or fee rules")

module _ (p : Primitives) where
  unfoldable pub control_digest : List ℕ → Digest32 → Digest32 → Digest32
  unfolding put_bytes
  control_digest label participant nonce = p.sha256 (
      codes "OCLOB:ORDER-CONTROL:v2"
      ++ put_bytes label
      ++ be_bytes 32 participant
      ++ be_bytes 32 nonce)

  unfoldable pub entity_scope_digest : Digest32 → Digest32
  entity_scope_digest participant =
      p.sha256
        (codes "OCLOB:ORDER-CONTROL:v2" ++ codes "dekyx-entity-scope" ++ be_bytes 32 participant)

  unfoldable pub cancellation_digest : Digest32 → Digest32
  cancellation_digest secret = p.sha256 (codes "OCLOB:CANCELLATION:v2" ++ be_bytes 32 secret)

  unfoldable pub default_reservation_limit : Side → ℕ → ℕ → Result ℕ OrderError
  default_reservation_limit Side.buy limit_price quantity =
      ok_or (checked_mul limit_price quantity) (OrderError.invalid "reservation limit overflows")
  default_reservation_limit Side.sell limit_price quantity = ok quantity

  unfoldable pub new_with_dekyx_nullifier :
      List ℕ
      → Side
      → ℕ
      → ℕ
      → TimeInForce
      → ℕ
      → Digest32
      → Digest32
      → Digest32
      → Digest32
      → Result SecretOrder OrderError
  unfolding new_with_controls default_reservation_limit
  new_with_dekyx_nullifier market_id side limit_price quantity time_in_force expires_at
        participant_handle dekyx_nullifier client_nonce salt =
      do
        reservation_limit ← default_reservation_limit side limit_price quantity
        new_with_controls market_id side limit_price quantity time_in_force expires_at
            participant_handle client_nonce salt
            (record {
              order_id = control_digest (codes "order-id") participant_handle client_nonce;
              ephemeral_public_key =
                  control_digest (codes "ephemeral-key") participant_handle client_nonce;
              dekyx_nullifier = dekyx_nullifier;
              reservation_id = control_digest (codes "reservation") participant_handle client_nonce;
              reservation_limit = reservation_limit;
              minimum_lot = 1;
              max_fee = 0;
              cancellation_secret_digest = cancellation_digest salt;
            })

  -- `SecretOrder::new`
  unfoldable pub new_order :
      List ℕ
      → Side
      → ℕ
      → ℕ
      → TimeInForce
      → ℕ
      → Digest32
      → Digest32
      → Digest32
      → Result SecretOrder OrderError
  unfolding new_with_dekyx_nullifier
  new_order market_id side limit_price quantity time_in_force expires_at participant_handle
        client_nonce salt =
      new_with_dekyx_nullifier market_id side limit_price quantity time_in_force expires_at
        participant_handle (entity_scope_digest participant_handle) client_nonce salt
