-- ===== src/Order/Validity.antt =====
-- Which orders the constructor builds: the checks of `new_with_controls` as a predicate on the
-- order, and the ranges that the Rust types give its fields.
use oclob.Base.{
  ℕ, ◌+◌, ◌*◌, ◌%◌, ◌<◌, ◌≤◌, ◌≡◌, refl, true, List, All, IsByte, length, Result, ok, arith,
  u64_bound,
}
use oclob.Crypto.{Digest32, digest_bound}
use oclob.Order.{
  Side, TimeInForce, OrderError, OrderControls, SecretOrder, new_with_controls, required_reserve,
}
use oclob.Order.Utf8.{is_utf8}

-- What the largest fill of an order costs: price times quantity and the fee, or the quantity.
abbrev pub worst_fill : Side → ℕ → ℕ → ℕ → ℕ
worst_fill Side.buy price quantity fee = price * quantity + fee
worst_fill Side.sell price quantity fee = quantity

pub record IsValid (o : SecretOrder) : Type 0 where
  pub version_two : o.version ≡ 2
  pub market_named : 0 < length o.market_id
  pub market_short : length o.market_id ≤ 64
  pub price_positive : 0 < o.limit_price
  pub quantity_positive : 0 < o.quantity
  pub expiry_positive : 0 < o.expires_at
  pub participant_present : 0 < o.participant_handle
  pub nonce_present : 0 < o.client_nonce
  pub salt_present : 0 < o.salt
  pub id_present : 0 < o.order_id
  pub key_present : 0 < o.ephemeral_public_key
  pub nullifier_present : 0 < o.dekyx_nullifier
  pub reservation_present : 0 < o.reservation_id
  pub cancellation_present : 0 < o.cancellation_secret_digest
  pub lot_positive : 0 < o.minimum_lot
  pub whole_lots : o.quantity % o.minimum_lot ≡ 0
  pub covered : worst_fill o.side o.limit_price o.quantity o.max_fee ≤ o.reservation_limit

-- The ranges of the Rust types: `u64`, `[u8; 32]`, and a `String`, which is UTF-8.
pub record InRange (o : SecretOrder) : Type 0 where
  pub market_bytes : All IsByte o.market_id
  pub market_utf8 : is_utf8 o.market_id ≡ true
  pub limit_price_u64 : o.limit_price < u64_bound
  pub quantity_u64 : o.quantity < u64_bound
  pub expires_at_u64 : o.expires_at < u64_bound
  pub reservation_limit_u64 : o.reservation_limit < u64_bound
  pub minimum_lot_u64 : o.minimum_lot < u64_bound
  pub max_fee_u64 : o.max_fee < u64_bound
  pub order_id_32 : o.order_id < digest_bound
  pub ephemeral_public_key_32 : o.ephemeral_public_key < digest_bound
  pub participant_handle_32 : o.participant_handle < digest_bound
  pub dekyx_nullifier_32 : o.dekyx_nullifier < digest_bound
  pub reservation_id_32 : o.reservation_id < digest_bound
  pub cancellation_secret_digest_32 : o.cancellation_secret_digest < digest_bound
  pub client_nonce_32 : o.client_nonce < digest_bound
  pub salt_32 : o.salt < digest_bound

abbrev pub controls_of : SecretOrder → OrderControls
controls_of o = record {
  order_id = o.order_id;
  ephemeral_public_key = o.ephemeral_public_key;
  dekyx_nullifier = o.dekyx_nullifier;
  reservation_id = o.reservation_id;
  reservation_limit = o.reservation_limit;
  minimum_lot = o.minimum_lot;
  max_fee = o.max_fee;
  cancellation_secret_digest = o.cancellation_secret_digest;
}

-- The constructor, called with the fields of an order.
abbrev pub rebuild : SecretOrder → Result SecretOrder OrderError
rebuild o =
    new_with_controls o.market_id o.side o.limit_price o.quantity o.time_in_force o.expires_at
      o.participant_handle o.client_nonce o.salt (controls_of o)

-- The reserve that is demanded is the worst fill, and overflows only past 64 bits.
required_reserve-eq-ok :
    (side : Side) (price quantity fee : ℕ) {r : ℕ}
    → required_reserve side price quantity fee ≡ ok r
    → r ≡ worst_fill side price quantity fee
unfolding required_reserve
required_reserve-eq-ok Side.buy price quantity fee h = ground arith
required_reserve-eq-ok Side.sell price quantity fee h = ground arith

required_reserve-fits :
    (side : Side) (price quantity fee : ℕ)
    → worst_fill side price quantity fee < u64_bound
    → required_reserve side price quantity fee ≡ ok (worst_fill side price quantity fee)
unfolding required_reserve
required_reserve-fits Side.buy price quantity fee h = ground arith
required_reserve-fits Side.sell price quantity fee h = refl

module _ (market_id : List ℕ) (side : Side) (limit_price quantity : ℕ) (time_in_force : TimeInForce)
    (expires_at : ℕ) (participant_handle client_nonce salt : Digest32)
    (controls : OrderControls) where
  -- Every order that the constructor returns is valid: of version 2, for a market named by 1 to
  -- 64 bytes, with every required field present, a quantity of whole lots and a reservation that
  -- covers the worst fill.
  pub new_with_controls-IsValid :
      (o : SecretOrder)
      → new_with_controls market_id side limit_price quantity time_in_force expires_at
          participant_handle client_nonce salt controls
        ≡ ok o
      → IsValid o
  unfolding new_with_controls
  new_with_controls-IsValid o h = ground arith

-- A valid order whose fields are in the ranges of their types passes every check of the
-- constructor, which returns it from its own fields.
pub rebuild-IsValid : (o : SecretOrder) → IsValid o → InRange o → rebuild o ≡ ok o
unfolding new_with_controls
rebuild-IsValid o v r =
    rw
      (required_reserve-fits o.side o.limit_price o.quantity o.max_fee
        (omega (arith, v.covered, r.reservation_limit_u64)))
      (ground arith)
