-- ===== src/Examples/Orders.antt =====
-- A sell order and a buy order that crosses it: their construction, wire form and authority.
use oclob.Base.{ℕ, ◌<◌, ◌≤◌, ◌≡◌, refl, List, [], ◌∷◌, ok, arith, length}
use oclob.Crypto.{
  SigningKey, Signature, codes, verifying_key, try_sign, verify_strict, signature_try_from,
  fingerprint,
}
use oclob.Crypto.SignVerify.{try_sign-verify_strict}
use oclob.Order.{Side, TimeInForce, SecretOrder, new_with_controls}
use oclob.Order.Validity.{
  IsValid, InRange, controls_of, rebuild, new_with_controls-IsValid, rebuild-IsValid,
}
use oclob.Order.Utf8.{is_utf8}
use oclob.Order.Wire.{to_secret_wire, from_secret_wire, max_wire_bytes}
use oclob.Order.Wire.RoundTrip.{from_secret_wire-to_secret_wire}
use oclob.Order.Authority.{
  OrderAuthority, commitment_of, authority_body, authorize_order, verify_authority,
}
use oclob.Order.Authority.Honest.{authorize_order-verify_authority}
use oclob.Examples.Setting.{toy, toy-IsCorrect, toy_envelope}

abbrev pub market : List ℕ
market = codes "JGB"

abbrev pub ask : SecretOrder
ask = record {
  version = 2;
  order_id = 11;
  ephemeral_public_key = 12;
  market_id = market;
  side = Side.sell;
  limit_price = 100;
  quantity = 4;
  time_in_force = TimeInForce.good_til_cancelled;
  expires_at = 50;
  participant_handle = 13;
  dekyx_nullifier = 14;
  reservation_id = 15;
  reservation_limit = 4;
  minimum_lot = 2;
  max_fee = 0;
  cancellation_secret_digest = 16;
  client_nonce = 17;
  salt = 18;
}

abbrev pub bid : SecretOrder
bid = record {
  version = 2;
  order_id = 21;
  ephemeral_public_key = 22;
  market_id = market;
  side = Side.buy;
  limit_price = 101;
  quantity = 9;
  time_in_force = TimeInForce.good_til_cancelled;
  expires_at = 60;
  participant_handle = 23;
  dekyx_nullifier = 24;
  reservation_id = 25;
  reservation_limit = 913;
  minimum_lot = 3;
  max_fee = 4;
  cancellation_secret_digest = 26;
  client_nonce = 27;
  salt = 28;
}

bid_built :
    new_with_controls market Side.buy 101 9 TimeInForce.good_til_cancelled 60 23 27 28
      (controls_of bid)
    ≡ ok bid
unfolding new_with_controls
bid_built = refl

new_with_controls-IsValid_example : IsValid bid
new_with_controls-IsValid_example =
    new_with_controls-IsValid market Side.buy 101 9 TimeInForce.good_til_cancelled 60 23 27 28
      (controls_of bid) bid bid_built

bid-InRange : InRange bid
unfolding is_utf8
bid-InRange = record {
  market_bytes = (omega arith, (omega arith, (omega arith, tt)));
  market_utf8 = refl;
  limit_price_u64 = omega arith;
  quantity_u64 = omega arith;
  expires_at_u64 = omega arith;
  reservation_limit_u64 = omega arith;
  minimum_lot_u64 = omega arith;
  max_fee_u64 = omega arith;
  order_id_32 = omega arith;
  ephemeral_public_key_32 = omega arith;
  participant_handle_32 = omega arith;
  dekyx_nullifier_32 = omega arith;
  reservation_id_32 = omega arith;
  cancellation_secret_digest_32 = omega arith;
  client_nonce_32 = omega arith;
  salt_32 = omega arith;
}

bid-IsValid : IsValid bid
bid-IsValid = record {
  version_two = refl;
  market_named = omega arith;
  market_short = omega arith;
  price_positive = omega arith;
  quantity_positive = omega arith;
  expiry_positive = omega arith;
  participant_present = omega arith;
  nonce_present = omega arith;
  salt_present = omega arith;
  id_present = omega arith;
  key_present = omega arith;
  nullifier_present = omega arith;
  reservation_present = omega arith;
  cancellation_present = omega arith;
  lot_positive = omega arith;
  whole_lots = refl;
  covered = omega arith;
}

rebuild-IsValid_example : rebuild bid ≡ ok bid
rebuild-IsValid_example = rebuild-IsValid bid bid-IsValid bid-InRange

from_secret_wire-to_secret_wire_example :
    (from_secret_wire (to_secret_wire bid) ≡ ok bid)
    × (length (to_secret_wire bid) ≤ max_wire_bytes)
from_secret_wire-to_secret_wire_example =
    from_secret_wire-to_secret_wire bid bid-IsValid bid-InRange

abbrev pub trader_key : SigningKey
trader_key = record { seeds = 1 ∷ 2 ∷ 3 ∷ [] }

abbrev message : List ℕ
message = codes "hello"

abbrev envelope : List ℕ → Signature
envelope m = record { bytes = toy_envelope trader_key.seeds m }

message_signed : try_sign toy trader_key message ≡ ok (envelope message)
unfolding try_sign
message_signed = refl

try_sign-verify_strict_example :
    (signature_try_from toy (envelope message).bytes ≡ ok (envelope message))
    × (verify_strict toy (verifying_key toy trader_key) message (envelope message) ≡ ok tt)
try_sign-verify_strict_example =
    try_sign-verify_strict toy toy-IsCorrect trader_key message (envelope message) message_signed

-- The authority that the toy key signs for an order, with the deadline 70.
abbrev pub authority_for : SecretOrder → OrderAuthority
authority_for o = record {
  commitment = commitment_of toy o;
  authorization_deadline = 70;
  verifying_key = (verifying_key toy trader_key).digest;
  signature = (envelope (authority_body toy (commitment_of toy o) 70)).bytes;
}

bid_authorized : authorize_order toy bid 70 trader_key ≡ ok (authority_for bid)
unfolding authorize_order try_sign
bid_authorized = refl

ask_authorized : authorize_order toy ask 70 trader_key ≡ ok (authority_for ask)
unfolding authorize_order try_sign
ask_authorized = refl

trader_key_present : 0 < (verifying_key toy trader_key).digest
unfolding verifying_key fingerprint
trader_key_present = omega arith

authorize_order-verify_authority_example :
    (60 ≤ 70) × (verify_authority toy (authority_for bid) bid 10 ≡ ok tt)
authorize_order-verify_authority_example =
    authorize_order-verify_authority toy toy-IsCorrect bid 70 10 trader_key (authority_for bid)
      trader_key_present (omega arith) bid_authorized

pub bid_verified : verify_authority toy (authority_for bid) bid 10 ≡ ok tt
bid_verified =
    (authorize_order-verify_authority toy toy-IsCorrect bid 70 10 trader_key (authority_for bid)
      trader_key_present (omega arith) bid_authorized).1

pub ask_verified : verify_authority toy (authority_for ask) ask 10 ≡ ok tt
ask_verified =
    (authorize_order-verify_authority toy toy-IsCorrect ask 70 10 trader_key (authority_for ask)
      trader_key_present (omega arith) ask_authorized).1
