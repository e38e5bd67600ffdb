-- ===== src/Order/Wire.antt =====
-- rust/oclob-core/src/lib.rs: the canonical payload of an order, its private wire form, and the
-- strict reader of that form. `usize` has 64 bits.
pub mod Steps
pub mod RoundTrip
use oclob.Base.{
  ℕ, zero, suc, ◌+◌, ◌-◌, ◌≡◌, Bool, ◌||◌, ◌&&◌, not, Option, none, some, List, [], ◌∷◌, ◌++◌,
  Result, ok, err, ◌>>=◌, ◌>>◌, reject_if, ok_or, length, take, drop, be_bytes, from_be_bytes,
  checked_add, bytes_eq, ltb, leb, ◌==◌, ◌!=◌, if◌then◌else◌,
}
use oclob.Crypto.{Digest32, codes}
use oclob.Order.{
  Side, TimeInForce, OrderError, SecretOrder, side_wire, time_in_force_wire, put_bytes,
  new_with_controls,
}
use oclob.Order.Utf8.{is_utf8}

abbrev pub wire_magic : List ℕ
wire_magic = codes "OCLOBOR2"

abbrev pub max_wire_bytes : ℕ
max_wire_bytes = 512

unfoldable pub canonical_payload : SecretOrder → List ℕ
unfolding put_bytes
canonical_payload o =
    be_bytes 2 o.version
    ++ (be_bytes 32 o.order_id
        ++ (be_bytes 32 o.ephemeral_public_key
            ++ (put_bytes o.market_id
                ++ (be_bytes 1 (side_wire o.side)
                    ++ (be_bytes 8 o.limit_price
                        ++ (be_bytes 8 o.quantity
                            ++ (be_bytes 1 (time_in_force_wire o.time_in_force)
                                ++ (be_bytes 8 o.expires_at
                                    ++ (be_bytes 32 o.participant_handle
                                        ++ (be_bytes 32 o.dekyx_nullifier
                                            ++ (be_bytes 32 o.reservation_id
                                                ++ (be_bytes 8 o.reservation_limit
                                                    ++ (be_bytes 8 o.minimum_lot
                                                        ++ (be_bytes 8 o.max_fee
                                                            ++ (be_bytes 32
                                                            o.cancellation_secret_digest
                                                            ++ be_bytes 32
                                                            o.client_nonce)))))))))))))))

unfoldable pub to_secret_wire : SecretOrder → List ℕ
unfolding canonical_payload
to_secret_wire o = wire_magic ++ (put_bytes (canonical_payload o) ++ be_bytes 32 o.salt)

-- `SecretWireCursor`
pub record Cursor : Type 0 where
  pub bytes : List ℕ
  pub offset : ℕ

abbrev pub malformed : OrderError
malformed = OrderError.invalid "secret order wire is malformed"

abbrev pub new_cursor : List ℕ → Cursor
new_cursor bytes = record { bytes = bytes; offset = 0 }

-- `slice.get(start..end)`
abbrev pub get_range : List ℕ → ℕ → ℕ → Option (List ℕ)
get_range bytes start end =
    if leb start end && leb end (length bytes)
    then some (take (end - start) (drop start bytes))
    else none

-- `SecretWireCursor::bytes`: the value and the cursor behind it.
unfoldable pub read_bytes : ℕ → Cursor → Result (List ℕ × Cursor) OrderError
read_bytes n c = do
  end ← ok_or (checked_add c.offset n) malformed
  value ← ok_or (get_range c.bytes c.offset end) malformed
  ok (value, record c { offset = end })

-- `u8`, `u16`, `u64` and `digest` of the cursor: a big-endian number of that many bytes.
unfoldable pub read_number : ℕ → Cursor → Result (ℕ × Cursor) OrderError
unfolding read_bytes
read_number width c = do (value, c') ← read_bytes width c; ok (from_be_bytes value, c')

abbrev pub read_u8 : Cursor → Result (ℕ × Cursor) OrderError
read_u8 = read_number 1

abbrev pub read_u16 : Cursor → Result (ℕ × Cursor) OrderError
read_u16 = read_number 2

abbrev pub read_u64 : Cursor → Result (ℕ × Cursor) OrderError
read_u64 = read_number 8

abbrev pub read_digest : Cursor → Result (Digest32 × Cursor) OrderError
read_digest = read_number 32

unfoldable pub finish : Cursor → Result (Unit {0}) OrderError
finish c =
    reject_if (c.offset != length c.bytes)
      (OrderError.invalid "secret order wire contains trailing bytes")

abbrev pub decode_side : ℕ → Result Side OrderError
decode_side zero = ok Side.buy
decode_side (suc zero) = ok Side.sell
decode_side (suc (suc n)) = err (OrderError.invalid "secret order side is invalid")

abbrev pub decode_time_in_force : ℕ → Result TimeInForce OrderError
decode_time_in_force zero = err (OrderError.invalid "secret order time-in-force is invalid")
decode_time_in_force (suc zero) = ok TimeInForce.good_til_cancelled
decode_time_in_force (suc (suc zero)) = ok TimeInForce.immediate_or_cancel
decode_time_in_force (suc (suc (suc n))) =
    err (OrderError.invalid "secret order time-in-force is invalid")

-- The second half of `from_secret_wire`: the payload, and the salt that followed it.
unfoldable pub read_payload : Cursor → Digest32 → Result SecretOrder OrderError
read_payload c0 salt = do
  (version, c1) ← read_u16 c0
  reject_if (version != 2) (OrderError.invalid "secret order wire version is unsupported")
  (order_id, c2) ← read_digest c1
  (ephemeral_public_key, c3) ← read_digest c2
  (market_len, c4) ← read_u64 c3
  (market_id, c5) ← read_bytes market_len c4
  reject_if (not (is_utf8 market_id)) (OrderError.invalid "secret order market is not UTF-8")
  (side_byte, c6) ← read_u8 c5
  side ← decode_side side_byte
  (limit_price, c7) ← read_u64 c6
  (quantity, c8) ← read_u64 c7
  (time_byte, c9) ← read_u8 c8
  time_in_force ← decode_time_in_force time_byte
  (expires_at, c10) ← read_u64 c9
  (participant_handle, c11) ← read_digest c10
  (dekyx_nullifier, c12) ← read_digest c11
  (reservation_id, c13) ← read_digest c12
  (reservation_limit, c14) ← read_u64 c13
  (minimum_lot, c15) ← read_u64 c14
  (max_fee, c16) ← read_u64 c15
  (cancellation_secret_digest, c17) ← read_digest c16
  (client_nonce, c18) ← read_digest c17
  finish c18
  new_with_controls market_id side limit_price quantity time_in_force expires_at participant_handle
      client_nonce salt
      (record {
        order_id = order_id;
        ephemeral_public_key = ephemeral_public_key;
        dekyx_nullifier = dekyx_nullifier;
        reservation_id = reservation_id;
        reservation_limit = reservation_limit;
        minimum_lot = minimum_lot;
        max_fee = max_fee;
        cancellation_secret_digest = cancellation_secret_digest;
      })

unfoldable pub from_secret_wire : List ℕ → Result SecretOrder OrderError
from_secret_wire bytes = do
  reject_if
      (ltb max_wire_bytes (length bytes)
        || (ltb (length bytes) (length wire_magic + 8 + 32)
            || not (bytes_eq (take (length wire_magic) bytes) wire_magic)))
      malformed
  (payload_len, c1) ← read_u64 (new_cursor (drop (length wire_magic) bytes))
  (payload, c2) ← read_bytes payload_len c1
  (salt, c3) ← read_digest c2
  finish c3
  read_payload (new_cursor payload) salt
