-- ===== src/Order/Wire/RoundTrip.antt =====
-- Every order of the constructor survives its private wire form: reading what was written gives
-- the order back.
use oclob.Base.{
  ℕ, ◌+◌, ◌^◌, ◌<◌, ◌≤◌, ◌≡◌, refl, List, [], ◌++◌, ok, arith, length, be_bytes, length-append,
  length-be_bytes, u64_bound, append-nil, append_assoc, eq→!=, le→ltb_false, subst,
}
use oclob.Order.{Side, TimeInForce, SecretOrder, side_wire, time_in_force_wire, put_bytes}
use oclob.Order.Validity.{IsValid, InRange, rebuild-IsValid}
use oclob.Order.Wire.{
  Cursor, new_cursor, canonical_payload, to_secret_wire, from_secret_wire, max_wire_bytes,
  read_payload, read_number, decode_side, decode_time_in_force,
}
use oclob.Order.Wire.Steps.{IsAt, advance, read_bytes-IsAt, read_number-IsAt, finish-IsAt}

decode_side-side_wire : (s : Side) → decode_side (side_wire s) ≡ ok s
decode_side-side_wire Side.buy = refl
decode_side-side_wire Side.sell = refl

decode_time_in_force-wire : (t : TimeInForce) → decode_time_in_force (time_in_force_wire t) ≡ ok t
decode_time_in_force-wire TimeInForce.good_til_cancelled = refl
decode_time_in_force-wire TimeInForce.immediate_or_cancel = refl

wire_bytes_small : (s : Side) (t : TimeInForce) → (side_wire s < 256) × (time_in_force_wire t < 256)
wire_bytes_small s t = ground arith

length-put_bytes : (bytes : List ℕ) → length (put_bytes bytes) ≡ length bytes + 8
unfolding put_bytes
length-put_bytes bytes =
    omega (arith, length-append (be_bytes 8 (length bytes)) bytes, length-be_bytes 8 (length bytes))

-- The payload has 284 bytes and the market's name.
length-canonical_payload :
    (o : SecretOrder) → length (canonical_payload o) ≡ length o.market_id + 284
unfolding canonical_payload
length-canonical_payload o =
    simp (length-append, length-be_bytes) (omega (arith, length-put_bytes o.market_id))

length-to_secret_wire :
    (o : SecretOrder) → length (to_secret_wire o) ≡ length (canonical_payload o) + 48
unfolding to_secret_wire
length-to_secret_wire o = omega (
  arith,
  length-append (put_bytes (canonical_payload o)) (be_bytes 32 o.salt),
  length-put_bytes (canonical_payload o),
  length-be_bytes 32 o.salt,
)

IsAt-new_cursor : (bytes : List ℕ) → length bytes < u64_bound → IsAt (new_cursor bytes) bytes
IsAt-new_cursor bytes h = record { unread = refl; fits = omega arith; addressable = h }

IsAt-eq : {c : Cursor} {rest rest' : List ℕ} → rest ≡ rest' → IsAt c rest → IsAt c rest'
IsAt-eq {c} e h = subst (IsAt c) e h

-- The last number of a buffer, with nothing behind it.
read_last :
    (width n : ℕ) (c : Cursor)
    → n < 256 ^ width
    → IsAt c (be_bytes width n)
    → (read_number width c ≡ ok (n, advance width c)) × IsAt (advance width c) []
read_last width n c bound h =
    let h' : IsAt c (be_bytes width n ++ []) = rw append-nil h in
    read_number-IsAt width n c [] bound h'

-- The payload as one chain of fields.
abbrev fields : SecretOrder → List ℕ
fields o =
    be_bytes 2 o.version
    ++ (be_bytes 32 o.order_id
        ++ (be_bytes 32 o.ephemeral_public_key
            ++ (be_bytes 8 (length o.market_id)
                ++ (o.market_id
                    ++ (be_bytes 1 (side_wire o.side)
                        ++ (be_bytes 8 o.limit_price
                            ++ (be_bytes 8 o.quantity
                                ++ (be_bytes 1 (time_in_force_wire o.time_in_force)
                                    ++ (be_bytes 8 o.expires_at
                                        ++ (be_bytes 32 o.participant_handle
                                            ++ (be_bytes 32 o.dekyx_nullifier
                                                ++ (be_bytes 32 o.reservation_id
                                                    ++ (be_bytes 8 o.reservation_limit
                                                        ++ (be_bytes 8 o.minimum_lot
                                                            ++ (be_bytes 8 o.max_fee
                                                            ++ (be_bytes 32
                                                            o.cancellation_secret_digest
                                                            ++ be_bytes 32
                                                            o.client_nonce))))))))))))))))

canonical_payload-fields : (o : SecretOrder) → canonical_payload o ≡ fields o
unfolding canonical_payload put_bytes
canonical_payload-fields o = simp append_assoc

read_payload-fields :
    (o : SecretOrder) (c0 : Cursor)
    → IsValid o
    → InRange o
    → IsAt c0 (fields o)
    → read_payload c0 o.salt ≡ ok o
unfolding read_payload
read_payload-fields o c0 v r h0 =
    let sizes = wire_bytes_small o.side o.time_in_force in
    let short : length o.market_id < u64_bound = omega (arith, v.market_short) in
    let (e1, h1) = read_number-IsAt 2 o.version _ _ (omega (arith, v.version_two)) h0 in
    let (e2, h2) = read_number-IsAt 32 o.order_id _ _ r.order_id_32 h1 in
    let (e3, h3) = read_number-IsAt 32 o.ephemeral_public_key _ _ r.ephemeral_public_key_32 h2 in
    let (e4, h4) = read_number-IsAt 8 (length o.market_id) _ _ short h3 in
    let (e5, h5) = read_bytes-IsAt _ o.market_id _ h4 in
    let (e6, h6) = read_number-IsAt 1 (side_wire o.side) _ _ sizes.0 h5 in
    let (e7, h7) = read_number-IsAt 8 o.limit_price _ _ r.limit_price_u64 h6 in
    let (e8, h8) = read_number-IsAt 8 o.quantity _ _ r.quantity_u64 h7 in
    let (e9, h9) = read_number-IsAt 1 (time_in_force_wire o.time_in_force) _ _ sizes.1 h8 in
    let (e10, h10) = read_number-IsAt 8 o.expires_at _ _ r.expires_at_u64 h9 in
    let (e11, h11) = read_number-IsAt 32 o.participant_handle _ _ r.participant_handle_32 h10 in
    let (e12, h12) = read_number-IsAt 32 o.dekyx_nullifier _ _ r.dekyx_nullifier_32 h11 in
    let (e13, h13) = read_number-IsAt 32 o.reservation_id _ _ r.reservation_id_32 h12 in
    let (e14, h14) = read_number-IsAt 8 o.reservation_limit _ _ r.reservation_limit_u64 h13 in
    let (e15, h15) = read_number-IsAt 8 o.minimum_lot _ _ r.minimum_lot_u64 h14 in
    let (e16, h16) = read_number-IsAt 8 o.max_fee _ _ r.max_fee_u64 h15 in
    let (e17, h17) =
      read_number-IsAt 32 o.cancellation_secret_digest _ _ r.cancellation_secret_digest_32 h16 in
    let (e18, h18) = read_last 32 o.client_nonce _ r.client_nonce_32 h17 in
    rw (e1, eq→!= _ _ v.version_two, e2, e3, e4, e5, r.market_utf8, e6, decode_side-side_wire)
      (rw (e7, e8, e9, decode_time_in_force-wire, e10, e11, e12, e13, e14, e15, e16, e17, e18)
        (rw (finish-IsAt _ h18) (rebuild-IsValid o v r)))

read_payload-canonical_payload :
    (o : SecretOrder)
    → IsValid o
    → InRange o
    → read_payload (new_cursor (canonical_payload o)) o.salt ≡ ok o
read_payload-canonical_payload o v r =
    let buffer = canonical_payload o in
    let short : length buffer < u64_bound =
      omega (arith, length-canonical_payload o, v.market_short) in
    read_payload-fields o (new_cursor buffer) v r
      (IsAt-eq (canonical_payload-fields o) (IsAt-new_cursor buffer short))

-- A valid order whose fields are in the ranges of their types is read back from its wire form
-- unchanged, the wire form being within the reader's limit of 512 bytes.
pub from_secret_wire-to_secret_wire :
    (o : SecretOrder)
    → IsValid o
    → InRange o
    → (from_secret_wire (to_secret_wire o) ≡ ok o) × (length (to_secret_wire o) ≤ max_wire_bytes)
unfolding from_secret_wire to_secret_wire put_bytes
from_secret_wire-to_secret_wire o v r =
    let payload = canonical_payload o in
    let len = length-canonical_payload o in
    let short : length payload < u64_bound = omega (arith, len, v.market_short) in
    let all : length (to_secret_wire o) ≡ length payload + 48 = length-to_secret_wire o in
    let buffer = put_bytes payload ++ be_bytes 32 o.salt in
    let room : length buffer < u64_bound = omega (arith, all, short) in
    let h0 =
      IsAt-eq (append_assoc (be_bytes 8 (length payload)) payload (be_bytes 32 o.salt))
        (IsAt-new_cursor buffer room) in
    let (e1, h1) = read_number-IsAt 8 (length payload) _ _ short h0 in
    let (e2, h2) = read_bytes-IsAt _ payload _ h1 in
    let (e3, h3) = read_last 32 o.salt _ r.salt_32 h2 in
    (
      rw
          (
            le→ltb_false max_wire_bytes (length (to_secret_wire o))
                (omega (arith, all, len, v.market_short)),
            le→ltb_false (length (to_secret_wire o)) 48 (omega (arith, all)),
            e1,
            e2,
            e3,
          )
          (rw (finish-IsAt _ h3) (read_payload-canonical_payload o v r)),
      omega (arith, all, len, v.market_short),
    )
