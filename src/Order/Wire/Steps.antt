-- ===== src/Order/Wire/Steps.antt =====
-- One step of the reader, at a cursor whose unread bytes are known.
use oclob.Base.{
  ℕ, ◌+◌, ◌-◌, ◌^◌, ◌<◌, ◌≤◌, ◌≡◌, List, [], ◌++◌, ok, arith, length, drop, length-append,
  take-append_length, drop-append_length, drop-add, lt→ltb, le→leb, be_bytes, length-be_bytes,
  from_be_bytes-be_bytes, u64_bound,
}
use oclob.Order.Wire.{Cursor, read_bytes, read_number, finish}

abbrev pub advance : ℕ → Cursor → Cursor
advance n c = record c { offset = c.offset + n }

-- The bytes not yet read are `rest`.
pub record IsAt (c : Cursor) (rest : List ℕ) : Type 0 where
  pub unread : drop c.offset c.bytes ≡ rest
  pub fits : c.offset + length rest ≡ length c.bytes
  pub addressable : length c.bytes < u64_bound

pub read_bytes-IsAt :
    (c : Cursor) (x rest : List ℕ)
    → IsAt c (x ++ rest)
    → (read_bytes (length x) c ≡ ok (x, advance (length x) c)) × IsAt (advance (length x) c) rest
unfolding read_bytes
read_bytes-IsAt c x rest h =
    let len = length-append x rest in
    let inside : c.offset + length x ≤ length c.bytes = omega (arith, len, h.fits) in
    let room : c.offset + length x < u64_bound = omega (arith, inside, h.addressable) in
    let width : (c.offset + length x) - c.offset ≡ length x = omega arith in
    (
      rw (
        lt→ltb _ _ room,
        le→leb (c.offset) (c.offset + length x) (omega arith),
        le→leb _ _ inside,
        width,
        h.unread,
        take-append_length x rest,
      ),
      record {
        unread = rw (drop-add (c.offset) (length x) c.bytes, h.unread) (drop-append_length x rest);
        fits = omega (arith, len, h.fits);
        addressable = h.addressable;
      },
    )

pub read_number-IsAt :
    (width n : ℕ) (c : Cursor) (rest : List ℕ)
    → n < 256 ^ width
    → IsAt c (be_bytes width n ++ rest)
    → (read_number width c ≡ ok (n, advance width c)) × IsAt (advance width c) rest
unfolding read_number
read_number-IsAt width n c rest bound h =
    let len = length-be_bytes width n in
    let (read, at) = read_bytes-IsAt c (be_bytes width n) rest h in
    let read' : read_bytes width c ≡ ok (be_bytes width n, advance width c) = rw len at read in
    (rw (read', from_be_bytes-be_bytes width n bound), rw len at at)

pub finish-IsAt : (c : Cursor) → IsAt c [] → finish c ≡ ok tt
unfolding finish
finish-IsAt c h = let e : c.offset ≡ length c.bytes = omega (arith, h.fits) in ground arith
