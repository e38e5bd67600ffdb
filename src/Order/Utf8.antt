-- ===== src/Order/Utf8.antt =====
-- `std::str::from_utf8` as a test: which byte strings are UTF-8. The standard library rejects
-- overlong forms, surrogates and code points above 10FFFF by the range of the second byte.
use oclob.Base.{
  ℕ, zero, suc, Bool, true, false, ◌&&◌, Option, none, some, List, [], ◌∷◌, leb, ltb, ◌==◌,
  if◌then◌else◌,
}

-- Between characters, or where the next byte must lie in a range, with more bytes after it.
pub data Utf8State : Type 0 where
  start : Utf8State
  within : ℕ → ℕ → ℕ → Utf8State

after : ℕ → Utf8State
after zero = start
after (suc more) = within 0x80 0xbf more

lead : ℕ → Option Utf8State
lead b =
    if ltb b 0x80
    then some start
    else if leb 0xc2 b && leb b 0xdf
    then some (within 0x80 0xbf 0)
    else if b == 0xe0
    then some (within 0xa0 0xbf 1)
    else if b == 0xed
    then some (within 0x80 0x9f 1)
    else if leb 0xe1 b && leb b 0xef
    then some (within 0x80 0xbf 1)
    else if b == 0xf0
    then some (within 0x90 0xbf 2)
    else if leb 0xf1 b && leb b 0xf3
    then some (within 0x80 0xbf 2)
    else if b == 0xf4
    then some (within 0x80 0x8f 2)
    else none

next_state : Utf8State → ℕ → Option Utf8State
unfolding after lead
next_state start b = lead b
next_state (within low high more) b = if leb low b && leb b high then some (after more) else none

scan : Utf8State → List ℕ → Bool
unfolding next_state
scan start [] = true
scan (within low high more) [] = false
scan state (b ∷ bs) = elim (next_state state b) [ none ↦ false | some state' ↦ scan state' bs ]

unfoldable pub is_utf8 : List ℕ → Bool
unfolding scan
is_utf8 bytes = scan start bytes
