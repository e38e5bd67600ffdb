-- ===== src/Base/Bytes.antt =====
-- Byte strings: a byte is a number below 256. `be_bytes w n` is `n.to_be_bytes()` at a width of
-- `w` bytes, and `from_be_bytes` reads it back.
use Prim.Native.Nat.{ℕ, zero, suc, ◌+◌, ◌-◌, ◌*◌, ◌/◌, ◌%◌, ◌^◌, ◌<◌}
use mathlib.Core.Path.{◌≡◌, refl, ap}
use mathlib.Core.Logic.{◌↔◌}
use mathlib.Core.Bool.{Bool, true, false, ◌&&◌}
use mathlib.Core.List.{List, [], ◌∷◌, reverse, reverse-reverse}
use mathlib.Core.Option.{Option, none, some}
use native.Mathlib.Omega.{arith}
use native.Mathlib.Nat.{pow-suc}
use oclob.Base.Tests.{ltb, ◌==◌, if◌then◌else◌}
use oclob.Base.Lists.{length, length-reverse, All, All-reverse}

abbrev pub IsByte : ℕ → Type 0
IsByte b = b < 256

abbrev pub u64_bound : ℕ
u64_bound = 18446744073709551616

abbrev pub u32_max : ℕ
u32_max = 4294967295

abbrev pub u64_max : ℕ
u64_max = 18446744073709551615

-- `u64::checked_add` and `u64::checked_mul`.
abbrev pub checked_add : ℕ → ℕ → Option ℕ
checked_add a b = if ltb (a + b) u64_bound then some (a + b) else none

abbrev pub checked_mul : ℕ → ℕ → Option ℕ
checked_mul a b = if ltb (a * b) u64_bound then some (a * b) else none

-- `u64::checked_sub`
abbrev pub checked_sub : ℕ → ℕ → Option ℕ
checked_sub a b = if ltb a b then none else some (a - b)

abbrev pub bytes_eq : List ℕ → List ℕ → Bool
bytes_eq [] [] = true
bytes_eq [] (b ∷ bs) = false
bytes_eq (a ∷ as') [] = false
bytes_eq (a ∷ as') (b ∷ bs) = (a == b) && bytes_eq as' bs

pub bytes_eq_iff : (xs ys : List ℕ) → (bytes_eq xs ys ≡ true) ↔ (xs ≡ ys)
bytes_eq_iff [] [] = (λ h. refl, λ h. refl)
bytes_eq_iff [] (y ∷ ys) = (λ h. ground arith, λ h. ground arith)
bytes_eq_iff (x ∷ xs) [] = (λ h. ground arith, λ h. ground arith)
bytes_eq_iff (x ∷ xs) (y ∷ ys) =
    let ih = bytes_eq_iff xs ys in (λ h. ground (arith, ih), λ h. ground (arith, ih))

le_bytes : ℕ → ℕ → List ℕ
le_bytes zero n = []
le_bytes (suc w) n = (n % 256) ∷ le_bytes w (n / 256)

from_le_bytes : List ℕ → ℕ
from_le_bytes [] = 0
from_le_bytes (b ∷ bs) = b + 256 * from_le_bytes bs

unfoldable pub be_bytes : ℕ → ℕ → List ℕ
unfolding le_bytes
be_bytes w n = reverse (le_bytes w n)

unfoldable pub from_be_bytes : List ℕ → ℕ
unfolding from_le_bytes
from_be_bytes bs = from_le_bytes (reverse bs)

length-le_bytes : (w n : ℕ) → length (le_bytes w n) ≡ w
unfolding le_bytes
length-le_bytes zero n = refl
length-le_bytes (suc w) n = ap suc (length-le_bytes w (n / 256))

le_bytes-IsByte : (w n : ℕ) → All IsByte (le_bytes w n)
unfolding le_bytes
le_bytes-IsByte zero n = tt
le_bytes-IsByte (suc w) n = (omega arith, le_bytes-IsByte w (n / 256))

from_le_bytes-le_bytes : (w n : ℕ) → n < 256 ^ w → from_le_bytes (le_bytes w n) ≡ n
unfolding le_bytes from_le_bytes
from_le_bytes-le_bytes zero n h = omega arith
from_le_bytes-le_bytes (suc w) n h =
    omega (arith, from_le_bytes-le_bytes w (n / 256) (omega (arith, pow-suc 256 w)))

le_bytes-from_le_bytes :
    (bs : List ℕ) → All IsByte bs → le_bytes (length bs) (from_le_bytes bs) ≡ bs
unfolding le_bytes from_le_bytes
le_bytes-from_le_bytes [] h = refl
le_bytes-from_le_bytes (b ∷ bs) h =
    let n = from_le_bytes bs in
    let byte : b < 256 = h.0 in
    let low : (b + 256 * n) % 256 ≡ b = omega arith in
    let high : (b + 256 * n) / 256 ≡ n = omega arith in
    rw (low, high) (ap (λ l. b ∷ l) (le_bytes-from_le_bytes bs h.1))

from_le_bytes_bound : (bs : List ℕ) → All IsByte bs → from_le_bytes bs < 256 ^ length bs
unfolding from_le_bytes
from_le_bytes_bound [] h = omega arith
from_le_bytes_bound (b ∷ bs) h =
    omega (arith, from_le_bytes_bound bs h.1, h.0, pow-suc 256 (length bs))

pub length-be_bytes : (w n : ℕ) → length (be_bytes w n) ≡ w
unfolding be_bytes
length-be_bytes w n = omega (arith, length-reverse (le_bytes w n), length-le_bytes w n)

pub be_bytes-IsByte : (w n : ℕ) → All IsByte (be_bytes w n)
unfolding be_bytes
be_bytes-IsByte w n = All-reverse IsByte (le_bytes w n) (le_bytes-IsByte w n)

-- Writing a number of `w` bytes and reading it back gives the number.
pub from_be_bytes-be_bytes : (w n : ℕ) → n < 256 ^ w → from_be_bytes (be_bytes w n) ≡ n
unfolding be_bytes from_be_bytes
from_be_bytes-be_bytes w n h = rw reverse-reverse (from_le_bytes-le_bytes w n h)

-- Reading bytes and writing the number at their width gives the bytes.
pub be_bytes-from_be_bytes :
    (bs : List ℕ) → All IsByte bs → be_bytes (length bs) (from_be_bytes bs) ≡ bs
unfolding be_bytes from_be_bytes
be_bytes-from_be_bytes bs h =
    rw (← length-reverse bs, le_bytes-from_le_bytes (reverse bs) (All-reverse IsByte bs h))
      (reverse-reverse bs)

pub from_be_bytes_bound : (bs : List ℕ) → All IsByte bs → from_be_bytes bs < 256 ^ length bs
unfolding from_be_bytes
from_be_bytes_bound bs h =
    rw (← length-reverse bs) (from_le_bytes_bound (reverse bs) (All-reverse IsByte bs h))
