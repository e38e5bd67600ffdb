-- ===== src/Base/Results.antt =====
-- Rust's `Result`, with its bind, for `do` blocks in place of `?`.
use mathlib.Core.Path.{◌≡◌, refl}
use mathlib.Core.Logic.{◌⊎◌, inl, inr}
use mathlib.Core.Bool.{Bool, true, false}
use mathlib.Core.Option.{Option, none, some}
use native.Mathlib.Omega.{arith}
use oclob.Base.Tests.{if◌then◌else◌}

pub data Result {ℓ} (A : Type ℓ) (E : Type 0) : Type ℓ where
  ok : A → Result A E
  err : E → Result A E

-- An early `return Err(e)`.
abbrev pub reject_if : {E : Type 0} → Bool → E → Result (Unit {0}) E
reject_if c e = if c then err e else ok tt

infixl 5 ◌>>=◌ ◌>>◌
-- `result?`, with what follows it.
abbrev pub ◌>>=◌ {ℓ κ} :
    {E : Type 0} {A : Type ℓ} {B : Type κ} → Result A E → (A → Result B E) → Result B E
err e >>= next = err e
ok a >>= next = next a

-- `result?;`
abbrev pub ◌>>◌ {ℓ} : {E : Type 0} {B : Type ℓ} → Result (Unit {0}) E → Result B E → Result B E
first >> next = first >>= λ done. next

abbrev pub ok_or {ℓ} : {A : Type ℓ} {E : Type 0} → Option A → E → Result A E
ok_or none e = err e
ok_or (some a) e = ok a

abbrev pub map_err {ℓ} : {A : Type ℓ} {E F : Type 0} → Result A E → (E → F) → Result A F
map_err (ok a) f = ok a
map_err (err e) f = err (f e)

-- A bind that succeeds has a first step that does, and a rest that succeeds on its value.
pub >>=-eq-ok {ℓ κ} :
    {A : Type ℓ} {B : Type κ} {E : Type 0} {y : B} (r : Result A E) (next : A → Result B E)
    → (r >>= next) ≡ ok y
    → (x : A) × (r ≡ ok x) × (next x ≡ ok y)
>>=-eq-ok (err e) next h = cc
>>=-eq-ok (ok x) next h = (x, refl, h)

pub Result-cases {ℓ} :
    {A : Type ℓ} {E : Type 0} (r : Result A E) → ((a : A) × (r ≡ ok a)) ⊎ ((e : E) × (r ≡ err e))
Result-cases (ok a) = inl (a, refl)
Result-cases (err e) = inr (e, refl)

pub reject_if-eq-ok :
    {E : Type 0} (c : Bool) (e : E) {u : Unit {0}} → reject_if c e ≡ ok u → c ≡ false
reject_if-eq-ok true e h = cc
reject_if-eq-ok false e h = refl

pub ok_or-eq-ok :
    {A : Type 0} {E : Type 0} (o : Option A) (e : E) {a : A} → ok_or o e ≡ ok a → o ≡ some a
ok_or-eq-ok none e h = cc
ok_or-eq-ok (some a) e h = ground arith

pub ok_inj : {A : Type 0} {E : Type 0} (a b : A) → ◌≡◌ {A = Result A E} (ok a) (ok b) → a ≡ b
ok_inj a b h = cc

pub map_err-eq-ok :
    {A : Type 0} {E F : Type 0} (r : Result A E) (f : E → F) {a : A} → map_err r f ≡ ok a → r ≡ ok a
map_err-eq-ok (ok a) f h = ground arith
map_err-eq-ok (err e) f h = absurd (cc)
