-- ===== src/Book/Orders.antt =====
-- Lists of resting orders with different commitments: how a changed remainder and a new order
-- act on what can be found in them and on the quantity that rests.
use oclob.Base.{
  ℕ, ◌+◌, ◌≡◌, refl, Bool, true, false, some, List, [], ◌∷◌, ◌++◌, arith, All, keep, take, zero,
  suc, ◌==◌,
}
use oclob.Order.Authority.{OrderCommitment}
use oclob.Book.Store.{RestingOrder, order_commitment}
use oclob.Book.Flat.{holds, changed, lookup, holds-append}

abbrev pub IsDistinct : List RestingOrder → Type 0
IsDistinct [] = Unit
IsDistinct (o ∷ orders) = (holds (order_commitment o) orders ≡ false) × IsDistinct orders

-- The quantity that rests in the orders.
abbrev pub resting_quantity : List RestingOrder → ℕ
resting_quantity [] = 0
resting_quantity (o ∷ orders) = o.remaining + resting_quantity orders

module _ (c : OrderCommitment) (r : ℕ) where
  pub holds-changed_absent :
      (d : OrderCommitment) (orders : List RestingOrder)
      → holds d orders ≡ false
      → holds d (changed c r orders) ≡ false
  holds-changed_absent d [] h = refl
  holds-changed_absent d (o ∷ orders) h = ground (arith, holds-changed_absent d orders)

  pub lookup-changed_ne :
      (d : OrderCommitment) (orders : List RestingOrder)
      → (c == d) ≡ false
      → lookup d (changed c r orders) ≡ lookup d orders
  lookup-changed_ne d [] h = refl
  lookup-changed_ne d (o ∷ orders) h = ground (arith, lookup-changed_ne d orders h)

  pub changed-IsDistinct :
      (orders : List RestingOrder) → IsDistinct orders → IsDistinct (changed c r orders)
  changed-IsDistinct [] h = tt
  changed-IsDistinct (o ∷ orders) h =
      ground
        (arith, changed-IsDistinct orders h.1, holds-changed_absent (order_commitment o) orders h.0)

  pub quantity-changed :
      (orders : List RestingOrder) (o : RestingOrder)
      → lookup c orders ≡ some o
      → resting_quantity (changed c r orders) + o.remaining ≡ resting_quantity orders + r
  quantity-changed [] o h = absurd (cc)
  quantity-changed (x ∷ orders) o h = ground (arith, quantity-changed orders o)

pub holds_of_lookup :
    (c : OrderCommitment) (orders : List RestingOrder) (o : RestingOrder)
    → lookup c orders ≡ some o
    → holds c orders ≡ true
holds_of_lookup c [] o h = absurd (cc)
holds_of_lookup c (x ∷ orders) o h = ground (arith, holds_of_lookup c orders o)

-- An order that was removed is not found again.
pub holds-changed_zero :
    (c : OrderCommitment) (orders : List RestingOrder)
    → IsDistinct orders
    → holds c (changed c 0 orders) ≡ false
holds-changed_zero c [] h = refl
holds-changed_zero c (o ∷ orders) h = ground (arith, holds-changed_zero c orders h.1)

pub holds-keep :
    (p : RestingOrder → Bool) (c : OrderCommitment) (orders : List RestingOrder)
    → holds c orders ≡ false
    → holds c (keep p orders) ≡ false
holds-keep p c [] h = refl
holds-keep p c (o ∷ orders) h = ground (arith, holds-keep p c orders)

pub keep-IsDistinct :
    (p : RestingOrder → Bool) (orders : List RestingOrder)
    → IsDistinct orders
    → IsDistinct (keep p orders)
keep-IsDistinct p [] h = tt
keep-IsDistinct p (o ∷ orders) h =
    ground (arith, keep-IsDistinct p orders h.1, holds-keep p (order_commitment o) orders h.0)

holds-take :
    (n : ℕ) (c : OrderCommitment) (orders : List RestingOrder)
    → holds c orders ≡ false
    → holds c (take n orders) ≡ false
holds-take zero c orders h = refl
holds-take (suc n) c [] h = refl
holds-take (suc n) c (o ∷ orders) h = ground (arith, holds-take n c orders)

pub take-IsDistinct :
    (n : ℕ) (orders : List RestingOrder) → IsDistinct orders → IsDistinct (take n orders)
take-IsDistinct zero orders h = tt
take-IsDistinct (suc n) [] h = tt
take-IsDistinct (suc n) (o ∷ orders) h =
    (holds-take n (order_commitment o) orders h.0, take-IsDistinct n orders h.1)

-- No order of one list has a commitment of the other.
abbrev pub Apart : List RestingOrder → List RestingOrder → Type 0
Apart xs ys = All (λ o. holds (order_commitment o) ys ≡ false) xs

pub append-IsDistinct :
    (xs ys : List RestingOrder)
    → IsDistinct xs
    → IsDistinct ys
    → Apart xs ys
    → IsDistinct (xs ++ ys)
append-IsDistinct [] ys a b h = b
append-IsDistinct (x ∷ xs) ys a b h =
    (rw (holds-append (order_commitment x) xs ys, a.0) h.0, append-IsDistinct xs ys a.1 b h.1)

pub IsDistinct-append :
    (xs ys : List RestingOrder)
    → IsDistinct (xs ++ ys)
    → IsDistinct xs × IsDistinct ys × Apart xs ys
IsDistinct-append [] ys h = (tt, h, tt)
IsDistinct-append (x ∷ xs) ys h =
    let (a, b, apart) = IsDistinct-append xs ys h.1 in
    let split = holds-append (order_commitment x) xs ys in
    ((ground (arith, split), a), b, (ground (arith, split), apart))

Apart-cons :
    (y : RestingOrder) (xs ys : List RestingOrder)
    → Apart xs (y ∷ ys)
    → (holds (order_commitment y) xs ≡ false) × Apart xs ys
Apart-cons y [] ys h = (refl, tt)
Apart-cons y (x ∷ xs) ys h =
    let (fresh, apart) = Apart-cons y xs ys h.1 in (ground arith, (ground arith, apart))

pub Apart-symm : (xs ys : List RestingOrder) → Apart xs ys → Apart ys xs
Apart-symm xs [] h = tt
Apart-symm xs (y ∷ ys) h =
    let (fresh, apart) = Apart-cons y xs ys h in (fresh, Apart-symm xs ys apart)
