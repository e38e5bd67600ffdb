-- ===== src/Base/SortedMaps.antt =====
-- Ordered maps whose keys ascend, and sums over their values.
use Prim.Native.Nat.{ℕ, ◌+◌, ◌<◌, ◌≤◌}
use mathlib.Core.Path.{◌≡◌, refl}
use mathlib.Core.List.{[], ◌∷◌}
use mathlib.Core.Option.{Option, none, some}
use native.Mathlib.Omega.{arith}
use oclob.Base.Maps.{BTreeMap, get, insert}

module _ {V : Type 0} where
  abbrev pub KeysAbove : ℕ → BTreeMap V → Type 0
  KeysAbove k [] = Unit
  KeysAbove k ((j, v) ∷ m) = (k < j) × KeysAbove k m

  abbrev pub IsSorted : BTreeMap V → Type 0
  IsSorted [] = Unit
  IsSorted ((j, v) ∷ m) = KeysAbove j m × IsSorted m

  abbrev pub AllValues : (V → Type 0) → BTreeMap V → Type 0
  AllValues P [] = Unit
  AllValues P ((j, v) ∷ m) = P v × AllValues P m

  -- The sum of `f` over the values.
  abbrev pub total : (V → ℕ) → BTreeMap V → ℕ
  total f [] = 0
  total f ((j, v) ∷ m) = f v + total f m

  -- What a value that may be absent adds to a sum.
  abbrev pub share : (V → ℕ) → Option V → ℕ
  share f none = 0
  share f (some v) = f v

  KeysAbove-trans : (i k : ℕ) (m : BTreeMap V) → i < k → KeysAbove k m → KeysAbove i m
  KeysAbove-trans i k [] l h = tt
  KeysAbove-trans i k ((j, v) ∷ m) l h = (omega (arith, l, h.0), KeysAbove-trans i k m l h.1)

  pub get_above : (k : ℕ) (m : BTreeMap V) → KeysAbove k m → get k m ≡ none
  get_above k [] h = refl
  get_above k ((j, v) ∷ m) h = ground (arith, get_above k m h.1, h.0)

  KeysAbove-insert :
      (i k : ℕ) (v : V) (m : BTreeMap V) → i < k → KeysAbove i m → KeysAbove i (insert k v m)
  KeysAbove-insert i k v [] l h = (l, tt)
  KeysAbove-insert i k v ((j, w) ∷ m) l h = ground (arith, KeysAbove-insert i k v m l h.1, h.0, h.1)

  pub insert-IsSorted : (k : ℕ) (v : V) (m : BTreeMap V) → IsSorted m → IsSorted (insert k v m)
  insert-IsSorted k v [] h = (tt, tt)
  insert-IsSorted k v ((j, w) ∷ m) h =
      ground (
        arith,
        insert-IsSorted k v m h.1,
        KeysAbove-insert j k v m,
        KeysAbove-trans k j m,
        h.0,
        h.1,
      )

  pub insert-AllValues :
      (P : V → Type 0) (k : ℕ) (v : V) (m : BTreeMap V)
      → P v
      → AllValues P m
      → AllValues P (insert k v m)
  insert-AllValues P k v [] p h = (p, tt)
  insert-AllValues P k v ((j, w) ∷ m) p h =
      ground (arith, insert-AllValues P k v m p h.1, h.0, h.1, p)

  pub get-AllValues :
      (P : V → Type 0) (k : ℕ) (v : V) (m : BTreeMap V) → AllValues P m → get k m ≡ some v → P v
  get-AllValues P k v [] h e = absurd (cc)
  get-AllValues P k v ((j, w) ∷ m) h e = ground (arith, get-AllValues P k v m h.1, h.0)

  -- Putting a value in replaces what the key added to a sum.
  pub total-insert :
      (f : V → ℕ) (k : ℕ) (v : V) (m : BTreeMap V)
      → IsSorted m
      → total f (insert k v m) + share f (get k m) ≡ total f m + f v
  total-insert f k v [] h = omega arith
  total-insert f k v ((j, w) ∷ m) h =
      ground (arith, total-insert f k v m h.1, get_above k m, KeysAbove-trans k j m, h.0)

  pub total_ext :
      (P : V → Type 0) (f g : V → ℕ) (m : BTreeMap V)
      → ((v : V) → P v → f v ≡ g v)
      → AllValues P m
      → total f m ≡ total g m
  total_ext P f g [] e h = refl
  total_ext P f g ((j, v) ∷ m) e h = omega (arith, e v h.0, total_ext P f g m e h.1)

  pub share-le-total : (f : V → ℕ) (k : ℕ) (m : BTreeMap V) → share f (get k m) ≤ total f m
  share-le-total f k [] = omega arith
  share-le-total f k ((j, w) ∷ m) = ground (arith, share-le-total f k m)
