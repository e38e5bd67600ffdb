-- ===== src/Base/Maps.antt =====
-- The standard library's `BTreeMap<u64, V>` as an association list in the order of its keys, and
-- `BTreeSet` of digests as a list without repetition. A digest is the number whose big-endian
-- bytes it is, so the order of numbers is the order of byte arrays.
use Prim.Native.Nat.{ℕ, compare, Ordering}
use mathlib.Core.Path.{◌≡◌, refl}
use mathlib.Core.Bool.{Bool, false, ◌||◌}
use mathlib.Core.List.{List, [], ◌∷◌}
use mathlib.Core.Option.{Option, none, some}
use native.Mathlib.Omega.{arith}
use oclob.Base.Tests.{◌==◌, if◌then◌else◌}

abbrev pub BTreeMap {ℓ} : Type ℓ → Type ℓ
BTreeMap V = List (ℕ × V)

module _ {ℓ} {V : Type ℓ} where
  -- `BTreeMap::get`
  abbrev pub get : ℕ → BTreeMap V → Option V
  get k [] = none
  get k ((j, v) ∷ m) = if k == j then some v else get k m

  -- `BTreeMap::insert`
  abbrev pub insert : ℕ → V → BTreeMap V → BTreeMap V
  insert k v [] = (k, v) ∷ []
  insert k v ((j, w) ∷ m) = elim (compare k j) [
    | Ordering.lt ↦ (k, v) ∷ (j, w) ∷ m
    | Ordering.eq ↦ (k, v) ∷ m
    | Ordering.gt ↦ (j, w) ∷ insert k v m
  ]

  -- `*map.entry(k).or_default() = f(old)`, with the default given
  abbrev pub upsert : ℕ → V → (V → V) → BTreeMap V → BTreeMap V
  upsert k d f [] = (k, f d) ∷ []
  upsert k d f ((j, w) ∷ m) = elim (compare k j) [
    | Ordering.lt ↦ (k, f d) ∷ (j, w) ∷ m
    | Ordering.eq ↦ (j, f w) ∷ m
    | Ordering.gt ↦ (j, w) ∷ upsert k d f m
  ]

  -- `BTreeMap::values`
  abbrev pub values : BTreeMap V → List V
  values [] = []
  values ((j, v) ∷ m) = v ∷ values m

  pub get-insert :
      (k j : ℕ) (v : V) (m : BTreeMap V)
      → get j (insert k v m) ≡ (if j == k then some v else get j m)
  get-insert k j v [] = refl
  get-insert k j v ((i, w) ∷ m) = ground (arith, get-insert k j v m)

-- `BTreeSet::contains`
abbrev pub contains : ℕ → List ℕ → Bool
contains d [] = false
contains d (e ∷ s) = (d == e) || contains d s

-- `BTreeSet::insert`
abbrev pub set_insert : ℕ → List ℕ → List ℕ
set_insert d s = if contains d s then s else d ∷ s
