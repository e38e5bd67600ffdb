-- ===== src/Ordering/Sets.antt =====
-- Lists of node numbers as sets, with the pigeonhole that quorums rest on; the numbers of a
-- committee's keys and of a certificate's votes.
use oclob.Base.{
  ℕ, suc, ◌+◌, ◌≤◌, ◌≡◌, refl, true, false, List, [], ◌∷◌, arith, All, BTreeMap, contains, keep,
  length, ◌==◌, if◌then◌else◌,
}
use oclob.Crypto.{VerifyingKey}
use oclob.Ordering.{OrderVote}

abbrev pub Unique : List ℕ → Type 0
Unique [] = Unit
Unique (n ∷ ns) = (contains n ns ≡ false) × Unique ns

abbrev pub members : BTreeMap VerifyingKey → List ℕ
members [] = []
members ((id, key) ∷ keys) = id ∷ members keys

abbrev pub voters : List OrderVote → List ℕ
voters [] = []
voters (v ∷ votes) = v.node_id ∷ voters votes

-- The voters of one list that are voters of the other too.
abbrev pub shared : List ℕ → List ℕ → List ℕ
shared xs ys = keep (λ n. contains n ys) xs

-- `xs` without its first `n`.
abbrev erase : ℕ → List ℕ → List ℕ
erase n [] = []
erase n (m ∷ ms) = if n == m then ms else m ∷ erase n ms

length-erase : (n : ℕ) (xs : List ℕ) → contains n xs ≡ true → length xs ≡ suc (length (erase n xs))
length-erase n [] h = absurd (ground arith)
length-erase n (m ∷ ms) h = ground (arith, length-erase n ms)

contains-erase_ne :
    (n k : ℕ) (xs : List ℕ) → (k == n) ≡ false → contains k (erase n xs) ≡ contains k xs
contains-erase_ne n k [] h = refl
contains-erase_ne n k (m ∷ ms) h = ground (arith, contains-erase_ne n k ms h)

All-erase :
    (n : ℕ) (part xs : List ℕ)
    → contains n part ≡ false
    → All (λ k. contains k xs ≡ true) part
    → All (λ k. contains k (erase n xs) ≡ true) part
All-erase n [] xs u h = tt
All-erase n (k ∷ part) xs u h =
    (ground (arith, contains-erase_ne n k xs), All-erase n part xs (ground arith) h.1)

-- Different members of a list are no more than its elements.
Unique-length :
    (part xs : List ℕ)
    → Unique part
    → All (λ k. contains k xs ≡ true) part
    → length part ≤ length xs
Unique-length [] xs u h = omega arith
Unique-length (n ∷ part) xs u h = omega (
  arith,
  length-erase n xs h.0,
  Unique-length part (erase n xs) u.1 (All-erase n part xs u.0 h.1),
)

-- The members of `xs` outside `ys`, then `ys`.
abbrev union : List ℕ → List ℕ → List ℕ
union [] ys = ys
union (n ∷ ns) ys = if contains n ys then union ns ys else n ∷ union ns ys

length-union :
    (xs ys : List ℕ) → length (union xs ys) + length (shared xs ys) ≡ length xs + length ys
length-union [] ys = omega arith
length-union (n ∷ ns) ys = ground (arith, length-union ns ys)

contains-union :
    (k : ℕ) (xs ys : List ℕ)
    → contains k xs ≡ false
    → contains k ys ≡ false
    → contains k (union xs ys) ≡ false
contains-union k [] ys h e = e
contains-union k (n ∷ ns) ys h e = ground (arith, contains-union k ns ys)

union-Unique : (xs ys : List ℕ) → Unique xs → Unique ys → Unique (union xs ys)
union-Unique [] ys u w = w
union-Unique (n ∷ ns) ys u w = ground (arith, union-Unique ns ys u.1 w, contains-union n ns ys u.0)

All-union : (P : ℕ → Type 0) (xs ys : List ℕ) → All P xs → All P ys → All P (union xs ys)
All-union P [] ys h k = k
All-union P (n ∷ ns) ys h k = ground (arith, All-union P ns ys h.1 k)

-- Two sets of members overlap in what they have beyond the number of members.
pub length-shared :
    (xs ys all : List ℕ)
    → Unique xs
    → Unique ys
    → All (λ k. contains k all ≡ true) xs
    → All (λ k. contains k all ≡ true) ys
    → length xs + length ys ≤ length all + length (shared xs ys)
length-shared xs ys all u w h k = omega (
  arith,
  length-union xs ys,
  Unique-length (union xs ys) all (union-Unique xs ys u w) (All-union _ xs ys h k),
)
