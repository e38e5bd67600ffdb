-- ===== src/Book/Roots.antt =====
-- The public snapshot of the book, and the roots that commit to the private and the public state.
use mathlib.Core.List.{reverse}
use oclob.Base.{ℕ, ◌+◌, ◌%◌, List, [], ◌∷◌, ◌++◌, be_bytes, length, ltb, u64_bound, if◌then◌else◌}
use oclob.Crypto.{Primitives, Digest32, codes}
use oclob.Order.{Side, side_wire, put_bytes}
use oclob.Order.Authority.{OrderCommitment}
use oclob.Book.Store.{Queue, Levels, PrivateBook, order_commitment}

pub record PublicLevel : Type 0 where
  pub side : Side
  pub price : ℕ
  pub quantity : ℕ

pub record PublicBookSnapshot : Type 0 where
  pub market_id : List ℕ
  pub sequence : ℕ
  pub levels : List PublicLevel
  pub state_root : Digest32

-- `sum()` over `u64`, which wraps around.
abbrev pub sum_remaining : ℕ → Queue → ℕ
sum_remaining acc [] = acc
sum_remaining acc (o ∷ queue) = sum_remaining ((acc + o.remaining) % u64_bound) queue

-- `level`
unfoldable pub level : Side → ℕ → Queue → PublicLevel
level side price queue = record { side = side; price = price; quantity = sum_remaining 0 queue }

abbrev pub levels_of : Side → Levels → List PublicLevel
levels_of side [] = []
levels_of side ((price, queue) ∷ levels) = level side price queue ∷ levels_of side levels

-- The levels of the snapshot: bids from the highest price, then asks from the lowest.
unfoldable pub public_levels : PrivateBook → List PublicLevel
unfolding level
public_levels book = levels_of Side.buy (reverse book.bids) ++ levels_of Side.sell book.asks

level_bytes : List PublicLevel → List ℕ
level_bytes [] = []
level_bytes (l ∷ levels) =
    be_bytes 1 (side_wire l.side)
    ++ (be_bytes 8 l.price ++ (be_bytes 8 l.quantity ++ level_bytes levels))

order_bytes : Queue → List ℕ
order_bytes [] = []
order_bytes (o ∷ queue) =
    be_bytes 32 (order_commitment o)
    ++ (be_bytes 8 o.remaining ++ (be_bytes 8 o.sequence ++ order_bytes queue))

side_bytes : Levels → List ℕ
side_bytes [] = []
side_bytes ((price, queue) ∷ levels) = be_bytes 8 price ++ (order_bytes queue ++ side_bytes levels)

commitment_bytes : List OrderCommitment → List ℕ
commitment_bytes [] = []
commitment_bytes (c ∷ orders) = be_bytes 32 c ++ commitment_bytes orders

unfoldable pub insert_sorted : OrderCommitment → List OrderCommitment → List OrderCommitment
insert_sorted c [] = c ∷ []
insert_sorted c (d ∷ orders) =
    let rest = insert_sorted c orders in if ltb d c then d ∷ rest else c ∷ d ∷ orders

-- `sort_unstable`; equal commitments cannot be told apart.
unfoldable pub sort_commitments : List OrderCommitment → List OrderCommitment
unfolding insert_sorted
sort_commitments [] = []
sort_commitments (c ∷ orders) = insert_sorted c (sort_commitments orders)

module _ (p : Primitives) where
  unfoldable pub public_root : List ℕ → ℕ → List PublicLevel → Digest32
  unfolding level_bytes
  public_root market_id sequence levels = p.sha256 (
      codes "OCLOB:PUBLIC-BOOK:v2"
      ++ put_bytes market_id
      ++ be_bytes 8 sequence
      ++ level_bytes levels)

  unfoldable pub public_snapshot : PrivateBook → PublicBookSnapshot
  unfolding public_levels public_root
  public_snapshot book = record {
    market_id = book.market_id;
    sequence = book.sequence;
    levels = public_levels book;
    state_root = public_root book.market_id book.sequence (public_levels book);
  }

  unfoldable pub private_root : PrivateBook → Digest32
  unfolding side_bytes order_bytes
  private_root book = p.sha256 (
      codes "OCLOB:PRIVATE-BOOK:v2"
      ++ put_bytes book.market_id
      ++ be_bytes 8 book.sequence
      ++ side_bytes book.bids
      ++ side_bytes book.asks)

  unfoldable pub expiry_commitment : List ℕ → ℕ → List OrderCommitment → OrderCommitment
  unfolding commitment_bytes sort_commitments
  expiry_commitment market_id cutoff expired_orders = p.sha256 (
      codes "OCLOB:EXPIRY-COMMITMENT:v2"
      ++ put_bytes market_id
      ++ be_bytes 8 cutoff
      ++ be_bytes 8 (length expired_orders)
      ++ commitment_bytes (sort_commitments expired_orders))
