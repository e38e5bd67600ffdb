-- ===== src/Book/Remainders.antt =====
-- `change_remainder` and `remove_order` on a book whose orders have different commitments, and
-- the loop `apply_slots` over slots that the batch allows.
use oclob.Base.{
  ℕ, ◌≤◌, ◌≡◌, refl, ◌∙◌, true, false, some, List, [], ◌∷◌, ok, err, Result, map_err, arith, All,
  ◌==◌, if◌then◌else◌,
}
use oclob.Order.{OrderError}
use oclob.Order.Authority.{OrderCommitment}
use oclob.Matching.{PrivateRestingInput, MpcSlotResult}
use oclob.Book.Store.{RestingOrder, Levels, PrivateBook, update_remainder, remove_by_commitment}
use oclob.Book.Flat.{holds, changed, lookup, view, Remainder, update_remainder-Remainder}
use oclob.Book.Orders.{lookup-changed_ne}
use oclob.Book.Operations.{change_remainder, remove_order}
use oclob.Book.Operations.Transitions.{PublicFill}

-- What the two sides of the book are not: its market, its sequence and its admitted commands.
pub record SameFrame (book book' : PrivateBook) : Type 0 where
  pub market : book'.market_id ≡ book.market_id
  pub sequence : book'.sequence ≡ book.sequence
  pub admitted : book'.admitted ≡ book.admitted

pub SameFrame-refl : (book : PrivateBook) → SameFrame book book
SameFrame-refl book = record { market = refl; sequence = refl; admitted = refl }

pub SameFrame-trans : {a b c : PrivateBook} → SameFrame a b → SameFrame b c → SameFrame a c
SameFrame-trans f g = record {
  market = g.market ∙ f.market;
  sequence = g.sequence ∙ f.sequence;
  admitted = g.admitted ∙ f.admitted;
}

-- A step that succeeded and left `orders` in the book.
pub record Done (book book' : PrivateBook) (orders : List RestingOrder) : Type 0 where
  pub orders_now : view book' ≡ orders
  pub frame : SameFrame book book'

-- How `change_remainder` and `remove_order` end, by what `update_remainder` gives.
abbrev outcome :
    PrivateBook → Result (Levels × Levels) OrderError → Result (Unit {0}) OrderError × PrivateBook
outcome book (ok (bids', asks')) = (ok tt, record book { bids = bids'; asks = asks' })
outcome book (err e) = (err e, book)

abbrev Changes :
    OrderCommitment → ℕ → PrivateBook → Result (Unit {0}) OrderError × PrivateBook → Type 0
Changes c r book done =
    (book' : PrivateBook) × (done ≡ (ok tt, book')) × Done book book' (changed c r (view book))

change_outcome :
    (c : OrderCommitment) (r : ℕ) (book : PrivateBook)
    (result : Result (Levels × Levels) OrderError) (rename : OrderError → OrderError)
    → holds c (view book) ≡ true
    → Remainder c r book.bids book.asks result
    → Changes c r book (outcome book result)
      × Changes c r book (outcome book (map_err result rename))
change_outcome c r book (err e) rename h u = absurd (ground arith)
change_outcome c r book (ok (bids', asks')) rename h u =
    let book' : PrivateBook = record book { bids = bids'; asks = asks' } in
    let done : Done book book' (changed c r (view book)) = record {
      orders_now = u.1;
      frame = record { market = refl; sequence = refl; admitted = refl };
    } in
    ((book', refl, done), (book', refl, done))

-- An order that the book holds gets its new remainder.
pub change_remainder-Done :
    (c : OrderCommitment) (r : ℕ) (book : PrivateBook)
    → holds c (view book) ≡ true
    → (book' : PrivateBook) × (change_remainder c r book ≡ (ok tt, book'))
      × Done book book' (changed c r (view book))
unfolding change_remainder
change_remainder-Done c r book h =
    (change_outcome c r book (update_remainder book.bids book.asks c r) (λ e. e) h
      (update_remainder-Remainder c r book.bids book.asks)).0

-- An order that the book holds is removed.
pub remove_order-Done :
    (c : OrderCommitment) (book : PrivateBook)
    → holds c (view book) ≡ true
    → (book' : PrivateBook) × (remove_order c book ≡ (ok tt, book'))
      × Done book book' (changed c 0 (view book))
unfolding remove_order remove_by_commitment
remove_order-Done c book h =
    (change_outcome c 0 book (update_remainder book.bids book.asks c 0)
      (λ _. OrderError.unknown_order) h (update_remainder-Remainder c 0 book.bids book.asks)).1

-- Every input of the batch is an order of the book with that remainder.
abbrev pub Offered : List RestingOrder → PrivateRestingInput → Type 0
Offered orders r =
    (o : RestingOrder) × (lookup r.commitment orders ≡ some o) × (o.remaining ≡ r.quantity)

abbrev pub OtherInputs : OrderCommitment → List PrivateRestingInput → Type 0
OtherInputs c rest = All (λ r. (c == r.commitment) ≡ false) rest

abbrev pub DistinctInputs : List PrivateRestingInput → Type 0
DistinctInputs [] = Unit
DistinctInputs (r ∷ rest) = OtherInputs r.commitment rest × DistinctInputs rest

pub Offered-changed :
    (c : OrderCommitment) (q : ℕ) (orders : List RestingOrder) (rest : List PrivateRestingInput)
    → OtherInputs c rest
    → All (Offered orders) rest
    → All (Offered (changed c q orders)) rest
Offered-changed c q orders [] d h = tt
Offered-changed c q orders (r ∷ rest) d h =
    let (o, found, left) = h.0 in
    (
      (o, lookup-changed_ne c q r.commitment orders d.0 ∙ found, left),
      Offered-changed c q orders rest d.1 h.1,
    )

-- A slot trades no more than its order has, and nothing if it is not matched.
abbrev pub Within : PrivateRestingInput → MpcSlotResult → Type 0
Within r slot =
    (slot.trade_quantity ≤ r.quantity) × (slot.matched ≡ false → slot.trade_quantity ≡ 0)

abbrev pub AllWithin : List PrivateRestingInput → List MpcSlotResult → Type 0
AllWithin (r ∷ rest) (slot ∷ slots) = Within r slot × AllWithin rest slots
AllWithin [] [] = Unit
AllWithin [] (slot ∷ slots) = ⊥
AllWithin (r ∷ rest) [] = ⊥

-- The fills that matched slots report: the maker's order, price and quantity.
abbrev pub fills_of :
    OrderCommitment → List PrivateRestingInput → List MpcSlotResult → List PublicFill
fills_of taker (r ∷ rest) (slot ∷ slots) =
    let later = fills_of taker rest slots in
    if slot.matched
    then record {
      maker_order = r.commitment;
      taker_order = taker;
      price = slot.trade_price;
      quantity = slot.trade_quantity;
    }
      ∷ later
    else later
fills_of taker [] slots = []
fills_of taker (r ∷ rest) [] = []
