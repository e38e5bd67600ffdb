-- ===== src/Book/Expiry.antt =====
-- `apply_expiry`: every order past the cutoff goes, its remainder is released, and all others
-- stay.
use oclob.Base.{
  ℕ, ◌+◌, ◌<◌, ◌≡◌, refl, sym, subst, ap, ◌∙◌, ◌≤◌, true, false, not, some, List, [], ◌∷◌, ok,
  arith, All, contains, keep, is_empty, map, u64_bound, lt→ltb, eq→!=, Bool-cases, inl, inr, ◌==◌,
}
use oclob.Crypto.{Primitives}
use oclob.Order.Authority.{OrderCommitment}
use oclob.Book.Store.{RestingOrder, PrivateBook, order_commitment, find_record}
use oclob.Book.Flat.{holds, view, lookup, changed}
use oclob.Book.Orders.{
  IsDistinct, resting_quantity, changed-IsDistinct, holds-changed_absent, quantity-changed,
}
use oclob.Book.Naming.{
  Unique, sort_commitments-Unique, contains-sort_commitments, kept-Unique, kept_names,
  contains-kept_holds, All-of_contains, without, without_nil, without-changed, without-kept,
}
use oclob.Book.Roots.{sort_commitments, expiry_commitment}
use oclob.Book.Queries.{is_expired, expired_commitments}
use oclob.Book.Remainders.{SameFrame, SameFrame-refl, SameFrame-trans, remove_order-Done}
use oclob.Book.Invariant.{IsBook, Succeeds, admit-IsBook, admit_recorded}
use oclob.Book.Operations.{next_sequence, release_orders}
use oclob.Book.Commands.{apply_expiry}
use oclob.Book.Operations.Transitions.{ExpiryTransition}

lookup_of_holds :
    (c : OrderCommitment) (orders : List RestingOrder)
    → holds c orders ≡ true
    → (o : RestingOrder) × (lookup c orders ≡ some o) × (o.remaining ≤ resting_quantity orders)
lookup_of_holds c [] h = absurd (ground arith)
lookup_of_holds c (x ∷ orders) h = elim (Bool-cases (order_commitment x == c)) [
  | inl here ↦ (x, rw here, omega arith)
  | inr later ↦
      let (o, found, small) = lookup_of_holds c orders (ground arith) in
      (o, rw later found, omega arith)
]

holds-changed_ne :
    (c d : OrderCommitment) (orders : List RestingOrder)
    → (c == d) ≡ false
    → holds d (changed c 0 orders) ≡ holds d orders
holds-changed_ne c d [] h = refl
holds-changed_ne c d (o ∷ orders) h = ground (arith, holds-changed_ne c d orders)

still_held :
    (c : OrderCommitment) (cs : List OrderCommitment) (orders : List RestingOrder)
    → contains c cs ≡ false
    → All (λ d. holds d orders ≡ true) cs
    → All (λ d. holds d (changed c 0 orders) ≡ true) cs
still_held c [] orders u h = tt
still_held c (d ∷ cs) orders u h =
    (holds-changed_ne c d orders (ground arith) ∙ h.0, still_held c cs orders (ground arith) h.1)

-- The state after the loop has released the listed orders.
record Released (cs : List OrderCommitment) (released n : ℕ) (book book' : PrivateBook)
    : Type 0 where
  orders : view book' ≡ without cs (view book)
  conserved : n + resting_quantity (view book') ≡ released + resting_quantity (view book)
  distinct : IsDistinct (view book')
  none_new : (c : OrderCommitment) → holds c (view book) ≡ false → holds c (view book') ≡ false
  frame : SameFrame book book'

release_orders-Released :
    (cs : List OrderCommitment) (released : ℕ) (book : PrivateBook)
    → IsDistinct (view book)
    → Unique cs
    → All (λ c. holds c (view book) ≡ true) cs
    → released + resting_quantity (view book) < u64_bound
    → (n : ℕ) × (book' : PrivateBook) × (release_orders cs released book ≡ (ok n, book'))
      × Released cs released n book book'
unfolding release_orders find_record
release_orders-Released [] released book d u held room = (
  released,
  book,
  refl,
  record {
    orders = sym (without_nil (view book));
    conserved = refl;
    distinct = d;
    none_new = λ c h. h;
    frame = SameFrame-refl book;
  },
)
release_orders-Released (c ∷ cs) released book d u held room =
    let (o, found, small) = lookup_of_holds c (view book) held.0 in
    let (middle, e, done) = remove_order-Done c book held.0 in
    let distinct : IsDistinct (view middle) =
      rw done.orders_now (changed-IsDistinct c 0 (view book) d) in
    let held' : All (λ x. holds x (view middle) ≡ true) cs =
      subst (λ l. All (λ x. holds x l ≡ true) cs) (sym done.orders_now)
        (still_held c cs (view book) u.0 held.1) in
    let change : resting_quantity (view middle) + o.remaining ≡ resting_quantity (view book) + 0 =
      rw done.orders_now (quantity-changed c 0 (view book) o found) in
    let (n, book', e', r) =
      release_orders-Released cs (released + o.remaining) middle distinct u.1 held'
        (omega (arith, change, room)) in
    (
      n,
      book',
      rw (found, lt→ltb (released + o.remaining) u64_bound (omega (arith, room, small)), e, e'),
      record {
        orders = r.orders ∙ ap (without cs) done.orders_now ∙ without-changed c cs (view book) d;
        conserved = omega (arith, r.conserved, change);
        distinct = r.distinct;
        none_new =
            λ x h. r.none_new x (rw done.orders_now (holds-changed_absent c 0 x (view book) h));
        frame = SameFrame-trans done.frame r.frame;
      },
    )

-- After an expiry no order past the cutoff is left, every other order rests as it did, and the
-- released quantity is what is missing.
pub record Expired (cutoff : ℕ) (command : OrderCommitment) (sequence : ℕ) (before : PrivateBook)
    (t : ExpiryTransition) (after : PrivateBook) : Type 0 where
  pub orders : view after ≡ keep (λ o. not (is_expired cutoff o)) (view before)
  pub listed : t.expired_orders ≡ expired_commitments before cutoff
  pub released :
      t.released_quantity + resting_quantity (view after) ≡ resting_quantity (view before)
  pub admitted : contains command after.admitted ≡ true
  pub next : after.sequence ≡ sequence
  pub invariant : IsBook after

expiry-Released :
    (cutoff : ℕ) (book : PrivateBook)
    → IsDistinct (view book)
    → resting_quantity (view book) < u64_bound
    → let cs = expired_commitments book cutoff in
      (n : ℕ) × (book' : PrivateBook) × (release_orders cs 0 book ≡ (ok n, book'))
      × Released cs 0 n book book'
      × (without cs (view book) ≡ keep (λ o. not (is_expired cutoff o)) (view book))
unfolding expired_commitments
expiry-Released cutoff book distinct room =
    let named = map order_commitment (keep (is_expired cutoff) (view book)) in
    let (n, book', e, r) =
      release_orders-Released (sort_commitments named) 0 book distinct
        (sort_commitments-Unique named (kept-Unique (is_expired cutoff) (view book) distinct))
        (All-of_contains _ (sort_commitments named) (λ c m.
          contains-kept_holds (is_expired cutoff) c (view book)
            (sym (contains-sort_commitments c named) ∙ m)))
        (omega (arith, room)) in
    (
      n,
      book',
      e,
      r,
      without-kept (is_expired cutoff) (sort_commitments named) (view book)
          (sorted_names named (view book) (kept_names (is_expired cutoff) (view book) distinct)),
    )
  where
    sorted_names :
        (cs : List OrderCommitment) (orders : List RestingOrder)
        → All (λ o. contains (order_commitment o) cs ≡ is_expired cutoff o) orders
        → All
            (λ o. contains (order_commitment o) (sort_commitments cs) ≡ is_expired cutoff o)
            orders
    sorted_names cs [] h = tt
    sorted_names cs (o ∷ orders) h =
        (contains-sort_commitments (order_commitment o) cs ∙ h.0, sorted_names cs orders h.1)

-- On a book that satisfies the invariant and whose whole quantity fits 64 bits, with some order
-- past the cutoff, the canonical command, not on record and at the next sequence number,
-- succeeds: it removes exactly the orders past the cutoff, lists them, releases their
-- remainders, is recorded, and keeps the invariant.
pub apply_expiry-Expired :
    (p : Primitives) (book : PrivateBook) (cutoff : ℕ) (command : OrderCommitment) (sequence : ℕ)
    → IsBook book
    → resting_quantity (view book) < u64_bound
    → sequence ≡ next_sequence book
    → is_empty (expired_commitments book cutoff) ≡ false
    → command ≡ expiry_commitment p book.market_id cutoff (expired_commitments book cutoff)
    → contains command book.admitted ≡ false
    → Succeeds (Expired cutoff command sequence book) (apply_expiry p cutoff command sequence book)
unfolding apply_expiry
apply_expiry-Expired p book cutoff command sequence h room in_turn some_expired canonical unused =
    let cs = expired_commitments book cutoff in
    let (n, middle, e, r, others) = expiry-Released cutoff book h.distinct room in
    let (recorded, next, same_view) = admit_recorded command sequence middle in
    rw
      (
        eq→!= sequence (next_sequence book) in_turn,
        unused,
        some_expired,
        eq→!= command (expiry_commitment p book.market_id cutoff cs) canonical,
        e,
      )
      (record {
        orders = same_view ∙ r.orders ∙ others;
        listed = refl;
        released = rw same_view (omega (arith, r.conserved));
        admitted = recorded;
        next = next;
        invariant =
            admit-IsBook command sequence middle book r.frame.admitted r.distinct
              (λ c absent other. r.none_new c (h.known c absent));
      })
