-- ===== src/Book/Cancel.antt =====
-- `insert_resting` and `apply_cancellation`: what they add and release, and that a refusal leaves
-- the book as it was.
use oclob.Base.{ℕ, ◌+◌, ◌≡◌, refl, ◌∙◌, true, false, some, ok, err, arith, contains, eq→!=}
use native.Mathlib.Nat.{add-zero}
use oclob.Crypto.{Primitives}
use oclob.Order.{OrderError, SecretOrder, is_gtc, cancellation_digest}
use oclob.Order.Authority.{OrderCommitment, OrderAuthority, verify_authority}
use oclob.Book.Store.{RestingOrder, PrivateBook, find_record, insert_record}
use oclob.Book.Flat.{holds, view, lookup, changed}
use oclob.Book.Orders.{
  IsDistinct, resting_quantity, changed-IsDistinct, holds-changed_absent, holds-changed_zero,
  quantity-changed, holds_of_lookup,
}
use oclob.Book.Remainders.{remove_order-Done}
use oclob.Book.Invariant.{
  IsBook, Succeeds, insert_record-Inserted, admit-IsBook, admit_recorded, check_admission-eq-ok,
}
use oclob.Book.Operations.{check_admission, next_sequence, remove_order}
use oclob.Book.Commands.{insert_resting, apply_cancellation}
use oclob.Book.Operations.Transitions.{
  SecretCancellation, CancellationTransition, cancellation_commitment,
}

remove_order_refused :
    (c : OrderCommitment) (book : PrivateBook) (e : OrderError)
    → (remove_order c book).0 ≡ err e
    → (remove_order c book).1 ≡ book
unfolding remove_order
remove_order_refused c book e h = ground arith

-- An order that was inserted rests with its whole quantity.
pub record Resting (order : SecretOrder) (authority : OrderAuthority) (sequence : ℕ)
    (before : PrivateBook) (done : Unit {0}) (after : PrivateBook) : Type 0 where
  pub quantity : resting_quantity (view after) ≡ resting_quantity (view before) + order.quantity
  pub held : holds authority.commitment (view after) ≡ true
  pub admitted : contains authority.commitment after.admitted ≡ true
  pub next : after.sequence ≡ sequence
  pub invariant : IsBook after

-- A cancelled order is gone, and all other orders rest as they did.
pub record Cancelled (p : Primitives) (cancellation : SecretCancellation) (o : RestingOrder)
    (sequence : ℕ) (before : PrivateBook) (t : CancellationTransition) (after : PrivateBook)
    : Type 0 where
  pub released : t.released_quantity ≡ o.remaining
  pub orders : view after ≡ changed cancellation.target 0 (view before)
  pub gone : holds cancellation.target (view after) ≡ false
  pub quantity : resting_quantity (view after) + o.remaining ≡ resting_quantity (view before)
  pub admitted : contains (cancellation_commitment p cancellation) after.admitted ≡ true
  pub next : after.sequence ≡ sequence
  pub invariant : IsBook after

module _ (p : Primitives) (book : PrivateBook) where
  -- On a book that satisfies the invariant, an admissible good-till-cancelled order with a
  -- verified authority is inserted: it rests with its whole quantity, its commitment is
  -- recorded, the book is at its sequence number, and the invariant is kept.
  pub insert_resting-Resting :
      (order : SecretOrder) (authority : OrderAuthority) (sequence now : ℕ)
      → IsBook book
      → verify_authority p authority order now ≡ ok tt
      → check_admission order authority.commitment sequence book ≡ ok tt
      → is_gtc order.time_in_force ≡ true
      → Succeeds
          (Resting order authority sequence book)
          (insert_resting p order authority sequence now book)
  unfolding insert_resting
  insert_resting-Resting order authority sequence now h verified admissible gtc =
      let command = authority.commitment in
      let o : RestingOrder = record {
        secret = order;
        authority = authority;
        remaining = order.quantity;
        sequence = sequence;
      } in
      let (_, unused, _) = check_admission-eq-ok order command sequence book admissible in
      let i = insert_record-Inserted o book h.distinct (h.known command unused) in
      let final = insert_record o book in
      let (recorded, next, same_view) = admit_recorded command sequence final in
      rw (verified, admissible, gtc)
        (record {
          quantity = rw same_view i.quantity;
          held = rw same_view (ground (arith, i.others command));
          admitted = recorded;
          next = next;
          invariant =
              admit-IsBook command sequence final book i.frame.admitted i.distinct
                (λ c absent other. ground (arith, i.others c, h.known c absent));
        })

  -- On a book that satisfies the invariant, a cancellation with the next sequence number, not on
  -- record, for an order that the book holds and whose secret it shows, succeeds: it removes
  -- exactly that order, releases what remained of it, is recorded, and keeps the invariant.
  pub apply_cancellation-Cancelled :
      (cancellation : SecretCancellation) (sequence : ℕ) (o : RestingOrder)
      → IsBook book
      → sequence ≡ next_sequence book
      → contains (cancellation_commitment p cancellation) book.admitted ≡ false
      → lookup cancellation.target (view book) ≡ some o
      → o.secret.cancellation_secret_digest ≡ cancellation_digest p cancellation.secret
      → Succeeds
          (Cancelled p cancellation o sequence book)
          (apply_cancellation p cancellation sequence book)
  unfolding apply_cancellation find_record
  apply_cancellation-Cancelled cancellation sequence o h in_turn unused found shown =
      let target = cancellation.target in
      let command = cancellation_commitment p cancellation in
      let (middle, e, done) =
        remove_order-Done target book (holds_of_lookup target (view book) o found) in
      let (recorded, next, same_view) = admit_recorded command sequence middle in
      let kept : IsDistinct (view middle) =
        rw done.orders_now (changed-IsDistinct target 0 (view book) h.distinct) in
      rw
        (
          eq→!= sequence (next_sequence book) in_turn,
          unused,
          found,
          eq→!= _ (cancellation_digest p cancellation.secret) shown,
          e,
        )
        (record {
          released = refl;
          orders = same_view ∙ done.orders_now;
          gone = rw (same_view, done.orders_now) (holds-changed_zero target (view book) h.distinct);
          quantity =
              rw (same_view, done.orders_now)
                (quantity-changed target 0 (view book) o found ∙ add-zero _);
          admitted = recorded;
          next = next;
          invariant =
              admit-IsBook command sequence middle book done.frame.admitted kept (λ c absent other.
                rw done.orders_now
                  (holds-changed_absent target 0 c (view book) (h.known c absent)));
        })

  -- A cancellation that is refused, for whatever reason, leaves the book as it was.
  pub apply_cancellation_refused :
      (cancellation : SecretCancellation) (sequence : ℕ) (e : OrderError)
      → (apply_cancellation p cancellation sequence book).0 ≡ err e
      → (apply_cancellation p cancellation sequence book).1 ≡ book
  unfolding apply_cancellation
  apply_cancellation_refused cancellation sequence e h =
      ground (arith, remove_order_refused cancellation.target book e)
