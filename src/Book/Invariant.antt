-- ===== src/Book/Invariant.antt =====
-- The invariant of the book: no two resting orders have one commitment, and every resting order
-- was admitted. The common steps that end each operation keep it.
use oclob.Base.{
  ℕ, ◌+◌, ◌≡◌, refl, true, false, ◌||◌, ◌&&◌, ok, err, Result, arith, contains, bytes_eq,
  Bool-cases, inl, inr, ltb, ◌==◌, if◌then◌else◌,
}
use oclob.Order.{SecretOrder, OrderError, is_gtc}
use oclob.Order.Authority.{OrderCommitment, OrderAuthority}
use oclob.Book.Store.{RestingOrder, PrivateBook, order_commitment, insert_record}
use oclob.Book.Flat.{holds, view, insert_record-Inserts}
use oclob.Book.Orders.{IsDistinct, resting_quantity}
use oclob.Book.Inserted.{quantity-Inserts, IsDistinct-Inserts, holds-Inserts}
use oclob.Book.Remainders.{SameFrame, SameFrame-refl}
use oclob.Book.Operations.{check_admission, next_sequence, admit, rest_remainder}

pub record IsBook (book : PrivateBook) : Type 0 where
  pub distinct : IsDistinct (view book)
  pub known : (c : OrderCommitment) → contains c book.admitted ≡ false → holds c (view book) ≡ false

-- How an action ended, if it must end well.
abbrev pub Succeeds {ℓ} :
    {A : Type ℓ} → (A → PrivateBook → Type 0) → Result A OrderError × PrivateBook → Type 0
Succeeds P (ok a, book) = P a book
Succeeds P (err e, book) = ⊥

pub check_admission-eq-ok :
    (order : SecretOrder) (c : OrderCommitment) (sequence : ℕ) (book : PrivateBook)
    → check_admission order c sequence book ≡ ok tt
    → (bytes_eq order.market_id book.market_id ≡ true)
      × (contains c book.admitted ≡ false)
      × (sequence ≡ next_sequence book)
unfolding check_admission
check_admission-eq-ok order c sequence book h = ground arith

-- What inserting one order changes.
pub record Inserted (o : RestingOrder) (book book' : PrivateBook) : Type 0 where
  pub quantity : resting_quantity (view book') ≡ resting_quantity (view book) + o.remaining
  pub distinct : IsDistinct (view book')
  pub others :
      (c : OrderCommitment)
      → holds c (view book') ≡ (order_commitment o == c || holds c (view book))
  pub frame : SameFrame book book'

insert_record-SameFrame :
    (o : RestingOrder) (book : PrivateBook) → SameFrame book (insert_record o book)
unfolding insert_record
insert_record-SameFrame o book = ground arith

pub insert_record-Inserted :
    (o : RestingOrder) (book : PrivateBook)
    → IsDistinct (view book)
    → holds (order_commitment o) (view book) ≡ false
    → Inserted o book (insert_record o book)
insert_record-Inserted o book distinct fresh =
    let inserts = insert_record-Inserts o book in
    record {
      quantity = quantity-Inserts o inserts;
      distinct = IsDistinct-Inserts o inserts fresh distinct;
      others = λ c. holds-Inserts o c inserts;
      frame = insert_record-SameFrame o book;
    }

-- What `rest_remainder` adds to the book.
abbrev pub can_rest : SecretOrder → ℕ → ℕ
can_rest order remaining = if is_gtc order.time_in_force then remaining else 0

module _ (order : SecretOrder) (authority : OrderAuthority) (sequence remaining : ℕ)
    (book : PrivateBook) (distinct : IsDistinct (view book))
    (fresh : holds authority.commitment (view book) ≡ false) where
  pub record Rested (book' : PrivateBook) : Type 0 where
    pub quantity :
        resting_quantity (view book') ≡ resting_quantity (view book) + can_rest order remaining
    pub distinct' : IsDistinct (view book')
    pub none_new :
        (c : OrderCommitment)
        → (authority.commitment == c) ≡ false
        → holds c (view book) ≡ false
        → holds c (view book') ≡ false
    pub frame : SameFrame book book'

  pub rest_remainder-Rested : Rested (rest_remainder order authority sequence remaining book)
  unfolding rest_remainder
  rest_remainder-Rested = elim (Bool-cases (ltb 0 remaining && is_gtc order.time_in_force)) [
    | inl rests ↦
        let o : RestingOrder = record {
          secret = order;
          authority = authority;
          remaining = remaining;
          sequence = sequence;
        } in
        let i = insert_record-Inserted o book distinct fresh in
        rw rests (record {
          quantity = ground (arith, i.quantity);
          distinct' = i.distinct;
          none_new = λ c other absent. ground (arith, i.others c);
          frame = i.frame;
        })
    | inr gone ↦ rw gone (record {
      quantity = ground arith;
      distinct' = distinct;
      none_new = λ c other absent. absent;
      frame = SameFrame-refl book;
    })
  ]

-- Admitting a command keeps the invariant, if the only order that may be new is its own.
pub admit-IsBook :
    (command : OrderCommitment) (sequence : ℕ) (book before : PrivateBook)
    → book.admitted ≡ before.admitted
    → IsDistinct (view book)
    → ((c : OrderCommitment)
        → contains c before.admitted ≡ false
        → (command == c) ≡ false
        → holds c (view book) ≡ false)
    → IsBook (admit command sequence book)
unfolding admit
admit-IsBook command sequence book before same distinct known = record {
  distinct = distinct;
  known = λ c absent. ground (arith, known c);
}

-- The admitted command is known from then on, and the sequence number is its own.
pub admit_recorded :
    (command : OrderCommitment) (sequence : ℕ) (book : PrivateBook)
    → (contains command (admit command sequence book).admitted ≡ true)
      × ((admit command sequence book).sequence ≡ sequence)
      × (view (admit command sequence book) ≡ view book)
unfolding admit
admit_recorded command sequence book = (ground arith, refl, refl)
