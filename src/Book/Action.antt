-- ===== src/Book/Action.antt =====
-- A method on `&mut self` that may fail. What was written before a failure stays written, so the
-- book comes back beside the error too.
use oclob.Base.{Bool, Result, ok, err, if◌then◌else◌}
use oclob.Order.{OrderError}
use oclob.Book.Store.{PrivateBook}

abbrev pub Action {ℓ} : Type ℓ → Type ℓ
Action A = PrivateBook → Result A OrderError × PrivateBook

module _ {ℓ} {A : Type ℓ} where
  abbrev pub pure : A → Action A
  pure a book = (ok a, book)

  -- A check or a query that reads the book.
  abbrev pub reads : (PrivateBook → Result A OrderError) → Action A
  reads f book = (f book, book)

  abbrev pub gets : (PrivateBook → A) → Action A
  gets f book = (ok (f book), book)

abbrev pub modify : (PrivateBook → PrivateBook) → Action (Unit {0})
modify f book = (ok tt, f book)

abbrev pub fail_if : Bool → OrderError → Action (Unit {0})
fail_if c e book = (if c then err e else ok tt, book)

abbrev pub continue {ℓ κ} :
    {A : Type ℓ} {B : Type κ} → Result A OrderError → (A → Action B) → Action B
continue (ok a) f book = f a book
continue (err e) f book = (err e, book)

infixl 5 ◌>>=◌ ◌>>◌
abbrev pub ◌>>=◌ {ℓ κ} : {A : Type ℓ} {B : Type κ} → Action A → (A → Action B) → Action B
◌>>=◌ m f book = continue (m book).0 f (m book).1

abbrev pub ◌>>◌ {ℓ} : {B : Type ℓ} → Action (Unit {0}) → Action B → Action B
m >> k = m >>= λ _. k
