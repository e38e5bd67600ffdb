-- ===== src/Settlement/Accounts.antt =====
-- What a fill moves between the accounts of its seller and its buyer.
use oclob.Base.{
  ℕ, ◌+◌, ◌*◌, ◌≤◌, ◌≡◌, refl, true, false, some, ok, arith, BTreeMap, get, insert, get-insert,
  total, share, IsSorted, insert-IsSorted, total-insert, ◌==◌, if◌then◌else◌,
}
use oclob.Crypto.{Digest32}
use oclob.Book.Operations.Transitions.{PublicFill}
use oclob.Settlement.{ReservationKind, checked_credit, checked_debit}
use oclob.Settlement.Reservations.{is_some}
use oclob.Settlement.Fills.{ConsumedFill}
use oclob.Settlement.Engine.{ParticipantBalances}
use oclob.Settlement.Batch.{Rails, SettlementPackage, transfer, find_accounts}
use oclob.Settlement.Takes.{taken}

-- An account's balance of a kind.
abbrev pub balance : ReservationKind → ParticipantBalances → ℕ
balance ReservationKind.cash b = b.cash.value
balance ReservationKind.securities b = b.securities.value

-- What a participant holds of a kind; a participant without an account holds nothing.
abbrev pub held : Digest32 → ReservationKind → BTreeMap ParticipantBalances → ℕ
held handle kind accounts = share (balance kind) (get handle accounts)

-- All that the accounts hold of a kind.
abbrev pub supply : ReservationKind → BTreeMap ParticipantBalances → ℕ
supply kind accounts = total (balance kind) accounts

-- The accounts of seller and buyer after a fill.
pub record Moved (quantity cash : ℕ) (seller buyer seller' buyer' : ParticipantBalances)
    : Type 0 where
  pub seller_securities : seller'.securities.value + quantity ≡ seller.securities.value
  pub seller_cash : seller'.cash.value ≡ seller.cash.value + cash
  pub buyer_securities : buyer'.securities.value ≡ buyer.securities.value + quantity
  pub buyer_cash : buyer'.cash.value + cash ≡ buyer.cash.value

pub transfer-Moved :
    (rails : Rails) (fill : PublicFill) (bundle : SettlementPackage)
    (seller buyer : ParticipantBalances) (after : ParticipantBalances × ParticipantBalances)
    → transfer rails fill bundle seller buyer ≡ ok after
    → Moved fill.quantity (fill.price * fill.quantity) seller buyer after.0 after.1
unfolding transfer checked_debit checked_credit
transfer-Moved rails fill bundle seller buyer (seller', buyer') h = record {
  seller_securities = ground arith;
  seller_cash = ground arith;
  buyer_securities = ground arith;
  buyer_cash = ground arith;
}

-- The accounts that a fill changes.
pub record Parted (c : ConsumedFill) (seller buyer : ParticipantBalances)
    (accounts : BTreeMap ParticipantBalances) : Type 0 where
  pub apart : (c.seller_handle == c.buyer_handle) ≡ false
  pub seller_found : get c.seller_handle accounts ≡ some seller
  pub buyer_found : get c.buyer_handle accounts ≡ some buyer

pub find_accounts-Parted :
    (c : ConsumedFill) (accounts : BTreeMap ParticipantBalances)
    (found : ParticipantBalances × ParticipantBalances)
    → find_accounts c accounts ≡ ok found
    → Parted c found.0 found.1 accounts
unfolding find_accounts
find_accounts-Parted c accounts (seller, buyer) h = ground arith

-- What the accounts became, whatever the participant and the kind.
pub record Exchanged (seller buyer : Digest32) (quantity cash : ℕ)
    (accounts accounts' : BTreeMap ParticipantBalances) : Type 0 where
  pub sorted : IsSorted accounts'
  pub opened :
      (handle : Digest32)
      → is_some (get handle accounts) ≡ true
      → is_some (get handle accounts') ≡ true
  pub covers :
      (handle : Digest32) (kind : ReservationKind)
      → held handle kind accounts
        ≤ held handle kind accounts' + taken seller buyer quantity cash handle kind
  pub conserves : (kind : ReservationKind) → supply kind accounts' ≡ supply kind accounts

module _ (c : ConsumedFill) (quantity cash : ℕ) (seller buyer seller' buyer' : ParticipantBalances)
    (accounts : BTreeMap ParticipantBalances) (sorted : IsSorted accounts)
    (p : Parted c seller buyer accounts) (m : Moved quantity cash seller buyer seller' buyer') where
  abbrev middle : BTreeMap ParticipantBalances
  middle = insert c.seller_handle seller' accounts

  abbrev moved : BTreeMap ParticipantBalances
  moved = insert c.buyer_handle buyer' middle

  get-moved :
      (handle : Digest32)
      → get handle moved ≡ (
          if handle == c.buyer_handle
          then some buyer'
          else if handle == c.seller_handle
          then some seller'
          else get handle accounts)
  get-moved handle = rw (get-insert, get-insert) refl

  moved_covers :
      (handle : Digest32) (kind : ReservationKind)
      → held handle kind accounts
        ≤ held handle kind moved + taken c.seller_handle c.buyer_handle quantity cash handle kind
  moved_covers handle ReservationKind.cash =
      rw get-moved (ground (arith, p.apart, p.seller_found, p.buyer_found, m))
  moved_covers handle ReservationKind.securities =
      rw get-moved (ground (arith, p.apart, p.seller_found, p.buyer_found, m))

  moved_sums :
      (kind : ReservationKind)
      → supply kind moved + (balance kind seller + balance kind buyer)
        ≡ supply kind accounts + (balance kind seller' + balance kind buyer')
  moved_sums kind =
      let first = total-insert (balance kind) c.seller_handle seller' accounts sorted in
      let second =
        total-insert (balance kind) c.buyer_handle buyer' middle
          (insert-IsSorted c.seller_handle seller' accounts sorted) in
      let buyer_kept : get c.buyer_handle middle ≡ some buyer =
        rw get-insert (ground (arith, p.apart, p.buyer_found)) in
      let first' = rw p.seller_found at first in
      let second' = rw buyer_kept at second in omega (arith, first', second')

  moved_conserves : (kind : ReservationKind) → supply kind moved ≡ supply kind accounts
  moved_conserves ReservationKind.cash =
      omega (arith, moved_sums ReservationKind.cash, m.seller_cash, m.buyer_cash)
  moved_conserves ReservationKind.securities =
      omega (arith, moved_sums ReservationKind.securities, m.seller_securities, m.buyer_securities)

  pub moved-Exchanged : Exchanged c.seller_handle c.buyer_handle quantity cash accounts moved
  moved-Exchanged = record {
    sorted =
        insert-IsSorted c.buyer_handle buyer' middle
          (insert-IsSorted c.seller_handle seller' accounts sorted);
    opened = λ handle open_before. rw get-moved (ground (arith, open_before));
    covers = moved_covers;
    conserves = moved_conserves;
  }
