-- ===== src/Settlement/Solvency.antt =====
-- The invariant of the engine, that the accounts cover what the reservations hold back, over one
-- fill of a batch.
use oclob.Base.{ℕ, ◌∙◌, ◌*◌, ◌≤◌, ◌≡◌, true, some, ok, arith, BTreeMap, get, IsSorted}
use oclob.Crypto.{Primitives, Digest32}
use oclob.Book.Operations.Transitions.{PublicFill}
use oclob.Settlement.{ReservationKind, ReservationBook}
use oclob.Settlement.Reservations.{is_some}
use oclob.Settlement.Engine.{ParticipantBalances, SettlementEngine}
use oclob.Settlement.Batch.{Rails, CollaborativeFillProof, Staged}
use oclob.Settlement.Rounds.{BatchContext, settle_fill}
use oclob.Settlement.Filled.{settle_fill-Filled}
use oclob.Settlement.Names.{SameNames}
use oclob.Settlement.Usage.{used, IsReservations}
use oclob.Settlement.Takes.{Takes, consume_fill-Takes}
use oclob.Settlement.Frees.{Frees, apply_collaborative_remainders-Frees}
use oclob.Settlement.Accounts.{
  balance, held, supply, Exchanged, transfer-Moved, find_accounts-Parted, moved-Exchanged,
}
use oclob.Settlement.Capacities.{capacity}

pub record IsCovered (book : ReservationBook) (accounts : BTreeMap ParticipantBalances)
    : Type 0 where
  pub reservations : IsReservations book
  pub sorted : IsSorted accounts
  pub opened :
      (handle entity : Digest32)
      → get handle book.participant_entities ≡ some entity
      → is_some (get handle accounts) ≡ true
  pub covered :
      (handle : Digest32) (kind : ReservationKind)
      → used handle kind book ≤ held handle kind accounts

abbrev pub IsCurrent : ReservationBook → BTreeMap ParticipantBalances → Type 0
IsCurrent book accounts =
    (handle entity : Digest32) (kind : ReservationKind) (balances : ParticipantBalances)
    → get handle book.participant_entities ≡ some entity
    → get handle accounts ≡ some balances
    → capacity entity kind book ≡ some (balance kind balances)

-- The reservations of every participant are covered by its account, every participant that is
-- bound to an entity has an account, and the capacities of its entity are its balances.
pub record IsSolvent (engine : SettlementEngine) : Type 0 where
  pub covered : IsCovered engine.reservations engine.participants
  pub current : IsCurrent engine.reservations engine.participants

-- A step on the staged copies keeps them covered and creates no cash and no securities.
pub record Settles (accounts accounts' : BTreeMap ParticipantBalances)
    (book book' : ReservationBook) : Type 0 where
  pub names : SameNames book book'
  pub covered : IsCovered book' accounts'
  pub conserves : (kind : ReservationKind) → supply kind accounts' ≡ supply kind accounts

fill_IsCovered :
    (seller buyer : Digest32) (quantity cash : ℕ) (book middle book' : ReservationBook)
    (accounts accounts' : BTreeMap ParticipantBalances)
    → IsCovered book accounts
    → Takes seller buyer quantity cash book middle
    → Frees middle book'
    → Exchanged seller buyer quantity cash accounts accounts'
    → IsCovered book' accounts'
fill_IsCovered seller buyer quantity cash book middle book' accounts accounts' h t f x = record {
  reservations = f.keeps;
  sorted = x.sorted;
  opened = λ handle entity known. x.opened handle (
      h.opened handle entity
        (rw (f.frame.participant_entities, t.frame.participant_entities) at known));
  covered = λ handle kind. omega (
    arith,
    h.covered handle kind,
    t.takes handle kind,
    f.frees handle kind,
    x.covers handle kind,
  );
}

abbrev pub reservations_of : Staged → ReservationBook
reservations_of staged = staged.reservations

abbrev pub participants_of : Staged → BTreeMap ParticipantBalances
participants_of staged = staged.participants

module _ (p : Primitives) (rails : Rails) where
  pub settle_fill-Settles :
      (context : BatchContext) (index : ℕ) (fill : PublicFill) (proof : CollaborativeFillProof)
      (staged staged' : Staged)
      → IsCovered staged.reservations staged.participants
      → settle_fill p rails context index fill proof staged ≡ ok staged'
      → Settles staged.participants staged'.participants staged.reservations staged'.reservations
  settle_fill-Settles context index fill proof staged staged' h e =
      let f = settle_fill-Filled p rails context index fill proof staged staged' e in
      let took =
        consume_fill-Takes fill context.market_id context.now staged.reservations f.c f.middle
          h.reservations f.consumes in
      let freed =
        apply_collaborative_remainders-Frees f.c f.bundle.securities_remainder
          f.bundle.cash_remainder proof.maker_pool_remainder f.middle staged'.reservations
          took.keeps f.recommits in
      let exchanged =
        moved-Exchanged f.c fill.quantity (fill.price * fill.quantity) f.accounts.0 f.accounts.1
          f.after.0 f.after.1 staged.participants h.sorted
          (find_accounts-Parted f.c staged.participants f.accounts f.finds)
          (transfer-Moved rails fill f.bundle f.accounts.0 f.accounts.1 f.after f.transfers) in
      let exchanged' = rw (← f.participants) at exchanged in
      record {
        names = λ id. freed.frame.names id ∙ took.frame.names id;
        covered =
            fill_IsCovered f.c.seller_handle f.c.buyer_handle fill.quantity
              (fill.price * fill.quantity) staged.reservations f.middle staged'.reservations
              staged.participants staged'.participants h took freed exchanged';
        conserves = exchanged'.conserves;
      }
