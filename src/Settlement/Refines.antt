-- ===== src/Settlement/Refines.antt =====
-- The abstract view of settlement: what each participant holds of each kind, changed by a delivery
-- against payment for each fill. It forgets commitments, reservations, proofs and roots.
use oclob.Base.{
  ℕ, ◌+◌, ◌*◌, ◌≡◌, refl, false, List, [], ◌∷◌, ok, BTreeMap, insert, get-insert, arith, >>=-eq-ok,
  length, ◌==◌,
}
use oclob.Crypto.{Primitives, Digest32}
use oclob.Order.Authority.{OrderCommitment}
use oclob.Book.Operations.Transitions.{PublicFill}
use oclob.Proofs.Binding.{TransitionAuthorization}
use oclob.Settlement.{ReservationKind}
use oclob.Settlement.Fills.{ConsumedFill}
use oclob.Settlement.Engine.{ParticipantBalances, SettlementEngine}
use oclob.Settlement.Batch.{Rails, CollaborativeFillProof, SettlementReceipt, Staged}
use oclob.Settlement.Settle.{check_batch, stage_batch, settle_batch_collaborative}
use oclob.Settlement.Rounds.{BatchContext, settle_fill, settle_fills}
use oclob.Settlement.Accounts.{held, Moved, Parted, transfer-Moved, find_accounts-Parted}
use oclob.Settlement.Filled.{settle_fill-Filled, close_batch-Closed}
use oclob.Settlement.Spent.{check_batch-length}
use oclob.Settlement.Receipts.{settle_batch_collaborative-Settled}

abbrev pub Ledger : Type 0
Ledger = Digest32 → ReservationKind → ℕ

abbrev pub ledger_of : BTreeMap ParticipantBalances → Ledger
ledger_of accounts handle kind = held handle kind accounts

-- Delivery against payment: one participant gives the quantity and gets its value, another one
-- gets the quantity and gives its value, and nobody else changes.
pub record Trade (fill : PublicFill) (before after : Ledger) : Type 0 where
  seller : Digest32
  buyer : Digest32
  apart : (seller == buyer) ≡ false
  delivers :
      after seller ReservationKind.securities + fill.quantity
      ≡ before seller ReservationKind.securities
  is_paid :
      after seller ReservationKind.cash
      ≡ before seller ReservationKind.cash + fill.price * fill.quantity
  receives :
      after buyer ReservationKind.securities
      ≡ before buyer ReservationKind.securities + fill.quantity
  pays :
      after buyer ReservationKind.cash + fill.price * fill.quantity
      ≡ before buyer ReservationKind.cash
  others :
      (handle : Digest32) (kind : ReservationKind)
      → (handle == seller) ≡ false
      → (handle == buyer) ≡ false
      → after handle kind ≡ before handle kind

-- The fills' trades, in their order.
pub data Trades : List PublicFill → Ledger → Ledger → Type 0 where
  done : {a : Ledger} → Trades [] a a
  next :
      {fill : PublicFill} {fills : List PublicFill} {a b c : Ledger}
      → Trade fill a b
      → Trades fills b c
      → Trades (fill ∷ fills) a c

Moved-Trade :
    (fill : PublicFill) (c : ConsumedFill) (seller buyer seller' buyer' : ParticipantBalances)
    (accounts : BTreeMap ParticipantBalances)
    → Parted c seller buyer accounts
    → Moved fill.quantity (fill.price * fill.quantity) seller buyer seller' buyer'
    → Trade fill
        (ledger_of accounts)
        (ledger_of (insert c.buyer_handle buyer' (insert c.seller_handle seller' accounts)))
Moved-Trade fill c seller buyer seller' buyer' accounts p m = record {
  seller = c.seller_handle;
  buyer = c.buyer_handle;
  apart = p.apart;
  delivers = rw (get-insert, get-insert, p.seller_found) (ground (arith, p.apart, m));
  is_paid = rw (get-insert, get-insert, p.seller_found) (ground (arith, p.apart, m));
  receives = rw (get-insert, get-insert, p.buyer_found) (ground (arith, p.apart, m));
  pays = rw (get-insert, get-insert, p.buyer_found) (ground (arith, p.apart, m));
  others = λ handle kind s b. rw (get-insert, get-insert, s, b) refl;
}

module _ (p : Primitives) (rails : Rails) where
  settle_fills-Trades :
      (context : BatchContext) (index : ℕ) (fills : List PublicFill)
      (proofs : List CollaborativeFillProof) (staged staged' : Staged)
      → length fills ≡ length proofs
      → settle_fills p rails context index fills proofs staged ≡ ok staged'
      → Trades fills (ledger_of staged.participants) (ledger_of staged'.participants)
  unfolding settle_fills
  settle_fills-Trades context index [] proofs staged staged' l e =
      let is : staged ≡ staged' = cc in rw (← is) Trades.done
  settle_fills-Trades context index (fill ∷ fills) [] staged staged' l e = absurd (omega (arith, l))
  settle_fills-Trades context index (fill ∷ fills) (proof ∷ proofs) staged staged' l e =
      let (middle, e1, e2) = >>=-eq-ok (settle_fill p rails context index fill proof staged) _ e in
      let f = settle_fill-Filled p rails context index fill proof staged middle e1 in
      let trade =
        Moved-Trade fill f.c f.accounts.0 f.accounts.1 f.after.0 f.after.1 staged.participants
          (find_accounts-Parted f.c staged.participants f.accounts f.finds)
          (transfer-Moved rails fill f.bundle f.accounts.0 f.accounts.1 f.after f.transfers) in
      let trade' = rw (← f.participants) at trade in
      Trades.next trade'
        (settle_fills-Trades context (index + 1) fills proofs middle staged' (omega (arith, l)) e2)

  -- A batch that settles is, for what the participants hold, the trades of its fills, one after the
  -- other, each between two participants and for exactly its quantity and its value.
  pub settle_batch_collaborative-Trades :
      (fills : List PublicFill) (proofs : List CollaborativeFillProof) (round_id : Digest32)
      (transition : TransitionAuthorization) (arriving : OrderCommitment) (remaining now : ℕ)
      (engine after : SettlementEngine) (receipt : SettlementReceipt)
      → settle_batch_collaborative p rails fills proofs round_id transition arriving remaining now
          engine
        ≡ (ok receipt, after)
      → Trades fills (ledger_of engine.participants) (ledger_of after.participants)
  unfolding stage_batch
  settle_batch_collaborative-Trades fills proofs round_id transition arriving remaining now engine
        after receipt h =
      let s =
        settle_batch_collaborative-Settled p rails fills proofs round_id transition arriving
          remaining now engine after receipt h in
      let start : Staged = record {
        reservations = engine.reservations;
        participants = engine.participants;
        spent = engine.spent_instructions;
        members = [];
      } in
      let (context, e1, r1) =
        >>=-eq-ok
          (check_batch p rails fills proofs round_id transition arriving remaining now engine) _
          s.staging in
      let (staged, e2, r2) = >>=-eq-ok (settle_fills p rails context 0 fills proofs start) _ r1 in
      let closed = close_batch-Closed p rails fills arriving remaining engine staged s.staged r2 in
      let trades =
        settle_fills-Trades context 0 fills proofs start staged
          (check_batch-length p rails fills proofs round_id transition arriving remaining now engine
            context e1)
          e2 in
      rw (s.after_is, closed.participants) trades
