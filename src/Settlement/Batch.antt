-- ===== src/Settlement/Batch.antt =====
-- rust/oclob-settlement/src/lib.rs: `settle_batch_collaborative`, which settles the fills of one
-- arriving order on staged copies of the reservations, the accounts and the spent instructions.
-- The ledgers, the zkpi packages and the canonical readback are other crates, and the proof of a fill
-- (rust/oclob-settlement/src/collaborative.rs) is checked by their cryptography: they are the fields of
-- `Rails`. A transaction's id and a block's id are the digests whose hexadecimal text they are.
use oclob.Base.{
  ℕ, Bool, true, false, ◌&&◌, ◌||◌, String, List, [], ◌∷◌, ◌++◌, Result, ok, err, ◌>>=◌, ◌>>◌,
  reject_if, ok_or, BTreeMap, get, values, contains, checked_mul, be_bytes, ◌==◌,
}
use oclob.Crypto.{Digest32}
use oclob.Order.Authority.{OrderCommitment}
use oclob.Book.Operations.Transitions.{PublicFill}
use oclob.Settlement.{
  SettlementError, ReservationKind, ReservationBook, Point, checked_credit, checked_debit,
}
use oclob.Settlement.Reservations.{refresh_capacity}
use oclob.Settlement.Fills.{ConsumedFill}
use oclob.Settlement.Engine.{ParticipantBalances, SettlementCommittee, commitment_only}

pub data PriceLimitDirection : Type 0 where
  maximum_buy_price minimum_sell_price : PriceLimitDirection

abbrev pub direction_eq : PriceLimitDirection → PriceLimitDirection → Bool
direction_eq PriceLimitDirection.maximum_buy_price PriceLimitDirection.maximum_buy_price = true
direction_eq PriceLimitDirection.maximum_buy_price PriceLimitDirection.minimum_sell_price = false
direction_eq PriceLimitDirection.minimum_sell_price PriceLimitDirection.maximum_buy_price = false
direction_eq PriceLimitDirection.minimum_sell_price PriceLimitDirection.minimum_sell_price = true

-- A fill's proof: the fields that settlement reads, and the rest of it.
pub record CollaborativeFillProof : Type 0 where
  pub limit_direction : PriceLimitDirection
  pub maker_pool_remainder : Point
  pub body : List ℕ

pub record CollaborativeSettlementContext : Type 0 where
  pub expected_job_id : Digest32
  pub market_proof_digest : Digest32
  pub maker_handle : Point
  pub taker_handle : Point
  pub maker_reserve : Point
  pub taker_reserve : Point
  pub asset_id : Digest32
  pub committee : SettlementCommittee
  pub now : ℕ

-- The settlement package that a proof carries.
pub record SettlementPackage : Type 0 where
  pub digest : Digest32
  pub instruction_nullifier : Digest32
  pub instruction_wire : List ℕ
  pub amount_commitment : Point
  pub cash_commitment : Point
  pub securities_remainder : Point
  pub cash_remainder : Point

pub record CanonicalTransition : Type 0 where
  pub transaction_id : Digest32
  pub block_id : Digest32
  pub height : ℕ
  pub statement : Digest32
  pub before_state_root : Digest32
  pub after_state_root : Digest32

pub record Rails : Type 0 where
  pub point_add : Point → Point → Point
  pub point_sub : Point → Point → Point
  pub securities_account : Point → Digest32
  pub cash_account : Point → Digest32
  pub ledger_snapshot : List (Digest32 × Point) → Digest32
  pub ledger_conserved : List (Digest32 × Point) → Bool
  pub collaborative_job_id : Digest32 → ℕ → Digest32 → Result Digest32 String
  pub verify_for_settlement :
      CollaborativeFillProof → CollaborativeSettlementContext → Result SettlementPackage String
  pub manifest_digest : Result Digest32 String
  pub readback : Digest32 → Digest32 → Result Digest32 String
  pub accept_canonical_transition :
      Digest32 → CanonicalTransition → Digest32 → Digest32 → List Digest32 → Result Digest32 String

pub record MemberReceipt : Type 0 where
  pub instruction_nullifier : Digest32
  pub zkpi_digest : Digest32
  pub package_digest : Digest32
  pub maker_order : Digest32
  pub taker_order : Digest32
  pub maker_reservation_remaining : ℕ
  pub taker_reservation_remaining : ℕ

-- `OclobSettlementReceipt`, less the fields that this path always fills with the same constant.
pub record SettlementReceipt : Type 0 where
  pub batch_digest : Digest32
  pub members : List MemberReceipt
  pub securities_before_root : Digest32
  pub securities_after_root : Digest32
  pub cash_before_root : Digest32
  pub cash_after_root : Digest32
  pub reservation_before_root : Digest32
  pub reservation_after_root : Digest32
  pub canonical_state_root : Digest32
  pub canonical_receipt_digest : Digest32
  pub canonical_height : ℕ

-- The staged copies, and the receipts of the fills so far, the last one first.
pub record Staged : Type 0 where
  pub reservations : ReservationBook
  pub participants : BTreeMap ParticipantBalances
  pub spent : List Digest32
  pub members : List MemberReceipt

abbrev pub has_empty_fill : List PublicFill → Bool
has_empty_fill [] = false
has_empty_fill (fill ∷ fills) = (fill.quantity == 0 || fill.price == 0) || has_empty_fill fills

abbrev pub has_repeated_maker : List OrderCommitment → List PublicFill → Bool
has_repeated_maker makers [] = false
has_repeated_maker makers (fill ∷ fills) =
    contains fill.maker_order makers || has_repeated_maker (fill.maker_order ∷ makers) fills

abbrev pub quantities : List PublicFill → List ℕ
quantities [] = []
quantities (fill ∷ fills) = fill.quantity ∷ quantities fills

-- What a local copy was changed to; it is dropped if the change failed.
abbrev pub staged_result :
    {A B : Type 0} → Result A SettlementError × B → Result (A × B) SettlementError
staged_result (ok a, b) = ok (a, b)
staged_result (err e, b) = err e

-- The two accounts of a fill after it, the seller's first.
unfoldable pub transfer :
    Rails
    → PublicFill
    → SettlementPackage
    → ParticipantBalances
    → ParticipantBalances
    → Result (ParticipantBalances × ParticipantBalances) SettlementError
transfer rails fill bundle seller buyer = do
  cash_value ←
      ok_or (checked_mul fill.price fill.quantity)
        (SettlementError.reservation "cash fill overflowed")
  seller_securities ← checked_debit seller.securities.value fill.quantity
  buyer_cash ← checked_debit buyer.cash.value cash_value
  seller_cash ← checked_credit seller.cash.value cash_value
  buyer_securities ← checked_credit buyer.securities.value fill.quantity
  ok (
    record seller {
      securities =
          commitment_only seller_securities
            (rails.point_sub seller.securities.commitment bundle.amount_commitment);
      cash =
          commitment_only seller_cash
            (rails.point_add seller.cash.commitment bundle.cash_commitment);
    },
    record buyer {
      cash =
          commitment_only buyer_cash (rails.point_sub buyer.cash.commitment bundle.cash_commitment);
      securities =
          commitment_only buyer_securities
            (rails.point_add buyer.securities.commitment bundle.amount_commitment);
    },
  )

abbrev pub securities_accounts : Rails → List ParticipantBalances → List (Digest32 × Point)
securities_accounts rails [] = []
securities_accounts rails (b ∷ bs) =
    (rails.securities_account b.handle, b.securities.commitment) ∷ securities_accounts rails bs

abbrev pub cash_accounts : Rails → List ParticipantBalances → List (Digest32 × Point)
cash_accounts rails [] = []
cash_accounts rails (b ∷ bs) =
    (rails.cash_account b.handle, b.cash.commitment) ∷ cash_accounts rails bs

-- `ledgers_from_participants`, and whether both of them are conserved.
abbrev pub conserved : Rails → BTreeMap ParticipantBalances → Bool
conserved rails participants =
    rails.ledger_conserved (securities_accounts rails (values participants))
    && rails.ledger_conserved (cash_accounts rails (values participants))

unfoldable pub find_accounts :
    ConsumedFill
    → BTreeMap ParticipantBalances
    → Result (ParticipantBalances × ParticipantBalances) SettlementError
find_accounts consumed participants = do
  reject_if (consumed.seller_handle == consumed.buyer_handle)
      (SettlementError.reservation "self-trading orders cannot produce a DvP between one account")
  seller ←
      ok_or (get consumed.seller_handle participants)
        (SettlementError.reservation "seller account is absent")
  buyer ←
      ok_or (get consumed.buyer_handle participants)
        (SettlementError.reservation "buyer account is absent")
  ok (seller, buyer)

abbrev pub expected_direction : ReservationKind → PriceLimitDirection
expected_direction ReservationKind.securities = PriceLimitDirection.maximum_buy_price
expected_direction ReservationKind.cash = PriceLimitDirection.minimum_sell_price

-- The handles of maker and taker, for the seller's and the buyer's.
abbrev pub by_role : ReservationKind → Point → Point → Point × Point
by_role ReservationKind.securities seller buyer = (seller, buyer)
by_role ReservationKind.cash seller buyer = (buyer, seller)

-- `refresh_capacity` for every account.
unfoldable pub refresh_all :
    BTreeMap ParticipantBalances → ReservationBook → Result ReservationBook SettlementError
refresh_all [] book = ok book
refresh_all ((participant, balances) ∷ rest) book = do
  book' ← refresh_capacity participant balances.cash.value balances.securities.value book
  refresh_all rest book'

unfoldable pub member_bytes : List MemberReceipt → List ℕ
member_bytes [] = []
member_bytes (m ∷ ms) =
    be_bytes 32 m.instruction_nullifier
    ++ (be_bytes 32 m.package_digest
        ++ (be_bytes 32 m.maker_order ++ (be_bytes 32 m.taker_order ++ member_bytes ms)))

-- `members.last_mut()`; the receipts are in reverse.
abbrev pub set_last_remaining : ℕ → List MemberReceipt → List MemberReceipt
set_last_remaining remaining [] = []
set_last_remaining remaining (m ∷ ms) = record m { taker_reservation_remaining = remaining } ∷ ms
