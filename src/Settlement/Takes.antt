-- ===== src/Settlement/Takes.antt =====
-- What the operations of one fill take from the reservations: the seller's securities and the
-- buyer's cash, and nothing of anybody else's.
use oclob.Base.{
  ◌∙◌, ℕ, ◌+◌, ◌*◌, ◌≤◌, ◌≡◌, refl, true, false, some, List, Result, ok, err, arith, Result-cases,
  inl, inr, get, get-insert, ◌==◌, if◌then◌else◌,
}
use oclob.Crypto.{Digest32}
use oclob.Book.Operations.Transitions.{PublicFill}
use oclob.Settlement.{
  SettlementError, ReservationKind, ReservationRecord, ReservationBook, kind_eq, is_active,
}
use oclob.Settlement.Reservations.{put_record, consume_record}
use oclob.Settlement.Fills.{
  ConsumedFill, Parties, spent_by, seller_of, check_fill, find_parties, consumed_fill,
  consume_parties, consume_fill,
}
use oclob.Settlement.Names.{SameNames, put_record-SameNames}
use oclob.Settlement.Usage.{
  used, Charged, charge, consume_record-Charged, Charged-usage, IsReservations,
  put_record-IsReservations, put_record-used,
}

-- What a fill takes of one kind of a participant's balance.
abbrev pub taken : Digest32 → Digest32 → ℕ → ℕ → Digest32 → ReservationKind → ℕ
taken seller buyer quantity cash handle ReservationKind.securities =
    if seller == handle then quantity else 0
taken seller buyer quantity cash handle ReservationKind.cash = if buyer == handle then cash else 0

-- What an operation on reservations leaves alone.
pub record SameAccounts (book book' : ReservationBook) : Type 0 where
  pub capacities : book'.capacities ≡ book.capacities
  pub participant_entities : book'.participant_entities ≡ book.participant_entities
  pub entity_participants : book'.entity_participants ≡ book.entity_participants
  pub names : SameNames book book'

-- The facts that `find_parties` has checked.
record Matching (fill : PublicFill) (parties : Parties) (book : ReservationBook) : Type 0 where
  maker_found : get parties.maker_id book.records ≡ some parties.maker
  pub taker_found : get parties.taker_id book.records ≡ some parties.taker
  pub apart : (parties.maker_id == parties.taker_id) ≡ false
  pub value : parties.cash ≡ fill.price * fill.quantity
  pub maker_active : is_active parties.maker.status ≡ true
  pub taker_active : is_active parties.taker.status ≡ true
  pub sides : kind_eq parties.maker.kind parties.taker.kind ≡ false

record Checked (maker taker : ReservationRecord) : Type 0 where
  maker_active : is_active maker.status ≡ true
  taker_active : is_active taker.status ≡ true
  sides : kind_eq maker.kind taker.kind ≡ false

check_fill-Checked :
    (fill : PublicFill) (cash : ℕ) (market_id : List ℕ) (now : ℕ) (maker taker : ReservationRecord)
    → check_fill fill cash market_id now maker taker ≡ ok tt
    → Checked maker taker
unfolding check_fill
check_fill-Checked fill cash market_id now maker taker h = ground arith

find_parties-Matching :
    (fill : PublicFill) (market_id : List ℕ) (now : ℕ) (book : ReservationBook) (parties : Parties)
    → find_parties fill market_id now book ≡ ok parties
    → Matching fill parties book
unfolding find_parties
find_parties-Matching fill market_id now book parties h =
    ground (arith, check_fill-Checked fill parties.cash market_id now parties.maker parties.taker)

-- The charges of maker and taker are what the fill takes from seller and buyer.
charges_taken :
    (quantity cash : ℕ) (maker taker : ReservationRecord) (handle : Digest32)
    (kind : ReservationKind)
    → kind_eq maker.kind taker.kind ≡ false
    → taken
        (seller_of maker.kind maker.participant_handle taker.participant_handle)
        (seller_of maker.kind taker.participant_handle maker.participant_handle)
        quantity
        cash
        handle
        kind
      ≡ charge handle kind maker (spent_by maker.kind cash quantity)
        + charge handle kind taker (spent_by taker.kind cash quantity)
charges_taken quantity cash maker taker handle kind sides = ground arith

-- What a step of a fill did to the reservations.
pub record Takes (seller buyer : Digest32) (quantity cash : ℕ) (book book' : ReservationBook)
    : Type 0 where
  pub frame : SameAccounts book book'
  pub keeps : IsReservations book'
  pub takes :
      (handle : Digest32) (kind : ReservationKind)
      → used handle kind book' + taken seller buyer quantity cash handle kind
        ≤ used handle kind book

module _ (fill : PublicFill) (parties : Parties) (book : ReservationBook) (h : IsReservations book)
    (m : Matching fill parties book) where
  abbrev maker_spent : ℕ
  maker_spent = spent_by parties.maker.kind parties.cash fill.quantity

  abbrev taker_spent : ℕ
  taker_spent = spent_by parties.taker.kind parties.cash fill.quantity

  both_put :
      (maker taker : ReservationRecord)
      → Charged maker_spent parties.maker maker
      → Charged taker_spent parties.taker taker
      → let c = consumed_fill parties maker taker in
        Takes c.seller_handle c.buyer_handle fill.quantity parties.cash book
          (put_record parties.taker_id taker (put_record parties.maker_id maker book))
  both_put maker taker cm ct =
      let middle = put_record parties.maker_id maker book in
      let middle_keeps : IsReservations middle =
        put_record-IsReservations parties.maker_id parties.maker maker book h m.maker_found
          cm.handle cm.entity cm.idle in
      let found : get parties.taker_id middle.records ≡ some parties.taker =
        rw get-insert (ground (arith, m.apart, m.taker_found)) in
      record {
        frame = record {
          capacities = refl;
          participant_entities = refl;
          entity_participants = refl;
          names = λ id.
              put_record-SameNames parties.taker_id parties.taker taker middle found ct.id ct.order
                id
              ∙ put_record-SameNames parties.maker_id parties.maker maker book m.maker_found cm.id
                  cm.order id;
        };
        keeps =
            put_record-IsReservations parties.taker_id parties.taker taker middle middle_keeps found
              ct.handle ct.entity ct.idle;
        takes = λ handle kind. omega (
          arith,
          put_record-used handle kind parties.maker_id parties.maker maker book h m.maker_found,
          put_record-used handle kind parties.taker_id parties.taker taker middle middle_keeps
              found,
          Charged-usage handle kind maker_spent parties.maker maker cm m.maker_active,
          Charged-usage handle kind taker_spent parties.taker taker ct m.taker_active,
          charges_taken fill.quantity parties.cash parties.maker parties.taker handle kind m.sides,
        );
      }

  consumed_step :
      (first second : Result ReservationRecord SettlementError) (c : ConsumedFill)
      (book' : ReservationBook)
      → ((maker : ReservationRecord) → first ≡ ok maker → Charged maker_spent parties.maker maker)
      → ((taker : ReservationRecord) → second ≡ ok taker → Charged taker_spent parties.taker taker)
      → ◌≡◌ {A = Result ConsumedFill SettlementError × ReservationBook}
          (elim first [
            | err e ↦ (err e, book)
            | ok maker ↦
                let middle = put_record parties.maker_id maker book in
                elim second [
                  | err e ↦ (err e, middle)
                  | ok taker ↦ (
                    ok (consumed_fill parties maker taker),
                    put_record parties.taker_id taker middle,
                  )
                ]
          ])
          (ok c, book')
      → Takes c.seller_handle c.buyer_handle fill.quantity parties.cash book book'
  consumed_step (err e) second c book' cm ct g = absurd (cc)
  consumed_step (ok maker) (err e) c book' cm ct g = absurd (cc)
  consumed_step (ok maker) (ok taker) c book' cm ct g =
      let both = both_put maker taker (cm maker refl) (ct taker refl) in
      let c_is : consumed_fill parties maker taker ≡ c = cc in
      let book_is : put_record parties.taker_id taker (put_record parties.maker_id maker book)
          ≡ book' =
        cc in
      rw (← c_is, ← book_is) both

  consume_parties-Takes :
      (c : ConsumedFill) (book' : ReservationBook)
      → consume_parties fill parties book ≡ (ok c, book')
      → Takes c.seller_handle c.buyer_handle fill.quantity parties.cash book book'
  unfolding consume_parties
  consume_parties-Takes c book' g =
      consumed_step (consume_record maker_spent fill.quantity parties.maker)
        (consume_record taker_spent fill.quantity parties.taker) c book'
        (λ maker e. consume_record-Charged maker_spent fill.quantity parties.maker maker e)
        (λ taker e. consume_record-Charged taker_spent fill.quantity parties.taker taker e) g

-- A fill that is consumed takes its quantity from the seller's reserved securities and its value
-- from the buyer's reserved cash.
pub consume_fill-Takes :
    (fill : PublicFill) (market_id : List ℕ) (now : ℕ) (book : ReservationBook) (c : ConsumedFill)
    (book' : ReservationBook)
    → IsReservations book
    → consume_fill fill market_id now book ≡ (ok c, book')
    → Takes c.seller_handle c.buyer_handle fill.quantity (fill.price * fill.quantity) book book'
unfolding consume_fill
consume_fill-Takes fill market_id now book c book' h g =
    elim (Result-cases (find_parties fill market_id now book)) [
      | inr (e, f) ↦ absurd (ground (arith, f, g))
      | inl (parties, f) ↦
          let m = find_parties-Matching fill market_id now book parties f in
          let step : consume_parties fill parties book ≡ (ok c, book') = ground (arith, f, g) in
          rw m.value at (consume_parties-Takes fill parties book h m c book' step)
    ]
