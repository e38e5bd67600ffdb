-- ===== src/Settlement/Usage.antt =====
-- What the active reservations of a participant use of its balances, and how much less each
-- operation on a reservation leaves in use.
use oclob.Base.{
  ℕ, ◌+◌, ◌≤◌, ◌<◌, ◌≡◌, refl, ap, ◌∙◌, u64_bound, Bool, true, false, ◌&&◌, some, List, [], ◌∷◌, ok,
  arith, map, keep, BTreeMap, get, values, total, IsSorted, AllValues, insert-IsSorted,
  insert-AllValues, get-AllValues, total-insert, ◌==◌, if◌then◌else◌,
}
use oclob.Crypto.{Digest32}
use oclob.Settlement.{
  ReservationKind, ReservationRecord, ReservationBook, kind_eq, is_active, checked_sum,
}
use oclob.Settlement.Reservations.{
  is_reserved_by, remaining_of, put_record, required_for, consume_record,
}

-- What a record uses of one kind of a participant's balance.
abbrev pub usage : Digest32 → ReservationKind → ReservationRecord → ℕ
usage handle kind r = if is_reserved_by handle kind r then r.remaining else 0

abbrev pub used : Digest32 → ReservationKind → ReservationBook → ℕ
used handle kind book = total (usage handle kind) book.records

-- A reservation that is no longer active holds nothing back.
abbrev pub IsIdle : ReservationRecord → Type 0
IsIdle r = is_active r.status ≡ false → r.remaining ≡ 0

-- The same reservation of the same participant, with at least `spent` less in use.
pub record Charged (spent : ℕ) (r r' : ReservationRecord) : Type 0 where
  pub id : r'.reservation_id ≡ r.reservation_id
  pub order : r'.order_commitment ≡ r.order_commitment
  pub handle : r'.participant_handle ≡ r.participant_handle
  pub entity : r'.entity_nullifier ≡ r.entity_nullifier
  pub kind : r'.kind ≡ r.kind
  pub less : r'.remaining + spent ≤ r.remaining
  pub idle : IsIdle r'

required_for_zero :
    (kind : ReservationKind) (price quantity fee : ℕ) {n : ℕ}
    → (if quantity == 0 then ok 0 else required_for kind price quantity fee) ≡ ok n
    → (quantity == 0) ≡ true
    → n ≡ 0
required_for_zero kind price quantity fee h z = ground (arith, h, z)

pub consume_record-Charged :
    (spent quantity : ℕ) (r r' : ReservationRecord)
    → consume_record spent quantity r ≡ ok r'
    → Charged spent r r'
unfolding consume_record
consume_record-Charged spent quantity r r' h = ground (arith)

-- What a charge of a kind takes from a participant's balance.
abbrev pub charge : Digest32 → ReservationKind → ReservationRecord → ℕ → ℕ
charge handle kind r spent =
    if r.participant_handle == handle && kind_eq r.kind kind then spent else 0

pub Charged-usage :
    (handle : Digest32) (kind : ReservationKind) (spent : ℕ) (r r' : ReservationRecord)
    → Charged spent r r'
    → is_active r.status ≡ true
    → usage handle kind r' + charge handle kind r spent ≤ usage handle kind r
Charged-usage handle kind spent r r' c a = ground (arith, c)

abbrev pub sum : List ℕ → ℕ
sum [] = 0
sum (x ∷ xs) = x + sum xs

-- The checked sum of the reservations is what they use.
pub checked_sum_total : (xs : List ℕ) (acc n : ℕ) → checked_sum acc xs ≡ some n → n ≡ acc + sum xs
checked_sum_total [] acc n h = ground arith
checked_sum_total (x ∷ xs) acc n h = ground (arith, checked_sum_total xs (acc + x) n)

-- The filtered records' remainders, summed, are the sum of a function that is 0 at the others.
sum_kept :
    (test : ReservationRecord → Bool) (m : BTreeMap ReservationRecord)
    → sum (map remaining_of (keep test (values m)))
      ≡ total (λ r. if test r then r.remaining else 0) m
sum_kept test [] = refl
sum_kept test ((id, r) ∷ m) = ground (arith, sum_kept test m)

pub checked_sum_kept :
    (test : ReservationRecord → Bool) (m : BTreeMap ReservationRecord) (n : ℕ)
    → checked_sum 0 (map remaining_of (keep test (values m))) ≡ some n
    → n ≡ total (λ r. if test r then r.remaining else 0) m
checked_sum_kept test m n h =
    omega
      (arith, checked_sum_total (map remaining_of (keep test (values m))) 0 n h, sum_kept test m)

checked_sum_complete :
    (xs : List ℕ) (acc : ℕ) → acc + sum xs < u64_bound → checked_sum acc xs ≡ some (acc + sum xs)
checked_sum_complete [] acc h = ap some (omega arith)
checked_sum_complete (x ∷ xs) acc h =
    let rest = checked_sum_complete xs (acc + x) (omega (arith, h)) in ground (arith, rest, h)

-- A sum below 2^64 is found.
pub checked_sum_found :
    (test : ReservationRecord → Bool) (m : BTreeMap ReservationRecord)
    → total (λ r. if test r then r.remaining else 0) m < u64_bound
    → checked_sum 0 (map remaining_of (keep test (values m)))
      ≡ some (total (λ r. if test r then r.remaining else 0) m)
checked_sum_found test m h =
    checked_sum_complete (map remaining_of (keep test (values m))) 0
      (omega (arith, sum_kept test m, h))
    ∙ ap some (omega (arith, sum_kept test m))

abbrev pub IsBound : BTreeMap Digest32 → ReservationRecord → Type 0
IsBound entities r = get r.participant_handle entities ≡ some r.entity_nullifier

pub record IsReservations (book : ReservationBook) : Type 0 where
  pub sorted : IsSorted book.records
  pub idle : AllValues IsIdle book.records
  pub bound : AllValues (IsBound book.participant_entities) book.records
  pub paired :
      (handle entity : Digest32)
      → get handle book.participant_entities ≡ some entity
      → get entity book.entity_participants ≡ some handle

-- Putting back a changed record of the same participant.
pub put_record-IsReservations :
    (id : Digest32) (r r' : ReservationRecord) (book : ReservationBook)
    → IsReservations book
    → get id book.records ≡ some r
    → r'.participant_handle ≡ r.participant_handle
    → r'.entity_nullifier ≡ r.entity_nullifier
    → IsIdle r'
    → IsReservations (put_record id r' book)
put_record-IsReservations id r r' book h e handle entity idle = record {
  sorted = insert-IsSorted id r' book.records h.sorted;
  idle = insert-AllValues IsIdle id r' book.records idle h.idle;
  bound =
      insert-AllValues (IsBound book.participant_entities) id r' book.records
        (rw (handle, entity)
          (get-AllValues (IsBound book.participant_entities) id r book.records h.bound e))
        h.bound;
  paired = h.paired;
}

pub put_record-used :
    (handle : Digest32) (kind : ReservationKind) (id : Digest32) (r r' : ReservationRecord)
    (book : ReservationBook)
    → IsReservations book
    → get id book.records ≡ some r
    → used handle kind (put_record id r' book) + usage handle kind r
      ≡ used handle kind book + usage handle kind r'
put_record-used handle kind id r r' book h e =
    let put = total-insert (usage handle kind) id r' book.records h.sorted in rw e at put
