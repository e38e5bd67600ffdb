-- ===== src/Settlement/Names.antt =====
-- Which order a reservation stands for: its id, and the commitment of its order.
use oclob.Base.{
  ◌≡◌, ◌∙◌, refl, sym, ap, Option, none, some, arith, get, get-insert, values, find, BTreeMap,
  IsSorted, get_above, Option-cases, ◌==◌, ℕ, false, Bool-cases, inl, inr, [], ◌∷◌,
}
use oclob.Crypto.{Digest32}
use oclob.Settlement.{ReservationRecord, ReservationBook}
use oclob.Settlement.Reservations.{put_record, has_commitment}

abbrev name_of : Option ReservationRecord → Option (Digest32 × Digest32)
name_of none = none
name_of (some r) = some (r.reservation_id, r.order_commitment)

-- The reservation id and the order commitment of the record under an id.
abbrev pub name_at : Digest32 → ReservationBook → Option (Digest32 × Digest32)
name_at id book = name_of (get id book.records)

abbrev pub SameNames : ReservationBook → ReservationBook → Type 0
SameNames book book' = (id : Digest32) → name_at id book' ≡ name_at id book

-- Every reservation stands under its own id, and no two of them are for one order.
pub record IsNamed (book : ReservationBook) : Type 0 where
  pub sorted : IsSorted book.records
  pub keyed :
      (id : Digest32) (r : ReservationRecord) → get id book.records ≡ some r → r.reservation_id ≡ id
  pub distinct :
      (i j : Digest32) (r s : ReservationRecord)
      → get i book.records ≡ some r
      → get j book.records ≡ some s
      → r.order_commitment ≡ s.order_commitment
      → i ≡ j

pub put_record-SameNames :
    (id : Digest32) (r r' : ReservationRecord) (book : ReservationBook)
    → get id book.records ≡ some r
    → r'.reservation_id ≡ r.reservation_id
    → r'.order_commitment ≡ r.order_commitment
    → SameNames book (put_record id r' book)
put_record-SameNames id r r' book found same_id same_order j =
    rw (get-insert id j r' book.records) (ground (arith, found, same_id, same_order))

named :
    (found : Option ReservationRecord) (r' : ReservationRecord)
    → some (r'.reservation_id, r'.order_commitment) ≡ name_of found
    → (r : ReservationRecord) × ((found ≡ some r)
        × ((r'.reservation_id ≡ r.reservation_id) × (r'.order_commitment ≡ r.order_commitment)))
named none r' h = absurd (cc)
named (some r) r' h = (r, (refl, (cc, cc)))

-- A record of a book with the same names has its names from a record of the other one.
named_before :
    (id : Digest32) (r' : ReservationRecord) (book book' : ReservationBook)
    → SameNames book book'
    → get id book'.records ≡ some r'
    → (r : ReservationRecord) × ((get id book.records ≡ some r)
        × ((r'.reservation_id ≡ r.reservation_id) × (r'.order_commitment ≡ r.order_commitment)))
named_before id r' book book' same found =
    named (get id book.records) r' (ap name_of (sym found) ∙ same id)

pub SameNames-IsNamed :
    (book book' : ReservationBook)
    → IsSorted book'.records
    → SameNames book book'
    → IsNamed book
    → IsNamed book'
SameNames-IsNamed book book' sorted same h = record {
  sorted = sorted;
  keyed = λ id r' found.
      let (r, (before, (same_id, same_order))) = named_before id r' book book' same found in
      same_id ∙ h.keyed id r before;
  distinct = λ i j r' s' found_r found_s equal.
      let (r, (before_r, (_, order_r))) = named_before i r' book book' same found_r in
      let (s, (before_s, (_, order_s))) = named_before j s' book book' same found_s in
      h.distinct i j r s before_r before_s (sym order_r ∙ equal ∙ order_s);
}

-- A record that is found among the values stands under some id.
pub find-get :
    (commitment : Digest32) (m : BTreeMap ReservationRecord) (r : ReservationRecord)
    → IsSorted m
    → find (has_commitment commitment) (values m) ≡ some r
    → (k : ℕ) × ((get k m ≡ some r) × (r.order_commitment ≡ commitment))
find-get commitment [] r sorted h = absurd (cc)
find-get commitment ((j, v) ∷ m) r (above, sorted) h =
    elim (Bool-cases (has_commitment commitment v)) [
      | inl here ↦
          let is : v ≡ r = ground (arith, h, here) in
          (j, (ground (arith, is), rw (← is) (ground (arith, here))))
      | inr there ↦
          let rest : find (has_commitment commitment) (values m) ≡ some r =
            ground (arith, h, there) in
          let (k, (found, is)) = find-get commitment m r sorted rest in
          let apart : (k == j) ≡ false = ground (arith, get_above j m above, found) in
          (k, (rw apart found, is))
    ]

-- No record is of a commitment that is not found.
pub find-none :
    (commitment : Digest32) (m : BTreeMap ReservationRecord) (k : Digest32) (r : ReservationRecord)
    → find (has_commitment commitment) (values m) ≡ none
    → get k m ≡ some r
    → (r.order_commitment == commitment) ≡ false
find-none commitment [] k r h found = absurd (cc)
find-none commitment ((j, v) ∷ m) k r h found = elim (Bool-cases (has_commitment commitment v)) [
  | inl here ↦ absurd (ground (arith, h, here))
  | inr there ↦
      let rest : find (has_commitment commitment) (values m) ≡ none = ground (arith, h, there) in
      elim (Bool-cases (k == j)) [
        | inl same ↦ let is : v ≡ r = ground (arith, found, same) in rw (← is) there
        | inr other ↦ find-none commitment m k r rest (ground (arith, found, other))
      ]
]

-- In a book with names, the record under an id is the one found for the commitment of its order.
pub find-named :
    (id : Digest32) (r : ReservationRecord) (book : ReservationBook)
    → IsNamed book
    → get id book.records ≡ some r
    → find (has_commitment r.order_commitment) (values book.records) ≡ some r
find-named id r book h found =
    elim (Option-cases (find (has_commitment r.order_commitment) (values book.records))) [
      | inl missing ↦
          absurd (ground (arith, find-none r.order_commitment book.records id r missing found))
      | inr (s, is) ↦
          let (k, (there, names)) = find-get r.order_commitment book.records s h.sorted is in
          let at : k ≡ id = h.distinct k id s r there found names in
          let there' = rw at at there in let same : s ≡ r = cc in is ∙ ap some same
    ]
