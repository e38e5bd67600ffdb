-- ===== src/Settlement/Admitted.antt =====
-- What `reserve` does to the names of the reservations.
use oclob.Base.{
  ◌≡◌, ◌∙◌, refl, sym, false, some, arith, Bool-cases, get, get-insert, insert-IsSorted, ◌==◌, ◌⊎◌,
  inl, inr,
}
use oclob.Crypto.{Digest32}
use oclob.Settlement.{SettlementOrder, ReservationRecord, ReservationBook, Point}
use oclob.Settlement.Reservations.{new_record, put_record}
use oclob.Settlement.Names.{IsNamed, find-none}
use oclob.Settlement.Admission.{Admitted}

module _ (order : SettlementOrder) (point : Point) (book : ReservationBook) (h : IsNamed book)
    (a : Admitted order book) where
  -- A record of the new book is the new one, or an old one of another order.
  admitted_cases :
      (j : Digest32) (r : ReservationRecord)
      → get j (put_record order.reservation_id (new_record order point) book).records ≡ some r
      → ((j ≡ order.reservation_id) × (new_record order point ≡ r))
        ⊎ ((get j book.records ≡ some r) × ((r.order_commitment == order.commitment) ≡ false))
  admitted_cases j r found =
      let found' = rw get-insert at found in
      elim (Bool-cases (j == order.reservation_id)) [
        | inl same ↦ inl (ground (arith, same), ground (arith, found', same))
        | inr other ↦
            let before : get j book.records ≡ some r = ground (arith, found', other) in
            inr (before, find-none order.commitment book.records j r a.unseen before)
      ]

  pub admitted-IsNamed : IsNamed (put_record order.reservation_id (new_record order point) book)
  admitted-IsNamed = record {
    sorted = insert-IsSorted order.reservation_id (new_record order point) book.records h.sorted;
    keyed = λ j r found. elim (admitted_cases j r found) [
      | inl (at, is) ↦ rw (at, ← is) refl
      | inr (before, other) ↦ h.keyed j r before
    ];
    distinct = λ i j r s found_r found_s equal. elim (admitted_cases i r found_r) [
      | inl (at, is) ↦ elim (admitted_cases j s found_s) [
        | inl (at', is') ↦ at ∙ sym at'
        | inr (before', other') ↦
            let mine : r.order_commitment ≡ order.commitment = rw (← is) refl in
            absurd (ground (arith, mine, equal, other'))
      ]
      | inr (before, other) ↦ elim (admitted_cases j s found_s) [
        | inl (at', is') ↦
            let mine : s.order_commitment ≡ order.commitment = rw (← is') refl in
            absurd (ground (arith, mine, equal, other))
        | inr (before', other') ↦ h.distinct i j r s before before' equal
      ]
    ];
  }
