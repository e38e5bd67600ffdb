-- ===== src/Book/Naming.antt =====
-- Lists of commitments that name some of the orders of a list, and the orders without them.
use oclob.Base.{
  ◌≡◌, refl, sym, subst, ◌∙◌, ap, Bool, true, false, not, ◌||◌, List, [], ◌∷◌, arith, All, contains,
  keep, map, Bool-cases, inl, inr, ◌==◌,
}
use oclob.Order.Authority.{OrderCommitment}
use oclob.Book.Store.{RestingOrder, order_commitment}
use oclob.Book.Flat.{holds, changed}
use oclob.Book.Orders.{IsDistinct}
use oclob.Book.Roots.{sort_commitments, insert_sorted}

contains-insert_sorted :
    (c d : OrderCommitment) (cs : List OrderCommitment)
    → contains c (insert_sorted d cs) ≡ (c == d || contains c cs)
unfolding insert_sorted
contains-insert_sorted c d [] = refl
contains-insert_sorted c d (e ∷ cs) = ground (arith, contains-insert_sorted c d cs)

pub contains-sort_commitments :
    (c : OrderCommitment) (cs : List OrderCommitment)
    → contains c (sort_commitments cs) ≡ contains c cs
unfolding sort_commitments
contains-sort_commitments c [] = refl
contains-sort_commitments c (d ∷ cs) =
    contains-insert_sorted c d (sort_commitments cs)
    ∙ ap (λ b. c == d || b) (contains-sort_commitments c cs)

-- Different commitments, as a list.
abbrev pub Unique : List OrderCommitment → Type 0
Unique [] = Unit
Unique (c ∷ cs) = (contains c cs ≡ false) × Unique cs

insert_sorted-Unique :
    (d : OrderCommitment) (cs : List OrderCommitment)
    → contains d cs ≡ false
    → Unique cs
    → Unique (insert_sorted d cs)
unfolding insert_sorted
insert_sorted-Unique d [] h u = (refl, tt)
insert_sorted-Unique d (e ∷ cs) h u =
    ground (arith, insert_sorted-Unique d cs, contains-insert_sorted e d cs)

pub sort_commitments-Unique : (cs : List OrderCommitment) → Unique cs → Unique (sort_commitments cs)
unfolding sort_commitments
sort_commitments-Unique [] u = tt
sort_commitments-Unique (c ∷ cs) u =
    insert_sorted-Unique c (sort_commitments cs) (contains-sort_commitments c cs ∙ u.0)
      (sort_commitments-Unique cs u.1)

module _ (p : RestingOrder → Bool) where
  contains-kept :
      (c : OrderCommitment) (orders : List RestingOrder)
      → holds c orders ≡ false
      → contains c (map order_commitment (keep p orders)) ≡ false
  contains-kept c [] h = refl
  contains-kept c (o ∷ orders) h = ground (arith, contains-kept c orders)

  pub kept-Unique :
      (orders : List RestingOrder)
      → IsDistinct orders
      → Unique (map order_commitment (keep p orders))
  kept-Unique [] d = tt
  kept-Unique (o ∷ orders) d =
      ground (arith, kept-Unique orders d.1, contains-kept (order_commitment o) orders d.0)

  pub contains-kept_holds :
      (c : OrderCommitment) (orders : List RestingOrder)
      → contains c (map order_commitment (keep p orders)) ≡ true
      → holds c orders ≡ true
  contains-kept_holds c orders h = elim (Bool-cases (holds c orders)) [
    | inl held ↦ held
    | inr absent ↦ absurd (ground (arith, contains-kept c orders absent))
  ]

  names_later :
      (c : OrderCommitment) (cs : List OrderCommitment) (part : List RestingOrder)
      → holds c part ≡ false
      → All (λ o. contains (order_commitment o) cs ≡ p o) part
      → All (λ o. contains (order_commitment o) (c ∷ cs) ≡ p o) part
  names_later c cs [] h n = tt
  names_later c cs (o ∷ part) h n = (ground arith, names_later c cs part (ground arith) n.1)

  -- The commitments of the selected orders name exactly those orders.
  pub kept_names :
      (orders : List RestingOrder)
      → IsDistinct orders
      → All (λ o. contains (order_commitment o) (map order_commitment (keep p orders)) ≡ p o) orders
  kept_names [] d = tt
  kept_names (o ∷ orders) d = elim (Bool-cases (p o)) [
    | inl selected ↦
        let e : map order_commitment (keep p (o ∷ orders))
            ≡ order_commitment o ∷ map order_commitment (keep p orders) =
          rw selected in
        named (sym e) (
          ground arith,
          names_later (order_commitment o) (map order_commitment (keep p orders)) orders d.0
              (kept_names orders d.1),
        )
    | inr other ↦
        let e : map order_commitment (keep p (o ∷ orders)) ≡ map order_commitment (keep p orders) =
          rw other in
        named (sym e)
          (contains-kept (order_commitment o) orders d.0 ∙ sym other, kept_names orders d.1)
  ]
    where
      named :
          {cs cs' : List OrderCommitment}
          → cs ≡ cs'
          → All (λ x. contains (order_commitment x) cs ≡ p x) (o ∷ orders)
          → All (λ x. contains (order_commitment x) cs' ≡ p x) (o ∷ orders)
      named e h = subst (λ cs. All (λ x. contains (order_commitment x) cs ≡ p x) (o ∷ orders)) e h

pub All-of_contains :
    (P : OrderCommitment → Type 0) (cs : List OrderCommitment)
    → ((c : OrderCommitment) → contains c cs ≡ true → P c)
    → All P cs
All-of_contains P [] h = tt
All-of_contains P (c ∷ cs) h =
    (h c (ground arith), All-of_contains P cs (λ d m. h d (ground arith)))

-- The orders that are left when those with the listed commitments go.
abbrev pub without : List OrderCommitment → List RestingOrder → List RestingOrder
without cs orders = keep (λ o. not (contains (order_commitment o) cs)) orders

pub without_nil : (orders : List RestingOrder) → without [] orders ≡ orders
without_nil [] = refl
without_nil (o ∷ orders) = ap (λ l. o ∷ l) (without_nil orders)

without_absent :
    (c : OrderCommitment) (cs : List OrderCommitment) (orders : List RestingOrder)
    → holds c orders ≡ false
    → without (c ∷ cs) orders ≡ without cs orders
without_absent c cs [] h = refl
without_absent c cs (o ∷ orders) h = ground (arith, without_absent c cs orders)

-- Removing one order after another leaves the orders without all of them.
pub without-changed :
    (c : OrderCommitment) (cs : List OrderCommitment) (orders : List RestingOrder)
    → IsDistinct orders
    → without cs (changed c 0 orders) ≡ without (c ∷ cs) orders
without-changed c cs [] d = refl
without-changed c cs (o ∷ orders) d =
    ground (arith, without-changed c cs orders d.1, without_absent c cs orders)

pub without-kept :
    (p : RestingOrder → Bool) (cs : List OrderCommitment) (orders : List RestingOrder)
    → All (λ o. contains (order_commitment o) cs ≡ p o) orders
    → without cs orders ≡ keep (λ o. not (p o)) orders
without-kept p cs [] h = refl
without-kept p cs (o ∷ orders) h = rw h.0 (ground (arith, without-kept p cs orders h.1))
