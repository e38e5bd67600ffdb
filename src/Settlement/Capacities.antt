-- ===== src/Settlement/Capacities.antt =====
-- The capacities after `refresh_capacity` for every account.
use oclob.Base.{
  ℕ, ◌≡◌, refl, false, Option, none, some, [], ◌∷◌, ok, arith, >>=-eq-ok, ok_or-eq-ok, ok_or,
  BTreeMap, get, get-insert, get_above, IsSorted, KeysAbove, ◌==◌, if◌then◌else◌, Bool-cases, inl,
  inr,
}
use oclob.Crypto.{Digest32}
use oclob.Settlement.{ReservationKind, ReservationBook, capacity_key, reservation_kind_tag}
use oclob.Settlement.Reservations.{set_capacities, refresh_capacity}
use oclob.Settlement.Engine.{ParticipantBalances}
use oclob.Settlement.Batch.{refresh_all}
use oclob.Settlement.Accounts.{balance}

-- What the book caps an entity's reservations of a kind at.
abbrev pub capacity : Digest32 → ReservationKind → ReservationBook → Option ℕ
capacity entity kind book = get (capacity_key entity (reservation_kind_tag kind)) book.capacities

abbrev pub of_kind : ReservationKind → ℕ → ℕ → ℕ
of_kind ReservationKind.cash cash securities = cash
of_kind ReservationKind.securities cash securities = securities

pub capacity-set_capacities :
    (entity e : Digest32) (kind : ReservationKind) (cash securities : ℕ) (book : ReservationBook)
    → capacity e kind (set_capacities entity cash securities book)
      ≡ (if e == entity then some (of_kind kind cash securities) else capacity e kind book)
capacity-set_capacities entity e ReservationKind.cash cash securities book =
    rw (get-insert, get-insert) (ground arith)
capacity-set_capacities entity e ReservationKind.securities cash securities book =
    rw (get-insert, get-insert) (ground arith)

abbrev pub IsPaired : ReservationBook → Type 0
IsPaired book =
    (handle entity : Digest32)
    → get handle book.participant_entities ≡ some entity
    → get entity book.entity_participants ≡ some handle

-- What the refresh of some accounts did to the book.
pub record Refreshed (accounts : BTreeMap ParticipantBalances) (book book' : ReservationBook)
    : Type 0 where
  pub records : book'.records ≡ book.records
  pub participant_entities : book'.participant_entities ≡ book.participant_entities
  pub entity_participants : book'.entity_participants ≡ book.entity_participants
  pub current :
      (handle entity : Digest32) (kind : ReservationKind) (balances : ParticipantBalances)
      → get handle book.participant_entities ≡ some entity
      → get handle accounts ≡ some balances
      → capacity entity kind book' ≡ some (balance kind balances)
  others :
      (handle entity : Digest32) (kind : ReservationKind)
      → get handle book.participant_entities ≡ some entity
      → get handle accounts ≡ none
      → capacity entity kind book' ≡ capacity entity kind book

pub of_kind-balance :
    (kind : ReservationKind) (b : ParticipantBalances)
    → of_kind kind b.cash.value b.securities.value ≡ balance kind b
of_kind-balance ReservationKind.cash b = refl
of_kind-balance ReservationKind.securities b = refl

refresh_capacity-eq-ok :
    (participant : Digest32) (cash securities : ℕ) (book book' : ReservationBook)
    → refresh_capacity participant cash securities book ≡ ok book'
    → (entity : Digest32) × (get participant book.participant_entities ≡ some entity)
      × (set_capacities entity cash securities book ≡ book')
unfolding refresh_capacity
refresh_capacity-eq-ok participant cash securities book book' h =
    let (entity, found, is) = >>=-eq-ok (ok_or (get participant book.participant_entities) _) _ h in
    (entity, ok_or-eq-ok _ _ found, cc)

module _ (first entity : Digest32) (balances : ParticipantBalances)
    (rest : BTreeMap ParticipantBalances) (book book' : ReservationBook)
    (above : KeysAbove first rest) (bound : get first book.participant_entities ≡ some entity)
    (paired : IsPaired book)
    (r : Refreshed rest
      (set_capacities entity balances.cash.value balances.securities.value book)
      book') where
  abbrev set_first : ReservationBook
  set_first = set_capacities entity balances.cash.value balances.securities.value book

  cons_current :
      (handle e : Digest32) (kind : ReservationKind) (b : ParticipantBalances)
      → get handle book.participant_entities ≡ some e
      → get handle ((first, balances) ∷ rest) ≡ some b
      → capacity e kind book' ≡ some (balance kind b)
  cons_current handle e kind b known found = elim (Bool-cases (handle == first)) [
    | inl same ↦
        let is_first : handle ≡ first = ground (arith, same) in
        let kept = r.others first e kind (rw (← is_first) known) (get_above first rest above) in
        let is_entity : e ≡ entity = ground (arith, known, bound, is_first) in
        let is_balances : balances ≡ b = ground (arith, found, same) in
        rw (kept, capacity-set_capacities, is_entity, of_kind-balance, ← is_balances) (ground arith)
    | inr other ↦ r.current handle e kind b known (ground (arith, found, other))
  ]

  cons_others :
      (handle e : Digest32) (kind : ReservationKind)
      → get handle book.participant_entities ≡ some e
      → get handle ((first, balances) ∷ rest) ≡ none
      → capacity e kind book' ≡ capacity e kind book
  cons_others handle e kind known absent =
      let other : (handle == first) ≡ false = ground (arith, absent) in
      let kept = r.others handle e kind known (ground (arith, absent, other)) in
      let apart : (e == entity) ≡ false =
        ground (arith, other, paired handle e known, paired first entity bound) in
      rw (kept, capacity-set_capacities, apart) refl

pub refresh_all-Refreshed :
    (accounts : BTreeMap ParticipantBalances) (book book' : ReservationBook)
    → IsSorted accounts
    → IsPaired book
    → refresh_all accounts book ≡ ok book'
    → Refreshed accounts book book'
unfolding refresh_all
refresh_all-Refreshed [] book book' sorted paired h =
    let is : book ≡ book' = cc in
    rw (← is) (record {
      records = refl;
      participant_entities = refl;
      entity_participants = refl;
      current = λ handle entity kind balances known found. absurd (cc);
      others = λ handle entity kind known absent. refl;
    })
refresh_all-Refreshed ((first, balances) ∷ rest) book book' sorted paired h =
    let (middle, e, h') =
      >>=-eq-ok (refresh_capacity first balances.cash.value balances.securities.value book) _ h in
    let (entity, bound, is) =
      refresh_capacity-eq-ok first balances.cash.value balances.securities.value book middle e in
    let r : Refreshed rest
        (set_capacities entity balances.cash.value balances.securities.value book) book' =
      refresh_all-Refreshed rest
        (set_capacities entity balances.cash.value balances.securities.value book) book' sorted.1
        paired (rw is h') in
    record {
      records = r.records;
      participant_entities = r.participant_entities;
      entity_participants = r.entity_participants;
      current = cons_current first entity balances rest book book' sorted.0 bound paired r;
      others = cons_others first entity balances rest book book' sorted.0 bound paired r;
    }
