-- ===== src/Settlement/Binding.antt =====
-- The invariant of the engine over the binding of a participant to its entity.
use oclob.Base.{
  ok_inj, ◌≡◌, refl, false, ◌||◌, some, [], ◌∷◌, ok, reject_if, arith, >>=-eq-ok, reject_if-eq-ok,
  BTreeMap, get, insert, get-insert, AllValues, ||-false, ◌==◌, Bool-cases, ◌⊎◌, inl, inr,
}
use oclob.Crypto.{Digest32}
use oclob.Settlement.{ReservationRecord, ReservationBook}
use oclob.Settlement.Reservations.{bind_participant, differs, set_capacities}
use oclob.Settlement.Engine.{ParticipantBalances}
use oclob.Settlement.Usage.{IsBound}
use oclob.Settlement.Capacities.{capacity-set_capacities, of_kind-balance}
use oclob.Settlement.Solvency.{IsCovered, IsCurrent}

AllValues_mono :
    {V : Type 0} (P Q : V → Type 0) (m : BTreeMap V)
    → ((v : V) → P v → Q v)
    → AllValues P m
    → AllValues Q m
AllValues_mono P Q [] f h = tt
AllValues_mono P Q ((k, v) ∷ m) f h = (f v h.0, AllValues_mono P Q m f h.1)

module _ (participant entity : Digest32) (balances : ParticipantBalances) (book : ReservationBook)
    (accounts : BTreeMap ParticipantBalances) (h : IsCovered book accounts)
    (current : IsCurrent book accounts) (found : get participant accounts ≡ some balances)
    (same_entity : differs (get participant book.participant_entities) entity ≡ false)
    (same_participant : differs (get entity book.entity_participants) participant ≡ false) where
  abbrev bound_book : ReservationBook
  bound_book = set_capacities entity balances.cash.value balances.securities.value (record book {
    participant_entities = insert participant entity book.participant_entities;
    entity_participants = insert entity participant book.entity_participants;
  })

  -- A binding of the new book is the one just made, or an old one of somebody else.
  binding_cases :
      (handle e : Digest32)
      → get handle bound_book.participant_entities ≡ some e
      → ((handle ≡ participant) × (e ≡ entity))
        ⊎ (((handle == participant) ≡ false)
            × ((get handle book.participant_entities ≡ some e) × ((e == entity) ≡ false)))
  binding_cases handle e known =
      let known' = rw get-insert at known in
      elim (Bool-cases (handle == participant)) [
        | inl same ↦ inl (ground (arith, same), ground (arith, known', same))
        | inr other ↦
            let before : get handle book.participant_entities ≡ some e =
              ground (arith, known', other) in
            let apart : (e == entity) ≡ false =
              ground (arith, other, h.reservations.paired handle e before, same_participant) in
            inr (other, (before, apart))
      ]

  still_bound :
      (r : ReservationRecord)
      → IsBound book.participant_entities r
      → IsBound bound_book.participant_entities r
  still_bound r b = rw get-insert (ground (arith, b, same_entity))

  bound_paired :
      (handle e : Digest32)
      → get handle bound_book.participant_entities ≡ some e
      → get e bound_book.entity_participants ≡ some handle
  bound_paired handle e known = elim (binding_cases handle e known) [
    | inl (is_handle, is_entity) ↦ rw (is_handle, is_entity, get-insert) (ground arith)
    | inr (other, (before, apart)) ↦ rw (get-insert, apart) (h.reservations.paired handle e before)
  ]

  bound-IsCovered : IsCovered bound_book accounts
  bound-IsCovered = record {
    reservations = record {
      sorted = h.reservations.sorted;
      idle = h.reservations.idle;
      bound =
          AllValues_mono (IsBound book.participant_entities)
            (IsBound bound_book.participant_entities) book.records still_bound h.reservations.bound;
      paired = bound_paired;
    };
    sorted = h.sorted;
    opened = λ handle e known. elim (binding_cases handle e known) [
      | inl (is_handle, is_entity) ↦ rw (is_handle, found) refl
      | inr (other, (before, apart)) ↦ h.opened handle e before
    ];
    covered = h.covered;
  }

  bound-IsCurrent : IsCurrent bound_book accounts
  bound-IsCurrent handle e kind b known at_handle = elim (binding_cases handle e known) [
    | inl (is_handle, is_entity) ↦
        let is_balances : balances ≡ b = ground (arith, found, at_handle, is_handle) in
        rw (is_entity, capacity-set_capacities, of_kind-balance, ← is_balances) (ground arith)
    | inr (other, (before, apart)) ↦
        rw (capacity-set_capacities, apart) (current handle e kind b before at_handle)
  ]

pub bind_participant-IsCovered :
    (participant entity : Digest32) (balances : ParticipantBalances) (book book' : ReservationBook)
    (accounts : BTreeMap ParticipantBalances)
    → IsCovered book accounts
    → IsCurrent book accounts
    → get participant accounts ≡ some balances
    → bind_participant participant entity balances.cash.value balances.securities.value book
      ≡ ok book'
    → IsCovered book' accounts × IsCurrent book' accounts
unfolding bind_participant
bind_participant-IsCovered participant entity balances book book' accounts h current found e =
    let (u, e1, r1) = >>=-eq-ok (reject_if (participant == 0 || entity == 0) _) _ e in
    let (v, e2, r2) =
      >>=-eq-ok
        (reject_if
          (differs (get participant book.participant_entities) entity
            || differs (get entity book.entity_participants) participant)
          _)
        _ r1 in
    let (same_entity, same_participant) = ||-false _ _ (reject_if-eq-ok _ _ e2) in
    rw (← ok_inj _ _ r2) (
      bound-IsCovered participant entity balances book accounts h current found same_entity
          same_participant,
      bound-IsCurrent participant entity balances book accounts h current found same_entity
          same_participant,
    )
