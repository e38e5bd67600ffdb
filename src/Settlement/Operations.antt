-- ===== src/Settlement/Operations.antt =====
-- The invariant of the engine over its operations, one by one.
use oclob.Base.{
  ok_inj, ℕ, ◌≡◌, refl, Bool, List, [], ◌∷◌, Result, ok, err, reject_if, arith, >>=-eq-ok,
  ok_or-eq-ok, ok_or, map_err, BTreeMap, get, is_empty, IsSorted,
}
use oclob.Crypto.{Primitives, Digest32, VerifyingKey}
use oclob.Ordering.{CommitteePolicy}
use oclob.Proofs.{committee_trust_root}
use oclob.Settlement.{SettlementError, ReservationKind, ReservationBook, SettlementOrder, Point}
use oclob.Settlement.Reservations.{bind_participant, reserve}
use oclob.Settlement.Remainders.{release_reservation}
use oclob.Settlement.Engine.{
  ParticipantBalances, QuorumPolicy, SettlementCommittee, SettlementEngine, commit, next_height,
  release_all, bind_eligible_participant, pin_settlement_committee, new_engine, stage_binding,
  stage_pin, stage_reserve, stage_release, stage_releases, reserve_order, release_order,
  release_orders_atomic,
}
use oclob.Settlement.Frees.{Frees, release_reservation-Frees}
use oclob.Settlement.Accounts.{supply}
use oclob.Settlement.Solvency.{IsCovered, IsCurrent, IsSolvent}
use oclob.Settlement.Atomic.{Frees-IsCovered}
use oclob.Settlement.Admission.{reserve-IsCovered}
use oclob.Settlement.Binding.{bind_participant-IsCovered}

-- A solvent engine with the cash and the securities of another one.
abbrev pub Keeps : SettlementEngine → SettlementEngine → Type 0
Keeps engine engine' =
    IsSolvent engine'
    × ((kind : ReservationKind)
        → supply kind engine'.participants ≡ supply kind engine.participants)

-- New reservations in place of the old ones.
swapped :
    (engine : SettlementEngine) (book : ReservationBook) (height : ℕ)
    → IsCovered book engine.participants × IsCurrent book engine.participants
    → Keeps engine (record engine { reservations = book; height = height })
swapped engine book height (covered, current) =
    (record { covered = covered; current = current }, λ kind. refl)

commit-Keeps :
    {A : Type 0} (staged : Result (A × SettlementEngine) SettlementError)
    (engine : SettlementEngine)
    → IsSolvent engine
    → ((a : A) (engine' : SettlementEngine) → staged ≡ ok (a, engine') → Keeps engine engine')
    → Keeps engine (commit staged engine).1
commit-Keeps (ok (a, engine')) engine h keeps = keeps a engine' refl
commit-Keeps (err e) engine h keeps = (h, λ kind. refl)

-- Freed reservations: the capacities are as they were.
Frees-IsSolvent :
    (engine : SettlementEngine) (book : ReservationBook)
    → IsSolvent engine
    → Frees engine.reservations book
    → IsCovered book engine.participants × IsCurrent book engine.participants
Frees-IsSolvent engine book h f = (
  Frees-IsCovered engine.reservations book engine.participants h.covered f,
  rw (f.frame.participant_entities, f.frame.capacities) h.current,
)

pub bind_eligible_participant-IsSolvent :
    (participant entity : Digest32) (engine : SettlementEngine)
    → IsSolvent engine
    → Keeps engine (bind_eligible_participant participant entity engine).1
unfolding bind_eligible_participant stage_binding
bind_eligible_participant-IsSolvent participant entity engine h =
    commit-Keeps (stage_binding participant entity engine) engine h (λ a engine' e.
      let (balances, found, r1) = >>=-eq-ok (ok_or (get participant engine.participants) _) _ e in
      let (book, bound, r2) =
        >>=-eq-ok
          (bind_participant participant entity balances.cash.value balances.securities.value
            engine.reservations)
          _ r1 in
      let is : record engine { reservations = book } ≡ engine' = cc in
      rw (← is) (
        swapped engine book engine.height (
          bind_participant-IsCovered participant entity balances engine.reservations book
            engine.participants h.covered h.current (ok_or-eq-ok _ _ found) bound)))

pub pin_settlement_committee-IsSolvent :
    (valid : QuorumPolicy → List ℕ → Bool) (same : QuorumPolicy → QuorumPolicy → Bool)
    (c : SettlementCommittee) (engine : SettlementEngine)
    → IsSolvent engine
    → Keeps engine (pin_settlement_committee valid same c engine).1
unfolding pin_settlement_committee stage_pin
pin_settlement_committee-IsSolvent valid same c engine h =
    commit-Keeps (stage_pin valid same c engine) engine h (λ a engine' e.
      let book_is : engine'.reservations ≡ engine.reservations = ground arith in
      let accounts_is : engine'.participants ≡ engine.participants = ground arith in
      (
        record {
          covered = rw (book_is, accounts_is) h.covered;
          current = rw (book_is, accounts_is) h.current;
        },
        λ kind. rw accounts_is refl,
      ))

release_all-Solvent :
    (commitments : List Digest32) (book book' : ReservationBook)
    (accounts : BTreeMap ParticipantBalances)
    → IsCovered book accounts × IsCurrent book accounts
    → release_all commitments book ≡ ok book'
    → IsCovered book' accounts × IsCurrent book' accounts
unfolding release_all
release_all-Solvent [] book book' accounts h e = let is : book ≡ book' = cc in rw (← is) h
release_all-Solvent (commitment ∷ commitments) book book' accounts (covered, current) e =
    let (middle, e1, e2) = >>=-eq-ok (release_reservation commitment book) _ e in
    let f = release_reservation-Frees commitment book middle covered.reservations e1 in
    release_all-Solvent commitments middle book' accounts
      (
        Frees-IsCovered book middle accounts covered f,
        rw (f.frame.participant_entities, f.frame.capacities) current,
      )
      e2

module _ (p : Primitives) where
  -- Reserving for an order, whether it succeeds or is refused, keeps a solvent engine solvent, and
  -- the accounts hold as much cash and as many securities as before.
  pub reserve_order-IsSolvent :
      (order : SettlementOrder) (point : Point) (engine : SettlementEngine)
      → IsSolvent engine
      → Keeps engine (reserve_order p order point engine).1
  unfolding reserve_order stage_reserve
  reserve_order-IsSolvent order point engine h =
      commit-Keeps (stage_reserve p order point engine) engine h (λ a engine' e.
        let (book, admitted, r1) = >>=-eq-ok (reserve order point engine.reservations) _ e in
        let (height, counted, r2) = >>=-eq-ok (next_height engine) _ r1 in
        let is : record engine { reservations = book; height = height } ≡ engine' = cc in
        rw (← is) (
          swapped engine book height (
            reserve-IsCovered order point engine.reservations book engine.participants h.covered
              h.current admitted)))

  pub release_order-IsSolvent :
      (commitment : Digest32) (engine : SettlementEngine)
      → IsSolvent engine
      → Keeps engine (release_order p commitment engine).1
  unfolding release_order stage_release
  release_order-IsSolvent commitment engine h =
      commit-Keeps (stage_release p commitment engine) engine h (λ a engine' e.
        let (book, released, r1) =
          >>=-eq-ok (release_reservation commitment engine.reservations) _ e in
        let (height, counted, r2) = >>=-eq-ok (next_height engine) _ r1 in
        let is : record engine { reservations = book; height = height } ≡ engine' = cc in
        rw (← is) (
          swapped engine book height (
            Frees-IsSolvent engine book h (
              release_reservation-Frees commitment engine.reservations book h.covered.reservations
                released))))

  -- Releasing a batch of orders, whether it succeeds or is refused, keeps a solvent engine solvent,
  -- and the accounts hold as much cash and as many securities as before.
  pub release_orders_atomic-IsSolvent :
      (commitments : List Digest32) (engine : SettlementEngine)
      → IsSolvent engine
      → Keeps engine (release_orders_atomic p commitments engine).1
  unfolding release_orders_atomic stage_releases
  release_orders_atomic-IsSolvent commitments engine h =
      commit-Keeps (stage_releases p commitments engine) engine h (λ a engine' e.
        let (u, some_given, r0) = >>=-eq-ok (reject_if (is_empty commitments) _) _ e in
        let (book, released, r1) = >>=-eq-ok (release_all commitments engine.reservations) _ r0 in
        let (height, counted, r2) = >>=-eq-ok (next_height engine) _ r1 in
        let is : record engine { reservations = book; height = height } ≡ engine' = cc in
        rw (← is) (
          swapped engine book height (
            release_all-Solvent commitments engine.reservations book engine.participants
              (h.covered, h.current) released)))

  pub new_engine-IsSolvent :
      (accounts : BTreeMap ParticipantBalances) (keys : BTreeMap VerifyingKey)
      (policy : CommitteePolicy) (engine : SettlementEngine)
      → IsSorted accounts
      → new_engine p accounts keys policy ≡ ok engine
      → IsSolvent engine × (engine.participants ≡ accounts)
  unfolding new_engine
  new_engine-IsSolvent accounts keys policy engine sorted e =
      let (root, e1, r1) = >>=-eq-ok (map_err (committee_trust_root p keys policy) _) _ e in
      let is = ok_inj _ _ r1 in
      rw (← is) (
        record {
          covered = record {
            reservations = record {
              sorted = tt;
              idle = tt;
              bound = tt;
              paired = λ handle entity known. absurd (cc);
            };
            sorted = sorted;
            opened = λ handle entity known. absurd (cc);
            covered = λ handle kind. omega arith;
          };
          current = λ handle entity kind balances known. absurd (cc);
        },
        refl,
      )
