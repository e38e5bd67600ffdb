-- ===== src/Ordering/Certify.antt =====
-- A committee that certifies orders extends its log by one verified certificate or not at all.
use oclob.Base.{
  ℕ, ◌≡◌, refl, Bool, true, false, List, Result, ok, err, arith, contains, if◌then◌else◌,
}
use oclob.Crypto.{Primitives}
use oclob.Order.Authority.{OrderCommitment}
use oclob.Ordering.{OrderingError, OrderVote, Statement}
use oclob.Ordering.Certificate.{OrderCertificate, verify_certificate}
use oclob.Ordering.Log.{OrderingLog, OrderingCommittee, head, next_sequence, append, certify}
use oclob.Ordering.Chain.{IsLog, Appended, extended, append-Appended, Appended-IsLog}

module _ (p : Primitives) where
  -- What certifying did to the log: one verified certificate for the commitment was appended, and
  -- returned, or nothing was.
  abbrev pub Certified :
      List ℕ
      → OrderCommitment
      → ℕ
      → ℕ
      → OrderingCommittee
      → Result OrderCertificate OrderingError × OrderingCommittee
      → Type 0
  Certified market_id commitment expires_at now committee (ok c, committee') =
      (c.statement ≡ record {
        market_id = market_id;
        sequence = next_sequence committee.log;
        commitment = commitment;
        previous_certificate = head p committee.log;
        expires_at = expires_at;
      })
      × (verify_certificate p c committee.policy committee.keys now ≡ ok tt)
      × (contains commitment committee.log.commitments ≡ false)
      × (committee'.log ≡ extended p committee.log c)
  Certified market_id commitment expires_at now committee (err e, committee') =
      committee'.log ≡ committee.log

  abbrev next_statement : List ℕ → OrderCommitment → ℕ → OrderingCommittee → Statement
  next_statement market_id commitment expires_at committee = record {
    market_id = market_id;
    sequence = next_sequence committee.log;
    commitment = commitment;
    previous_certificate = head p committee.log;
    expires_at = expires_at;
  }

  certify_append :
      (market_id : List ℕ) (commitment : OrderCommitment) (expires_at now : ℕ)
      (committee voted : OrderingCommittee) (c : OrderCertificate)
      (appended : Result (Unit {0}) OrderingError × OrderingLog)
      → c.statement ≡ next_statement market_id commitment expires_at committee
      → contains commitment committee.log.commitments ≡ false
      → Appended p c
          (verify_certificate p c committee.policy committee.keys now)
          committee.log
          appended
      → Certified market_id commitment expires_at now committee (elim appended.0 [
        | err e ↦ (err e, record voted { log = appended.1 })
        | ok _ ↦ (ok c, record voted { log = appended.1 })
      ])
  certify_append market_id commitment expires_at now committee voted c (err e, log) s f a = a
  certify_append market_id commitment expires_at now committee voted c (ok _, log) s f a =
      (s, a.0, f, a.4)

  certify_votes :
      (market_id : List ℕ) (commitment : OrderCommitment) (expires_at now : ℕ)
      (committee voted : OrderingCommittee) (votes : Result (List OrderVote) OrderingError)
      → contains commitment committee.log.commitments ≡ false
      → voted.log ≡ committee.log
      → Certified market_id commitment expires_at now committee (elim votes [
        | err e ↦ (err e, voted)
        | ok votes ↦
            let c : OrderCertificate = record {
              statement = next_statement market_id commitment expires_at committee;
              votes = votes;
            } in
            let appended = append p c committee.policy committee.keys now committee.log in
            elim appended.0 [
              | err e ↦ (err e, record voted { log = appended.1 })
              | ok _ ↦ (ok c, record voted { log = appended.1 })
            ]
      ])
  certify_votes market_id commitment expires_at now committee voted (err e) f l = l
  certify_votes market_id commitment expires_at now committee voted (ok votes) f l =
      certify_append market_id commitment expires_at now committee voted _ _ refl f
        (append-Appended p _ committee.policy committee.keys now committee.log)

  certify_replay :
      (market_id : List ℕ) (commitment : OrderCommitment) (expires_at now : ℕ)
      (committee : OrderingCommittee) (replay : Bool)
      (otherwise : Result OrderCertificate OrderingError × OrderingCommittee)
      → (replay ≡ false → Certified market_id commitment expires_at now committee otherwise)
      → Certified market_id commitment expires_at now committee
          (if replay then (err OrderingError.replay, committee) else otherwise)
  certify_replay market_id commitment expires_at now committee true otherwise h = refl
  certify_replay market_id commitment expires_at now committee false otherwise h = h refl

  certify-Certified :
      (market_id : List ℕ) (commitment : OrderCommitment) (expires_at now : ℕ)
      (committee : OrderingCommittee)
      → Certified market_id commitment expires_at now committee
          (certify p market_id commitment expires_at now committee)
  unfolding certify
  certify-Certified market_id commitment expires_at now committee =
      certify_replay market_id commitment expires_at now committee
        (contains commitment committee.log.commitments) _
        (λ f. certify_votes market_id commitment expires_at now committee _ _ f refl)

  Certified-IsLog :
      (market_id : List ℕ) (commitment : OrderCommitment) (expires_at now : ℕ)
      (committee : OrderingCommittee) (result : Result OrderCertificate OrderingError)
      (committee' : OrderingCommittee)
      → Certified market_id commitment expires_at now committee (result, committee')
      → IsLog p committee.log
      → IsLog p committee'.log
  Certified-IsLog market_id commitment expires_at now committee (err e) committee' o h = rw o h
  Certified-IsLog market_id commitment expires_at now committee (ok c) committee' o h =
      let (s, verified, new, e) = o in
      Appended-IsLog p c (ok tt) committee.log (ok tt) committee'.log
        (refl, ground (arith, s), ground (arith, s), rw s new, e) h

  -- When a committee whose log is a chain of certificates for different commitments, all on
  -- record, certifies an order, its log stays one. If it returns a certificate, that certificate
  -- is for the order, at the next sequence number and the digest of the last certificate; it
  -- verified, its commitment was not on record, and the log was extended by it. If it returns an
  -- error, the log is as it was.
  pub certify-IsLog :
      (market_id : List ℕ) (commitment : OrderCommitment) (expires_at now : ℕ)
      (committee : OrderingCommittee)
      → IsLog p committee.log
      → IsLog p (certify p market_id commitment expires_at now committee).1.log
        × Certified market_id commitment expires_at now committee
            (certify p market_id commitment expires_at now committee)
  certify-IsLog market_id commitment expires_at now committee h =
      let certified = certify-Certified market_id commitment expires_at now committee in
      (Certified-IsLog market_id commitment expires_at now committee _ _ certified h, certified)
