-- ===== src/Ordering/Chain.antt =====
-- The log stays a chain of certificates for different orders, whatever is appended.
use oclob.Base.{
  ℕ, ◌+◌, ◌≡◌, refl, sym, ◌∙◌, Bool, true, false, ◌||◌, List, [], ◌∷◌, ◌++◌, Result, ok, err,
  BTreeMap, arith, contains, set_insert, length, ◌==◌, ◌!=◌, if◌then◌else◌,
}
use oclob.Crypto.{Primitives, Digest32, VerifyingKey}
use oclob.Order.Authority.{OrderCommitment}
use oclob.Ordering.{CommitteePolicy, OrderingError}
use oclob.Ordering.Certificate.{OrderCertificate, certificate_digest, verify_certificate}
use oclob.Ordering.Log.{OrderingLog, last_digest, head, next_sequence, append}

-- Whether some certificate orders the commitment.
abbrev orders : OrderCommitment → List OrderCertificate → Bool
orders k [] = false
orders k (c ∷ cs) = (k == c.statement.commitment) || orders k cs

abbrev AreDistinct : List OrderCertificate → Type 0
AreDistinct [] = Unit
AreDistinct (c ∷ cs) = (orders c.statement.commitment cs ≡ false) × AreDistinct cs

orders-++ :
    (k : OrderCommitment) (c : OrderCertificate) (cs : List OrderCertificate)
    → orders k (cs ++ (c ∷ [])) ≡ (orders k cs || (k == c.statement.commitment))
orders-++ k c [] = ground arith
orders-++ k c (d ∷ cs) = ground (arith, orders-++ k c cs)

++-AreDistinct :
    (c : OrderCertificate) (cs : List OrderCertificate)
    → AreDistinct cs
    → orders c.statement.commitment cs ≡ false
    → AreDistinct (cs ++ (c ∷ []))
++-AreDistinct c [] h f = (refl, tt)
++-AreDistinct c (d ∷ cs) h f = (
  ground (arith, orders-++ d.statement.commitment c cs, h.0, f),
  ++-AreDistinct c cs h.1 (ground (arith, f)),
)

module _ (p : Primitives) where
  -- The certificates have the sequence numbers from `n` on, and each names the digest of the one
  -- before it.
  abbrev pub IsChain : Digest32 → ℕ → List OrderCertificate → Type 0
  IsChain before n [] = Unit
  IsChain before n (c ∷ cs) =
      (c.statement.sequence ≡ n)
      × (c.statement.previous_certificate ≡ before)
      × IsChain (certificate_digest p c) (n + 1) cs

  -- A chain from 1 on, for different commitments, which are those in the set.
  pub record IsLog (log : OrderingLog) : Type 0 where
    pub chain : IsChain 0 1 log.certificates
    pub distinct : AreDistinct log.certificates
    pub recorded : (k : OrderCommitment) → contains k log.commitments ≡ orders k log.certificates

  ++-IsChain :
      (before : Digest32) (n : ℕ) (cs : List OrderCertificate) (c : OrderCertificate)
      → IsChain before n cs
      → c.statement.sequence ≡ n + length cs
      → c.statement.previous_certificate ≡ last_digest p before cs
      → IsChain before n (cs ++ (c ∷ []))
  ++-IsChain before n [] c h s d = (omega (arith, s), d, tt)
  ++-IsChain before n (x ∷ cs) c h s d =
      (h.0, h.1, ++-IsChain (certificate_digest p x) (n + 1) cs c h.2 (omega (arith, s)) d)

  abbrev pub extended : OrderingLog → OrderCertificate → OrderingLog
  extended log c = record {
    certificates = log.certificates ++ (c ∷ []);
    commitments = set_insert c.statement.commitment log.commitments;
  }

  -- What appending did: the certificate verified, was next and new and is now last, or nothing.
  abbrev pub Appended :
      OrderCertificate
      → Result (Unit {0}) OrderingError
      → OrderingLog
      → Result (Unit {0}) OrderingError × OrderingLog
      → Type 0
  Appended c verified log (ok _, log') =
      (verified ≡ ok tt)
      × (c.statement.sequence ≡ next_sequence log)
      × (c.statement.previous_certificate ≡ head p log)
      × (contains c.statement.commitment log.commitments ≡ false)
      × (log' ≡ extended log c)
  Appended c verified log (err e, log') = log' ≡ log

  append_step :
      (c : OrderCertificate) (log : OrderingLog) (verified : Result (Unit {0}) OrderingError)
      (broken replay : Bool)
      → broken ≡ (
          c.statement.sequence != next_sequence log
          || c.statement.previous_certificate != head p log)
      → replay ≡ contains c.statement.commitment log.commitments
      → Appended c verified log (elim verified [
        | err e ↦ (err e, log)
        | ok _ ↦
            if broken
            then (err OrderingError.broken_chain, log)
            else if replay
            then (err OrderingError.replay, log)
            else (ok tt, extended log c)
      ])
  append_step c log (err e) broken replay b r = refl
  append_step c log (ok _) true replay b r = refl
  append_step c log (ok _) false true b r = refl
  append_step c log (ok _) false false b r =
      (refl, ground (arith, b), ground (arith, b), sym r, refl)

  pub append-Appended :
      (c : OrderCertificate) (policy : CommitteePolicy) (keys : BTreeMap VerifyingKey) (now : ℕ)
      (log : OrderingLog)
      → Appended c (verify_certificate p c policy keys now) log (append p c policy keys now log)
  unfolding append
  append-Appended c policy keys now log =
      append_step c log (verify_certificate p c policy keys now) _ _ refl refl

  pub Appended-IsLog :
      (c : OrderCertificate) (verified : Result (Unit {0}) OrderingError) (log : OrderingLog)
      (result : Result (Unit {0}) OrderingError) (log' : OrderingLog)
      → Appended c verified log (result, log')
      → IsLog log
      → IsLog log'
  Appended-IsLog c verified log (err e) log' a h = rw a h
  Appended-IsLog c verified log (ok _) log' a h =
      let (_, next, previous, new, e) = a in
      rw e (record {
        chain = ++-IsChain 0 1 log.certificates c h.chain (omega (arith, next)) previous;
        distinct =
            ++-AreDistinct c log.certificates h.distinct
              (sym (h.recorded c.statement.commitment) ∙ new);
        recorded = λ k. ground (
          arith,
          orders-++ k c log.certificates,
          h.recorded k,
          h.recorded c.statement.commitment,
          new,
        );
      })

  -- Appending to a log that is a chain of certificates for different commitments, all on record,
  -- leaves such a log. If it succeeds, the certificate verified, was for the next sequence number
  -- and the digest of the last certificate, for a commitment not on record, and is now last with
  -- its commitment on record; if it fails, the log is as it was.
  pub append-IsLog :
      (c : OrderCertificate) (policy : CommitteePolicy) (keys : BTreeMap VerifyingKey) (now : ℕ)
      (log : OrderingLog)
      → IsLog log
      → IsLog (append p c policy keys now log).1
        × Appended c (verify_certificate p c policy keys now) log (append p c policy keys now log)
  append-IsLog c policy keys now log h =
      let appended = append-Appended c policy keys now log in
      (Appended-IsLog c _ log _ _ appended h, appended)
