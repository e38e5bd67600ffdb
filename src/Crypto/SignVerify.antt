-- ===== src/Crypto/SignVerify.antt =====
-- What `try_sign` makes, `signature_try_from` and `verify_strict` accept.
use oclob.Base.{
  ℕ, ◌≡◌, List, ◌++◌, ok, some, inl, inr, arith, length, take, drop, length-append, take-append,
  drop-append, be_bytes, length-be_bytes, Option-cases, bytes_eq_iff, !=_refl, refl,
}
use oclob.Crypto.{
  Primitives, IsCorrect, SigningKey, Signature, magic, signature_bytes, try_sign,
  validate_signature, verify_strict, verifying_key, fingerprint, signature_try_from,
}

module _ (p : Primitives) (c : IsCorrect p) where
  abbrev envelope : List ℕ → List ℕ → List ℕ
  envelope public signed = magic ++ (p.suite ++ (be_bytes 2 p.purpose ++ (public ++ signed)))

  length-envelope :
      (public signed : List ℕ)
      → length public ≡ 1984
      → length signed ≡ 3373
      → length (envelope public signed) ≡ signature_bytes
  length-envelope public signed a b = omega (
    arith,
    length-append p.suite (be_bytes 2 p.purpose ++ (public ++ signed)),
    length-append (be_bytes 2 p.purpose) (public ++ signed),
    length-append public signed,
    length-be_bytes 2 p.purpose,
    c.length_suite,
  )

  -- The parts stand at the offsets that the code slices at.
  envelope_slices :
      (public signed : List ℕ)
      → length public ≡ 1984
      → let e = envelope public signed in
        (take 4 (drop 8 e) ≡ p.suite)
        × (take 2 (drop 12 e) ≡ be_bytes 2 p.purpose)
        × (take 1984 (drop 14 e) ≡ public)
        × (drop 1998 e ≡ signed)
  envelope_slices public signed a =
      let two = length-be_bytes 2 p.purpose in
      let four = c.length_suite in
      (
        take-append 4 p.suite _ four,
        rw (drop-append 4 0 p.suite (be_bytes 2 p.purpose ++ (public ++ signed)) four)
            (take-append 2 (be_bytes 2 p.purpose) _ two),
        rw
            (
              drop-append 4 2 p.suite (be_bytes 2 p.purpose ++ (public ++ signed)) four,
              drop-append 2 0 (be_bytes 2 p.purpose) (public ++ signed) two,
            )
            (take-append 1984 public signed a),
        rw (
          drop-append 4 1986 p.suite (be_bytes 2 p.purpose ++ (public ++ signed)) four,
          drop-append 2 1984 (be_bytes 2 p.purpose) (public ++ signed) two,
          drop-append 1984 0 public signed a,
        ),
      )

  envelope-validate_signature :
      (public signed : List ℕ)
      → length public ≡ 1984
      → length signed ≡ 3373
      → validate_signature p (record { bytes = envelope public signed }) ≡ ok tt
  unfolding validate_signature
  envelope-validate_signature public signed a b =
      let e = envelope public signed in
      let (suite, purpose, _, _) = envelope_slices public signed a in
      ground (
        arith,
        length-envelope public signed a b,
        suite,
        purpose,
        bytes_eq_iff magic magic,
        bytes_eq_iff (take 4 (drop 8 e)) p.suite,
        bytes_eq_iff (take 2 (drop 12 e)) (be_bytes 2 p.purpose),
      )

  envelope-verify_strict :
      (seeds m signed : List ℕ)
      → p.sign seeds m ≡ some signed
      → verify_strict p
          (verifying_key p (record { seeds = seeds }))
          m
          (record { bytes = envelope (p.public_key seeds) signed })
        ≡ ok tt
  unfolding verify_strict verifying_key
  envelope-verify_strict seeds m signed h =
      let public = p.public_key seeds in
      let a = c.length_public_key seeds in
      let (_, _, key_part, rest) = envelope_slices public signed a in
      rw (
        envelope-validate_signature public signed a (c.length_sign seeds m signed h),
        key_part,
        rest,
        !=_refl (fingerprint p public),
        c.sign_verifies seeds m signed h,
      )

  -- If the primitives keep their promises, a signature that a key makes is accepted by the
  -- reader of envelopes as it stands, and verifies for the message under the key's fingerprint.
  pub try_sign-verify_strict :
      (key : SigningKey) (m : List ℕ) (s : Signature)
      → try_sign p key m ≡ ok s
      → (signature_try_from p s.bytes ≡ ok s) × (verify_strict p (verifying_key p key) m s ≡ ok tt)
  unfolding try_sign signature_try_from
  try_sign-verify_strict key m s h = elim (Option-cases (p.sign key.seeds m)) [
    | inl refused ↦ ground arith
    | inr (signed, e) ↦
        let made : record { bytes = envelope (p.public_key key.seeds) signed } ≡ s = ground arith in
        rw
          (
            ← made,
            envelope-validate_signature (p.public_key key.seeds) signed
                (c.length_public_key key.seeds) (c.length_sign key.seeds m signed e),
          )
          (refl, envelope-verify_strict key.seeds m signed e)
  ]
