-- ===== src/Crypto.antt =====
-- rust/oclob-core/src/application_crypto.rs: the closed envelope of application signatures.
-- SHA-256 (crate sha2) and the hybrid Ed25519 + ML-DSA-65 scheme (crate zkfmi_crypto) are not in
-- this repository: they are the fields of `Primitives`, and what their documentation promises is
-- the record `IsCorrect`. A 32-byte array is the number whose big-endian bytes it is.
pub mod SignVerify
use Prim.Native.Char.{code}
use Prim.Native.String
use oclob.Base.{
  ℕ, ◌+◌, ◌<◌, ◌≡◌, Bool, true, ◌||◌, not, String, Option, some, List, [], ◌∷◌, ◌++◌, Result, ok,
  err, ◌>>=◌, ◌>>◌, reject_if, ok_or, length, take, drop, All, IsByte, be_bytes, bytes_eq, ◌==◌,
  ◌!=◌,
}

-- The bytes of an ASCII literal.
abbrev pub codes : String → List ℕ
codes String.[] = []
codes (String.◌∷◌ c s) = code c ∷ codes s

abbrev pub Digest32 : Type 0
Digest32 = ℕ

abbrev pub digest_bound : ℕ
digest_bound = 115792089237316195423570985008687907853269984665640564039457584007913129639936

-- The code of other crates that this one calls. `sign` fails where the backend refuses to sign.
pub record Primitives : Type 0 where
  pub sha256 : List ℕ → Digest32
  pub suite : List ℕ
  pub purpose : ℕ
  pub public_key : List ℕ → List ℕ
  pub sign : List ℕ → List ℕ → Option (List ℕ)
  pub hybrid_verify : List ℕ → List ℕ → List ℕ → Bool

-- What the code relies on: fixed widths, and that a signature made with a key verifies under it.
pub record IsCorrect (p : Primitives) : Type 0 where
  pub sha256_bound : (m : List ℕ) → p.sha256 m < digest_bound
  pub length_suite : length p.suite ≡ 4
  pub length_public_key : (seeds : List ℕ) → length (p.public_key seeds) ≡ 1984
  pub length_sign : (seeds m s : List ℕ) → p.sign seeds m ≡ some s → length s ≡ 3373
  pub sign_verifies :
      (seeds m s : List ℕ)
      → p.sign seeds m ≡ some s
      → p.hybrid_verify (p.public_key seeds) m s ≡ true

pub data SignatureError : Type 0 where
  signature_error : SignatureError

abbrev pub magic : List ℕ
magic = codes "OCLSIG02"

abbrev pub public_key_bytes : ℕ
public_key_bytes = 1984

abbrev pub signature_bytes : ℕ
signature_bytes = 8 + 4 + 2 + public_key_bytes + 3373

abbrev pub key_offset : ℕ
key_offset = 14

pub record SigningKey : Type 0 where
  pub seeds : List ℕ

pub record VerifyingKey : Type 0 where
  pub digest : Digest32

pub record Signature : Type 0 where
  pub bytes : List ℕ

module _ (p : Primitives) where
  unfoldable pub fingerprint : List ℕ → Digest32
  fingerprint public =
      p.sha256
        (codes "OCLOB:APPLICATION-KEY-FINGERPRINT:v2" ++ p.suite ++ be_bytes 2 p.purpose ++ public)

  unfoldable pub verifying_key : SigningKey → VerifyingKey
  verifying_key key = record { digest = fingerprint (p.public_key key.seeds) }

  unfoldable pub try_sign : SigningKey → List ℕ → Result Signature SignatureError
  try_sign key message = do
    signed ← ok_or (p.sign key.seeds message) signature_error
    ok (record {
      bytes = magic ++ (p.suite ++ (be_bytes 2 p.purpose ++ (p.public_key key.seeds ++ signed)));
    })

  -- `VerifyingKey::from_bytes`
  unfoldable pub verifying_key_from_bytes : Digest32 → Result VerifyingKey SignatureError
  verifying_key_from_bytes digest = do
    reject_if (digest == 0) signature_error
    ok (record { digest = digest })

  -- `Signature::validate`
  unfoldable pub validate_signature : Signature → Result (Unit {0}) SignatureError
  validate_signature s =
      reject_if
        (length s.bytes != signature_bytes
          || (not (bytes_eq (take 8 s.bytes) magic)
              || (not (bytes_eq (take 4 (drop 8 s.bytes)) p.suite)
                  || not (bytes_eq (take 2 (drop 12 s.bytes)) (be_bytes 2 p.purpose)))))
        signature_error

  -- `Signature::try_from`
  unfoldable pub signature_try_from : List ℕ → Result Signature SignatureError
  unfolding validate_signature
  signature_try_from bytes = do
    validate_signature (record { bytes = bytes })
    ok (record { bytes = bytes })

  unfoldable pub verify_strict :
      VerifyingKey → List ℕ → Signature → Result (Unit {0}) SignatureError
  unfolding validate_signature
  verify_strict key message s = do
    validate_signature s
    let public = take public_key_bytes (drop key_offset s.bytes)
    reject_if (fingerprint public != key.digest) signature_error
    reject_if (not (p.hybrid_verify public message (drop (key_offset + public_key_bytes) s.bytes)))
        signature_error
