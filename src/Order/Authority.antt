-- ===== src/Order/Authority.antt =====
-- rust/oclob-core/src/lib.rs: the commitment to an order, the authority that its key signs over
-- the commitment and a deadline, and the verification of that authority.
pub mod Honest
use oclob.Base.{
  ℕ, ◌||◌, List, ◌++◌, Result, ok, ◌>>=◌, ◌>>◌, reject_if, map_err, be_bytes, ltb, ◌!=◌,
}
use oclob.Crypto.{
  Primitives, Digest32, codes, SigningKey, verifying_key, try_sign, verifying_key_from_bytes,
  signature_try_from, verify_strict,
}
use oclob.Order.{OrderError, SecretOrder}
use oclob.Order.Wire.{canonical_payload}

-- `OrderCommitment`
abbrev pub OrderCommitment : Type 0
OrderCommitment = Digest32

pub record OrderAuthority : Type 0 where
  pub commitment : OrderCommitment
  pub authorization_deadline : ℕ
  pub verifying_key : Digest32
  pub signature : List ℕ

module _ (p : Primitives) where
  -- `SecretOrder::commitment`
  unfoldable pub commitment_of : SecretOrder → OrderCommitment
  commitment_of o =
      p.sha256 (codes "OCLOB:ORDER-COMMITMENT:v2" ++ be_bytes 32 o.salt ++ canonical_payload o)

  unfoldable pub authority_body : OrderCommitment → ℕ → List ℕ
  authority_body commitment deadline =
      be_bytes 32 (
        p.sha256
          (codes "OCLOB:ORDER-AUTHORITY:v2" ++ be_bytes 32 commitment ++ be_bytes 8 deadline))

  unfoldable pub authorize_order : SecretOrder → ℕ → SigningKey → Result OrderAuthority OrderError
  authorize_order order authorization_deadline signing_key = do
    reject_if (ltb authorization_deadline order.expires_at)
        (OrderError.invalid "authorization expires before the order")
    let commitment = commitment_of order
    signature ←
        map_err (try_sign p signing_key (authority_body commitment authorization_deadline))
          (λ _. OrderError.authority)
    ok (record {
      commitment = commitment;
      authorization_deadline = authorization_deadline;
      verifying_key = (verifying_key p signing_key).digest;
      signature = signature.bytes;
    })

  -- `OrderAuthority::verify`
  unfoldable pub verify_authority : OrderAuthority → SecretOrder → ℕ → Result (Unit {0}) OrderError
  verify_authority a order now = do
    reject_if
        (ltb a.authorization_deadline now
          || (ltb order.expires_at now || a.commitment != commitment_of order))
        OrderError.authority
    key ← map_err (verifying_key_from_bytes p a.verifying_key) (λ _. OrderError.authority)
    signature ← map_err (signature_try_from p a.signature) (λ _. OrderError.authority)
    map_err (verify_strict p key (authority_body a.commitment a.authorization_deadline) signature)
        (λ _. OrderError.authority)
