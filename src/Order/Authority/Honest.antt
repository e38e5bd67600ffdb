-- ===== src/Order/Authority/Honest.antt =====
-- An authority that `authorize_order` makes is accepted by `verify_authority` as long as neither
-- the order nor the authority has expired.
use oclob.Base.{ℕ, ◌≤◌, ◌<◌, ◌≡◌, ok, inl, inr, arith, Result-cases, ltb, Bool-cases}
use oclob.Crypto.{
  Primitives, IsCorrect, SigningKey, verifying_key, try_sign, verifying_key_from_bytes,
}
use oclob.Crypto.SignVerify.{try_sign-verify_strict}
use oclob.Order.{SecretOrder}
use oclob.Order.Authority.{
  OrderAuthority, commitment_of, authority_body, authorize_order, verify_authority,
}

module _ (p : Primitives) (c : IsCorrect p) where
  -- If the primitives keep their promises, the authority that a key signs for an order is
  -- accepted at every time up to the order's expiry, provided that the key's fingerprint is not
  -- the zero digest; it is never signed with a deadline before that expiry.
  pub authorize_order-verify_authority :
      (o : SecretOrder) (deadline now : ℕ) (key : SigningKey) (a : OrderAuthority)
      → 0 < (verifying_key p key).digest
      → now ≤ o.expires_at
      → authorize_order p o deadline key ≡ ok a
      → (o.expires_at ≤ deadline) × (verify_authority p a o now ≡ ok tt)
  unfolding authorize_order verify_authority verifying_key_from_bytes
  authorize_order-verify_authority o deadline now key a present early h =
      elim (Bool-cases (ltb deadline o.expires_at)) [
        | inl late ↦ ground arith
        | inr fits ↦
            elim (Result-cases (try_sign p key (authority_body p (commitment_of p o) deadline))) [
              | inl (s, e) ↦ ground (
                arith,
                try_sign-verify_strict p c key (authority_body p (commitment_of p o) deadline) s e,
              )
              | inr (f, e) ↦ ground arith
            ]
      ]
