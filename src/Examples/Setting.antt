-- ===== src/Examples/Setting.antt =====
-- A toy instance of the cryptography: a hash modulo 65521, and signatures that repeat a hash of
-- the key and the message. It shows that the assumptions on the primitives can hold together.
use oclob.Base.{
  ℕ, zero, suc, ◌+◌, ◌*◌, ◌%◌, ◌<◌, ◌≡◌, refl, true, some, List, [], ◌∷◌, ◌++◌, arith, length,
  be_bytes, bytes_eq,
}
use oclob.Crypto.{Primitives, IsCorrect, codes}

abbrev pub mix : List ℕ → ℕ
mix [] = 7
mix (b ∷ bs) = (b + 31 * mix bs) % 65521

mix_bound : (bs : List ℕ) → mix bs < 65521
mix_bound [] = omega arith
mix_bound (b ∷ bs) = omega arith

abbrev pub copies : ℕ → ℕ → List ℕ
copies zero b = []
copies (suc n) b = b ∷ copies n b

length-copies : (n b : ℕ) → length (copies n b) ≡ n
length-copies zero b = refl
length-copies (suc n) b = ground (arith, length-copies n b)

abbrev pub toy_sign : List ℕ → List ℕ → List ℕ
toy_sign public m = copies 3373 (mix (public ++ m) % 256)

abbrev pub toy_key : List ℕ → List ℕ
toy_key seeds = copies 1984 (mix seeds % 256)

abbrev pub toy : Primitives
toy = record {
  sha256 = λ m. suc (mix m);
  suite = codes "TOY1";
  purpose = 3;
  public_key = toy_key;
  sign = λ seeds m. some (toy_sign (toy_key seeds) m);
  hybrid_verify = λ public m s. bytes_eq s (toy_sign public m);
}

-- The envelope that `try_sign` makes.
abbrev pub toy_envelope : List ℕ → List ℕ → List ℕ
toy_envelope seeds m =
    codes "OCLSIG02"
    ++ (toy.suite ++ (be_bytes 2 toy.purpose ++ (toy_key seeds ++ toy_sign (toy_key seeds) m)))

bytes_eq_refl : (bs : List ℕ) → bytes_eq bs bs ≡ true
bytes_eq_refl [] = refl
bytes_eq_refl (b ∷ bs) = ground (arith, bytes_eq_refl bs)

pub toy-IsCorrect : IsCorrect toy
toy-IsCorrect = record {
  sha256_bound = λ m. omega (arith, mix_bound m);
  length_suite = refl;
  length_public_key = λ seeds. length-copies 1984 (mix seeds % 256);
  length_sign = λ seeds m s e. ground (arith, length-copies 3373 (mix (toy_key seeds ++ m) % 256));
  sign_verifies = λ seeds m s e. ground (arith, bytes_eq_refl (toy_sign (toy_key seeds) m));
}
