-- ===== src/Samples/Signer.antt =====
-- A sample of the libraries that sign, for the tests.
use serverless_gateway.Words.{add8}
use serverless_gateway.Prelude.{
  ◌==◌, if◌then◌else◌, ==_refl, length, length-append, ℕ, ◌+◌, ◌≡◌, refl, Option, none, some, List,
  [], ◌∷◌,
}
use serverless_gateway.Signing.{Crypto}
use serverless_gateway.Signing.Recovered.{Recovers}

-- A signer whose signature is the digest itself, and a recovery that finds the enclave 40 where the
-- signature is one byte longer than the digest.
abbrev pub plain : Crypto
plain = record {
  keccak256 = λ b. b;
  keccak256_text = λ s. 1 ∷ [];
  encode = λ tokens. length tokens ∷ [];
  encode_packed = λ tokens. some (length tokens ∷ []);
  sign_prehash_recoverable = λ digest. some (digest, 1);
  hex_encode = λ b. b;
  from_hex = λ b. some b;
}

abbrev pub recovers_40 : List ℕ → List ℕ → Option ℕ
recovers_40 digest signature = if length signature == length digest + 1 then some 40 else none

pub plain-Recovers : Recovers plain recovers_40 40
plain-Recovers = record {
  reads_back = λ b. refl;
  recovered = λ digest rs v made.
      let same : digest ≡ rs = cc in
      let long = length-append rs (add8 27 v ∷ []) in rw (same, long, ==_refl (length rs + 1)) refl;
}
