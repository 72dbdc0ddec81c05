-- ===== src/Signing/Recovered.antt =====
-- A signature that is made and read back recovers to the signer's address.
use serverless_gateway.Words.{add8}
use serverless_gateway.Prelude.{
  Option-cases, ℕ, ◌≡◌, refl, sym, ap, ◌∙◌, inl, inr, Option, none, some, List, [], ◌∷◌, ◌++◌,
}
use serverless_gateway.Signing.{Crypto, signature_text, sign_digest}

-- What the libraries promise: digits are read back, and a signature recovers its signer's address.
-- `ecrecover` is that of the chains' contracts.
pub record Recovers (k : Crypto) (ecrecover : List ℕ → List ℕ → Option ℕ) (enclave : ℕ)
    : Type 0 where
  pub reads_back : (b : List ℕ) → k.from_hex (k.hex_encode b) ≡ some b
  pub recovered :
      (digest rs : List ℕ) (v : ℕ)
      → k.sign_prehash_recoverable digest ≡ some (rs, v)
      → ecrecover digest (rs ++ add8 27 v ∷ []) ≡ some enclave

-- The signature recovers to this address.
abbrev pub IsSignedBy :
    Crypto → (List ℕ → List ℕ → Option ℕ) → ℕ → Option (List ℕ) × List ℕ → Type 0
IsSignedBy k ecrecover enclave (claim, signature) =
    (bytes : List ℕ) × (claim ≡ some bytes)
    × (ecrecover (k.keccak256 bytes) signature ≡ some enclave)

some-same {ℓ} : {A : Type ℓ} {a b : A} → ◌≡◌ {A = Option A} (some a) (some b) → a ≡ b
some-same e = cc

module _ (k : Crypto) (ecrecover : List ℕ → List ℕ → Option ℕ) (enclave : ℕ) where
  -- A signature that was made and read back.
  pub sign_digest-IsSignedBy :
      (now : ℕ) (claim : Option (List ℕ)) (signed : List ℕ × ℕ) (signature : List ℕ)
      → Recovers k ecrecover enclave
      → sign_digest k now claim ≡ some signed
      → k.from_hex signed.0 ≡ some signature
      → IsSignedBy k ecrecover enclave (claim, signature) × (signed.1 ≡ now)
  unfolding sign_digest signature_text
  sign_digest-IsSignedBy now none signed signature h e read = cc
  sign_digest-IsSignedBy now (some bytes) signed signature h e read =
      elim (Option-cases (k.sign_prehash_recoverable (k.keccak256 bytes))) [
        | inl failed ↦ let nothing = rw (failed, sign_digest) at e in cc
        | inr ((rs, v), made) ↦
            let whole = rw (made, sign_digest) at e in
            let pair : (k.hex_encode (rs ++ add8 27 v ∷ []), now) ≡ signed = cc in
            let same : signature ≡ rs ++ add8 27 v ∷ [] = some-same (
              sym read
              ∙ ap (λ x. k.from_hex x.0) (sym pair)
              ∙ h.reads_back (rs ++ add8 27 v ∷ [])) in
            (
              (bytes, refl, rw same (h.recovered (k.keccak256 bytes) rs v made)),
              ap (λ x. x.1) (sym pair),
            )
      ]

  -- The digits of a signature can be read.
  sign_digest-digits :
      (now : ℕ) (claim : Option (List ℕ)) (signed : List ℕ × ℕ)
      → sign_digest k now claim ≡ some signed
      → (b : List ℕ) × (k.hex_encode b ≡ signed.0)
  unfolding sign_digest signature_text
  sign_digest-digits now none signed e = cc
  sign_digest-digits now (some bytes) signed e =
      elim (Option-cases (k.sign_prehash_recoverable (k.keccak256 bytes))) [
        | inl failed ↦ let nothing = rw (failed, sign_digest) at e in cc
        | inr ((rs, v), made) ↦
            let pair : (k.hex_encode (rs ++ add8 27 v ∷ []), now) ≡ signed =
              some-same (rw (made, sign_digest) at e) in
            (rs ++ add8 27 v ∷ [], ap (λ x. x.0) pair)
      ]

  pub sign_digest-read :
      (now : ℕ) (claim : Option (List ℕ)) (signed : List ℕ × ℕ)
      → Recovers k ecrecover enclave
      → sign_digest k now claim ≡ some signed
      → (signature : List ℕ) × (k.from_hex signed.0 ≡ some signature)
        × IsSignedBy k ecrecover enclave (claim, signature)
  sign_digest-read now claim signed h e =
      let (b, digits) = sign_digest-digits now claim signed e in
      let read : k.from_hex signed.0 ≡ some b = ap k.from_hex (sym digits) ∙ h.reads_back b in
      (b, read, (sign_digest-IsSignedBy now claim signed b h e read).0)
