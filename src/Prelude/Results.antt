-- ===== src/Prelude/Results.antt =====
-- src/error.rs, and how a call ends: with a value, with an error of the program, or by a panic.
use Prim.Native.Nat.{ℕ}
use mathlib.Core.Path.{◌≡◌, refl, ap}
use mathlib.Core.Option.{Option, none, some}

-- `enum ServerlessError`, less its variants of the tests.
pub data ServerlessError : Type 0 where
  log_decode_failure : ServerlessError
  job_does_not_belong_to_enclave : ServerlessError
  job_older_than_maintained_block_states : ServerlessError
  no_gateways_registered_in_cycle : ℕ → ServerlessError
  no_valid_gateways_for_chain : ℕ → ℕ → ServerlessError
  no_subscription_job_found : ℕ → ServerlessError

pub data Outcome {ℓ} (A : Type ℓ) : Type ℓ where
  ok : A → Outcome A
  err : ServerlessError → Outcome A
  panicked : Outcome A

infixl 5 ◌>>=◌
abbrev pub ◌>>=◌ {ℓ κ} :
    {Read : Type ℓ} {Made : Type κ} → Outcome Read → (Read → Outcome Made) → Outcome Made
panicked >>= next = panicked
err why >>= next = err why
ok value >>= next = next value

-- `unwrap` of an option, and an index that may be out of range.
abbrev pub unwrap {ℓ} : {A : Type ℓ} → Option A → Outcome A
unwrap none = panicked
unwrap (some a) = ok a

pub >>=-eq-ok {ℓ κ} :
    {Read : Type ℓ} {Made : Type κ} (first : Outcome Read) (next : Read → Outcome Made)
    {made : Made}
    → (first >>= next) ≡ ok made
    → (value : Read) × (first ≡ ok value) × (next value ≡ ok made)
>>=-eq-ok panicked next done = cc
>>=-eq-ok (err why) next done = cc
>>=-eq-ok (ok value) next done = (value, refl, done)

-- An option that was unwrapped without a panic.
pub unwrap-ok {ℓ} : {A : Type ℓ} (o : Option A) (a : A) → unwrap o ≡ ok a → o ≡ some a
unwrap-ok none a e = cc
unwrap-ok (some b) a e = cc

pub ok-injective {ℓ} : {A : Type ℓ} {a b : A} → ok a ≡ ok b → a ≡ b
ok-injective h = cc

-- The two parts of a result that is a pair.
pub ok-pair {ℓ κ} :
    {A : Type ℓ} {B : Type κ} {a c : A} {b d : B}
    → ◌≡◌ {A = Outcome (A × B)} (ok (a, b)) (ok (c, d))
    → (a ≡ c) × (b ≡ d)
ok-pair h = (ap (λ p. p.0) (ok-injective h), ap (λ p. p.1) (ok-injective h))
