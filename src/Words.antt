-- ===== src/Words.antt =====
-- The machine integers of the sources. `u8`, `u64` and `u128` wrap, as a release build does;
-- `U256` panics where a result or a conversion does not fit, as its documentation says.
use serverless_gateway.Prelude.{
  ltb, leb, ◌==◌, if◌then◌else◌, Outcome, ok, panicked, ℕ, ◌+◌, ◌-◌, ◌*◌, ◌/◌, ◌%◌, ◌^◌, ◌≤◌, ◌<◌,
  ◌≡◌, arith,
}

abbrev pub u8_mod : ℕ
u8_mod = 2 ^ 8

abbrev pub u64_mod : ℕ
u64_mod = 2 ^ 64

abbrev pub u128_mod : ℕ
u128_mod = 2 ^ 128

abbrev pub u256_mod : ℕ
u256_mod = 2 ^ 256

abbrev pub add64 : ℕ → ℕ → ℕ
add64 a b = (a + b) % u64_mod

abbrev pub sub64 : ℕ → ℕ → ℕ
sub64 a b = (a + u64_mod - b) % u64_mod

abbrev pub mul64 : ℕ → ℕ → ℕ
mul64 a b = (a * b) % u64_mod

-- Rust's `/` panics on a zero divisor, in every build.
abbrev pub div64 : ℕ → ℕ → Outcome ℕ
div64 a b = if b == 0 then panicked else ok (a / b)

abbrev pub add8 : ℕ → ℕ → ℕ
add8 a b = (a + b) % u8_mod

abbrev pub sub8 : ℕ → ℕ → ℕ
sub8 a b = (a + u8_mod - b) % u8_mod

abbrev pub add128 : ℕ → ℕ → ℕ
add128 a b = (a + b) % u128_mod

-- `as u8` of a wider word.
abbrev pub as_u8 : ℕ → ℕ
as_u8 a = a % u8_mod

-- `U256::low_u64`.
abbrev pub low_u64 : ℕ → ℕ
low_u64 a = a % u64_mod

-- `U256::as_u64` and `U256::as_u128`.
abbrev pub as_u64 : ℕ → Outcome ℕ
as_u64 a = if ltb a u64_mod then ok a else panicked

abbrev pub as_u128 : ℕ → Outcome ℕ
as_u128 a = if ltb a u128_mod then ok a else panicked

abbrev pub add256 : ℕ → ℕ → Outcome ℕ
add256 a b = if ltb (a + b) u256_mod then ok (a + b) else panicked

abbrev pub sub256 : ℕ → ℕ → Outcome ℕ
sub256 a b = if leb b a then ok (a - b) else panicked

abbrev pub mul256 : ℕ → ℕ → Outcome ℕ
mul256 a b = if ltb (a * b) u256_mod then ok (a * b) else panicked

abbrev pub div256 : ℕ → ℕ → Outcome ℕ
div256 a b = if b == 0 then panicked else ok (a / b)

-- Arithmetic on `u64` is exact where the result fits.
pub add64-exact : (a b : ℕ) → a + b < u64_mod → add64 a b ≡ a + b
add64-exact a b h = omega arith

pub sub64-exact : (a b : ℕ) → b ≤ a → a < u64_mod → sub64 a b ≡ a - b
sub64-exact a b h k = omega arith
