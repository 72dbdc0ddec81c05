-- ===== src/BlockSearch/Progress.antt =====
-- What is left to search on a chain that answers, after each step.
use serverless_gateway.Words.{u64_mod, add64, sub64}
use serverless_gateway.Prelude.{
  ltb, leb, not-leb→lt, not-ltb→le, Bool-cases, ℕ, suc, ◌+◌, ◌-◌, ◌*◌, ◌≤◌, ◌<◌, ◌≡◌, refl, sym,
  subst, ◌∙◌, inl, inr, arith,
}
use serverless_gateway.BlockSearch.{
  Provider, Rates, Search, go_forward, go_back, initial_search, block,
}
use native.Mathlib.Nat.{suc-mul}
use serverless_gateway.BlockSearch.Left.{
  between, Left, Left-inside, Left-back, Left-forward, Left-capped,
}
use serverless_gateway.BlockSearch.Moves.{go_back-moves}
use serverless_gateway.BlockSearch.Rate.{Moving, IsMet}

-- A chain that answers for each block up to the latest one, which is not before the target.
pub record Answering (target latest : ℕ) (ts : ℕ → ℕ) (p : Provider) : Type 0 where
  pub answers : (call n : ℕ) → n ≤ latest → p.get_block call n ≡ block (ts n)
  pub fits : (n : ℕ) → n ≤ latest → ts n + 1 < u64_mod
  pub latest_fits : latest < u64_mod
  pub reached : target ≤ ts latest

-- The largest measure of a search, for the fuel.
abbrev pub measure : ℕ → ℕ
measure latest = (latest + latest + 2) * suc latest

module _ {Rate : Type 0} (rates : Rates Rate) (target latest : ℕ) (ts : ℕ → ℕ) where
  abbrev pub IsLeft : Search Rate → ℕ → Type 0
  IsLeft s m = Left target latest ts s.block_number s.earliest_block_number_after_target_ts m

  -- The step that goes forward.
  pub go_forward-IsLeft :
      (s : Search Rate) (n m : ℕ)
      → Moving rates target latest ts
      → IsMet rates target latest ts s.block_rate_per_second
      → latest < u64_mod
      → target < u64_mod
      → n ≤ latest
      → ts n < target
      → s.block_number < s.earliest_block_number_after_target_ts
      → s.earliest_block_number_after_target_ts ≤ latest
      → target ≤ ts s.earliest_block_number_after_target_ts
      → (s.earliest_block_number_after_target_ts + s.earliest_block_number_after_target_ts + 1)
            * suc latest
          + (s.earliest_block_number_after_target_ts - s.block_number)
        < suc m
      → IsLeft (go_forward rates target s (ts n)) m
  unfolding go_forward
  go_forward-IsLeft s n m moving met room target_fits there before below inside known small =
      let b = s.block_number in
      let e = s.earliest_block_number_after_target_ts in
      let d : ℕ = sub64 target (ts n) in
      let jump : ℕ = rates.scaled d s.block_rate_per_second in
      let exact_d : d ≡ target - ts n = omega arith in
      let (up, jump_fits) =
        subst
          (λ x.
            (0 < rates.scaled x s.block_rate_per_second)
            × (rates.scaled x s.block_rate_per_second + latest < u64_mod))
          (sym exact_d) (moving s.block_rate_per_second n met there before) in
      let exact : add64 b jump ≡ b + jump = omega arith in
      let one_less : sub64 e 1 ≡ e - 1 = omega arith in
      elim (Bool-cases (leb e (add64 b jump))) [
        | inl capped ↦
            rw (capped, one_less) (Left-capped target latest ts b e m below inside known small)
        | inr free ↦ rw free (
            Left-forward target latest ts b e (add64 b jump) m (omega arith)
              (not-leb→lt e (add64 b jump) free) inside known small)
      ]

  pub go_forward-positive :
      (s : Search Rate) (n : ℕ)
      → Moving rates target latest ts
      → IsMet rates target latest ts s.block_rate_per_second
      → n ≤ latest
      → ts n < target
      → target < u64_mod
      → latest < u64_mod
      → s.earliest_block_number_after_target_ts ≤ latest
      → 0 < s.block_number
      → s.block_number < s.earliest_block_number_after_target_ts
      → 0 < (go_forward rates target s (ts n)).block_number
  unfolding go_forward
  go_forward-positive s n moving met there before target_fits room inside positive below =
      let b = s.block_number in
      let e = s.earliest_block_number_after_target_ts in
      let d : ℕ = sub64 target (ts n) in
      let jump : ℕ = rates.scaled d s.block_rate_per_second in
      let exact_d : d ≡ target - ts n = omega arith in
      let (up, jump_fits) =
        subst
          (λ x.
            (0 < rates.scaled x s.block_rate_per_second)
            × (rates.scaled x s.block_rate_per_second + latest < u64_mod))
          (sym exact_d) (moving s.block_rate_per_second n met there before) in
      elim (Bool-cases (leb e (add64 b jump))) [
        | inl capped ↦ rw capped (omega arith)
        | inr free ↦ rw free (omega arith)
      ]

  pub Left-go_back :
      (s : Search Rate) (m : ℕ)
      → latest < u64_mod
      → 0 < s.block_number
      → target ≤ ts s.block_number
      → IsLeft s (suc m)
      → IsLeft (go_back rates target s (ts s.block_number)) m
  Left-go_back s m room positive after left =
      let inside = Left-inside target latest ts left in
      let (down, earliest) =
        go_back-moves rates target s (ts s.block_number) positive (omega arith) in
      rw earliest (
        Left-back target latest ts s.block_number s.earliest_block_number_after_target_ts _ m down
          after left)

-- What is left behind the latest block, which is the first one fetched.
pub Left-start :
    {Rate : Type 0} (rates : Rates Rate) (target latest t : ℕ) (ts : ℕ → ℕ)
    → latest < u64_mod
    → target ≤ ts latest
    → 0 < latest
    → let s = go_back rates target (initial_search rates target latest) t in
      Left target latest ts s.block_number s.earliest_block_number_after_target_ts (measure latest)
unfolding initial_search
Left-start rates target latest t ts fits reached positive =
    let start = initial_search rates target latest in
    let (down, earliest) = go_back-moves rates target start t positive fits in
    let e : (go_back rates target start t).earliest_block_number_after_target_ts ≡ latest =
      earliest ∙ elim (Bool-cases (ltb latest (sub64 0 1))) [
        | inl below ↦ rw below refl
        | inr top ↦ rw top (omega (arith, not-ltb→le latest (sub64 0 1) top))
      ] in
    rw e (
      between down (omega arith) reached
        (omega (arith, suc-mul (latest + latest + 1) (suc latest))))
