-- ===== src/BlockSearch/Faults.antt =====
-- Where the search turns round, or misses a block, on its way.
use serverless_gateway.Words.{u64_mod, add64, sub64}
use serverless_gateway.Prelude.{
  ltb, leb, ◌==◌, lt→ltb, lt→not-leb, le→not-ltb, leb→le, ==_ne, Bool-cases, ok, ℕ, zero, suc, ◌+◌,
  ◌≤◌, ◌<◌, ◌≡◌, refl, ap, ◌∙◌, inl, inr, true, false, none, some, arith,
}
use serverless_gateway.BlockSearch.{
  search, Provider, Rates, Search, while_positive, go_forward, record_block, update_rate, jump_back,
  go_back, on_block, on_next, block, at_block, at_next, returned,
}

-- A step by no block goes to the same block.
go_forward-stays :
    {Rate : Type 0} (rates : Rates Rate) (target t : ℕ) (s : Search Rate)
    → s.block_number < s.earliest_block_number_after_target_ts
    → s.earliest_block_number_after_target_ts < u64_mod
    → rates.scaled (sub64 target t) s.block_rate_per_second ≡ 0
    → go_forward rates target s t ≡ s
unfolding go_forward
go_forward-stays rates target t s below fits still =
    let b = s.block_number in
    let same : add64 b (rates.scaled (sub64 target t) s.block_rate_per_second) ≡ b = omega arith in
    let free : leb s.earliest_block_number_after_target_ts b ≡ false =
      lt→not-leb s.earliest_block_number_after_target_ts b below in
    rw (same, free) refl

-- Where a block and the next one are both before the target, and the rate rounds the distance in
-- time to no block at all, the search fetches these two blocks for ever: no fuel is enough.
pub search-repeats :
    {Rate : Type 0} (rates : Rates Rate) (target : ℕ) (ts : ℕ → ℕ) (p : Provider) (fuel calls : ℕ)
    (s : Search Rate)
    → ((call n : ℕ) → p.get_block call n ≡ block (ts n))
    → 0 < s.block_number
    → s.block_number < s.earliest_block_number_after_target_ts
    → s.earliest_block_number_after_target_ts < u64_mod
    → ts s.block_number < target
    → ts (s.block_number + 1) < target
    → rates.scaled (sub64 target (ts (s.block_number + 1))) s.block_rate_per_second ≡ 0
    → search rates target p fuel calls (at_block s) ≡ none
unfolding search on_block on_next while_positive
search-repeats rates target ts p zero calls s h positive below fits before next still = refl
search-repeats rates target ts p (suc zero) calls s h positive below fits before next still =
    let first : on_block rates target s (p.get_block calls s.block_number) ≡ at_next 0 s =
      rw (h calls s.block_number, lt→ltb (ts s.block_number) target before) refl in
    ap (search rates target p zero (suc calls)) first
search-repeats rates target ts p (suc (suc fuel)) calls s h positive below fits before next still =
    let b = s.block_number in
    let one_more : add64 b 1 ≡ b + 1 = omega arith in
    let first : on_block rates target s (p.get_block calls b) ≡ at_next 0 s =
      rw (h calls b, lt→ltb (ts b) target before) refl in
    let some_left : (b == 0) ≡ false = ==_ne b 0 (omega arith) in
    let back : on_next rates target 0 s (p.get_block (suc calls) (add64 b 1)) ≡ at_block s =
      rw
        (
          one_more,
          h (suc calls) (b + 1),
          lt→not-leb target (ts (b + 1)) next,
          go_forward-stays rates target (ts (b + 1)) s below fits still,
          some_left,
        )
        refl in
    let again =
      search-repeats rates target ts p fuel (suc (suc calls)) s h positive below fits before next
        still in
    ap (search rates target p (suc fuel) (suc calls)) first
    ∙ ap (search rates target p fuel (suc (suc calls))) back
    ∙ again

go_back-overshoots :
    {Rate : Type 0} (rates : Rates Rate) (target t : ℕ) (s : Search Rate)
    → 0 < s.block_number
    → s.block_number < u64_mod
    → t + 1 < s.first_block_timestamp
    → s.first_block_timestamp < u64_mod
    → s.block_number
      ≤ rates.scaled (sub64 t target) (
          rates.ratio (sub64 s.first_block_number s.block_number) (sub64 s.first_block_timestamp t))
    → (go_back rates target s t).block_number ≡ 0
unfolding go_back record_block update_rate jump_back
go_back-overshoots rates target t s positive fits old first_fits far =
    let back : ℕ =
      rates.scaled (sub64 t target) (
        rates.ratio (sub64 s.first_block_number s.block_number)
          (sub64 s.first_block_timestamp t)) in
    let known : (s.first_block_timestamp == 0) ≡ false =
      ==_ne s.first_block_timestamp 0 (omega arith) in
    let older : ltb (add64 t 1) s.first_block_timestamp ≡ true =
      lt→ltb (add64 t 1) s.first_block_timestamp (omega arith) in
    let jumps : (back == 0) ≡ false = ==_ne back 0 (omega arith) in
    elim (Bool-cases (leb back s.block_number)) [
      | inl exact ↦
          let same = leb→le back s.block_number exact in
          rw (known, older, jumps, exact) (omega arith)
      | inr beyond ↦ rw (known, older, jumps, beyond) refl
    ]

-- Where the rate takes the search back by at least the number of the block where it stands, the
-- search ends without a block, whichever earlier blocks are before the target.
pub search-overshoots :
    {Rate : Type 0} (rates : Rates Rate) (target : ℕ) (ts : ℕ → ℕ) (p : Provider) (fuel calls : ℕ)
    (s : Search Rate)
    → ((call n : ℕ) → p.get_block call n ≡ block (ts n))
    → 0 < s.block_number
    → s.block_number < u64_mod
    → target ≤ ts s.block_number
    → ts s.block_number + 1 < s.first_block_timestamp
    → s.first_block_timestamp < u64_mod
    → s.block_number
      ≤ rates.scaled (sub64 (ts s.block_number) target) (
          rates.ratio
            (sub64 s.first_block_number s.block_number)
            (sub64 s.first_block_timestamp (ts s.block_number)))
    → search rates target p (suc fuel) calls (at_block s) ≡ some (ok none)
unfolding search on_block while_positive
search-overshoots rates target ts p fuel calls s h positive fits after old first_fits far =
    let b = s.block_number in
    let lost = go_back-overshoots rates target (ts b) s positive fits old first_fits far in
    let at_zero : ((go_back rates target s (ts b)).block_number == 0) ≡ true = rw lost refl in
    let ends : on_block rates target s (p.get_block calls b) ≡ returned (ok none) =
      rw (h calls b, le→not-ltb (ts b) target after, lt→ltb (ts b) u64_mod (omega arith), at_zero)
        refl in
    ap (search rates target p fuel (suc calls)) ends
