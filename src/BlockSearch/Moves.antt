-- ===== src/BlockSearch/Moves.antt =====
-- Where a step of the search moves: the two numbers that its progress is measured by, and the
-- branches of the two answers.
use serverless_gateway.Words.{u64_mod, add64, sub64}
use serverless_gateway.Prelude.{
  ltb, leb, ◌==◌, if◌then◌else◌, lt→ltb, le→leb, lt→not-leb, le→not-ltb, leb→le, not-leb→lt, ==→ne,
  Bool-cases, ok, ℕ, ◌≤◌, ◌<◌, ◌≡◌, refl, ◌∙◌, ◌⊎◌, inl, inr, some, arith,
}
use serverless_gateway.BlockSearch.{
  Rates, Search, while_positive, go_forward, record_block, update_rate, jump_back, go_back,
  on_block, on_next, block, at_next, returned,
}

-- Where the search moves, in the two numbers that its progress is measured by.
module _ {Rate : Type 0} (rates : Rates Rate) (target : ℕ) where
  pub record_block-moves :
      (s : Search Rate) (t : ℕ)
      → ((record_block rates target s t).block_number ≡ s.block_number)
        × ((record_block rates target s t).earliest_block_number_after_target_ts ≡ (
            if ltb s.block_number s.earliest_block_number_after_target_ts
            then s.block_number
            else s.earliest_block_number_after_target_ts))
  unfolding record_block
  record_block-moves s t = elim (Bool-cases (s.first_block_timestamp == 0)) [
    | inl first ↦ rw first (refl, refl)
    | inr later ↦ rw later (refl, refl)
  ]

  jump_back-moves :
      (s : Search Rate) (t : ℕ)
      → 0 < s.block_number
      → s.block_number < u64_mod
      → (sub64 (jump_back rates target s t).block_number 1 < s.block_number)
        × ((jump_back rates target s t).earliest_block_number_after_target_ts
            ≡ s.earliest_block_number_after_target_ts)
  unfolding jump_back
  jump_back-moves s t positive fits =
      let back : ℕ = rates.scaled (sub64 t target) s.block_rate_per_second in
      elim (Bool-cases (back == 0)) [
        | inl stays ↦ rw stays (omega arith, refl)
        | inr jumps ↦ elim (Bool-cases (leb back s.block_number)) [
          | inl within ↦
              rw (jumps, within)
                (omega (arith, leb→le back s.block_number within, ==→ne back 0 jumps), refl)
          | inr beyond ↦ rw (jumps, beyond) (omega arith, refl)
        ]
      ]

  -- A step that goes back to zero starts at block 1, or the rate takes it back that far.
  pub jump_back-zero :
      (s : Search Rate) (t : ℕ)
      → s.block_number < u64_mod
      → sub64 (jump_back rates target s t).block_number 1 ≡ 0
      → (s.block_number ≤ 1)
        ⊎ (s.block_number ≤ rates.scaled (sub64 t target) s.block_rate_per_second)
  unfolding jump_back
  jump_back-zero s t fits at_zero =
      let back : ℕ = rates.scaled (sub64 t target) s.block_rate_per_second in
      elim (Bool-cases (back == 0)) [
        | inl stays ↦
            let e : sub64 s.block_number 1 ≡ 0 = rw (stays, jump_back) at at_zero in
            inl (omega arith)
        | inr jumps ↦ elim (Bool-cases (leb back s.block_number)) [
          | inl within ↦
              let e : sub64 (add64 (sub64 s.block_number back) 1) 1 ≡ 0 =
                rw (jumps, within, jump_back) at at_zero in
              inr (omega (arith, leb→le back s.block_number within))
          | inr beyond ↦ inr (omega (arith, not-leb→lt back s.block_number beyond))
        ]
      ]

  pub go_back-moves :
      (s : Search Rate) (t : ℕ)
      → 0 < s.block_number
      → s.block_number < u64_mod
      → ((go_back rates target s t).block_number < s.block_number)
        × ((go_back rates target s t).earliest_block_number_after_target_ts ≡ (
            if ltb s.block_number s.earliest_block_number_after_target_ts
            then s.block_number
            else s.earliest_block_number_after_target_ts))
  unfolding go_back update_rate
  go_back-moves s t positive fits =
      let kept = record_block rates target s t in
      let (same, earliest) = record_block-moves s t in
      elim (Bool-cases (ltb (add64 t 1) kept.first_block_timestamp)) [
        | inl far ↦
            let (down, same_earliest) =
              jump_back-moves (update_rate rates target kept t) t (rw same positive)
                (rw same fits) in
            rw far (omega arith, same_earliest ∙ earliest)
        | inr near ↦ rw near (rw same (omega arith), earliest)
      ]

-- The branches of the two answers.
module _ {Rate : Type 0} (rates : Rates Rate) (target : ℕ) where
  pub on_block-before :
      (s : Search Rate) (t : ℕ) → t < target → on_block rates target s (block t) ≡ at_next 0 s
  unfolding on_block
  on_block-before s t before = rw (lt→ltb t target before) refl

  pub on_block-after :
      (s : Search Rate) (t : ℕ)
      → target ≤ t
      → t < u64_mod
      → on_block rates target s (block t) ≡ while_positive (go_back rates target s t)
  unfolding on_block
  on_block-after s t after fits = rw (le→not-ltb t target after, lt→ltb t u64_mod fits) refl

  pub on_next-after :
      (retries : ℕ) (s : Search Rate) (t : ℕ)
      → target ≤ t
      → on_next rates target retries s (block t) ≡ returned (ok (some s.block_number))
  unfolding on_next
  on_next-after retries s t after = rw (le→leb target t after) refl

  pub on_next-before :
      (retries : ℕ) (s : Search Rate) (t : ℕ)
      → t < target
      → on_next rates target retries s (block t) ≡ while_positive (go_forward rates target s t)
  unfolding on_next
  on_next-before retries s t before = rw (lt→not-leb target t before) refl
