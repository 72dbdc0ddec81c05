-- ===== src/BlockSearch/Rate.antt =====
-- The rates that the search works with: the one at the start, and those measured from the latest
-- block, which is the first one kept.
use serverless_gateway.Words.{u64_mod, add64, sub64, add64-exact}
use serverless_gateway.Prelude.{
  ltb, leb, ◌==◌, ltb→lt, ==_ne, Bool-cases, ℕ, ◌+◌, ◌-◌, ◌≤◌, ◌<◌, ◌≡◌, refl, ap, subst, ◌∙◌, ◌⊎◌,
  inl, inr, true, false, arith,
}
use serverless_gateway.BlockSearch.{
  Rates, Search, go_forward, record_block, update_rate, jump_back, go_back, initial_search,
}
use serverless_gateway.BlockSearch.Moves.{record_block-moves, jump_back-zero}

module _ {Rate : Type 0} (rates : Rates Rate) (target latest : ℕ) (ts : ℕ → ℕ) where
  -- The rate measured at a block: the blocks from it to the latest one, by the time between them.
  abbrev pub measured_rate : ℕ → Rate
  measured_rate n = rates.ratio (sub64 latest n) (sub64 (ts latest) (ts n))

  -- A block at which a rate is measured: not before the target, and more than a second before the
  -- latest one.
  abbrev pub IsMeasured : ℕ → Type 0
  IsMeasured n = (n ≤ latest) × (target ≤ ts n) × (ts n + 1 < ts latest)

  -- A rate that the search can meet.
  abbrev pub IsMet : Rate → Type 0
  IsMet r = (r ≡ rates.initial) ⊎ ((n : ℕ) × IsMeasured n × (r ≡ measured_rate n))

  -- The rates that the search can meet take it on from every block before the target, and not past
  -- the largest `u64`.
  abbrev pub Moving : Type 0
  Moving =
      (r : Rate) (n : ℕ)
      → IsMet r
      → n ≤ latest
      → ts n < target
      → (0 < rates.scaled (target - ts n) r) × (rates.scaled (target - ts n) r + latest < u64_mod)

  -- A block at or after the target from which the search goes back to zero: block 1 or 0, or one
  -- that the rate measured at it takes back by at least its number.
  abbrev pub Overshot : Type 0
  Overshot =
      (n : ℕ) × (n ≤ latest)
      × (target ≤ ts n)
      × ((n ≤ 1)
          ⊎ ((ts n + 1 < ts latest) × (n ≤ rates.scaled (sub64 (ts n) target) (measured_rate n))))

  -- A search that has kept the latest block, at a rate that it can meet.
  pub record Tracks (s : Search Rate) : Type 0 where
    pub first_number : s.first_block_number ≡ latest
    pub first_timestamp : s.first_block_timestamp ≡ ts latest
    pub rate : IsMet s.block_rate_per_second

  pub go_forward-Tracks :
      (s : Search Rate) (t : ℕ) → Tracks s → Tracks (go_forward rates target s t)
  unfolding go_forward
  go_forward-Tracks s t h =
      let n : ℕ = add64 s.block_number (rates.scaled (sub64 target t) s.block_rate_per_second) in
      elim (Bool-cases (leb s.earliest_block_number_after_target_ts n)) [
        | inl capped ↦ rw capped (record {
          first_number = h.first_number;
          first_timestamp = h.first_timestamp;
          rate = h.rate;
        })
        | inr free ↦ rw free (record {
          first_number = h.first_number;
          first_timestamp = h.first_timestamp;
          rate = h.rate;
        })
      ]

  pub record_block-Tracks :
      (s : Search Rate) (t : ℕ) → 0 < ts latest → Tracks s → Tracks (record_block rates target s t)
  unfolding record_block
  record_block-Tracks s t later h =
      let kept : s.first_block_timestamp == 0 ≡ false =
        ==_ne s.first_block_timestamp 0 (omega (arith, h.first_timestamp)) in
      rw kept (record {
        first_number = h.first_number;
        first_timestamp = h.first_timestamp;
        rate = h.rate;
      })

  pub initial_search-Tracks :
      Tracks (record_block rates target (initial_search rates target latest) (ts latest))
  unfolding record_block initial_search
  initial_search-Tracks = record { first_number = refl; first_timestamp = refl; rate = inl refl }

  jump_back-Tracks : (s : Search Rate) (t : ℕ) → Tracks s → Tracks (jump_back rates target s t)
  unfolding jump_back
  jump_back-Tracks s t h =
      let back : ℕ = rates.scaled (sub64 t target) s.block_rate_per_second in
      elim (Bool-cases (back == 0)) [
        | inl stays ↦ rw stays h
        | inr jumps ↦ elim (Bool-cases (leb back s.block_number)) [
          | inl within ↦
              rw (jumps, within)
                (record {
                  first_number = h.first_number;
                  first_timestamp = h.first_timestamp;
                  rate = h.rate;
                })
          | inr beyond ↦
              rw (jumps, beyond)
                (record {
                  first_number = h.first_number;
                  first_timestamp = h.first_timestamp;
                  rate = h.rate;
                })
        ]
      ]

  -- The rate that is measured.
  update_rate-measured :
      (kept : Search Rate) (n : ℕ)
      → Tracks kept
      → kept.block_number ≡ n
      → (update_rate rates target kept (ts n)).block_rate_per_second ≡ measured_rate n
  unfolding update_rate
  update_rate-measured kept n h same =
      ap (λ b. rates.ratio (sub64 b kept.block_number) (sub64 kept.first_block_timestamp (ts n)))
        h.first_number
      ∙ ap (λ b. rates.ratio (sub64 latest b) (sub64 kept.first_block_timestamp (ts n))) same
      ∙ ap (λ t. rates.ratio (sub64 latest n) (sub64 t (ts n))) h.first_timestamp

  is_far :
      (kept : Search Rate) (n : ℕ)
      → Tracks kept
      → ts n + 1 < u64_mod
      → ltb (add64 (ts n) 1) kept.first_block_timestamp ≡ true
      → ts n + 1 < ts latest
  is_far kept n h fits far =
      let exact : add64 (ts n) 1 ≡ ts n + 1 = add64-exact (ts n) 1 fits in
      let before : add64 (ts n) 1 < kept.first_block_timestamp = ltb→lt _ _ far in
      omega (arith, h.first_timestamp)

  update_rate-Tracks :
      (kept : Search Rate) (n : ℕ)
      → Tracks kept
      → kept.block_number ≡ n
      → IsMeasured n
      → Tracks (update_rate rates target kept (ts n))
  update_rate-Tracks kept n h same measured = record {
    first_number = unfold update_rate in h.first_number;
    first_timestamp = unfold update_rate in h.first_timestamp;
    rate = inr (n, measured, update_rate-measured kept n h same);
  }

  pub go_back-Tracks :
      (s : Search Rate)
      → s.block_number ≤ latest
      → target ≤ ts s.block_number
      → ts s.block_number + 1 < u64_mod
      → Tracks (record_block rates target s (ts s.block_number))
      → Tracks (go_back rates target s (ts s.block_number))
  unfolding go_back
  go_back-Tracks s inside after fits h =
      let n : ℕ = s.block_number in
      let kept = record_block rates target s (ts n) in
      let (same, earliest) = record_block-moves rates target s (ts n) in
      elim (Bool-cases (ltb (add64 (ts n) 1) kept.first_block_timestamp)) [
        | inl far ↦
            let moved =
              jump_back-Tracks (update_rate rates target kept (ts n)) (ts n)
                (update_rate-Tracks kept n h same (inside, after, is_far kept n h fits far)) in
            rw far (record {
              first_number = moved.first_number;
              first_timestamp = moved.first_timestamp;
              rate = moved.rate;
            })
        | inr near ↦ rw near (record {
          first_number = h.first_number;
          first_timestamp = h.first_timestamp;
          rate = h.rate;
        })
      ]

  -- Where going back ends at zero.
  pub go_back-Overshot :
      (s : Search Rate)
      → s.block_number ≤ latest
      → latest < u64_mod
      → target ≤ ts s.block_number
      → ts s.block_number + 1 < u64_mod
      → Tracks (record_block rates target s (ts s.block_number))
      → (go_back rates target s (ts s.block_number)).block_number ≡ 0
      → Overshot
  unfolding go_back
  go_back-Overshot s inside room after fits h at_zero =
      let n : ℕ = s.block_number in
      let kept = record_block rates target s (ts n) in
      let (same, earliest) = record_block-moves rates target s (ts n) in
      let s' = update_rate rates target kept (ts n) in
      let kept_block : s'.block_number ≡ n = unfold update_rate in same in
      elim (Bool-cases (ltb (add64 (ts n) 1) kept.first_block_timestamp)) [
        | inl far ↦
            let e : sub64 (jump_back rates target s' (ts n)).block_number 1 ≡ 0 =
              rw (far, go_back) at at_zero in
            elim (jump_back-zero rates target s' (ts n) (omega (arith, kept_block)) e) [
              | inl first ↦ (n, inside, after, inl (omega (arith, kept_block)))
              | inr low ↦
                  let measured = update_rate-measured kept n h same in
                  let back : n ≤ rates.scaled (sub64 (ts n) target) (measured_rate n) =
                    subst (λ r. n ≤ rates.scaled (sub64 (ts n) target) r) measured
                      (subst
                        (λ (x : ℕ). x ≤ rates.scaled (sub64 (ts n) target) s'.block_rate_per_second)
                        kept_block low) in
                  (n, inside, after, inr (is_far kept n h fits far, back))
            ]
        | inr near ↦
            let e : sub64 kept.block_number 1 ≡ 0 = rw (near, go_back) at at_zero in
            (n, inside, after, inl (omega (arith, same)))
      ]
