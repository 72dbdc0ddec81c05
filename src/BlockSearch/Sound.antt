-- ===== src/BlockSearch/Sound.antt =====
-- What the search finds is the last block before the target.
use serverless_gateway.Constants.{max_retry_on_provider_error}
use serverless_gateway.Words.{u64_mod, add64}
use serverless_gateway.Prelude.{
  ltb, leb, ◌==◌, ltb→lt, leb→le, Bool-cases, Outcome, ok, err, panicked, ℕ, zero, suc, ◌+◌, ◌≤◌,
  ◌<◌, ◌≡◌, refl, subst, ◌⊎◌, inl, inr, Option, none, some, arith,
}
use serverless_gateway.BlockSearch.{
  search, Fetched, Provider, Rates, Search, Place, latest_block, while_positive, go_forward,
  go_back, on_block, on_next, initial_search, get_block_number_by_timestamp, failed, absent, block,
  at_block, at_next, returned,
}

-- The blocks that the provider returns are those of a chain with these timestamps.
abbrev pub AnswersFrom : (ℕ → ℕ) → Provider → Type 0
AnswersFrom ts p = (call n t : ℕ) → p.get_block call n ≡ block t → ts n ≡ t

module _ {Rate : Type 0} (rates : Rates Rate) (target : ℕ) (ts : ℕ → ℕ) where
  -- What is known of the chain where the search stands.
  abbrev IsSound : Place Rate → Type 0
  IsSound (at_block s) = Unit
  IsSound (at_next retries s) = ts s.block_number < target
  IsSound (returned (ok none)) = Unit
  IsSound (returned (ok (some b))) = (ts b < target) × (target ≤ ts (add64 b 1))
  IsSound (returned (err e)) = Unit
  IsSound (returned panicked) = Unit

  while_positive-IsSound : (s : Search Rate) → IsSound (while_positive s)
  unfolding while_positive
  while_positive-IsSound s = elim (Bool-cases (s.block_number == 0)) [
    | inl at_zero ↦ rw at_zero tt
    | inr positive ↦ rw positive tt
  ]

  on_block-IsSound :
      (s : Search Rate) (answer : Fetched)
      → ((t : ℕ) → answer ≡ block t → ts s.block_number ≡ t)
      → IsSound (on_block rates target s answer)
  unfolding on_block
  on_block-IsSound s failed h = tt
  on_block-IsSound s absent h = tt
  on_block-IsSound s (block t) h = elim (Bool-cases (ltb t target)) [
    | inl before ↦ rw before (omega (arith, h t refl, ltb→lt t target before))
    | inr after ↦ elim (Bool-cases (ltb t u64_mod)) [
      | inl fits ↦ rw (after, fits) (while_positive-IsSound (go_back rates target s t))
      | inr wide ↦ rw (after, wide) tt
    ]
  ]

  on_next-IsSound :
      (retries : ℕ) (s : Search Rate) (answer : Fetched)
      → ts s.block_number < target
      → ((t : ℕ) → answer ≡ block t → ts (add64 s.block_number 1) ≡ t)
      → IsSound (on_next rates target retries s answer)
  unfolding on_next
  on_next-IsSound retries s absent below h = below
  on_next-IsSound retries s failed below h =
      elim (Bool-cases (leb (suc retries) max_retry_on_provider_error)) [
        | inl again ↦ rw again below
        | inr last ↦ rw last tt
      ]
  on_next-IsSound retries s (block t) below h = elim (Bool-cases (leb target t)) [
    | inl reached ↦
        let e : ts (add64 s.block_number 1) ≡ t = h t refl in
        let at_least : target ≤ t = leb→le target t reached in rw (reached, e) (below, at_least)
    | inr before ↦ rw before (while_positive-IsSound (go_forward rates target s t))
  ]

  search-IsSound :
      (p : Provider) (fuel calls : ℕ) (place : Place Rate) (r : Outcome (Option ℕ))
      → AnswersFrom ts p
      → IsSound place
      → search rates target p fuel calls place ≡ some r
      → IsSound (returned r)
  unfolding search
  search-IsSound p fuel calls (returned r') r h sound e =
      let same : r' ≡ r = cc in subst (λ x. IsSound (returned x)) same sound
  search-IsSound p zero calls (at_block s) r h sound e = cc
  search-IsSound p zero calls (at_next retries s) r h sound e = cc
  search-IsSound p (suc fuel) calls (at_block s) r h sound e =
      search-IsSound p fuel (suc calls) _ r h
        (on_block-IsSound s (p.get_block calls s.block_number) (h calls s.block_number)) e
  search-IsSound p (suc fuel) calls (at_next retries s) r h sound e =
      search-IsSound p fuel (suc calls) _ r h
        (on_next-IsSound retries s (p.get_block calls (add64 s.block_number 1)) sound
          (h calls (add64 s.block_number 1)))
        e

-- On a chain whose timestamps never fall, a block that the search returns is the last one before
-- the target: the blocks before the target are exactly those up to it. This holds for every
-- block rate, and whatever else the provider fails to answer.
pub get_block_number_by_timestamp-last_before :
    {Rate : Type 0} (rates : Rates Rate) (target : ℕ) (ts : ℕ → ℕ) (p : Provider) (fuel b n : ℕ)
    → AnswersFrom ts p
    → ((i j : ℕ) → i ≤ j → ts i ≤ ts j)
    → get_block_number_by_timestamp rates target p fuel ≡ some (ok (some b))
    → (ts n < target → n ≤ b) × (n ≤ b → ts n < target)
unfolding get_block_number_by_timestamp
get_block_number_by_timestamp-last_before rates target ts p fuel b n h rises e =
    let start = initial_search rates target (latest_block p 0 5) in
    let (below, above) =
      search-IsSound rates target ts p fuel 0 _ _ h (while_positive-IsSound rates target ts start)
        e in
    let next : (b + 1 ≤ add64 b 1) ⊎ (add64 b 1 ≤ b) = omega arith in
    elim next [
      | inl within ↦
          (λ before. ground (arith, rises (add64 b 1) n), λ up_to. ground (arith, rises n b))
      | inr wraps ↦ absurd (ground (arith, rises (add64 b 1) b))
    ]
