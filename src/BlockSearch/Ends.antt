-- ===== src/BlockSearch/Ends.antt =====
-- When the search ends.
use serverless_gateway.BlockSearch.Progress.{
  Answering, measure, IsLeft, go_forward-IsLeft, go_forward-positive, Left-go_back, Left-start,
}
use serverless_gateway.Words.{u64_mod, add64, add64-exact}
use serverless_gateway.Prelude.{
  ltb, leb, ◌==◌, ltb→lt, leb→le, not-leb→lt, not-ltb→le, ==→eq, ==→ne, Bool-cases, ok, ℕ, zero,
  suc, ◌+◌, ◌≤◌, ◌<◌, ◌≡◌, refl, ap, subst, ◌∙◌, ◌⊎◌, inl, inr, none, some, arith,
}
use serverless_gateway.BlockSearch.{
  search, Fetched, Provider, Rates, Search, Place, latest_block, while_positive, go_forward,
  go_back, on_block, on_next, initial_search, get_block_number_by_timestamp, block, at_block,
  at_next, returned,
}
use serverless_gateway.BlockSearch.Left.{between, at_earliest, Left-inside, Left-positive}
use serverless_gateway.BlockSearch.Rate.{
  Moving, Overshot, Tracks, go_forward-Tracks, record_block-Tracks, initial_search-Tracks,
  go_back-Tracks, go_back-Overshot,
}
use serverless_gateway.BlockSearch.Moves.{
  on_block-before, on_block-after, on_next-after, on_next-before,
}

module _ {Rate : Type 0} (rates : Rates Rate) (target latest : ℕ) (ts : ℕ → ℕ) (p : Provider) where
  -- An end of the search: with the last block before the target, or without a block.
  abbrev Ends : ℕ → ℕ → Place Rate → Type 0
  Ends fuel calls place =
      ((b : ℕ) × (search rates target p fuel calls place ≡ some (ok (some b)))
        × (ts b < target)
        × (target ≤ ts (b + 1)))
      ⊎ ((search rates target p fuel calls place ≡ some (ok none))
          × Overshot rates target latest ts)

  Ends-same :
      (fuel calls fuel' calls' : ℕ) (place place' : Place Rate)
      → search rates target p fuel calls place ≡ search rates target p fuel' calls' place'
      → Ends fuel' calls' place'
      → Ends fuel calls place
  Ends-same fuel calls fuel' calls' place place' same (inl (b, e, below, above)) =
      inl (b, same ∙ e, below, above)
  Ends-same fuel calls fuel' calls' place place' same (inr (e, far)) = inr (same ∙ e, far)

  -- One call of the provider.
  Ends-at_block :
      (fuel calls : ℕ) (s : Search Rate) (answer : Fetched) (place : Place Rate)
      → p.get_block calls s.block_number ≡ answer
      → on_block rates target s answer ≡ place
      → Ends fuel (suc calls) place
      → Ends (suc fuel) calls (at_block s)
  unfolding search
  Ends-at_block fuel calls s answer place answered moved rest =
      Ends-same (suc fuel) calls fuel (suc calls) (at_block s) place
        (ap (λ a. search rates target p fuel (suc calls) (on_block rates target s a)) answered
          ∙ ap (search rates target p fuel (suc calls)) moved)
        rest

  Ends-at_next :
      (fuel calls retries : ℕ) (s : Search Rate) (answer : Fetched) (place : Place Rate)
      → p.get_block calls (add64 s.block_number 1) ≡ answer
      → on_next rates target retries s answer ≡ place
      → Ends fuel (suc calls) place
      → Ends (suc fuel) calls (at_next retries s)
  unfolding search
  Ends-at_next fuel calls retries s answer place answered moved rest =
      Ends-same (suc fuel) calls fuel (suc calls) (at_next retries s) place
        (ap (λ a. search rates target p fuel (suc calls) (on_next rates target retries s a))
            answered
          ∙ ap (search rates target p fuel (suc calls)) moved)
        rest

  Ends-found :
      (fuel calls b : ℕ)
      → ts b < target
      → target ≤ ts (b + 1)
      → Ends fuel calls (returned (ok (some b)))
  unfolding search
  Ends-found fuel calls b below above = inl (b, refl, below, above)

  Ends-while_positive :
      (fuel calls : ℕ) (s : Search Rate)
      → (s.block_number ≡ 0 → Overshot rates target latest ts)
      → (0 < s.block_number → Ends fuel calls (at_block s))
      → Ends fuel calls (while_positive s)
  unfolding while_positive search
  Ends-while_positive fuel calls s far h = elim (Bool-cases (s.block_number == 0)) [
    | inl at_zero ↦ rw at_zero (inr (refl, far (==→eq s.block_number 0 at_zero)))
    | inr positive ↦ rw positive (h (omega (arith, ==→ne s.block_number 0 positive)))
  ]

  -- The confirmation of a block before the target.
  Ends-next :
      (fuel calls m : ℕ) (s : Search Rate)
      → Answering target latest ts p
      → Moving rates target latest ts
      → target < u64_mod
      → ts s.block_number < target
      → Tracks rates target latest ts s
      → IsLeft rates target latest ts s (suc m)
      → 0 < s.block_number
      → ((s' : Search Rate)
          → 0 < s'.block_number
          → Tracks rates target latest ts s'
          → IsLeft rates target latest ts s' m
          → Ends fuel (suc calls) (while_positive s'))
      → Ends (suc fuel) calls (at_next 0 s)
  Ends-next fuel calls m s h moving target_fits before tracks (between below inside known small)
        positive ih =
      let b = s.block_number in
      let next : add64 b 1 ≡ b + 1 = add64-exact b 1 (omega (arith, h.latest_fits)) in
      let answered : p.get_block calls (add64 b 1) ≡ block (ts (b + 1)) =
        ap (p.get_block calls) next ∙ h.answers calls (b + 1) (omega arith) in
      elim (Bool-cases (leb target (ts (b + 1)))) [
        | inl reached ↦
            Ends-at_next fuel calls 0 s _ _ answered
              (on_next-after rates target 0 s (ts (b + 1)) (leb→le target (ts (b + 1)) reached))
              (Ends-found fuel (suc calls) b before (leb→le target (ts (b + 1)) reached))
        | inr short ↦
            let early = not-leb→lt target (ts (b + 1)) short in
            Ends-at_next fuel calls 0 s _ _ answered
              (on_next-before rates target 0 s (ts (b + 1)) early)
              (ih (go_forward rates target s (ts (b + 1)))
                (go_forward-positive rates target latest ts s (b + 1) moving tracks.rate
                  (omega arith) early target_fits h.latest_fits inside positive below)
                (go_forward-Tracks rates target latest ts s (ts (b + 1)) tracks)
                (go_forward-IsLeft rates target latest ts s (b + 1) m moving tracks.rate
                  h.latest_fits target_fits (omega arith) early below inside known small))
      ]
  Ends-next fuel calls m s h moving target_fits before tracks (at_earliest here inside known small)
        positive ih =
      let b = s.block_number in
      let next : add64 b 1 ≡ b + 1 = add64-exact b 1 (omega (arith, h.latest_fits)) in
      let answered : p.get_block calls (add64 b 1) ≡ block (ts (b + 1)) =
        ap (p.get_block calls) next ∙ h.answers calls (b + 1) (omega arith) in
      let e : s.earliest_block_number_after_target_ts + 1 ≡ b + 1 = omega arith in
      Ends-at_next fuel calls 0 s _ _ answered
        (on_next-after rates target 0 s (ts (b + 1)) (subst (λ x. target ≤ ts x) e known))
        (Ends-found fuel (suc calls) b before (subst (λ x. target ≤ ts x) e known))

  Ends-from :
      (m fuel calls : ℕ) (s : Search Rate)
      → Answering target latest ts p
      → Moving rates target latest ts
      → target < u64_mod
      → 0 < target
      → Tracks rates target latest ts s
      → IsLeft rates target latest ts s m
      → m + m ≤ fuel
      → 0 < s.block_number
      → Ends fuel calls (at_block s)
  Ends-from zero fuel calls s h moving target_fits some_target tracks left enough positive =
      let some_left = Left-positive target latest ts left in absurd (omega arith)
  Ends-from (suc m) zero calls s h moving target_fits some_target tracks left enough positive =
      absurd (omega arith)
  Ends-from (suc m) (suc zero) calls s h moving target_fits some_target tracks left enough
        positive =
      absurd (omega arith)
  Ends-from (suc m) (suc (suc fuel)) calls s h moving target_fits some_target tracks left enough
        positive =
      let b = s.block_number in
      let answered = h.answers calls b (Left-inside target latest ts left) in
      let fits : ts b + 1 < u64_mod = h.fits b (Left-inside target latest ts left) in
      elim (Bool-cases (ltb (ts b) target)) [
        | inl early ↦
            let before = ltb→lt (ts b) target early in
            Ends-at_block (suc fuel) calls s _ _ answered
              (on_block-before rates target s (ts b) before)
              (Ends-next fuel (suc calls) m s h moving target_fits before tracks left positive
                (λ s' up tracks' left'.
                  Ends-while_positive fuel (suc (suc calls)) s' (λ at_zero. absurd (omega arith))
                    (λ positive'.
                      Ends-from m fuel (suc (suc calls)) s' h moving target_fits some_target tracks'
                        left' (omega arith) positive')))
        | inr late ↦
            let after = not-ltb→le (ts b) target late in
            let s' = go_back rates target s (ts b) in
            let kept =
              record_block-Tracks rates target latest ts s (ts b) (omega (arith, h.reached))
                tracks in
            let inside = Left-inside target latest ts left in
            Ends-at_block (suc fuel) calls s _ _ answered
              (on_block-after rates target s (ts b) after (omega arith))
              (Ends-while_positive (suc fuel) (suc calls) s'
                (go_back-Overshot rates target latest ts s inside h.latest_fits after fits kept)
                (λ positive'.
                  Ends-from m (suc fuel) (suc calls) s' h moving target_fits some_target
                    (go_back-Tracks rates target latest ts s inside after fits kept)
                    (Left-go_back rates target latest ts s m h.latest_fits positive after left)
                    (omega arith) positive'))
      ]

-- On a chain that answers for every block up to the latest one, which get_block_number gives, is not
-- block 0 and is not before the target, and with this fuel, the search ends and does not panic: with a block before the target whose successor
-- is not, or without a block. It ends without one only if some block at or after the target is block
-- 1 or 0, or is more than a second before the latest block and taken back by at least its number at
-- the rate measured from it to the latest one. The condition is that each rate the search can meet,
-- the one at the start or one measured from a block at or after the target to the latest one, gives
-- at least one block for the time from any block before the target to the target, and not more than
-- fit a `u64`. The numbers of the blocks, the timestamps with one added and the target fit a `u64`, and
-- the target is not 0.
pub get_block_number_by_timestamp-ends :
    {Rate : Type 0} (rates : Rates Rate) (target latest : ℕ) (ts : ℕ → ℕ) (p : Provider)
    → Answering target latest ts p
    → Moving rates target latest ts
    → 0 < target
    → target < u64_mod
    → 0 < latest
    → latest_block p 0 5 ≡ latest
    → let result =
        get_block_number_by_timestamp rates target p (suc (measure latest + measure latest)) in
      ((b : ℕ) × (result ≡ some (ok (some b))) × (ts b < target) × (target ≤ ts (b + 1)))
      ⊎ ((result ≡ some (ok none)) × Overshot rates target latest ts)
unfolding get_block_number_by_timestamp search initial_search
get_block_number_by_timestamp-ends rates target latest ts p h moving some_target target_fits
      some_block started =
    let start = initial_search rates target latest in
    let enough = measure latest + measure latest in
    let kept = initial_search-Tracks rates target latest ts in
    let fits : ts latest + 1 < u64_mod = h.fits latest (omega arith) in
    rw started (
      Ends-while_positive rates target latest ts p (suc enough) 0 start
        (λ at_zero. absurd (omega arith))
        (λ positive.
          Ends-at_block rates target latest ts p enough 0 start _ _
            (h.answers 0 latest (omega arith))
            (on_block-after rates target start (ts latest) h.reached (omega arith))
            (Ends-while_positive rates target latest ts p enough 1
              (go_back rates target start (ts latest))
              (go_back-Overshot rates target latest ts start (omega arith) h.latest_fits h.reached
                fits kept)
              (λ positive'.
                Ends-from rates target latest ts p (measure latest) enough 1
                  (go_back rates target start (ts latest)) h moving target_fits some_target
                  (go_back-Tracks rates target latest ts start (omega arith) h.reached fits kept)
                  (Left-start rates target latest (ts latest) ts h.latest_fits h.reached positive)
                  (omega arith) positive'))))
