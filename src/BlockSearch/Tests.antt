-- ===== src/BlockSearch/Tests.antt =====
-- The search at concrete inputs.
use serverless_gateway.BlockSearch.Progress.{measure}
use serverless_gateway.BlockSearch.Rate.{Overshot, Moving}
use serverless_gateway.Words.{sub64}
use native.Mathlib.Nat.{mul-div_cancel}
use serverless_gateway.Prelude.{
  ltb, if◌then◌else◌, ok, ℕ, suc, ◌+◌, ◌-◌, ◌*◌, ◌/◌, ◌≤◌, ◌<◌, ◌≡◌, refl, ap, ◌⊎◌, inl, inr, none,
  some, arith,
}
use serverless_gateway.BlockSearch.{
  search, Provider, Rates, Search, latest_block, while_positive, go_forward, record_block,
  update_rate, jump_back, go_back, on_block, on_next, initial_search, get_block_number_by_timestamp,
  block, at_block,
}
use serverless_gateway.BlockSearch.Sound.{get_block_number_by_timestamp-last_before}
use serverless_gateway.BlockSearch.Ends.{get_block_number_by_timestamp-ends}
use serverless_gateway.BlockSearch.Faults.{search-repeats, search-overshoots}

-- One block each second.
abbrev by_the_second : Rates ℕ
by_the_second = record { initial = 1; ratio = λ a b. 1; scaled = λ d r. d }

abbrev second_of : ℕ → ℕ
second_of n = 100 + n

abbrev every_second : Provider
every_second = record {
  get_block_number = λ attempt. some 10;
  get_block = λ call n. block (second_of n);
}

found_block : get_block_number_by_timestamp by_the_second 105 every_second 20 ≡ some (ok (some 4))
unfolding get_block_number_by_timestamp latest_block while_positive initial_search search on_block
    on_next go_back go_forward record_block update_rate jump_back
found_block = refl

get_block_number_by_timestamp-last_before_example :
    (second_of 7 < 105 → 7 ≤ 4) × (7 ≤ 4 → second_of 7 < 105)
get_block_number_by_timestamp-last_before_example =
    get_block_number_by_timestamp-last_before by_the_second 105 second_of every_second 20 4 7
      (λ call n t e. cc) (λ i j le. omega arith) found_block

latest_is_10 : latest_block every_second 0 5 ≡ 10
unfolding latest_block
latest_is_10 = refl

-- Rates as fractions of whole numbers.
abbrev rational : Rates (ℕ × ℕ)
rational = record { initial = (3, 1); ratio = λ a b. (a, b); scaled = λ d r. d * r.0 / r.1 }

same_scale : (d a b : ℕ) → 0 < b → a ≡ b → d * a / b ≡ d
same_scale d a b positive same = rw same (mul-div_cancel d positive)

-- On the chain of a block each second, a second is a block at each measured rate, and three at the
-- start.
rational-Moving : Moving rational 105 10 second_of
rational-Moving (a, b) n (inl initial) inside before =
    let three : a ≡ 3 = ap (λ r. r.0) initial in
    let one : b ≡ 1 = ap (λ r. r.1) initial in rw (three, one) (omega arith, omega arith)
rational-Moving (a, b) n (inr (m, (below, after, far), measured)) inside before =
    let blocks : a ≡ sub64 10 m = ap (λ r. r.0) measured in
    let seconds : b ≡ sub64 (second_of 10) (second_of m) = ap (λ r. r.1) measured in
    let d : ℕ = 105 - second_of n in
    let scale : d * a / b ≡ d = same_scale d a b (omega arith) (omega arith) in
    (omega arith, omega arith)

get_block_number_by_timestamp-ends_example :
    let result =
      get_block_number_by_timestamp rational 105 every_second (suc (measure 10 + measure 10)) in
    ((b : ℕ) × (result ≡ some (ok (some b))) × (second_of b < 105) × (105 ≤ second_of (b + 1)))
    ⊎ ((result ≡ some (ok none)) × Overshot rational 105 10 second_of)
get_block_number_by_timestamp-ends_example =
    get_block_number_by_timestamp-ends rational 105 10 second_of every_second
      (record {
        answers = λ call n inside. refl;
        fits = λ n inside. omega arith;
        latest_fits = omega arith;
        reached = omega arith;
      })
      rational-Moving (omega arith) (omega arith) (omega arith) latest_is_10

-- A block each twelve seconds.
abbrev slow_second_of : ℕ → ℕ
slow_second_of n = 100 + 12 * n

abbrev slow_chain : Provider
slow_chain = record {
  get_block_number = λ attempt. some 40;
  get_block = λ call n. block (slow_second_of n);
}

abbrev between_blocks : Search (ℕ × ℕ)
between_blocks = record {
  block_number = 20;
  block_rate_per_second = (1, 12);
  first_block_number = 40;
  first_block_timestamp = 580;
  earliest_block_number_after_target_ts = 30;
}

search-repeats_example : search rational 355 slow_chain 1000 0 (at_block between_blocks) ≡ none
search-repeats_example =
    search-repeats rational 355 slow_second_of slow_chain 1000 0 between_blocks (λ call n. refl)
      (omega arith) (omega arith) (omega arith) (omega arith) (omega arith) refl

-- Blocks that come faster at the end: the search for 950 stays at the blocks 5 and 6, and the search
-- for 880 goes back past the first block, though block 1 is before it.
abbrev faster_second_of : ℕ → ℕ
faster_second_of n = if ltb n 9 then 855 + 15 * n else 900 + 10 * n

abbrev faster_chain : Provider
faster_chain = record {
  get_block_number = λ attempt. some 11;
  get_block = λ call n. block (faster_second_of n);
}

no_end : get_block_number_by_timestamp rational 950 faster_chain 300 ≡ none
unfolding get_block_number_by_timestamp latest_block while_positive initial_search search on_block
    on_next go_back go_forward record_block update_rate jump_back
no_end = refl

no_block : get_block_number_by_timestamp rational 880 faster_chain 300 ≡ some (ok none)
unfolding get_block_number_by_timestamp latest_block while_positive initial_search search on_block
    on_next go_back go_forward record_block update_rate jump_back
no_block = refl

abbrev second_block : Search (ℕ × ℕ)
second_block = record {
  block_number = 10;
  block_rate_per_second = (3, 1);
  first_block_number = 11;
  first_block_timestamp = 1010;
  earliest_block_number_after_target_ts = 11;
}

search-overshoots_example :
    search rational 880 faster_chain 9 1 (at_block second_block) ≡ some (ok none)
search-overshoots_example =
    search-overshoots rational 880 faster_second_of faster_chain 8 1 second_block (λ call n. refl)
      (omega arith) (omega arith) (omega arith) (omega arith) (omega arith) (omega arith)
