-- ===== src/BlockSearch.antt =====
-- src/chain_util.rs, `get_block_number_by_timestamp`: the search for the last block before a
-- timestamp. The provider is an oracle: what the call of each number answers. The floating-point
-- numbers of the block rate are a parameter.
mod Sound
mod Moves
mod Rate
mod Left
mod Progress
mod Ends
mod Faults
mod Tests
use serverless_gateway.Prelude.{
  ltb, leb, ◌==◌, if◌then◌else◌, Outcome, ok, panicked, ℕ, zero, suc, Option, none, some,
}
use serverless_gateway.Words.{add64, u64_mod, sub64}
use serverless_gateway.Constants.{max_retry_on_provider_error}

-- `Result<Option<Block>>` of `get_block`, in the timestamp that is read.
pub data Fetched : Type 0 where
  failed : Fetched
  absent : Fetched
  block : ℕ → Fetched

-- What the calls of the search answer: `get_block_number`, by the number of the attempt, and
-- `get_block`, by the number of the call and of the block.
pub record Provider : Type 0 where
  pub get_block_number : ℕ → Option ℕ
  pub get_block : ℕ → ℕ → Fetched

-- The arithmetic of `f64` in the search: the rate 3.0, the quotient of two `u64`, and a `u64` times
-- a rate, cast to `u64`.
pub record Rates (Rate : Type 0) : Type 0 where
  pub initial : Rate
  pub ratio : ℕ → ℕ → Rate
  pub scaled : ℕ → Rate → ℕ

-- The variables of the loop.
pub record Search (Rate : Type 0) : Type 0 where
  pub block_number : ℕ
  pub block_rate_per_second : Rate
  pub first_block_number : ℕ
  pub first_block_timestamp : ℕ
  pub earliest_block_number_after_target_ts : ℕ

-- Where the search stands: before `get_block` of the outer loop, before that of
-- `'next_block_check` with its count of retries, or at the end.
pub data Place (Rate : Type 0) : Type 0 where
  at_block : Search Rate → Place Rate
  at_next : ℕ → Search Rate → Place Rate
  returned : Outcome (Option ℕ) → Place Rate

-- `for _ in 0..5` over `get_block_number`, with `attempts` left.
unfoldable pub latest_block : Provider → ℕ → ℕ → ℕ
latest_block p attempt zero = 0
latest_block p attempt (suc attempts) = elim (p.get_block_number attempt) [
  | none ↦ latest_block p (suc attempt) attempts
  | some n ↦ n
]

module _ {Rate : Type 0} where
  -- The test of `while block_number > 0`.
  unfoldable pub while_positive : Search Rate → Place Rate
  while_positive s = if s.block_number == 0 then returned (ok none) else at_block s

  module _ (rates : Rates Rate) (target : ℕ) where
    -- From a block before the target, behind the confirmation that the next block, with this
    -- timestamp, is before the target too.
    unfoldable pub go_forward : Search Rate → ℕ → Search Rate
    go_forward s timestamp =
        let n : ℕ =
          add64 s.block_number (rates.scaled (sub64 target timestamp) s.block_rate_per_second) in
        let earliest = s.earliest_block_number_after_target_ts in
        if leb earliest n
        then record s {
          block_number = sub64 earliest 1;
          earliest_block_number_after_target_ts = sub64 earliest 1;
        }
        else record s { block_number = n }

    -- The first block at or after the target is kept for the rate.
    unfoldable pub record_block : Search Rate → ℕ → Search Rate
    record_block s timestamp =
        let s' = record s {
          earliest_block_number_after_target_ts =
              if ltb s.block_number s.earliest_block_number_after_target_ts
              then s.block_number
              else s.earliest_block_number_after_target_ts;
        } in
        if s.first_block_timestamp == 0
        then record s' { first_block_timestamp = timestamp; first_block_number = s.block_number }
        else s'

    unfoldable pub update_rate : Search Rate → ℕ → Search Rate
    update_rate s timestamp = record s {
      block_rate_per_second =
          rates.ratio (sub64 s.first_block_number s.block_number)
            (sub64 s.first_block_timestamp timestamp);
    }

    -- `block_go_back`, where it is not 0.
    unfoldable pub jump_back : Search Rate → ℕ → Search Rate
    jump_back s timestamp =
        let back : ℕ = rates.scaled (sub64 timestamp target) s.block_rate_per_second in
        if back == 0
        then s
        else (if leb back s.block_number
            then record s { block_number = add64 (sub64 s.block_number back) 1 }
            else record s { block_number = 1 })

    -- From a block at or after the target, down to `block_number -= 1`.
    unfoldable pub go_back : Search Rate → ℕ → Search Rate
    go_back s timestamp =
        let kept = record_block s timestamp in
        let moved =
          if ltb (add64 timestamp 1) kept.first_block_timestamp
          then jump_back (update_rate kept timestamp) timestamp
          else kept in
        record moved { block_number = sub64 moved.block_number 1 }

    -- The answer to `get_block` in the outer loop. A timestamp is a `U256`.
    unfoldable pub on_block : Search Rate → Fetched → Place Rate
    on_block s failed = at_block s
    on_block s absent = at_block s
    on_block s (block timestamp) =
        if ltb timestamp target
        then at_next 0 s
        else (if ltb timestamp u64_mod
            then while_positive (go_back s timestamp)
            else returned panicked)

    -- The answer to `get_block` in `'next_block_check`.
    unfoldable pub on_next : ℕ → Search Rate → Fetched → Place Rate
    on_next retries s absent = at_next retries s
    on_next retries s failed =
        if leb (suc retries) max_retry_on_provider_error
        then at_next (suc retries) s
        else returned (ok none)
    on_next retries s (block timestamp) =
        if leb target timestamp
        then returned (ok (some s.block_number))
        else while_positive (go_forward s timestamp)

    -- The loop from its call number `calls`, for at most `fuel` calls of `get_block`.
    unfoldable pub search : Provider → ℕ → ℕ → Place Rate → Option (Outcome (Option ℕ))
    search p fuel calls (returned r) = some r
    search p zero calls (at_block s) = none
    search p zero calls (at_next retries s) = none
    search p (suc fuel) calls (at_block s) =
        search p fuel (suc calls) (on_block s (p.get_block calls s.block_number))
    search p (suc fuel) calls (at_next retries s) =
        search p fuel (suc calls) (on_next retries s (p.get_block calls (add64 s.block_number 1)))

    unfoldable pub initial_search : ℕ → Search Rate
    initial_search latest = record {
      block_number = latest;
      block_rate_per_second = rates.initial;
      first_block_number = 0;
      first_block_timestamp = 0;
      earliest_block_number_after_target_ts = sub64 0 1;
    }

    unfoldable pub get_block_number_by_timestamp : Provider → ℕ → Option (Outcome (Option ℕ))
    get_block_number_by_timestamp p fuel =
        search p fuel 0 (while_positive (initial_search (latest_block p 0 5)))
