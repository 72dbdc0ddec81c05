-- ===== src/Selection.antt =====
-- The choice of the gateway that relays a job: `select_gateway_for_job_id` of
-- src/common_chain_interaction.rs. The random generator belongs to the crate rand: it is a
-- parameter, with the bounds that `gen_range` documents.
pub mod Search
pub mod Ticket
pub mod Weighted
pub mod Cases
pub mod Total
mod Tests
use serverless_gateway.Prelude.{
  ltb, leb, ◌==◌, if◌then◌else◌, length, get_elem?, Outcome, ◌>>=◌, unwrap,
  job_older_than_maintained_block_states, no_gateways_registered_in_cycle,
  no_valid_gateways_for_chain, ok, err, ℕ, zero, suc, ◌+◌, ◌-◌, ◌/◌, ◌≤◌, Bool, not, ◌&&◌, none,
  some, List, [], ◌∷◌, ◌++◌,
}
use serverless_gateway.Words.{add64, sub64, div64, sub8, add128, as_u64, as_u128}
use serverless_gateway.Table.{Table, lookup, insert, contains_key, values}
use serverless_gateway.Constants.{
  gateway_block_states_to_maintain, min_gateway_stake, gateway_stake_adjustment_factor,
}
use serverless_gateway.Model.{GatewayData, Job, ContractsClient}

-- `StdRng`, with `gen_range(1..=n)`.
pub record StdRng : Type 1 where
  pub State : Type 0
  pub seed_from_u64 : ℕ → State
  pub gen_range : State → ℕ → ℕ × State
  pub gen_range_bounds :
      (s : State) (n : ℕ) → 1 ≤ n → (1 ≤ (gen_range s n).0) × ((gen_range s n).0 ≤ n)

-- `(time - self.epoch - self.offset_for_epoch) / self.time_interval`.
unfoldable pub cycle_at : ContractsClient → ℕ → Outcome ℕ
cycle_at c time = div64 (sub64 (sub64 time c.epoch) c.offset_for_epoch) c.time_interval

-- `total_stake`, `stake_distribution` and `gateway_addresses_of_req_chain`.
pub record Distribution : Type 0 where
  pub addresses : List ℕ
  pub stakes : List ℕ
  pub total : ℕ

abbrev pub no_stake : Distribution
no_stake = record { addresses = []; stakes = []; total = 0 }

-- The test of the loop over the gateways.
unfoldable pub is_eligible : ℕ → GatewayData → Bool
is_eligible chain g =
    contains_key chain g.req_chain_ids && (ltb min_gateway_stake g.stake_amount && not g.draining)

-- The address is pushed, the stake added to the total, and the new total pushed.
abbrev pub push_gateway : ℕ → Distribution → ℕ → Outcome Distribution
push_gateway address d weight =
    let total : ℕ = add128 d.total weight in
    ok (record {
      addresses = d.addresses ++ address ∷ [];
      stakes = d.stakes ++ total ∷ [];
      total = total;
    })

-- The body of the loop over the gateways of the cycle.
unfoldable pub add_gateway : ℕ → GatewayData → Distribution → Outcome Distribution
add_gateway chain g d =
    if is_eligible chain g
    then (as_u128 (g.stake_amount / gateway_stake_adjustment_factor) >>= push_gateway g.address d)
    else ok d

unfoldable pub distribute : ℕ → List GatewayData → Distribution → Outcome Distribution
distribute chain [] d = ok d
distribute chain (g ∷ gs) d = do d' ← add_gateway chain g d; distribute chain gs d'

-- `gen_range` as often as earlier gateways of the job are skipped.
unfoldable pub skip_draws : (rng : StdRng) → ℕ → ℕ → rng.State → rng.State
skip_draws rng zero total s = s
skip_draws rng (suc n) total s = skip_draws rng n total (rng.gen_range s total).1

unfoldable pub draw : StdRng → ℕ → ℕ → ℕ → ℕ
draw rng seed skips total =
    (rng.gen_range (skip_draws rng (sub8 skips 1) total (rng.seed_from_u64 seed)) total).0

abbrev pub get_or : List ℕ → ℕ → ℕ → ℕ
get_or xs i d = elim (get_elem? xs i) [ none ↦ d | some x ↦ x ]

-- The loop of the standard library's `binary_search_by`: the window of `size` elements at `base`
-- is halved until one is left. It makes fewer rounds than the fuel, the length, has.
unfoldable pub narrow : ℕ → List ℕ → ℕ → ℕ → ℕ → ℕ
narrow zero xs target size base = base
narrow (suc fuel) xs target size base =
    let half = size / 2 in
    let next = if ltb target (get_or xs (base + half) 0) then base else base + half in
    let rest = narrow fuel xs target (size - half) next in if leb size 1 then base else rest

-- The index in `Ok` or in `Err`: the code takes both alike.
unfoldable pub binary_search : List ℕ → ℕ → ℕ
unfolding narrow
binary_search [] target = 0
binary_search (x ∷ xs) target =
    let base = narrow (length (x ∷ xs)) (x ∷ xs) target (length (x ∷ xs)) 0 in
    if ltb (get_or (x ∷ xs) base 0) target then base + 1 else base

-- From `stake_distribution` and the random number to the address.
unfoldable pub pick : Distribution → ℕ → Outcome ℕ
pick d random_number = unwrap (get_elem? d.addresses (binary_search d.stakes random_number))

-- The choice among the gateways of a known cycle.
unfoldable pub choose : StdRng → ℕ → Job → List GatewayData → ℕ → ℕ → Outcome ℕ
choose rng job_cycle job [] seed skips = err (no_gateways_registered_in_cycle job_cycle)
choose rng job_cycle job (g ∷ gs) seed skips = do
  d ← distribute job.request_chain_id (g ∷ gs) no_stake
  if d.total == 0
      then err (no_valid_gateways_for_chain job_cycle job.request_chain_id)
      else pick d (draw rng seed skips d.total)

-- `waitlist_handle.entry(job_cycle).and_modify(..).or_insert(..)`.
unfoldable pub add_to_waitlist : ℕ → Job → Table (List Job) → Table (List Job)
add_to_waitlist job_cycle job w = elim (lookup job_cycle w) [
  | none ↦ insert job_cycle (job ∷ []) w
  | some jobs ↦ insert job_cycle (jobs ++ job ∷ []) w
]

-- A job whose cycle is not known yet waits, and the zero address is returned.
unfoldable pub select_in_cycle :
    StdRng → ContractsClient → ℕ → Job → ℕ → ℕ → Outcome (ℕ × ContractsClient)
select_in_cycle rng c job_cycle job seed skips = elim (lookup job_cycle c.gateway_epoch_state) [
  | none ↦ ok (
    0,
    record c {
      gateway_epoch_state_waitlist = add_to_waitlist job_cycle job c.gateway_epoch_state_waitlist;
    },
  )
  | some state ↦ choose rng job_cycle job (values state) seed skips >>= λ a. ok (a, c)
]

-- The clock is read once, as `now`.
unfoldable pub select_gateway_for_job_id :
    StdRng → ContractsClient → ℕ → Job → ℕ → ℕ → Outcome (ℕ × ContractsClient)
select_gateway_for_job_id rng c now job seed skips = do
  start ← as_u64 job.starttime
  job_cycle ← cycle_at c start
  current_cycle ← cycle_at c now
  if leb (add64 gateway_block_states_to_maintain job_cycle) current_cycle
      then err job_older_than_maintained_block_states
      else select_in_cycle rng c job_cycle job seed skips
