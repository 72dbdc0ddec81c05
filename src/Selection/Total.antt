-- ===== src/Selection/Total.antt =====
-- `select_gateway_for_job_id` on every path: it does not panic on fitting numbers, and each error
-- has its one cause.
use serverless_gateway.Model.{GatewayData, Job, ContractsClient}
use serverless_gateway.Constants.{gateway_block_states_to_maintain}
use serverless_gateway.Table.{Table, lookup, values}
use serverless_gateway.Words.{u128_mod, add64, u64_mod, sub64, as_u64}
use serverless_gateway.Prelude.{
  leb, ◌==◌, if◌then◌else◌, lt→ltb, leb→le, not-leb→lt, ==_ne, Bool-cases, Option-cases, All,
  ServerlessError, Outcome, ◌>>=◌, job_older_than_maintained_block_states,
  no_gateways_registered_in_cycle, no_valid_gateways_for_chain, ok, err, panicked, ℕ, ◌/◌, ◌≤◌, ◌<◌,
  ◌≡◌, refl, ap, ◌⊎◌, inl, inr, false, some, List, [], ◌∷◌, arith,
}
use serverless_gateway.Selection.{
  StdRng, choose, select_in_cycle, cycle_at, select_gateway_for_job_id,
}
use serverless_gateway.Selection.Ticket.{tickets, total_weight, tickets-Positive, distribute-Dealt}
use serverless_gateway.Selection.Weighted.{choose-owner}
use serverless_gateway.Selection.Cases.{Selected, choose-Serves}

-- The stake that serves the chain fits a `u128`, in every known cycle.
abbrev pub StakeFits : ContractsClient → ℕ → Type 0
StakeFits c chain =
    (cycle : ℕ) (state : Table GatewayData)
    → lookup cycle c.gateway_epoch_state ≡ some state
    → total_weight (tickets chain (values state)) < u128_mod

-- Why an error of the choice is returned: no gateway is known in the cycle, or none can serve.
abbrev pub NoGateway : ℕ → ℕ → List GatewayData → ServerlessError → Type 0
NoGateway chain job_cycle gs e =
    ((gs ≡ []) × (e ≡ no_gateways_registered_in_cycle job_cycle))
    ⊎ ((tickets chain gs ≡ []) × (e ≡ no_valid_gateways_for_chain job_cycle chain))

abbrev Chosen : ℕ → ℕ → List GatewayData → Outcome ℕ → Type 0
Chosen chain job_cycle gs (ok a) = Unit
Chosen chain job_cycle gs (err e) = NoGateway chain job_cycle gs e
Chosen chain job_cycle gs panicked = ⊥

tickets_empty : (ts : List (ℕ × ℕ)) → All (λ t. 0 < t.1) ts → total_weight ts ≡ 0 → ts ≡ []
unfolding total_weight
tickets_empty [] pos e = refl
tickets_empty (t ∷ ts) pos e = absurd (omega arith)

choose-Chosen :
    (rng : StdRng) (job_cycle : ℕ) (job : Job) (gs : List GatewayData) (seed skips : ℕ)
    → total_weight (tickets job.request_chain_id gs) < u128_mod
    → Chosen job.request_chain_id job_cycle gs (choose rng job_cycle job gs seed skips)
choose-Chosen rng job_cycle job [] seed skips fits = unfold choose in inl (refl, refl)
choose-Chosen rng job_cycle job (g ∷ gs) seed skips fits =
    let chain : ℕ = job.request_chain_id in
    let ts : List (ℕ × ℕ) = tickets chain (g ∷ gs) in
    elim (Bool-cases (total_weight ts == 0)) [
      | inl weightless ↦
          unfold choose in
          rw (distribute-Dealt chain (g ∷ gs) fits, weightless)
            (inr (tickets_empty ts (tickets-Positive chain (g ∷ gs)) (ground arith), refl))
      | inr weighted ↦
          let (a, chosen, _) =
            choose-owner rng job_cycle job (g ∷ gs) seed skips fits (ground arith) in
          rw chosen tt
    ]

-- What each outcome of a selection says.
abbrev pub Explained : ContractsClient → Job → ℕ → ℕ → Outcome (ℕ × ContractsClient) → Type 0
Explained c job job_cycle current (ok (a, c')) =
    (current < add64 gateway_block_states_to_maintain job_cycle) × Selected c job job_cycle a c'
Explained c job job_cycle current (err e) =
    ((add64 gateway_block_states_to_maintain job_cycle ≤ current)
      × (e ≡ job_older_than_maintained_block_states))
    ⊎ ((current < add64 gateway_block_states_to_maintain job_cycle)
        × (state : Table GatewayData) × (lookup job_cycle c.gateway_epoch_state ≡ some state)
        × NoGateway job.request_chain_id job_cycle (values state) e)
Explained c job job_cycle current panicked = ⊥

cycle_at-ok :
    (c : ContractsClient) (time : ℕ) → 0 < c.time_interval → (n : ℕ) × (cycle_at c time ≡ ok n)
unfolding cycle_at
cycle_at-ok c time h =
    let proper : (c.time_interval == 0) ≡ false = ==_ne c.time_interval 0 (omega arith) in
    (sub64 (sub64 time c.epoch) c.offset_for_epoch / c.time_interval, rw proper)

known-Explained :
    (rng : StdRng) (c : ContractsClient) (job_cycle current : ℕ) (job : Job) (seed skips : ℕ)
    (state : Table GatewayData) (m : Outcome ℕ)
    → current < add64 gateway_block_states_to_maintain job_cycle
    → lookup job_cycle c.gateway_epoch_state ≡ some state
    → choose rng job_cycle job (values state) seed skips ≡ m
    → Chosen job.request_chain_id job_cycle (values state) m
    → Explained c job job_cycle current (m >>= λ a. ok (a, c))
known-Explained rng c job_cycle current job seed skips state (ok a) recent known e why = (
  recent,
  inr (state, known, choose-Serves rng job_cycle job (values state) seed skips a e, refl),
)
known-Explained rng c job_cycle current job seed skips state (err x) recent known e why =
    inr (recent, state, known, why)
known-Explained rng c job_cycle current job seed skips state panicked recent known e why =
    absurd why

select_in_cycle-Explained :
    (rng : StdRng) (c : ContractsClient) (job_cycle current : ℕ) (job : Job) (seed skips : ℕ)
    → StakeFits c job.request_chain_id
    → current < add64 gateway_block_states_to_maintain job_cycle
    → Explained c job job_cycle current (select_in_cycle rng c job_cycle job seed skips)
unfolding select_in_cycle
select_in_cycle-Explained rng c job_cycle current job seed skips fits recent =
    elim (Option-cases (lookup job_cycle c.gateway_epoch_state)) [
      | inl unknown ↦ rw (unknown, select_in_cycle) (recent, inl (unknown, refl, refl))
      | inr (state, known) ↦
          rw (known, select_in_cycle)
            (known-Explained rng c job_cycle current job seed skips state _ recent known refl (
              choose-Chosen rng job_cycle job (values state) seed skips
                (fits job_cycle state known)))
    ]

-- With a start time that is a `u64`, an interval that is not zero, and stakes that fit, a selection
-- ends without a panic, and in one of these ways. The job's cycle is five or more behind the
-- current one: the error says so. The cycle is known but without gateways, or without one that can
-- serve the chain: the error for it. The cycle is not known: the job waits. Or a gateway that can
-- serve the chain is returned.
pub select_gateway_for_job_id-Explained :
    (rng : StdRng) (c : ContractsClient) (now : ℕ) (job : Job) (seed skips : ℕ)
    → job.starttime < u64_mod
    → 0 < c.time_interval
    → StakeFits c job.request_chain_id
    → (job_cycle current : ℕ) × (cycle_at c job.starttime ≡ ok job_cycle)
      × (cycle_at c now ≡ ok current)
      × Explained c job job_cycle current (select_gateway_for_job_id rng c now job seed skips)
unfolding select_gateway_for_job_id
select_gateway_for_job_id-Explained rng c now job seed skips start interval fits =
    let started : as_u64 job.starttime ≡ ok job.starttime =
      ap (λ b. if b then ok job.starttime else panicked) (lt→ltb job.starttime u64_mod start) in
    let (job_cycle, of_job) = cycle_at-ok c job.starttime interval in
    let (current, of_now) = cycle_at-ok c now interval in
    (
      job_cycle,
      current,
      of_job,
      of_now,
      elim (Bool-cases (leb (add64 gateway_block_states_to_maintain job_cycle) current)) [
        | inl old ↦ rw (started, of_job, of_now, old) (inl (leb→le _ _ old, refl))
        | inr recent ↦
            rw (started, of_job, of_now, recent)
              (select_in_cycle-Explained rng c job_cycle current job seed skips fits
                (not-leb→lt _ _ recent))
      ],
    )
