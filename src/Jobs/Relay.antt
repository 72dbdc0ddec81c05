-- ===== src/Jobs/Relay.antt =====
-- What the relay handler does with a job, on every path.
use serverless_gateway.Model.{GatewayData, Job, ContractsClient, slash_timer}
use serverless_gateway.Constants.{gateway_block_states_to_maintain}
use serverless_gateway.Table.{Table, lookup, insert, values}
use serverless_gateway.Words.{u64_mod, add64, as_u64}
use serverless_gateway.Prelude.{
  ◌==◌, if◌then◌else◌, lt→ltb, ==→eq, ==→ne, Bool-cases, Outcome, ok, err, panicked, ℕ, ◌≤◌, ◌<◌,
  ◌≡◌, refl, ap, ◌≢◌, ◌⊎◌, inl, inr, none, some, [], ◌∷◌, ◌++◌,
}
use serverless_gateway.Selection.{cycle_at}
use serverless_gateway.Selection.Ticket.{tickets}
use serverless_gateway.Jobs.{assign, relay_selected, job_relayed_handler}
use serverless_gateway.Selection.{StdRng, add_to_waitlist, select_gateway_for_job_id}
use serverless_gateway.Selection.Cases.{Serves}
use serverless_gateway.Selection.Total.{Explained, StakeFits, select_gateway_for_job_id-Explained}

-- The job as it is kept and sent on once its gateway is known.
abbrev pub relayed_by : Job → ℕ → Job
relayed_by job a = record job { gateway_address = some a }

-- What is done for the gateway that was chosen. A gateway of address zero stands for none.
abbrev pub Assigned : ContractsClient → Job → ℕ → ContractsClient → Type 0
Assigned c job a c' =
    ((a ≡ 0) × (c' ≡ c))
    ⊎ ((a ≢ 0)
        × (a ≡ c.enclave_address)
        × (c' ≡ record c {
          active_jobs = insert job.job_id (relayed_by job a) c.active_jobs;
          req_chain_tx = c.req_chain_tx ++ relayed_by job a ∷ [];
        }))
    ⊎ ((a ≢ 0)
        × (a ≢ c.enclave_address)
        × (c' ≡ record c {
          current_jobs = insert job.job_id (relayed_by job a) c.current_jobs;
          spawned = c.spawned ++ slash_timer (relayed_by job a) ∷ [];
        }))

assign-Assigned :
    (c : ContractsClient) (job : Job) (a : ℕ) → Assigned c job a (assign c (relayed_by job a) a)
unfolding assign
assign-Assigned c job a = elim (Bool-cases (a == 0)) [
  | inl nobody ↦ rw nobody (inl (==→eq a 0 nobody, refl))
  | inr somebody ↦ elim (Bool-cases (a == c.enclave_address)) [
    | inl own ↦ rw (somebody, own) (inr (inl (==→ne a 0 somebody, ==→eq _ _ own, refl)))
    | inr foreign ↦ rw (somebody, foreign) (inr (inr (==→ne a 0 somebody, ==→ne _ _ foreign, refl)))
  ]
]

-- How the handler of a job has ended: without a change, since the job is too old or no gateway can
-- serve it; else the job is recent, and it is on the waitlist of its cycle, or with a gateway of the
-- cycle that can serve the chain.
abbrev pub Handled : ContractsClient → Job → ℕ → ℕ → ContractsClient → Type 0
Handled c job job_cycle current c' =
    ((add64 gateway_block_states_to_maintain job_cycle ≤ current) × (c' ≡ c))
    ⊎ ((current < add64 gateway_block_states_to_maintain job_cycle)
        × (((state : Table GatewayData) × (lookup job_cycle c.gateway_epoch_state ≡ some state)
              × ((values state ≡ []) ⊎ (tickets job.request_chain_id (values state) ≡ []))
              × (c' ≡ c))
            ⊎ ((lookup job_cycle c.gateway_epoch_state ≡ none)
                × (c' ≡ record c {
                  gateway_epoch_state_waitlist =
                      add_to_waitlist job_cycle job c.gateway_epoch_state_waitlist;
                }))
            ⊎ ((a : ℕ) × (state : Table GatewayData) × (lookup job_cycle c.gateway_epoch_state
                  ≡ some state)
                × Serves job.request_chain_id (values state) a
                × Assigned c job a c')))

relay_selected-Handled :
    (c : ContractsClient) (job : Job) (job_cycle current : ℕ) (o : Outcome (ℕ × ContractsClient))
    → Explained c job job_cycle current o
    → (c' : ContractsClient) × (relay_selected c job o ≡ ok c') × Handled c job job_cycle current c'
unfolding relay_selected assign
relay_selected-Handled c job job_cycle current (ok (a, d))
      (recent, inl (unknown, zero_address, waits)) =
    (d, rw zero_address refl, inr (recent, inr (inl (unknown, waits))))
relay_selected-Handled c job job_cycle current (ok (a, d))
      (recent, inr (state, known, serves, same)) =
    (
      assign c (relayed_by job a) a,
      rw same refl,
      inr (recent, inr (inr (a, state, known, serves, assign-Assigned c job a))),
    )
relay_selected-Handled c job job_cycle current (err e) (inl (old, _)) = (c, refl, inl (old, refl))
relay_selected-Handled c job job_cycle current (err e)
      (inr (recent, state, known, inl (empty, _))) =
    (c, refl, inr (recent, inl (state, known, inl empty, refl)))
relay_selected-Handled c job job_cycle current (err e)
      (inr (recent, state, known, inr (weightless, _))) =
    (c, refl, inr (recent, inl (state, known, inr weightless, refl)))
relay_selected-Handled c job job_cycle current panicked h = absurd h

-- With a start time that is a `u64`, an interval that is not zero, and stakes that fit, the relay
-- handler ends without a panic, in one of these ways. The job's cycle is five or more behind the
-- current one, and nothing changes. The cycle is more recent in all other cases: it is known but no
-- gateway of it can serve the job's chain, and nothing changes; it is not known, and the job waits
-- for it; or a gateway of it that can serve the chain gets the job. If that is this gateway, the
-- job is active and sent to the common chain; if not, it is a current job and its slash timer is
-- started. A gateway of address zero stands for none, and then nothing changes.
pub job_relayed_handler-Handled :
    (rng : StdRng) (c : ContractsClient) (now : ℕ) (job : Job)
    → job.starttime < u64_mod
    → 0 < c.time_interval
    → StakeFits c job.request_chain_id
    → (job_cycle current : ℕ) × (c' : ContractsClient) × (cycle_at c job.starttime ≡ ok job_cycle)
      × (cycle_at c now ≡ ok current)
      × (job_relayed_handler rng c now job ≡ ok c')
      × Handled c job job_cycle current c'
unfolding job_relayed_handler
job_relayed_handler-Handled rng c now job start interval fits =
    let (job_cycle, current, of_job, of_now, why) =
      select_gateway_for_job_id-Explained rng c now job job.starttime job.sequence_number start
        interval fits in
    let (c', done, handled) =
      relay_selected-Handled c job job_cycle current
        (select_gateway_for_job_id rng c now job job.starttime job.sequence_number) why in
    let seeded : as_u64 job.starttime ≡ ok job.starttime =
      ap (λ b. if b then ok job.starttime else panicked) (lt→ltb job.starttime u64_mod start) in
    (job_cycle, current, c', of_job, of_now, rw seeded done, handled)
