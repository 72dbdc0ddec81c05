-- ===== src/Jobs/Tests.antt =====
-- The life of a job at concrete inputs.
use serverless_gateway.Jobs.Relay.{Handled, job_relayed_handler-Handled}
use serverless_gateway.Selection.{cycle_at}
use serverless_gateway.Samples.Gateways.{a_client-StakeFits}
use serverless_gateway.Samples.Jobs.{a_client-IsTracked, response}
use serverless_gateway.Selection.{
  choose, cycle_at, is_eligible, add_gateway, distribute, skip_draws, draw, narrow, binary_search,
  pick, select_in_cycle, select_gateway_for_job_id,
}
use serverless_gateway.Model.{
  ResponseJob, slash_gateway_job, job_responded, once, relay_handler, ContractsClient,
}
use serverless_gateway.Chain.{Token, Abi}
use serverless_gateway.Table.{lookup, remove, contains_key}
use serverless_gateway.Words.{u64_mod}
use serverless_gateway.Prelude.{
  ltb, ◌==◌, if◌then◌else◌, job_does_not_belong_to_enclave, ok, err, panicked, ℕ, ◌%◌, ◌≡◌, refl,
  none, some, [], ◌∷◌, ◌++◌, arith,
}
use serverless_gateway.Jobs.{
  relay_selected, assign, job_relayed_handler, cancel_job_with_job_id, job_relayed_slash_timer,
  get_job_from_job_responded_event, job_responded_handler, tracked_job, gateway_reassigned_handler,
}
use serverless_gateway.Jobs.Reassign.{gateway_reassigned_handler-retry}
use serverless_gateway.Jobs.Slash.{job_relayed_slash_timer-relayed}
use serverless_gateway.Jobs.Response.{job_responded_handler-once}
use serverless_gateway.Samples.{first_draw, reading, log_of, a_job, given_to, a_client}

relayed : job_relayed_handler first_draw a_client 38 a_job ≡ ok (assign a_client (given_to 7) 7)
unfolding job_relayed_handler relay_selected select_gateway_for_job_id cycle_at select_in_cycle
    lookup choose distribute add_gateway is_eligible contains_key pick draw skip_draws binary_search
    narrow
relayed = refl

-- Gateway 9 has relayed job 261, whose low byte is 5 and whose environment is 4.
job_relayed_slash_timer-relayed_example :
    let job = record (given_to 9) { job_id = 261 } in
    job_relayed_slash_timer
      (reading (Token.uint 10 ∷ Token.uint 4 ∷ Token.address 40 ∷ Token.address 9 ∷ []))
      a_client
      job
      (log_of (17 ∷ 261 ∷ []) ∷ [])
    ≡ (if ltb job.job_id u64_mod
        then if job.job_id % 256 == job.env
          then ok (record a_client { current_jobs = remove job.job_id a_client.current_jobs })
          else ok (record a_client {
            req_chain_tx =
                a_client.req_chain_tx ++ record job { job_type = slash_gateway_job } ∷ [];
          })
        else panicked)
job_relayed_slash_timer-relayed_example =
    job_relayed_slash_timer-relayed
      (reading (Token.uint 10 ∷ Token.uint 4 ∷ Token.address 40 ∷ Token.address 9 ∷ [])) a_client
      (record (given_to 9) { job_id = 261 }) (log_of (17 ∷ 261 ∷ [])) 9 10 4 refl refl refl refl
      (λ e. omega (arith, e))

-- Gateway 9, which was to relay job 261, is replaced on its first try.
abbrev reassignment : Abi
reassignment = reading (Token.address 9 ∷ Token.address 0 ∷ Token.uint 1 ∷ [])

gateway_reassigned_handler-retry_example :
    let cancelled = cancel_job_with_job_id a_client 261 in
    let j = record (given_to 9) { job_id = 261 } in
    gateway_reassigned_handler reassignment a_client (log_of (17 ∷ 261 ∷ [])) ≡ (
      if j.sequence_number == 1
      then if 1 == 1
        then ok (record cancelled {
          spawned =
              cancelled.spawned
              ++ relay_handler (record j { sequence_number = 2; gateway_address = none }) ∷ [];
        })
        else ok cancelled
      else ok a_client)
gateway_reassigned_handler-retry_example =
    gateway_reassigned_handler-retry reassignment a_client (log_of (17 ∷ 261 ∷ [])) 261 9 0 1
      (record (given_to 9) { job_id = 261 }) a_client-IsTracked refl refl (omega arith)
      (unfold tracked_job lookup in refl)

job_responded_handler-once_example :
    (r : ResponseJob) × (get_job_from_job_responded_event response a_client (log_of (17 ∷ 260 ∷ []))
      ≡ ok r)
    × let c' = job_responded_handler a_client r in
      (c'.com_chain_tx
        ≡ a_client.com_chain_tx
          ++ record {
            job_id = 260;
            request_chain_id = 5;
            output = 1 ∷ [];
            total_time = 30;
            error_code = 0;
            job_type = job_responded;
            gateway_address = some 7;
            job_mode = once;
          }
            ∷ [])
      × ((k : ℕ)
          → lookup k c'.active_jobs ≡ (if k == 260 then none else lookup k a_client.active_jobs))
      × (get_job_from_job_responded_event response c' (log_of (17 ∷ 260 ∷ []))
          ≡ err job_does_not_belong_to_enclave)
job_responded_handler-once_example =
    job_responded_handler-once response a_client (log_of (17 ∷ 260 ∷ [])) 260 30 0 (1 ∷ [])
      (given_to 7) a_client-IsTracked refl (unfold lookup in refl) refl (omega arith)

job_relayed_handler-Handled_example :
    (job_cycle current : ℕ) × (c' : ContractsClient) × (cycle_at a_client 35 ≡ ok job_cycle)
    × (cycle_at a_client 38 ≡ ok current)
    × (job_relayed_handler first_draw a_client 38 a_job ≡ ok c')
    × Handled a_client a_job job_cycle current c'
job_relayed_handler-Handled_example =
    job_relayed_handler-Handled first_draw a_client 38 a_job (omega arith) (omega arith)
      a_client-StakeFits
