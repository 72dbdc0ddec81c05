-- ===== src/System.antt =====
-- The gateway as a whole: the logs of the two chains are dispatched to the handlers
-- (`handle_single_request_chain_events` and `handle_all_common_chain_events` of
-- src/common_chain_interaction.rs), and the client changes by them, by the tasks that were spawned,
-- by the manager of the subscriptions and by the service of the epoch cycles, in any order.
pub mod Tracked
pub mod Dispatch
pub mod Invariant
mod Tests
use serverless_gateway.Model.{
  Job, ResponseJob, JobSubscriptionAction, Task, ContractsClient, slash_timer, relay_handler,
  relay_handlers, trigger,
}
use serverless_gateway.Chain.{Log, Abi, topic, is_removed}
use serverless_gateway.Constants.{
  common_chain_job_responded_event, common_chain_job_resource_unavailable_event,
  common_chain_gateway_reassigned_event, request_chain_job_relayed_event,
  request_chain_job_cancelled_event, request_chain_job_subscription_started_event,
  request_chain_job_subscription_job_params_updated_event,
  request_chain_job_subscription_termination_params_updated_event,
}
use serverless_gateway.Table.{Table}
use serverless_gateway.Prelude.{
  ◌==◌, if◌then◌else◌, Outcome, ◌>>=◌, ok, err, panicked, ℕ, ◌≡◌, false, List, [], ◌∷◌, ◌++◌,
}
use serverless_gateway.Selection.{StdRng}
use serverless_gateway.Jobs.{
  job_relayed_handler, get_job_from_job_relay_event, cancel_job_with_job_id,
  job_relayed_slash_timer, get_job_from_job_responded_event, job_responded_handler,
  job_resource_unavailable_handler, gateway_reassigned_handler,
  remove_response_job_from_active_jobs,
}
use serverless_gateway.Subscription.{trigger_subscription_job}
use serverless_gateway.Subscription.Start.{Readings, add_subscription_job}
use serverless_gateway.Subscription.Update.{
  update_subscription_job_params, update_subscription_job_termination_params,
}
use serverless_gateway.Subscription.Manager.{continues, job_subscription_manager}
use serverless_gateway.Subscription.Historic.{
  process_historic_subscription_jobs_on_request_chain, ignore_error,
}
use serverless_gateway.EpochState.{
  EpochProvider, Gateways, generate_gateway_epoch_state_for_cycle, prune_old_cycle_states,
  callback_for_gateway_epoch_waitlist,
}

-- A log that does not decode is dropped.
unfoldable pub relay_decoded : StdRng → ContractsClient → ℕ → Outcome Job → Outcome ContractsClient
relay_decoded rng c now (ok job) = job_relayed_handler rng c now job
relay_decoded rng c now (err e) = ok c
relay_decoded rng c now panicked = panicked

-- The manager is told of the subscription that was added.
unfoldable pub announce_added :
    ContractsClient → ℕ → Outcome (ℕ × ContractsClient) → Outcome ContractsClient
announce_added c subscription_id (ok (id, c')) = ok (record c' {
  job_subscription_tx =
      c'.job_subscription_tx
      ++ record {
        subscription_action = JobSubscriptionAction.add;
        subscription_id = subscription_id;
      }
        ∷ [];
})
announce_added c subscription_id (err e) = ok c
announce_added c subscription_id panicked = panicked

unfoldable pub dispatch_request_chain :
    StdRng → Abi → ContractsClient → ℕ → ℕ → Readings → Log → Outcome ContractsClient
dispatch_request_chain rng abi c chain_id now r log = topic log 0 >>= λ topic0.
    if topic0 == abi.keccak256 request_chain_job_relayed_event
    then relay_decoded rng c now (get_job_from_job_relay_event abi log 1 chain_id)
    else if topic0 == abi.keccak256 request_chain_job_cancelled_event
    then (topic log 1 >>= λ id. ok (cancel_job_with_job_id c id))
    else if topic0 == abi.keccak256 request_chain_job_subscription_started_event
    then (topic log 1 >>= λ id.
        announce_added c id (add_subscription_job abi c log chain_id false r))
    else if topic0 == abi.keccak256 request_chain_job_subscription_job_params_updated_event
    then ignore_error c (update_subscription_job_params abi c log)
    else if topic0 == abi.keccak256 request_chain_job_subscription_termination_params_updated_event
    then ignore_error c (update_subscription_job_termination_params abi c log)
    else ok c

-- One log of the stream, with the task that it spawns run to its end.
unfoldable pub handle_single_request_chain_events :
    StdRng → Abi → ContractsClient → ℕ → ℕ → Readings → Log → Outcome ContractsClient
handle_single_request_chain_events rng abi c chain_id now r log =
    if is_removed log then ok c else dispatch_request_chain rng abi c chain_id now r log

unfoldable pub respond_decoded : ContractsClient → Outcome ResponseJob → Outcome ContractsClient
respond_decoded c (ok response_job) = ok (job_responded_handler c response_job)
respond_decoded c (err e) = ok c
respond_decoded c panicked = panicked

-- The same of the common chain, whose logs are not tested for a removal.
unfoldable pub handle_all_common_chain_events :
    Abi → ContractsClient → Log → Outcome ContractsClient
handle_all_common_chain_events abi c log = topic log 0 >>= λ topic0.
    if topic0 == abi.keccak256 common_chain_job_responded_event
    then respond_decoded c (get_job_from_job_responded_event abi c log)
    else if topic0 == abi.keccak256 common_chain_job_resource_unavailable_event
    then job_resource_unavailable_handler c log
    else if topic0 == abi.keccak256 common_chain_gateway_reassigned_event
    then gateway_reassigned_handler abi c log
    else ok c

-- A spawned task, run to its end. One that runs the relay handler on several jobs is run to the end of
-- the first of them, and goes on with the others when it is taken again. The logs are those that the slash timer reads.
unfoldable pub run_task :
    StdRng → Abi → ContractsClient → ℕ → List Log → Task → Outcome ContractsClient
run_task rng abi c now logs (slash_timer job) = job_relayed_slash_timer abi c job logs
run_task rng abi c now logs (relay_handler job) = job_relayed_handler rng c now job
run_task rng abi c now logs (relay_handlers []) = ok c
run_task rng abi c now logs (relay_handlers (job ∷ jobs)) =
    job_relayed_handler rng c now job >>= λ d.
    ok (record d { spawned = d.spawned ++ relay_handlers jobs ∷ [] })
run_task rng abi c now logs (trigger s time) = trigger_subscription_job rng c now s time

-- One handler, run to its end without a panic. A task is taken from anywhere among the spawned
-- ones. The readings of the clock, the logs and the chain are arbitrary.
pub data Step (rng : StdRng) (abi : Abi) (c : ContractsClient) : ContractsClient → Type 0 where
  request_chain_event :
      {c' : ContractsClient} (chain_id now : ℕ) (r : Readings) (log : Log)
      → handle_single_request_chain_events rng abi c chain_id now r log ≡ ok c'
      → Step rng abi c c'
  common_chain_event :
      {c' : ContractsClient} (log : Log)
      → handle_all_common_chain_events abi c log ≡ ok c'
      → Step rng abi c c'
  historic_logs :
      {c' : ContractsClient} (chain_id : ℕ) (logs : List (Log × Readings))
      → process_historic_subscription_jobs_on_request_chain abi c chain_id logs ≡ ok c'
      → Step rng abi c c'
  response_sent : (id : ℕ) → Step rng abi c (remove_response_job_from_active_jobs c id)
  task :
      {c' : ContractsClient} (before after : List Task) (t : Task) (now : ℕ) (logs : List Log)
      → c.spawned ≡ before ++ t ∷ after
      → run_task rng abi (record c { spawned = before ++ after }) now logs t ≡ ok c'
      → Step rng abi c c'
  manager :
      {c' : ContractsClient} (now : ℕ)
      → job_subscription_manager c now ≡ ok (continues c')
      → Step rng abi c c'
  cycle_generated :
      (p : EpochProvider) (cycle_number : ℕ) (state : Table Gateways)
      → generate_gateway_epoch_state_for_cycle abi p c.gateway_epoch_state cycle_number c.epoch
          c.time_interval
        ≡ ok state
      → Step rng abi c (record c { gateway_epoch_state = state })
  waitlist_called_back :
      (cycle_number : ℕ) → Step rng abi c (callback_for_gateway_epoch_waitlist c cycle_number)
  cycles_pruned :
      (now : ℕ) (state : Table Gateways)
      → prune_old_cycle_states c.gateway_epoch_state c.epoch c.time_interval now ≡ ok state
      → Step rng abi c (record c { gateway_epoch_state = state })

-- The runs of the program.
pub data Reach (rng : StdRng) (abi : Abi) (c : ContractsClient) : ContractsClient → Type 0 where
  start : Reach rng abi c c
  next : {d e : ContractsClient} → Reach rng abi c d → Step rng abi d e → Reach rng abi c e
