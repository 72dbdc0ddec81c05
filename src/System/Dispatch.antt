-- ===== src/System/Dispatch.antt =====
-- The logs of the chains, dispatched, keep the jobs tracked, and so does the waitlist.
use serverless_gateway.Jobs.Reassign.{gateway_reassigned_handler-IsTracked}
use serverless_gateway.Subscription.Tracked.{
  add_subscription_job-IsTracked, update_subscription_job_params-IsTracked,
  update_subscription_job_termination_params-IsTracked,
}
use serverless_gateway.System.Tracked.{
  relay_decoded-IsTracked, get_job_from_job_relay_event-Relayable, ignore_error-IsTracked,
  announce_added-IsTracked, announce-IsTracked,
}
use serverless_gateway.Jobs.{
  cancel_job_with_job_id, get_job_from_job_relay_event, get_job_from_job_responded_event,
  job_resource_unavailable_handler,
}
use serverless_gateway.Jobs.Handlers.{
  job_responded_handler-IsTracked, cancel_job_with_job_id-IsTracked,
}
use serverless_gateway.Subscription.Update.{
  update_subscription_job_params, update_subscription_job_termination_params,
}
use serverless_gateway.Table.Laws.{lookup-All, remove-All}
use serverless_gateway.Jobs.Tracked.{Relayable, Due}
use serverless_gateway.Prelude.{
  ◌==◌, if◌then◌else◌, Bool-cases, Option-cases, All, All-append, Outcome, ◌>>=◌, >>=-eq-ok,
  ok-injective, ok, err, panicked, ℕ, ◌≡◌, inl, inr, true, false, List, [], ◌∷◌,
}
use serverless_gateway.Constants.{
  common_chain_job_responded_event, common_chain_job_resource_unavailable_event,
  common_chain_gateway_reassigned_event, request_chain_job_relayed_event,
  request_chain_job_cancelled_event, request_chain_job_subscription_started_event,
  request_chain_job_subscription_job_params_updated_event,
  request_chain_job_subscription_termination_params_updated_event,
}
use serverless_gateway.Model.{ContractsClient, ResponseJob, relay_handlers}
use serverless_gateway.Chain.{Log, Abi, topic}
use serverless_gateway.Table.{lookup}
use serverless_gateway.Prelude.{
  ◌==◌, if◌then◌else◌, Bool-cases, Option-cases, All, All-append, Outcome, ◌>>=◌, >>=-eq-ok,
  ok-injective, ok, err, panicked, ℕ, ◌≡◌, inl, inr, true, false, List, [], ◌∷◌,
}
use serverless_gateway.System.{
  dispatch_request_chain, handle_all_common_chain_events, announce_added, respond_decoded,
}
use serverless_gateway.Subscription.Historic.{
  process_historic_log, ignore_error, process_historic_subscription_jobs_on_request_chain,
}
use serverless_gateway.Subscription.Start.{Readings, add_subscription_job}
use serverless_gateway.EpochState.{callback_for_gateway_epoch_waitlist}
use serverless_gateway.Jobs.Tracked.{IsTracked, Due}
use serverless_gateway.Selection.{StdRng}

dispatch_updates-IsTracked :
    (abi : Abi) (c c' : ContractsClient) (log : Log) (topic0 : ℕ)
    → IsTracked c
    → (if topic0 == abi.keccak256 request_chain_job_subscription_job_params_updated_event
        then ignore_error c (update_subscription_job_params abi c log)
        else if topic0
            == abi.keccak256 request_chain_job_subscription_termination_params_updated_event
        then ignore_error c (update_subscription_job_termination_params abi c log)
        else ok c)
      ≡ ok c'
    → IsTracked c'
dispatch_updates-IsTracked abi c c' log topic0 t e =
    let params = request_chain_job_subscription_job_params_updated_event in
    let termination = request_chain_job_subscription_termination_params_updated_event in
    elim (Bool-cases (topic0 == abi.keccak256 params)) [
      | inl hit ↦
          ignore_error-IsTracked c c' (update_subscription_job_params abi c log) t
            (λ d done. update_subscription_job_params-IsTracked abi c d log t done) (rw hit at e)
      | inr miss ↦ elim (Bool-cases (topic0 == abi.keccak256 termination)) [
        | inl hit ↦
            ignore_error-IsTracked c c' (update_subscription_job_termination_params abi c log) t
              (λ d done. update_subscription_job_termination_params-IsTracked abi c d log t done)
              (rw (miss, hit) at e)
        | inr other ↦ rw (ok-injective (rw (miss, other) at e)) at t
      ]
    ]

dispatch_others-IsTracked :
    (abi : Abi) (c c' : ContractsClient) (chain : ℕ) (r : Readings) (log : Log) (topic0 : ℕ)
    → IsTracked c
    → (if topic0 == abi.keccak256 request_chain_job_cancelled_event
        then (topic log 1 >>= λ id. ok (cancel_job_with_job_id c id))
        else if topic0 == abi.keccak256 request_chain_job_subscription_started_event
        then (topic log 1 >>= λ id.
            announce_added c id (add_subscription_job abi c log chain false r))
        else if topic0 == abi.keccak256 request_chain_job_subscription_job_params_updated_event
        then ignore_error c (update_subscription_job_params abi c log)
        else if topic0
            == abi.keccak256 request_chain_job_subscription_termination_params_updated_event
        then ignore_error c (update_subscription_job_termination_params abi c log)
        else ok c)
      ≡ ok c'
    → IsTracked c'
dispatch_others-IsTracked abi c c' chain r log topic0 t e =
    elim (Bool-cases (topic0 == abi.keccak256 request_chain_job_cancelled_event)) [
      | inl hit ↦
          let (id, _, done) = >>=-eq-ok (topic log 1) _ (rw hit at e) in
          rw (ok-injective done) at (cancel_job_with_job_id-IsTracked c id t)
      | inr miss ↦
          elim (Bool-cases (topic0 == abi.keccak256 request_chain_job_subscription_started_event)) [
            | inl hit ↦
                let (id, _, done) = >>=-eq-ok (topic log 1) _ (rw (miss, hit) at e) in
                announce_added-IsTracked c c' id (add_subscription_job abi c log chain false r) t
                  (λ k d added. add_subscription_job-IsTracked abi c d log chain false r k t added)
                  done
            | inr other ↦ dispatch_updates-IsTracked abi c c' log topic0 t (rw (miss, other) at e)
          ]
    ]

pub dispatch_request_chain-IsTracked :
    (rng : StdRng) (abi : Abi) (c c' : ContractsClient) (chain now : ℕ) (r : Readings) (log : Log)
    → IsTracked c
    → dispatch_request_chain rng abi c chain now r log ≡ ok c'
    → IsTracked c'
unfolding dispatch_request_chain
dispatch_request_chain-IsTracked rng abi c c' chain now r log t e =
    let (topic0, _, e₁) = >>=-eq-ok (topic log 0) _ e in
    elim (Bool-cases (topic0 == abi.keccak256 request_chain_job_relayed_event)) [
      | inl relayed ↦
          relay_decoded-IsTracked rng c c' now (get_job_from_job_relay_event abi log 1 chain) t
            (get_job_from_job_relay_event-Relayable abi log chain) (rw relayed at e₁)
      | inr e₂ ↦ dispatch_others-IsTracked abi c c' chain r log topic0 t (rw e₂ at e₁)
    ]

process_historic_log-IsTracked :
    (abi : Abi) (c c' : ContractsClient) (chain : ℕ) (log : Log) (r : Readings)
    → IsTracked c
    → process_historic_log abi c chain log r ≡ ok c'
    → IsTracked c'
unfolding process_historic_log
process_historic_log-IsTracked abi c c' chain log r t e =
    let (topic0, _, e₁) = >>=-eq-ok (topic log 0) _ e in
    elim (Bool-cases (topic0 == abi.keccak256 request_chain_job_subscription_started_event)) [
      | inl hit ↦
          announce-IsTracked c' (add_subscription_job abi c log chain true r)
            (λ k d added. add_subscription_job-IsTracked abi c d log chain true r k t added)
            (rw hit at e₁)
      | inr miss ↦ dispatch_updates-IsTracked abi c c' log topic0 t (rw miss at e₁)
    ]

pub historic-IsTracked :
    (abi : Abi) (c c' : ContractsClient) (chain : ℕ) (logs : List (Log × Readings))
    → IsTracked c
    → process_historic_subscription_jobs_on_request_chain abi c chain logs ≡ ok c'
    → IsTracked c'
unfolding process_historic_subscription_jobs_on_request_chain
historic-IsTracked abi c c' chain [] t e = rw (ok-injective e) at t
historic-IsTracked abi c c' chain ((log, r) ∷ logs) t e =
    let (d, first, rest) = >>=-eq-ok (process_historic_log abi c chain log r) _ e in
    historic-IsTracked abi d c' chain logs
      (process_historic_log-IsTracked abi c d chain log r t first) rest

respond_decoded-IsTracked :
    (c c' : ContractsClient) (o : Outcome ResponseJob)
    → IsTracked c
    → respond_decoded c o ≡ ok c'
    → IsTracked c'
unfolding respond_decoded
respond_decoded-IsTracked c c' (ok r) t e =
    rw (ok-injective e) at (job_responded_handler-IsTracked c r t)
respond_decoded-IsTracked c c' (err x) t e = rw (ok-injective e) at t
respond_decoded-IsTracked c c' panicked t e = cc

pub common_chain-IsTracked :
    (abi : Abi) (c c' : ContractsClient) (log : Log)
    → IsTracked c
    → handle_all_common_chain_events abi c log ≡ ok c'
    → IsTracked c'
unfolding handle_all_common_chain_events job_resource_unavailable_handler
common_chain-IsTracked abi c c' log t e =
    let (topic0, _, e₁) = >>=-eq-ok (topic log 0) _ e in
    elim (Bool-cases (topic0 == abi.keccak256 common_chain_job_responded_event)) [
      | inl hit ↦
          respond_decoded-IsTracked c c' (get_job_from_job_responded_event abi c log) t
            (rw hit at e₁)
      | inr e₂ ↦
          elim (Bool-cases (topic0 == abi.keccak256 common_chain_job_resource_unavailable_event)) [
            | inl hit ↦
                let (id, _, done) = >>=-eq-ok (topic log 1) _ (rw (e₂, hit) at e₁) in
                rw (ok-injective done) at (cancel_job_with_job_id-IsTracked c id t)
            | inr e₃ ↦
                elim (Bool-cases (topic0 == abi.keccak256 common_chain_gateway_reassigned_event)) [
                  | inl hit ↦
                      gateway_reassigned_handler-IsTracked abi c c' log t (rw (e₂, e₃, hit) at e₁)
                  | inr other ↦ rw (ok-injective (rw (e₂, e₃, other) at e₁)) at t
                ]
          ]
    ]

pub callback-IsTracked :
    (c : ContractsClient) (cycle_number : ℕ)
    → IsTracked c
    → IsTracked (callback_for_gateway_epoch_waitlist c cycle_number)
unfolding callback_for_gateway_epoch_waitlist
callback-IsTracked c cycle t = elim (Option-cases (lookup cycle c.gateway_epoch_state_waitlist)) [
  | inl nobody ↦ rw (nobody, callback_for_gateway_epoch_waitlist) t
  | inr (jobs, waited) ↦
      let relayable : All Relayable jobs =
        lookup-All (λ e. All Relayable e.1) cycle jobs c.gateway_epoch_state_waitlist t.waiting
          waited in
      rw (waited, callback_for_gateway_epoch_waitlist)
        (record {
          active = t.active;
          current = t.current;
          waiting = remove-All _ cycle c.gateway_epoch_state_waitlist t.waiting;
          sent = t.sent;
          tasks =
              All-append (Due c.enclave_address) c.spawned (relay_handlers jobs ∷ []) t.tasks
                (relayable, tt);
        })
]
