-- ===== src/Subscription/Historic.antt =====
-- `process_historic_subscription_jobs_on_request_chain`: the logs of the subscriptions that began
-- before the gateway did, in their order, each with the readings of the clock while it is handled.
use serverless_gateway.Model.{ContractsClient, JobSubscriptionAction}
use serverless_gateway.Chain.{Log, Abi, topic}
use serverless_gateway.Constants.{
  request_chain_job_subscription_started_event,
  request_chain_job_subscription_job_params_updated_event,
  request_chain_job_subscription_termination_params_updated_event,
}
use serverless_gateway.Prelude.{
  ◌==◌, if◌then◌else◌, Outcome, ◌>>=◌, ok, err, panicked, ℕ, true, List, [], ◌∷◌, ◌++◌,
}
use serverless_gateway.Subscription.Start.{Readings, add_subscription_job}
use serverless_gateway.Subscription.Update.{
  update_subscription_job_params, update_subscription_job_termination_params,
}

-- `unwrap` turns an error into a panic; the zero id says that nothing was added.
unfoldable pub announce : Outcome (ℕ × ContractsClient) → Outcome ContractsClient
announce (ok (sub_id, c)) =
    if sub_id == 0
    then ok c
    else ok (record c {
      job_subscription_tx =
          c.job_subscription_tx
          ++ record { subscription_action = JobSubscriptionAction.add; subscription_id = sub_id }
            ∷ [];
    })
announce (err e) = panicked
announce panicked = panicked

-- `let _ =` drops an error.
unfoldable pub ignore_error : ContractsClient → Outcome ContractsClient → Outcome ContractsClient
ignore_error c (ok c') = ok c'
ignore_error c (err e) = ok c
ignore_error c panicked = panicked

unfoldable pub process_historic_log :
    Abi → ContractsClient → ℕ → Log → Readings → Outcome ContractsClient
process_historic_log abi c request_chain_id log r = topic log 0 >>= λ topic0.
    if topic0 == abi.keccak256 request_chain_job_subscription_started_event
    then announce (add_subscription_job abi c log request_chain_id true r)
    else if topic0 == abi.keccak256 request_chain_job_subscription_job_params_updated_event
    then ignore_error c (update_subscription_job_params abi c log)
    else if topic0 == abi.keccak256 request_chain_job_subscription_termination_params_updated_event
    then ignore_error c (update_subscription_job_termination_params abi c log)
    else ok c

unfoldable pub process_historic_subscription_jobs_on_request_chain :
    Abi → ContractsClient → ℕ → List (Log × Readings) → Outcome ContractsClient
process_historic_subscription_jobs_on_request_chain abi c request_chain_id [] = ok c
process_historic_subscription_jobs_on_request_chain abi c request_chain_id ((log, r) ∷ logs) = do
  c' ← process_historic_log abi c request_chain_id log r
  process_historic_subscription_jobs_on_request_chain abi c' request_chain_id logs
