-- ===== src/System/Tests.antt =====
-- A run of the program.
use serverless_gateway.Model.{ResponseJob, ContractsClient, job_responded, once}
use serverless_gateway.Table.{lookup}
use serverless_gateway.Prelude.{ok, ◌≡◌, refl, none, [], ◌∷◌}
use serverless_gateway.System.{
  Reach, start, next, common_chain_event, response_sent, handle_all_common_chain_events,
  respond_decoded,
}
use serverless_gateway.System.Invariant.{Reach-IsTracked}
use serverless_gateway.Jobs.{
  job_responded_handler, get_job_from_job_responded_event, response_of_tokens, response_for,
  remove_response_job_from_active_jobs,
}
use serverless_gateway.Jobs.Tracked.{IsTracked}
use serverless_gateway.Samples.Jobs.{a_client-IsTracked, response}
use serverless_gateway.Samples.{a_client, first_draw, log_of}

-- The response to job 260 arrives, is passed on, and is then sent.
abbrev response_of_260 : ResponseJob
response_of_260 = record {
  job_id = 260;
  request_chain_id = 5;
  output = 1 ∷ [];
  total_time = 30;
  error_code = 0;
  job_type = job_responded;
  gateway_address = none;
  job_mode = once;
}

abbrev passed_on : ContractsClient
passed_on = job_responded_handler a_client response_of_260

arrives : handle_all_common_chain_events response a_client (log_of (17 ∷ 260 ∷ [])) ≡ ok passed_on
unfolding handle_all_common_chain_events get_job_from_job_responded_event response_for
    response_of_tokens respond_decoded lookup
arrives = refl

run : Reach first_draw response a_client (remove_response_job_from_active_jobs passed_on 260)
run = next (next start (common_chain_event (log_of (17 ∷ 260 ∷ [])) arrives)) (response_sent 260)

Reach-IsTracked_example : IsTracked (remove_response_job_from_active_jobs passed_on 260)
Reach-IsTracked_example =
    Reach-IsTracked first_draw response a_client
      (remove_response_job_from_active_jobs passed_on 260) a_client-IsTracked run
