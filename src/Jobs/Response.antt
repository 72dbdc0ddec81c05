-- ===== src/Jobs/Response.antt =====
-- The response to an active job.
use serverless_gateway.Table.Laws.{lookup-remove, lookup-All}
use serverless_gateway.Model.{Job, ResponseJob, ContractsClient, job_responded}
use serverless_gateway.Chain.{Log, Token, Abi, topic}
use serverless_gateway.Table.{lookup, remove}
use serverless_gateway.Words.{u8_mod, as_u8, low_u64}
use serverless_gateway.Prelude.{
  ◌==◌, if◌then◌else◌, ==_refl, job_does_not_belong_to_enclave, ok, err, ℕ, ◌<◌, ◌≡◌, refl, sym, ap,
  subst, ◌∙◌, none, some, List, [], ◌∷◌, ◌++◌, arith,
}
use serverless_gateway.Jobs.{
  job_responded_types, get_job_from_job_responded_event, job_responded_handler, remove_job,
  response_for,
}
use serverless_gateway.Jobs.Tracked.{IsTracked}

abbrev response_to : Job → ℕ → ℕ → ℕ → List ℕ → ResponseJob
response_to j id total_time error_code output = record {
  job_id = id;
  request_chain_id = j.request_chain_id;
  output = output;
  total_time = total_time;
  error_code = error_code;
  job_type = job_responded;
  gateway_address = none;
  job_mode = j.job_mode;
}

abbrev responded : ContractsClient → ResponseJob → Job → ContractsClient
responded c r j = record c {
  active_jobs = remove r.job_id c.active_jobs;
  com_chain_tx = c.com_chain_tx ++ record r { gateway_address = j.gateway_address } ∷ [];
}

remove_job_self :
    (c : ContractsClient) (j : Job)
    → lookup j.job_id c.active_jobs ≡ some j
    → remove_job c j ≡ record c { active_jobs = remove j.job_id c.active_jobs }
unfolding remove_job
remove_job_self c j found = rw (found, remove_job, ==_refl j.sequence_number) refl

respond-active :
    (c : ContractsClient) (r : ResponseJob) (j : Job)
    → j.job_id ≡ r.job_id
    → lookup r.job_id c.active_jobs ≡ some j
    → job_responded_handler c r ≡ responded c r j
unfolding job_responded_handler
respond-active c r j same found =
    let removed : remove_job c j ≡ record c { active_jobs = remove r.job_id c.active_jobs } =
      remove_job_self c j (subst (λ k. lookup k c.active_jobs ≡ some j) (sym same) found)
      ∙ ap (λ k. record c { active_jobs = remove k c.active_jobs }) same in
    rw (found, job_responded_handler, removed) refl

-- The `JobResponded` event of an active job, decoded: the response goes to the request chain of the
-- job, with the job's mode and the gateway it was given to; the job is active no more, the other
-- jobs are as before, and the same event again is refused.
pub job_responded_handler-once :
    (abi : Abi) (c : ContractsClient) (log : Log) (id total_time error_code : ℕ) (output : List ℕ)
    (j : Job)
    → IsTracked c
    → topic log 1 ≡ ok id
    → lookup id c.active_jobs ≡ some j
    → abi.decode job_responded_types log.payload
      ≡ some (Token.bytes output ∷ Token.uint total_time ∷ Token.uint error_code ∷ [])
    → error_code < u8_mod
    → (r : ResponseJob) × (get_job_from_job_responded_event abi c log ≡ ok r)
      × let c' = job_responded_handler c r in
        (c'.com_chain_tx
          ≡ c.com_chain_tx
            ++ record {
              job_id = id;
              request_chain_id = j.request_chain_id;
              output = output;
              total_time = total_time;
              error_code = error_code;
              job_type = job_responded;
              gateway_address = j.gateway_address;
              job_mode = j.job_mode;
            }
              ∷ [])
        × ((k : ℕ) → lookup k c'.active_jobs ≡ (if k == id then none else lookup k c.active_jobs))
        × (get_job_from_job_responded_event abi c' log ≡ err job_does_not_belong_to_enclave)
unfolding get_job_from_job_responded_event response_for
job_responded_handler-once abi c log id total_time error_code output j t named found decoded small =
    let mine : j.job_id ≡ id = (lookup-All _ id j c.active_jobs t.active found).0 in
    let code : as_u8 (low_u64 error_code) ≡ error_code = omega arith in
    let r : ResponseJob = response_to j id total_time error_code output in
    let done : job_responded_handler c r ≡ responded c r j = respond-active c r j mine found in
    let gone : lookup id (remove id c.active_jobs) ≡ none =
      lookup-remove id id c.active_jobs ∙ rw (==_refl id) refl in
    (
      r,
      rw (named, response_for, found, decoded, code) refl,
      rw done (refl, λ k. lookup-remove id k c.active_jobs, rw (named, response_for, gone) refl),
    )
