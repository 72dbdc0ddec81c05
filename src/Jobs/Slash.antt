-- ===== src/Jobs/Slash.antt =====
-- The slash timer on the log of the relay that it waits for.
use serverless_gateway.Model.{Job, ContractsClient, slash_gateway_job}
use serverless_gateway.Chain.{Log, Token, Abi, topic}
use serverless_gateway.Constants.{common_chain_job_relayed_event}
use serverless_gateway.Table.{remove}
use serverless_gateway.Words.{u64_mod}
use serverless_gateway.Prelude.{
  ltb, ◌==◌, if◌then◌else◌, ==_refl, ==_ne, Bool-cases, ok, panicked, ℕ, ◌%◌, ◌≡◌, refl, ◌≢◌, inl,
  inr, some, [], ◌∷◌, ◌++◌,
}
use serverless_gateway.Jobs.{job_relayed_types, is_relay_of, find_relay, job_relayed_slash_timer}

-- The one log is that of the job's own relay by its gateway. The environment is compared with the
-- low byte of the job id, as topic 1 is read for it. So a job id that is no `u64` makes the timer
-- panic; if its low byte is the job's environment, the relay is seen and the job is forgotten; if
-- not, the gateway is reported though it has relayed the job.
pub job_relayed_slash_timer-relayed :
    (abi : Abi) (c : ContractsClient) (job : Job) (log : Log) (gateway deadline env : ℕ)
    → topic log 0 ≡ ok (abi.keccak256 common_chain_job_relayed_event)
    → topic log 1 ≡ ok job.job_id
    → abi.decode job_relayed_types log.payload
      ≡ some (
          Token.uint deadline
          ∷ Token.uint env
          ∷ Token.address job.job_owner
          ∷ Token.address gateway
          ∷ [])
    → job.gateway_address ≡ some gateway
    → gateway ≢ 0
    → job_relayed_slash_timer abi c job (log ∷ []) ≡ (
        if ltb job.job_id u64_mod
        then if job.job_id % 256 == job.env
          then ok (record c { current_jobs = remove job.job_id c.current_jobs })
          else ok (record c {
            req_chain_tx = c.req_chain_tx ++ record job { job_type = slash_gateway_job } ∷ [];
          })
        else panicked)
unfolding job_relayed_slash_timer find_relay is_relay_of
job_relayed_slash_timer-relayed abi c job log gateway deadline env event named decoded chosen real =
    let same_event = ==_refl (abi.keccak256 common_chain_job_relayed_event) in
    let same_id = ==_refl job.job_id in
    let same_owner = ==_refl job.job_owner in
    let same_gateway = ==_refl gateway in
    let not_zero = ==_ne gateway 0 real in
    elim (Bool-cases (ltb job.job_id u64_mod)) [
      | inr large ↦ rw (event, same_event, decoded, named, large) refl
      | inl small ↦ elim (Bool-cases (job.job_id % 256 == job.env)) [
        | inl env_equal ↦
            rw
              (
                event, same_event, decoded, named, small, same_id, env_equal, same_owner, not_zero,
                chosen, same_gateway,
              )
              refl
        | inr differs ↦ rw (event, same_event, decoded, named, small, same_id, differs) refl
      ]
    ]
