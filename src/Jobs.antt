-- ===== src/Jobs.antt =====
-- The life of a job: the handlers of src/common_chain_interaction.rs that track it, relay it, watch
-- the gateway that was chosen, and pass its response on. A handler takes the client and returns it
-- changed. A send on a channel appends to its messages, as long as the receiver lives, which the
-- program keeps for its whole run; a spawned task is appended to the tasks.
pub mod Tracked
pub mod Relay
pub mod Handlers
pub mod Reassign
pub mod Slash
pub mod Response
mod Tests
use serverless_gateway.Constants.{max_gateway_retries, common_chain_job_relayed_event}
use serverless_gateway.Words.{add8, as_u8, low_u64, as_u64}
use serverless_gateway.Prelude.{
  ltb, ◌==◌, if◌then◌else◌, Outcome, ◌>>=◌, unwrap, log_decode_failure,
  job_does_not_belong_to_enclave, ok, err, panicked, ℕ, Bool, true, false, not, ◌&&◌, Option, none,
  some, List, [], ◌∷◌, ◌++◌,
}
use serverless_gateway.Table.{remove, insert, lookup}
use serverless_gateway.Model.{
  Job, ResponseJob, ContractsClient, job_relay, slash_gateway_job, job_responded, once, slash_timer,
  relay_handler,
}
use serverless_gateway.Chain.{
  Token, topic, Log, ParamType, Abi, uint_at, address_at, bytes_at, fixed_bytes_at,
}
use serverless_gateway.Selection.{StdRng, select_gateway_for_job_id}

-- What the match on the selected gateway does with it.
unfoldable pub assign : ContractsClient → Job → ℕ → ContractsClient
assign c job gateway_address =
    if gateway_address == 0
    then c
    else if gateway_address == c.enclave_address
    then record c {
      active_jobs = insert job.job_id job c.active_jobs;
      req_chain_tx = c.req_chain_tx ++ job ∷ [];
    }
    else record c {
      current_jobs = insert job.job_id job c.current_jobs;
      spawned = c.spawned ++ slash_timer job ∷ [];
    }

-- An error of the selection is logged, and the handler ends.
unfoldable pub relay_selected :
    ContractsClient → Job → Outcome (ℕ × ContractsClient) → Outcome ContractsClient
relay_selected c job (ok (a, c')) = ok (assign c' (record job { gateway_address = some a }) a)
relay_selected c job (err e) = ok c
relay_selected c job panicked = panicked

-- The seed is the start time. The clock is read once, as `now`.
unfoldable pub job_relayed_handler : StdRng → ContractsClient → ℕ → Job → Outcome ContractsClient
job_relayed_handler rng c now job = do
  seed ← as_u64 job.starttime
  relay_selected c job (select_gateway_for_job_id rng c now job seed job.sequence_number)

abbrev pub job_relay_types : List ParamType
job_relay_types =
    ParamType.fixed_bytes 32
    ∷ ParamType.bytes
    ∷ ParamType.uint 256
    ∷ ParamType.uint 256
    ∷ ParamType.uint 256
    ∷ ParamType.uint 256
    ∷ ParamType.address
    ∷ ParamType.address
    ∷ ParamType.uint 256
    ∷ ParamType.uint 256
    ∷ []

unfoldable pub job_of_tokens : Log → ℕ → ℕ → List Token → Outcome Job
job_of_tokens log sequence_number request_chain_id decoded = do
  job_id ← topic log 1
  tx_hash ← fixed_bytes_at decoded 0
  code_input ← bytes_at decoded 1
  user_timeout ← uint_at decoded 2
  starttime ← uint_at decoded 8
  env ← topic log 2 >>= as_u64
  ok (record {
    job_id = job_id;
    request_chain_id = request_chain_id;
    tx_hash = tx_hash;
    code_input = code_input;
    user_timeout = user_timeout;
    starttime = starttime;
    job_owner = log.address;
    job_type = job_relay;
    sequence_number = sequence_number;
    gateway_address = none;
    job_mode = once;
    env = as_u8 env;
  })

unfoldable pub get_job_from_job_relay_event : Abi → Log → ℕ → ℕ → Outcome Job
unfolding job_of_tokens
get_job_from_job_relay_event abi log sequence_number request_chain_id =
    elim (abi.decode job_relay_types log.payload) [
      | none ↦ err log_decode_failure
      | some decoded ↦ job_of_tokens log sequence_number request_chain_id decoded
    ]

-- The job leaves the active jobs, or else the current ones.
unfoldable pub cancel_job_with_job_id : ContractsClient → ℕ → ContractsClient
cancel_job_with_job_id c job_id = elim (lookup job_id c.active_jobs) [
  | none ↦ record c { current_jobs = remove job_id c.current_jobs }
  | some job ↦ record c { active_jobs = remove job_id c.active_jobs }
]

abbrev pub job_relayed_types : List ParamType
job_relayed_types =
    ParamType.uint 256 ∷ ParamType.uint 8 ∷ ParamType.address ∷ ParamType.address ∷ []

-- The test of the loop on one `JobRelayed` log. The environment is read from topic 1, as the code
-- does, where the job id stands.
unfoldable pub is_relay_of : Abi → Job → Log → Outcome Bool
is_relay_of abi job log = do
  decoded ← unwrap (abi.decode job_relayed_types log.payload)
  job_id ← topic log 1
  env ← topic log 1 >>= as_u64
  job_owner ← address_at decoded 2
  gateway_operator ← address_at decoded 3
  if (job_id == job.job_id)
        && ((as_u8 env == job.env) && ((job_owner == job.job_owner) && not (gateway_operator == 0)))
      then (unwrap job.gateway_address >>= λ g. ok (gateway_operator == g))
      else ok false

-- Whether a log of the loop ends it.
unfoldable pub find_relay : Abi → Job → List Log → Outcome Bool
find_relay abi job [] = ok false
find_relay abi job (log ∷ logs) =
    let rest = find_relay abi job logs in
    let checked = is_relay_of abi job log >>= λ hit. if hit then ok true else rest in
    topic log 0 >>= λ topic0.
    if topic0 == abi.keccak256 common_chain_job_relayed_event then checked else rest

-- After the timeout, with the `JobRelayed` logs of the job that the common chain then has.
unfoldable pub job_relayed_slash_timer :
    Abi → ContractsClient → Job → List Log → Outcome ContractsClient
job_relayed_slash_timer abi c job logs = do
  relayed ← find_relay abi job logs
  if relayed
      then ok (record c { current_jobs = remove job.job_id c.current_jobs })
      else ok (record c {
        req_chain_tx = c.req_chain_tx ++ record job { job_type = slash_gateway_job } ∷ [];
      })

abbrev pub job_responded_types : List ParamType
job_responded_types = ParamType.bytes ∷ ParamType.uint 256 ∷ ParamType.uint 8 ∷ []

unfoldable pub response_of_tokens : Job → ℕ → List Token → Outcome ResponseJob
response_of_tokens job job_id decoded = do
  output ← bytes_at decoded 0
  total_time ← uint_at decoded 1
  error_code ← uint_at decoded 2
  ok (record {
    job_id = job_id;
    request_chain_id = job.request_chain_id;
    output = output;
    total_time = total_time;
    error_code = as_u8 (low_u64 error_code);
    job_type = job_responded;
    gateway_address = none;
    job_mode = job.job_mode;
  })

unfoldable pub response_for : Abi → ContractsClient → Log → ℕ → Outcome ResponseJob
unfolding response_of_tokens
response_for abi c log job_id = elim (lookup job_id c.active_jobs) [
  | none ↦ err job_does_not_belong_to_enclave
  | some job ↦ elim (abi.decode job_responded_types log.payload) [
    | none ↦ err log_decode_failure
    | some decoded ↦ response_of_tokens job job_id decoded
  ]
]

unfoldable pub get_job_from_job_responded_event : Abi → ContractsClient → Log → Outcome ResponseJob
get_job_from_job_responded_event abi c log = topic log 1 >>= response_for abi c log

-- The job leaves the active jobs unless it has been tried again meanwhile.
unfoldable pub remove_job : ContractsClient → Job → ContractsClient
remove_job c job = elim (lookup job.job_id c.active_jobs) [
  | none ↦ c
  | some active ↦
      if active.sequence_number == job.sequence_number
      then record c { active_jobs = remove job.job_id c.active_jobs }
      else c
]

send_response : ContractsClient → ResponseJob → ContractsClient
send_response c r = record c { com_chain_tx = c.com_chain_tx ++ r ∷ [] }

unfoldable pub job_responded_handler : ContractsClient → ResponseJob → ContractsClient
unfolding send_response
job_responded_handler c response_job = elim (lookup response_job.job_id c.active_jobs) [
  | none ↦ c
  | some job ↦
      send_response (remove_job c job)
        (record response_job { gateway_address = job.gateway_address })
]

unfoldable pub job_resource_unavailable_handler : ContractsClient → Log → Outcome ContractsClient
job_resource_unavailable_handler c log = do
  job_id ← topic log 1
  ok (cancel_job_with_job_id c job_id)

-- The tracked job under its next sequence number, unless that is above the limit.
unfoldable pub retry : ContractsClient → ℕ → Job → ContractsClient
retry c job_id job =
    let cancelled : ContractsClient = cancel_job_with_job_id c job_id in
    let next : ℕ = add8 job.sequence_number 1 in
    if ltb max_gateway_retries next then cancelled else record cancelled {
      spawned =
          cancelled.spawned
          ++ relay_handler (record job { sequence_number = next; gateway_address = none }) ∷ [];
    }

abbrev pub gateway_reassigned_types : List ParamType
gateway_reassigned_types = ParamType.address ∷ ParamType.address ∷ ParamType.uint 8 ∷ []

-- The tracked job: among the active ones if this gateway is replaced, else among the current ones.
unfoldable pub tracked_job : ContractsClient → ℕ → ℕ → Option Job
tracked_job c old_gateway job_id =
    if old_gateway == c.enclave_address
    then lookup job_id c.active_jobs
    else lookup job_id c.current_jobs

unfoldable pub gateway_reassigned_handler : Abi → ContractsClient → Log → Outcome ContractsClient
gateway_reassigned_handler abi c log = do
  job_id ← topic log 1
  decoded ← unwrap (abi.decode gateway_reassigned_types log.payload)
  old_gateway ← address_at decoded 0
  sequence_number ← uint_at decoded 2
  elim (tracked_job c old_gateway job_id) [
    | none ↦ ok c
    | some job ↦
        if job.sequence_number == as_u8 (low_u64 sequence_number)
        then ok (retry c job_id job)
        else ok c
  ]

unfoldable pub remove_response_job_from_active_jobs : ContractsClient → ℕ → ContractsClient
remove_response_job_from_active_jobs c job_id = record c {
  active_jobs = remove job_id c.active_jobs;
}
