-- ===== src/Transactions.antt =====
-- The transactions of src/common_chain_interaction.rs: `txns_to_common_chain` and
-- `txns_to_request_chain`, which take the jobs from their channels, and what they submit. The
-- answers to a submission are readings by the number of the attempt.
mod Sends
mod Verified
mod Messages
mod Total
mod Tests
use serverless_gateway.Model.{
  Job, ResponseJob, ContractsClient, job_relay, slash_gateway_job, job_responded, once,
  subscription, GatewayJobType,
}
use serverless_gateway.Table.{lookup}
use serverless_gateway.Prelude.{
  ◌==◌, if◌then◌else◌, length, Outcome, ◌>>=◌, unwrap, ok, panicked, ℕ, zero, suc, ◌+◌, Bool, true,
  false, Option, none, some, List, [], ◌∷◌,
}
use serverless_gateway.Signing.{
  Crypto, sign_relay_job_request, sign_reassign_gateway_relay_request, sign_job_response_request,
}
use serverless_gateway.Jobs.{remove_response_job_from_active_jobs}

-- The answer to `txn.send()`: an error of the nonce, another error, or a pending transaction, with
-- whether it is confirmed.
pub data Sent : Type 0 where
  nonce_error send_error : Sent
  pending : Bool → Sent

-- How the three attempts end.
pub data Ended : Type 0 where
  confirmed_txn unconfirmed_txn rejected_txn no_attempt_left : Ended

-- A call of a contract, in the order of its arguments.
pub data Transaction : Type 0 where
  relay_job : List ℕ → ℕ → List ℕ → List ℕ → ℕ → ℕ → ℕ → ℕ → ℕ → ℕ → Transaction
  reassign_gateway_relay : ℕ → ℕ → List ℕ → ℕ → ℕ → ℕ → ℕ → Transaction
  job_response : List ℕ → ℕ → List ℕ → ℕ → ℕ → ℕ → Transaction
  job_subs_response : List ℕ → ℕ → List ℕ → ℕ → ℕ → ℕ → Transaction

-- A transaction, how often it was sent, and how that ended.
pub record Submission : Type 0 where
  pub transaction : Transaction
  pub attempts : ℕ
  pub ended : Ended

-- What a transaction reads: the clock, and the answers to its attempts.
pub record TxnReadings : Type 0 where
  pub now : ℕ
  pub send : ℕ → Sent

unfoldable pub after_send : ℕ → Sent → ℕ × Ended → ℕ × Ended
after_send attempt nonce_error others = others
after_send attempt send_error others = (attempt + 1, rejected_txn)
after_send attempt (pending true) others = (attempt + 1, confirmed_txn)
after_send attempt (pending false) others = (attempt + 1, unconfirmed_txn)

-- `for i in 0..3`, from attempt `i` with `left` attempts left: the number of attempts made, and the
-- end.
unfoldable pub send_attempts : (ℕ → Sent) → ℕ → ℕ → ℕ × Ended
send_attempts send i zero = (i, no_attempt_left)
send_attempts send i (suc left) = after_send i (send i) (send_attempts send (suc i) left)

unfoldable pub submit : TxnReadings → Transaction → Submission
submit r txn =
    let sent = send_attempts r.send 0 3 in
    record { transaction = txn; attempts = sent.0; ended = sent.1 }

-- The request is signed, or the task panics; the digits of the signature are read by
-- `Bytes::from_hex`, with an early return where that fails; then comes the call, with the signature
-- and its timestamp.
unfoldable pub with_signature :
    Crypto
    → Option (List ℕ × ℕ)
    → (List ℕ → ℕ → Outcome (Option Submission))
    → Outcome (Option Submission)
with_signature k signed next = unwrap signed >>= λ s. elim (k.from_hex s.0) [
  | none ↦ ok none
  | some signature ↦ next signature s.1
]

-- `try_into` of a slice into 32 bytes.
abbrev pub bytes32 : List ℕ → Outcome (List ℕ)
bytes32 b = if length b == 32 then ok b else panicked

unfoldable pub call_relay_job : TxnReadings → Job → List ℕ → ℕ → Outcome (Option Submission)
call_relay_job r job signature sign_timestamp = bytes32 job.tx_hash >>= λ tx_hash. ok (
    some (
      submit r (
        relay_job signature job.job_id tx_hash job.code_input job.user_timeout job.starttime
          job.sequence_number job.job_owner job.env sign_timestamp)))

unfoldable pub relay_job_txn : Crypto → TxnReadings → Job → Outcome (Option Submission)
relay_job_txn k r job =
    with_signature k
      (sign_relay_job_request k r.now job.job_id job.tx_hash job.code_input job.user_timeout
        job.starttime job.sequence_number job.job_owner job.env)
      (call_relay_job r job)

unfoldable pub call_reassign_gateway_relay :
    TxnReadings → Job → ℕ → List ℕ → ℕ → Outcome (Option Submission)
call_reassign_gateway_relay r job gateway_address signature sign_timestamp = ok (
    some (
      submit r (
        reassign_gateway_relay gateway_address job.job_id signature job.sequence_number
          job.starttime job.job_owner sign_timestamp)))

unfoldable pub reassign_gateway_relay_txn : Crypto → TxnReadings → Job → Outcome (Option Submission)
reassign_gateway_relay_txn k r job = unwrap job.gateway_address >>= λ gateway_address.
    with_signature k
      (sign_reassign_gateway_relay_request k r.now job.job_id gateway_address job.job_owner
        job.sequence_number job.starttime)
      (call_reassign_gateway_relay r job gateway_address)

-- One message of the channel, by its type. Another type of job is dropped.
unfoldable pub txn_by_type :
    Crypto → TxnReadings → Job → GatewayJobType → Outcome (Option Submission)
txn_by_type k r job job_relay = relay_job_txn k r job
txn_by_type k r job slash_gateway_job = reassign_gateway_relay_txn k r job
txn_by_type k r job job_responded = ok none

unfoldable pub common_chain_txn : Crypto → TxnReadings → Job → Outcome (Option Submission)
common_chain_txn k r job = txn_by_type k r job job.job_type

-- The messages in turn, with the readings of each. A panic ends the task.
unfoldable pub txns_to_common_chain :
    Crypto → (ℕ → TxnReadings) → ℕ → List Job → Outcome (List (Option Submission))
txns_to_common_chain k readings i [] = ok []
txns_to_common_chain k readings i (job ∷ jobs) =
    common_chain_txn k (readings i) job >>= λ submission.
    txns_to_common_chain k readings (suc i) jobs >>= λ rest. ok (submission ∷ rest)

-- The contract is that of the job's mode.
unfoldable pub response_call : ResponseJob → List ℕ → ℕ → Transaction
response_call r signature sign_timestamp = elim r.job_mode [
  | once ↦ job_response signature r.job_id r.output r.total_time r.error_code sign_timestamp
  | subscription ↦
      job_subs_response signature r.job_id r.output r.total_time r.error_code sign_timestamp
]

unfoldable pub call_job_response :
    TxnReadings → ResponseJob → List ℕ → ℕ → Outcome (Option Submission)
call_job_response r response_job signature sign_timestamp =
    ok (some (submit r (response_call response_job signature sign_timestamp)))

-- `request_chain_clients` has a client for each of the `request_chain_ids`; an index by another
-- chain panics.
unfoldable pub job_response_txn :
    Crypto → TxnReadings → ContractsClient → ResponseJob → Outcome (Option Submission)
job_response_txn k r c response_job =
    unwrap (lookup response_job.request_chain_id c.request_chain_ids) >>= λ req_chain_client.
    with_signature k
      (sign_job_response_request k r.now response_job.job_id response_job.output
        response_job.total_time response_job.error_code response_job.job_mode)
      (call_job_response r response_job)

-- One message of the channel: the job of a response is no longer active, however its transaction
-- ended.
unfoldable pub request_chain_txn :
    Crypto
    → TxnReadings
    → ContractsClient
    → ResponseJob
    → Outcome (Option Submission × ContractsClient)
request_chain_txn k r c response_job = elim response_job.job_type [
  | job_responded ↦ job_response_txn k r c response_job >>= λ submission.
      ok (submission, remove_response_job_from_active_jobs c response_job.job_id)
  | job_relay ↦ ok (none, c)
  | slash_gateway_job ↦ ok (none, c)
]

unfoldable pub txns_to_request_chain :
    Crypto
    → (ℕ → TxnReadings)
    → ℕ
    → ContractsClient
    → List ResponseJob
    → Outcome (List (Option Submission) × ContractsClient)
txns_to_request_chain k readings i c [] = ok ([], c)
txns_to_request_chain k readings i c (r ∷ rs) = request_chain_txn k (readings i) c r >>= λ done.
    txns_to_request_chain k readings (suc i) done.1 rs >>= λ rest. ok (done.0 ∷ rest.0, rest.1)
