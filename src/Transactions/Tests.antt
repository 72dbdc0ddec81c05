-- ===== src/Transactions/Tests.antt =====
-- Transactions at concrete inputs.
use serverless_gateway.Transactions.Messages.{
  answered, txns_to_common_chain-IsVerified, txns_to_request_chain-result,
}
use serverless_gateway.Samples.Signer.{plain, recovers_40, plain-Recovers}
use serverless_gateway.Model.{
  Job, slash_gateway_job, ResponseJob, ContractsClient, job_responded, once,
}
use serverless_gateway.Prelude.{
  ◌==◌, if◌then◌else◌, length, All, ok, ℕ, ◌+◌, ◌-◌, ◌≤◌, ◌<◌, ◌≡◌, refl, ◌≢◌, inl, inr, true,
  Option, none, some, List, [], ◌∷◌, arith,
}
use serverless_gateway.Samples.{a_job, a_client, given_to}
use serverless_gateway.Samples.Jobs.{a_client-IsTracked}
use serverless_gateway.Jobs.{remove_response_job_from_active_jobs}
use serverless_gateway.Jobs.Tracked.{IsTracked}
use serverless_gateway.Table.{remove, lookup}
use serverless_gateway.Signing.{
  domain_separator, typed_data, signature_text, sign_digest, relay_job_tokens,
  sign_relay_job_request, reassign_gateway_tokens, sign_reassign_gateway_relay_request,
  job_response_tokens, contract_name, sign_job_response_request,
}
use serverless_gateway.Transactions.{
  submit, Transaction, TxnReadings, after_send, send_attempts, nonce_error, pending, job_response,
  Submission, with_signature, call_relay_job, relay_job_txn, call_reassign_gateway_relay,
  reassign_gateway_relay_txn, txn_by_type, common_chain_txn, txns_to_common_chain, confirmed_txn,
  relay_job, reassign_gateway_relay, response_call, call_job_response, job_response_txn,
  request_chain_txn, txns_to_request_chain,
}
use serverless_gateway.Transactions.Sends.{submit_retries}
use serverless_gateway.Transactions.Verified.{IsVerified}
use serverless_gateway.Transactions.Total.{Signs, WasSent, txns_to_common_chain-total}

plain-Signs : Signs plain
plain-Signs = record {
  encodes = λ tokens. (length tokens ∷ [], refl);
  signs = λ digest. ((digest, 1), refl);
  reads_back = λ b. refl;
}

-- The nonce is wrong at the first attempt.
abbrev second_attempt : TxnReadings
second_attempt = record { now = 500; send = λ i. if i == 0 then nonce_error else pending true }

abbrev a_transaction : Transaction
a_transaction = job_response (1 ∷ []) 260 [] 5 0 500

two_attempts : (submit second_attempt a_transaction).attempts ≡ 2
unfolding submit send_attempts after_send
two_attempts = refl

submit_retries_example :
    let n = (submit second_attempt a_transaction).attempts in
    (1 ≤ n)
    × (n ≤ 3)
    × ((j : ℕ) → j + 1 < n → second_attempt.send j ≡ nonce_error)
    × (n < 3 → second_attempt.send (n - 1) ≢ nonce_error)
submit_retries_example = submit_retries second_attempt a_transaction

-- A message of each type, with a code hash of 32 bytes.
abbrev thirty_two : List ℕ
thirty_two =
    1 ∷ 2 ∷ 3 ∷ 4 ∷ 5 ∷ 6 ∷ 7 ∷ 8 ∷ 1 ∷ 2 ∷ 3 ∷ 4 ∷ 5 ∷ 6 ∷ 7 ∷ 8 ∷ 1 ∷ 2 ∷ 3 ∷ 4 ∷ 5 ∷ 6 ∷ 7 ∷ 8
    ∷ 1 ∷ 2 ∷ 3 ∷ 4 ∷ 5 ∷ 6 ∷ 7 ∷ 8 ∷ []

abbrev two_jobs : List Job
two_jobs =
    record a_job { tx_hash = thirty_two }
    ∷ record a_job { job_type = slash_gateway_job; gateway_address = some 9 }
    ∷ []

abbrev two_submissions : List (Option Submission)
two_submissions =
    some (record {
      transaction = relay_job (3 ∷ 28 ∷ []) 260 thirty_two [] 100 35 1 40 4 500;
      attempts = 2;
      ended = confirmed_txn;
    })
    ∷ some (record {
      transaction = reassign_gateway_relay 9 260 (3 ∷ 28 ∷ []) 1 35 40 500;
      attempts = 2;
      ended = confirmed_txn;
    })
    ∷ []

two_jobs_sent : txns_to_common_chain plain (λ i. second_attempt) 0 two_jobs ≡ ok two_submissions
unfolding txns_to_common_chain common_chain_txn txn_by_type relay_job_txn reassign_gateway_relay_txn
    call_relay_job call_reassign_gateway_relay with_signature sign_relay_job_request
    sign_reassign_gateway_relay_request relay_job_tokens reassign_gateway_tokens sign_digest
    typed_data domain_separator signature_text submit send_attempts after_send
two_jobs_sent = refl

txns_to_common_chain-IsVerified_example : All (IsVerified plain recovers_40 40) two_submissions
txns_to_common_chain-IsVerified_example =
    txns_to_common_chain-IsVerified plain recovers_40 40 (λ i. second_attempt) 0 two_jobs
      two_submissions plain-Recovers two_jobs_sent

-- The client has sent a job of its own, and the report of another gateway's.
abbrev own_job : Job
own_job = record (given_to 7) { tx_hash = thirty_two }

abbrev reported_job : Job
reported_job = record (given_to 9) {
  job_id = 261;
  job_type = slash_gateway_job;
  tx_hash = thirty_two;
}

abbrev sending_client : ContractsClient
sending_client = record a_client { req_chain_tx = own_job ∷ reported_job ∷ [] }

sending_client-IsTracked : IsTracked sending_client
sending_client-IsTracked = record {
  active = a_client-IsTracked.active;
  current = a_client-IsTracked.current;
  waiting = tt;
  sent = (
    inl (record { lower = omega arith; upper = omega arith; kind = refl }, refl),
    (
      inr (
        record (given_to 9) { job_id = 261; tx_hash = thirty_two },
        (
          record { lower = omega arith; upper = omega arith; kind = refl },
          (9, refl, (λ e. omega (arith, e)), λ e. omega (arith, e)),
        ),
        refl,
      ),
      tt,
    ),
  );
  tasks = tt;
}

txns_to_common_chain-total_example :
    (submissions : List (Option Submission)) × (txns_to_common_chain plain
        (λ i. second_attempt)
        0
        sending_client.req_chain_tx
      ≡ ok submissions)
    × (length submissions ≡ length sending_client.req_chain_tx)
    × All WasSent submissions
txns_to_common_chain-total_example =
    txns_to_common_chain-total plain (λ i. second_attempt) 0 sending_client plain-Signs
      sending_client-IsTracked (refl, (refl, tt))

-- The response of the active job.
abbrev a_response : ResponseJob
a_response = record {
  job_id = 260;
  request_chain_id = 5;
  output = 1 ∷ [];
  total_time = 30;
  error_code = 0;
  job_type = job_responded;
  gateway_address = some 7;
  job_mode = once;
}

abbrev one_submission : List (Option Submission)
one_submission =
    some (record {
      transaction = job_response (3 ∷ 28 ∷ []) 260 (1 ∷ []) 30 0 500;
      attempts = 2;
      ended = confirmed_txn;
    })
    ∷ []

response_sent :
    txns_to_request_chain plain (λ i. second_attempt) 0 a_client (a_response ∷ [])
    ≡ ok (one_submission, record a_client { active_jobs = [] })
unfolding txns_to_request_chain request_chain_txn job_response_txn call_job_response response_call
    with_signature sign_job_response_request job_response_tokens sign_digest typed_data
    domain_separator signature_text submit send_attempts after_send contract_name lookup remove
    remove_response_job_from_active_jobs
response_sent = refl

txns_to_request_chain-result_example :
    All (IsVerified plain recovers_40 40) one_submission
    × (lookup 260 []
        ≡ (if answered 260 (a_response ∷ []) then none else lookup 260 a_client.active_jobs))
txns_to_request_chain-result_example =
    txns_to_request_chain-result plain recovers_40 40 260 (λ i. second_attempt) 0 a_client
      (record a_client { active_jobs = [] }) (a_response ∷ []) one_submission plain-Recovers
      response_sent
