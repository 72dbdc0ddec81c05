-- ===== src/Transactions/Verified.antt =====
-- A submitted transaction carries the enclave's signature over its own arguments.
use serverless_gateway.Table.{lookup}
use serverless_gateway.Model.{JobMode, Job, ResponseJob, ContractsClient, once, subscription}
use serverless_gateway.Prelude.{
  ◌==◌, Bool-cases, Option-cases, length, Outcome, unwrap, >>=-eq-ok, ok-injective, ok, ℕ, ◌≡◌,
  refl, sym, subst, ◌⊎◌, inl, inr, Option, none, some, List,
}
use serverless_gateway.Signing.{
  Crypto, typed_data, sign_digest, relay_job_tokens, reassign_gateway_tokens, job_response_tokens,
  sign_relay_job_request, sign_reassign_gateway_relay_request, contract_name,
  sign_job_response_request,
}
use serverless_gateway.Signing.Recovered.{Recovers, IsSignedBy, sign_digest-IsSignedBy}
use serverless_gateway.Transactions.{
  Transaction, Submission, relay_job, reassign_gateway_relay, job_response, job_subs_response,
  with_signature, TxnReadings, submit, relay_job_txn, reassign_gateway_relay_txn, response_call,
  job_response_txn, call_relay_job, call_reassign_gateway_relay, call_job_response,
}

-- The typed data that a contract puts together from the arguments of a call, with the signature
-- among them.
unfoldable pub claimed : Crypto → Transaction → Option (List ℕ) × List ℕ
claimed k
      (relay_job signature job_id tx_hash code_input user_timeout starttime sequence_number
        job_owner env sign_timestamp) =
    (
      typed_data k "marlin.oyster.GatewayJobs" (
          relay_job_tokens k job_id tx_hash code_input user_timeout starttime sequence_number
            job_owner env sign_timestamp),
      signature,
    )
claimed k
      (reassign_gateway_relay gateway job_id signature sequence_number starttime job_owner
        sign_timestamp) =
    (
      typed_data k "marlin.oyster.GatewayJobs" (
          reassign_gateway_tokens k job_id gateway job_owner sequence_number starttime
            sign_timestamp),
      signature,
    )
claimed k (job_response signature job_id output total_time error_code sign_timestamp) = (
  typed_data k "marlin.oyster.Relay"
      (job_response_tokens k job_id output total_time error_code sign_timestamp),
  signature,
)
claimed k (job_subs_response signature job_id output total_time error_code sign_timestamp) = (
  typed_data k "marlin.oyster.RelaySubscriptions"
      (job_response_tokens k job_id output total_time error_code sign_timestamp),
  signature,
)

-- Nothing submitted, or a transaction that is signed.
abbrev pub IsVerified : Crypto → (List ℕ → List ℕ → Option ℕ) → ℕ → Option Submission → Type 0
IsVerified k ecrecover enclave none = Unit
IsVerified k ecrecover enclave (some s) = IsSignedBy k ecrecover enclave (claimed k s.transaction)

module _ (k : Crypto) (ecrecover : List ℕ → List ℕ → Option ℕ) (enclave : ℕ) where
  -- Behind the signature and the early return.
  with_signature-IsSignedBy :
      (now : ℕ) (claim : Option (List ℕ)) (next : List ℕ → ℕ → Outcome (Option Submission))
      (result : Option Submission)
      → Recovers k ecrecover enclave
      → with_signature k (sign_digest k now claim) next ≡ ok result
      → (result ≡ none)
        ⊎ ((signature : List ℕ) × IsSignedBy k ecrecover enclave (claim, signature)
            × (next signature now ≡ ok result))
  unfolding with_signature
  with_signature-IsSignedBy now claim next result h e =
      elim (Option-cases (sign_digest k now claim)) [
        | inl failed ↦ let nothing = rw (failed, with_signature) at e in cc
        | inr (signed, made) ↦
            let read_next = rw (made, with_signature) at e in
            elim (Option-cases (k.from_hex signed.0)) [
              | inl unread ↦
                  let done = rw (unread, with_signature) at read_next in
                  inl (sym (ok-injective done))
              | inr (signature, read) ↦
                  let done = rw (read, with_signature) at read_next in
                  let (by_enclave, time) =
                    sign_digest-IsSignedBy k ecrecover enclave now claim signed signature h made
                      read in
                  inr (signature, by_enclave, rw time at done)
            ]
      ]

  -- The result of a call.
  Result-IsVerified :
      (result : Option Submission) (s : Submission)
      → IsSignedBy k ecrecover enclave (claimed k s.transaction)
      → ◌≡◌ {A = Outcome (Option Submission)} (ok (some s)) (ok result)
      → IsVerified k ecrecover enclave result
  Result-IsVerified result s signed done =
      subst (IsVerified k ecrecover enclave) (ok-injective done) signed

  pub relay_job_txn-IsVerified :
      (r : TxnReadings) (job : Job) (result : Option Submission)
      → Recovers k ecrecover enclave
      → relay_job_txn k r job ≡ ok result
      → IsVerified k ecrecover enclave result
  unfolding relay_job_txn sign_relay_job_request call_relay_job submit claimed
  relay_job_txn-IsVerified r job result h e =
      elim (with_signature-IsSignedBy r.now _ (call_relay_job r job) result h e) [
        | inl nothing ↦ rw nothing tt
        | inr (signature, signed, sent) ↦ elim (Bool-cases (length job.tx_hash == 32)) [
          | inl fits ↦ Result-IsVerified result _ signed (rw (fits, call_relay_job) at sent)
          | inr long ↦ let nothing = rw (long, call_relay_job) at sent in cc
        ]
      ]

  pub reassign_gateway_relay_txn-IsVerified :
      (r : TxnReadings) (job : Job) (result : Option Submission)
      → Recovers k ecrecover enclave
      → reassign_gateway_relay_txn k r job ≡ ok result
      → IsVerified k ecrecover enclave result
  unfolding reassign_gateway_relay_txn sign_reassign_gateway_relay_request
      call_reassign_gateway_relay submit claimed
  reassign_gateway_relay_txn-IsVerified r job result h e =
      let (gateway, known, continued) = >>=-eq-ok (unwrap job.gateway_address) _ e in
      elim (with_signature-IsSignedBy r.now _ (call_reassign_gateway_relay r job gateway) result h
        continued) [
          | inl nothing ↦ rw nothing tt
          | inr (signature, signed, done) ↦ Result-IsVerified result _ signed done
        ]

  -- The contract, and the domain that is signed, are those of the job's mode.
  response_call-IsVerified :
      (r : TxnReadings) (j : ResponseJob) (signature : List ℕ) (time : ℕ) (mode : JobMode)
      → j.job_mode ≡ mode
      → IsSignedBy k ecrecover enclave (
        typed_data k
            (contract_name j.job_mode)
            (job_response_tokens k j.job_id j.output j.total_time j.error_code time),
        signature,
      )
      → IsVerified k ecrecover enclave (some (submit r (response_call j signature time)))
  unfolding response_call submit claimed contract_name
  response_call-IsVerified r j signature time once e signed = rw e (rw e at signed)
  response_call-IsVerified r j signature time subscription e signed = rw e (rw e at signed)

  pub job_response_txn-IsVerified :
      (r : TxnReadings) (c : ContractsClient) (j : ResponseJob) (result : Option Submission)
      → Recovers k ecrecover enclave
      → job_response_txn k r c j ≡ ok result
      → IsVerified k ecrecover enclave result
  unfolding job_response_txn sign_job_response_request call_job_response
  job_response_txn-IsVerified r c j result h e =
      let (client, known, continued) =
        >>=-eq-ok (unwrap (lookup j.request_chain_id c.request_chain_ids)) _ e in
      elim (with_signature-IsSignedBy r.now _ (call_job_response r j) result h continued) [
        | inl nothing ↦ rw nothing tt
        | inr (signature, signed, done) ↦
            subst (IsVerified k ecrecover enclave) (ok-injective done)
              (response_call-IsVerified r j signature r.now j.job_mode refl signed)
      ]
