-- ===== src/Transactions/Total.antt =====
-- The messages for the common chain are all submitted.
use serverless_gateway.Chain.{Token}
use serverless_gateway.Words.{add8}
use serverless_gateway.Model.{Job, ContractsClient, slash_gateway_job}
use serverless_gateway.Prelude.{
  ◌==◌, length, All, Outcome, ok, ℕ, suc, String, ◌≡◌, refl, ap, ◌∙◌, inl, inr, true, Option, some,
  List, [], ◌∷◌, ◌++◌,
}
use serverless_gateway.Jobs.Tracked.{Sendable, IsTracked}
use serverless_gateway.Signing.{
  Crypto, domain_separator, typed_data, signature_text, sign_digest, sign_relay_job_request,
  sign_reassign_gateway_relay_request, reassign_gateway_tokens,
}
use serverless_gateway.Transactions.{
  Submission, TxnReadings, common_chain_txn, txns_to_common_chain, with_signature, call_relay_job,
  relay_job_txn, call_reassign_gateway_relay, reassign_gateway_relay_txn, submit, relay_job,
  reassign_gateway_relay, txn_by_type,
}

-- A signer that never fails, and whose digits are read back.
pub record Signs (k : Crypto) : Type 0 where
  pub encodes : (tokens : List Token) → (bytes : List ℕ) × (k.encode_packed tokens ≡ some bytes)
  pub signs :
      (digest : List ℕ) → (sig : List ℕ × ℕ) × (k.sign_prehash_recoverable digest ≡ some sig)
  pub reads_back : (b : List ℕ) → k.from_hex (k.hex_encode b) ≡ some b

-- A call is made.
with_signature-calls :
    (k : Crypto) (now : ℕ) (contract : String) (tokens : List Token)
    (next : List ℕ → ℕ → Outcome (Option Submission))
    → Signs k
    → (signature : List ℕ) × (with_signature k
          (sign_digest k now (typed_data k contract tokens))
          next
        ≡ next signature now)
unfolding with_signature sign_digest typed_data signature_text
with_signature-calls k now contract tokens next h =
    let (bytes, encoded) = h.encodes (
      Token.string "\u{19}\u{1}"
      ∷ Token.fixed_bytes (domain_separator k contract)
      ∷ Token.fixed_bytes (k.keccak256 (k.encode tokens))
      ∷ []) in
    let ((rs, v), signed) = h.signs (k.keccak256 bytes) in
    (
      rs ++ add8 27 v ∷ [],
      rw (encoded, sign_digest, signed, h.reads_back (rs ++ add8 27 v ∷ [])) refl,
    )

abbrev pub WasSent : Option Submission → Type 0
WasSent submission = (s : Submission) × (submission ≡ some s)

relay_job_txn-sends :
    (k : Crypto) (r : TxnReadings) (job : Job)
    → Signs k
    → length job.tx_hash ≡ 32
    → (s : Submission) × (relay_job_txn k r job ≡ ok (some s))
unfolding relay_job_txn sign_relay_job_request call_relay_job
relay_job_txn-sends k r job h fits =
    let (signature, called) = with_signature-calls k r.now _ _ (call_relay_job r job) h in
    let whole : (length job.tx_hash == 32) ≡ true = rw fits refl in
    let txn =
      relay_job signature job.job_id job.tx_hash job.code_input job.user_timeout job.starttime
        job.sequence_number job.job_owner job.env r.now in
    let sent : call_relay_job r job signature r.now ≡ ok (some (submit r txn)) = rw whole refl in
    (submit r txn, called ∙ sent)

reassign_gateway_relay_txn-sends :
    (k : Crypto) (r : TxnReadings) (job : Job) (gateway : ℕ)
    → Signs k
    → job.gateway_address ≡ some gateway
    → (s : Submission) × (reassign_gateway_relay_txn k r job ≡ ok (some s))
unfolding reassign_gateway_relay_txn sign_reassign_gateway_relay_request call_reassign_gateway_relay
reassign_gateway_relay_txn-sends k r job gateway h known =
    let (signature, called) =
      with_signature-calls k r.now "marlin.oyster.GatewayJobs"
        (reassign_gateway_tokens k job.job_id gateway job.job_owner job.sequence_number
          job.starttime r.now)
        (call_reassign_gateway_relay r job gateway) h in
    (
      submit r (
          reassign_gateway_relay gateway job.job_id signature job.sequence_number job.starttime
            job.job_owner r.now),
      rw known called,
    )

-- A message that a tracked client sends is submitted.
common_chain_txn-sends :
    (k : Crypto) (r : TxnReadings) (enclave : ℕ) (job : Job)
    → Signs k
    → Sendable enclave job
    → length job.tx_hash ≡ 32
    → (s : Submission) × (common_chain_txn k r job ≡ ok (some s))
unfolding common_chain_txn txn_by_type
common_chain_txn-sends k r enclave job h (inl (relayable, own)) fits =
    let (s, sent) = relay_job_txn-sends k r job h fits in
    (s, ap (txn_by_type k r job) relayable.kind ∙ sent)
common_chain_txn-sends k r enclave job h (inr (j, (relayable, (a, known, other, nonzero)), same))
      fits =
    let gateway : job.gateway_address ≡ some a = ap (λ (x : Job). x.gateway_address) same ∙ known in
    let kind : job.job_type ≡ slash_gateway_job = ap (λ (x : Job). x.job_type) same in
    let (s, sent) = reassign_gateway_relay_txn-sends k r job a h gateway in
    (s, ap (txn_by_type k r job) kind ∙ sent)

txns_to_common_chain-sends :
    (k : Crypto) (readings : ℕ → TxnReadings) (i enclave : ℕ) (jobs : List Job)
    → Signs k
    → All (Sendable enclave) jobs
    → All (λ (j : Job). length j.tx_hash ≡ 32) jobs
    → (submissions : List (Option Submission)) × (txns_to_common_chain k readings i jobs
        ≡ ok submissions)
      × (length submissions ≡ length jobs)
      × All WasSent submissions
unfolding txns_to_common_chain
txns_to_common_chain-sends k readings i enclave [] h all fits = ([], refl, refl, tt)
txns_to_common_chain-sends k readings i enclave (job ∷ jobs) h all fits =
    let (s, sent) = common_chain_txn-sends k (readings i) enclave job h all.0 fits.0 in
    let (rest, others, long, were) =
      txns_to_common_chain-sends k readings (suc i) enclave jobs h all.1 fits.1 in
    (some s ∷ rest, rw (sent, others) refl, ap suc long, ((s, refl), were))

-- The messages that a tracked client has sent for the common chain are submitted, each as one
-- transaction, and none makes the task panic. (The signer does not fail, and the jobs have a code
-- hash of 32 bytes.)
pub txns_to_common_chain-total :
    (k : Crypto) (readings : ℕ → TxnReadings) (i : ℕ) (c : ContractsClient)
    → Signs k
    → IsTracked c
    → All (λ (j : Job). length j.tx_hash ≡ 32) c.req_chain_tx
    → (submissions : List (Option Submission)) × (txns_to_common_chain k readings i c.req_chain_tx
        ≡ ok submissions)
      × (length submissions ≡ length c.req_chain_tx)
      × All WasSent submissions
txns_to_common_chain-total k readings i c h tracked fits =
    txns_to_common_chain-sends k readings i c.enclave_address c.req_chain_tx h tracked.sent fits
