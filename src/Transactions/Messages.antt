-- ===== src/Transactions/Messages.antt =====
-- What the two tasks submit for the messages of their channels.
use serverless_gateway.Signing.Recovered.{Recovers}
use serverless_gateway.Model.{
  GatewayJobType, Job, ResponseJob, ContractsClient, job_relay, slash_gateway_job, job_responded,
}
use serverless_gateway.Table.Laws.{lookup-remove}
use serverless_gateway.Table.{lookup}
use serverless_gateway.Prelude.{
  ◌==◌, if◌then◌else◌, All, >>=-eq-ok, ok-injective, ok-pair, ok, ℕ, suc, ◌≡◌, refl, sym, ap, subst,
  ◌∙◌, Bool, true, false, ◌||◌, Option, none, List, [], ◌∷◌,
}
use serverless_gateway.Jobs.{remove_response_job_from_active_jobs}
use serverless_gateway.Signing.{Crypto}
use serverless_gateway.Transactions.{
  Submission, TxnReadings, common_chain_txn, txns_to_common_chain, job_response_txn,
  request_chain_txn, txns_to_request_chain, txn_by_type,
}
use serverless_gateway.Transactions.Verified.{
  IsVerified, relay_job_txn-IsVerified, reassign_gateway_relay_txn-IsVerified,
  job_response_txn-IsVerified,
}

common_chain_txn-IsVerified :
    (k : Crypto) (ecrecover : List ℕ → List ℕ → Option ℕ) (enclave : ℕ) (r : TxnReadings)
    (job : Job) (type : GatewayJobType) (result : Option Submission)
    → Recovers k ecrecover enclave
    → txn_by_type k r job type ≡ ok result
    → IsVerified k ecrecover enclave result
unfolding txn_by_type
common_chain_txn-IsVerified k ecrecover enclave r job job_relay result h e =
    relay_job_txn-IsVerified k ecrecover enclave r job result h e
common_chain_txn-IsVerified k ecrecover enclave r job slash_gateway_job result h e =
    reassign_gateway_relay_txn-IsVerified k ecrecover enclave r job result h e
common_chain_txn-IsVerified k ecrecover enclave r job job_responded result h e =
    subst (IsVerified k ecrecover enclave) (ok-injective e) tt

-- Each transaction that is submitted to the common chain carries a signature that recovers to the
-- enclave's address, over the typed data of the call's own arguments.
pub txns_to_common_chain-IsVerified :
    (k : Crypto) (ecrecover : List ℕ → List ℕ → Option ℕ) (enclave : ℕ) (readings : ℕ → TxnReadings)
    (i : ℕ) (jobs : List Job) (submissions : List (Option Submission))
    → Recovers k ecrecover enclave
    → txns_to_common_chain k readings i jobs ≡ ok submissions
    → All (IsVerified k ecrecover enclave) submissions
unfolding txns_to_common_chain common_chain_txn
txns_to_common_chain-IsVerified k ecrecover enclave readings i [] submissions h e =
    subst (All (IsVerified k ecrecover enclave)) (ok-injective e) tt
txns_to_common_chain-IsVerified k ecrecover enclave readings i (job ∷ jobs) submissions h e =
    let (first, done, continued) = >>=-eq-ok (common_chain_txn k (readings i) job) _ e in
    let (rest, others, whole) =
      >>=-eq-ok (txns_to_common_chain k readings (suc i) jobs) _ continued in
    subst (All (IsVerified k ecrecover enclave)) (ok-injective whole) (
      common_chain_txn-IsVerified k ecrecover enclave (readings i) job job.job_type first h done,
      txns_to_common_chain-IsVerified k ecrecover enclave readings (suc i) jobs rest h others,
    )

-- Whether a response of this job is among the messages.
abbrev pub is_responded : ℕ → ResponseJob → Bool
is_responded id r = elim r.job_type [ job_responded ↦ id == r.job_id | _ ↦ false ]

unfoldable pub answered : ℕ → List ResponseJob → Bool
answered id [] = false
answered id (r ∷ rs) = is_responded id r || answered id rs

gone_either {ℓ} :
    {A : Type ℓ} (a b : Bool) (x y : Option A)
    → x ≡ (if a then none else y)
    → (if b then none else x) ≡ (if a || b then none else y)
gone_either true true x y e = refl
gone_either true false x y e = e
gone_either false true x y e = refl
gone_either false false x y e = e

request_chain_txn-result :
    (k : Crypto) (ecrecover : List ℕ → List ℕ → Option ℕ) (enclave id : ℕ) (r : TxnReadings)
    (c c' : ContractsClient) (j : ResponseJob) (type : GatewayJobType) (result : Option Submission)
    → Recovers k ecrecover enclave
    → j.job_type ≡ type
    → request_chain_txn k r c j ≡ ok (result, c')
    → IsVerified k ecrecover enclave result
      × (lookup id c'.active_jobs ≡ (if is_responded id j then none else lookup id c.active_jobs))
unfolding request_chain_txn remove_response_job_from_active_jobs
request_chain_txn-result k ecrecover enclave id r c c' j job_responded result h type e =
    let (submission, sent, done) =
      >>=-eq-ok (job_response_txn k r c j) _ (rw (type, request_chain_txn) at e) in
    let (same, after) = ok-pair done in
    (
      subst (IsVerified k ecrecover enclave) same
          (job_response_txn-IsVerified k ecrecover enclave r c j submission h sent),
      ap (λ (d : ContractsClient). lookup id d.active_jobs) (sym after)
          ∙ lookup-remove j.job_id id c.active_jobs
          ∙ rw type refl,
    )
request_chain_txn-result k ecrecover enclave id r c c' j job_relay result h type e =
    let (same, after) = ok-pair (rw (type, request_chain_txn) at e) in
    (
      subst (IsVerified k ecrecover enclave) same tt,
      ap (λ (d : ContractsClient). lookup id d.active_jobs) (sym after) ∙ rw type refl,
    )
request_chain_txn-result k ecrecover enclave id r c c' j slash_gateway_job result h type e =
    let (same, after) = ok-pair (rw (type, request_chain_txn) at e) in
    (
      subst (IsVerified k ecrecover enclave) same tt,
      ap (λ (d : ContractsClient). lookup id d.active_jobs) (sym after) ∙ rw type refl,
    )

-- Each transaction that is submitted to a request chain carries a signature that recovers to the
-- enclave's address, over the typed data of the contract's domain and the call's own arguments.
-- Afterwards a job whose response was among the messages is no longer active, however its
-- transaction ended, and every other active job is as before.
pub txns_to_request_chain-result :
    (k : Crypto) (ecrecover : List ℕ → List ℕ → Option ℕ) (enclave id : ℕ)
    (readings : ℕ → TxnReadings) (i : ℕ) (c c' : ContractsClient) (rs : List ResponseJob)
    (submissions : List (Option Submission))
    → Recovers k ecrecover enclave
    → txns_to_request_chain k readings i c rs ≡ ok (submissions, c')
    → All (IsVerified k ecrecover enclave) submissions
      × (lookup id c'.active_jobs ≡ (if answered id rs then none else lookup id c.active_jobs))
unfolding txns_to_request_chain answered
txns_to_request_chain-result k ecrecover enclave id readings i c c' [] submissions h e =
    let (none_sent, same) = ok-pair e in
    (
      subst (All (IsVerified k ecrecover enclave)) none_sent tt,
      ap (λ (d : ContractsClient). lookup id d.active_jobs) (sym same),
    )
txns_to_request_chain-result k ecrecover enclave id readings i c c' (j ∷ rs) submissions h e =
    let ((first, d), done, continued) = >>=-eq-ok (request_chain_txn k (readings i) c j) _ e in
    let ((rest, d'), others, whole) =
      >>=-eq-ok (txns_to_request_chain k readings (suc i) d rs) _ continued in
    let (all, last) = ok-pair whole in
    let (verified, one) =
      request_chain_txn-result k ecrecover enclave id (readings i) c d j j.job_type first h refl
        done in
    let (verified_rest, more) =
      txns_to_request_chain-result k ecrecover enclave id readings (suc i) d d' rs rest h others in
    (
      subst (All (IsVerified k ecrecover enclave)) all (verified, verified_rest),
      ap (λ (x : ContractsClient). lookup id x.active_jobs) (sym last)
          ∙ more
          ∙ gone_either (is_responded id j) (answered id rs) _ _ one,
    )
