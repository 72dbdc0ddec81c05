-- ===== src/Jobs/Tracked.antt =====
-- What the client knows of its jobs: an active job was given to this gateway, a current one to
-- another, and only such jobs are relayed, watched and reported.
use serverless_gateway.Model.{
  Job, Task, ContractsClient, job_relay, slash_gateway_job, slash_timer, relay_handler,
  relay_handlers, trigger,
}
use serverless_gateway.Constants.{max_gateway_retries}
use serverless_gateway.Table.Laws.{insert-All}
use serverless_gateway.Prelude.{
  ◌==◌, ==→eq, ==→ne, Bool-cases, All, All-append, ℕ, ◌≤◌, ◌≡◌, refl, ap, ◌∙◌, ◌≢◌, ◌⊎◌, inl, inr,
  some,
}
use serverless_gateway.Jobs.{assign}

-- A job on its first or second try.
pub record Relayable (j : Job) : Type 0 where
  pub lower : 1 ≤ j.sequence_number
  pub upper : j.sequence_number ≤ max_gateway_retries
  pub kind : j.job_type ≡ job_relay

abbrev pub Own : ℕ → Job → Type 0
Own enclave j = Relayable j × (j.gateway_address ≡ some enclave)

abbrev pub Other : ℕ → Job → Type 0
Other enclave j = Relayable j × ((a : ℕ) × (j.gateway_address ≡ some a) × (a ≢ enclave) × (a ≢ 0))

-- A message for the common chain: relay a job of this gateway, or report another gateway's.
abbrev pub Sendable : ℕ → Job → Type 0
Sendable enclave j =
    Own enclave j ⊎ ((k : Job) × Other enclave k × (j ≡ record k { job_type = slash_gateway_job }))

abbrev pub Due : ℕ → Task → Type 0
Due enclave (slash_timer j) = Other enclave j
Due enclave (relay_handler j) = Relayable j
Due enclave (relay_handlers js) = All Relayable js
Due enclave (trigger s t) = Unit

pub record IsTracked (c : ContractsClient) : Type 0 where
  pub active : All (λ e. (e.1.job_id ≡ e.0) × Own c.enclave_address e.1) c.active_jobs
  pub current : All (λ e. (e.1.job_id ≡ e.0) × Other c.enclave_address e.1) c.current_jobs
  pub waiting : All (λ e. All Relayable e.1) c.gateway_epoch_state_waitlist
  pub sent : All (Sendable c.enclave_address) c.req_chain_tx
  pub tasks : All (Due c.enclave_address) c.spawned

-- The selected gateway decides which of the two the job becomes.
pub assign-IsTracked :
    (c : ContractsClient) (j : Job) (a : ℕ)
    → IsTracked c
    → Relayable j
    → j.gateway_address ≡ some a
    → IsTracked (assign c j a)
unfolding assign
assign-IsTracked c j a t r e = elim (Bool-cases (a == 0)) [
  | inl nobody ↦ rw nobody t
  | inr somebody ↦ elim (Bool-cases (a == c.enclave_address)) [
    | inl own ↦
        let mine : Own c.enclave_address j = (r, e ∙ ap some (==→eq _ _ own)) in
        rw (somebody, own)
          (record {
            active = insert-All _ j.job_id j c.active_jobs (refl, mine) t.active;
            current = t.current;
            waiting = t.waiting;
            sent = All-append (Sendable c.enclave_address) c.req_chain_tx _ t.sent (inl mine, tt);
            tasks = t.tasks;
          })
    | inr foreign ↦
        let theirs : Other c.enclave_address j =
          (r, (a, e, ==→ne _ _ foreign, ==→ne _ _ somebody)) in
        rw (somebody, foreign)
          (record {
            active = t.active;
            current = insert-All _ j.job_id j c.current_jobs (refl, theirs) t.current;
            waiting = t.waiting;
            sent = t.sent;
            tasks = All-append (Due c.enclave_address) c.spawned _ t.tasks (theirs, tt);
          })
  ]
]
