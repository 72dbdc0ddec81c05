-- ===== src/Jobs/Handlers.antt =====
-- Every handler keeps the jobs tracked.
use serverless_gateway.Model.{Job, ContractsClient, ResponseJob, slash_gateway_job}
use serverless_gateway.Chain.{Log, Abi}
use serverless_gateway.Table.Laws.{lookup-All, insert-All, remove-All}
use serverless_gateway.Table.{Table, lookup, remove}
use serverless_gateway.Words.{as_u64}
use serverless_gateway.Prelude.{
  ◌==◌, Bool-cases, Option-cases, All, All-append, Outcome, >>=-eq-ok, ok-injective, ok, err,
  panicked, ℕ, ◌≡◌, refl, inl, inr, some, List, [], ◌∷◌, ◌++◌,
}
use serverless_gateway.Selection.{StdRng, add_to_waitlist}
use serverless_gateway.Selection.Cases.{Selected, select_gateway_for_job_id-Selected}
use serverless_gateway.Jobs.{
  relay_selected, job_relayed_handler, cancel_job_with_job_id, job_relayed_slash_timer, find_relay,
  remove_job, job_responded_handler, remove_response_job_from_active_jobs,
}
use serverless_gateway.Jobs.Tracked.{Relayable, Other, IsTracked, assign-IsTracked, Sendable}

add_to_waitlist-All :
    (cycle : ℕ) (j : Job) (w : Table (List Job))
    → Relayable j
    → All (λ e. All Relayable e.1) w
    → All (λ e. All Relayable e.1) (add_to_waitlist cycle j w)
unfolding add_to_waitlist
add_to_waitlist-All cycle j w r h = elim (Option-cases (lookup cycle w)) [
  | inl fresh ↦ rw (fresh, add_to_waitlist) (insert-All _ cycle (j ∷ []) w (r, tt) h)
  | inr (jobs, found) ↦
      rw (found, add_to_waitlist)
        (insert-All _ cycle (jobs ++ j ∷ []) w
          (All-append Relayable jobs (j ∷ []) (lookup-All _ cycle jobs w h found) (r, tt)) h)
]

Selected-IsTracked :
    (c c' : ContractsClient) (j : Job) (cycle a : ℕ)
    → IsTracked c
    → Relayable j
    → Selected c j cycle a c'
    → IsTracked c'
Selected-IsTracked c c' j cycle a t r (inl (_, _, e)) = rw e (record {
  active = t.active;
  current = t.current;
  waiting = add_to_waitlist-All cycle j c.gateway_epoch_state_waitlist r t.waiting;
  sent = t.sent;
  tasks = t.tasks;
})
Selected-IsTracked c c' j cycle a t r (inr (_, _, _, e)) = rw e t

relay_selected-IsTracked :
    (c c' : ContractsClient) (j : Job) (m : Outcome (ℕ × ContractsClient))
    → IsTracked c
    → Relayable j
    → ((a : ℕ) (d : ContractsClient) → m ≡ ok (a, d) → IsTracked d)
    → relay_selected c j m ≡ ok c'
    → IsTracked c'
unfolding relay_selected
relay_selected-IsTracked c c' j (ok (a, d)) t r keep e = rw (ok-injective e) at (
    assign-IsTracked d (record j { gateway_address = some a }) a (keep a d refl)
      (record { lower = r.lower; upper = r.upper; kind = r.kind }) refl)
relay_selected-IsTracked c c' j (err x) t r keep e = rw (ok-injective e) at t
relay_selected-IsTracked c c' j panicked t r keep e = cc

-- The relay handler keeps the jobs tracked, on every path.
pub job_relayed_handler-IsTracked :
    (rng : StdRng) (c c' : ContractsClient) (now : ℕ) (j : Job)
    → IsTracked c
    → Relayable j
    → job_relayed_handler rng c now j ≡ ok c'
    → IsTracked c'
unfolding job_relayed_handler
job_relayed_handler-IsTracked rng c c' now j t r e =
    let (seed, _, e₁) = >>=-eq-ok (as_u64 j.starttime) _ e in
    relay_selected-IsTracked c c' j _ t r
      (λ a d selected.
        let (cycle, _, s) =
          select_gateway_for_job_id-Selected rng c now j seed j.sequence_number a d selected in
        Selected-IsTracked c d j cycle a t r s)
      e₁

report_slash-IsTracked :
    (c : ContractsClient) (j : Job)
    → IsTracked c
    → Other c.enclave_address j
    → IsTracked (record c {
      req_chain_tx = c.req_chain_tx ++ record j { job_type = slash_gateway_job } ∷ [];
    })
report_slash-IsTracked c j t o = record {
  active = t.active;
  current = t.current;
  waiting = t.waiting;
  sent = All-append (Sendable c.enclave_address) c.req_chain_tx _ t.sent (inr (j, o, refl), tt);
  tasks = t.tasks;
}

without_active :
    (c : ContractsClient) (id : ℕ)
    → IsTracked c
    → IsTracked (record c { active_jobs = remove id c.active_jobs })
without_active c id t = record {
  active = remove-All _ id c.active_jobs t.active;
  current = t.current;
  waiting = t.waiting;
  sent = t.sent;
  tasks = t.tasks;
}

without_current :
    (c : ContractsClient) (id : ℕ)
    → IsTracked c
    → IsTracked (record c { current_jobs = remove id c.current_jobs })
without_current c id t = record {
  active = t.active;
  current = remove-All _ id c.current_jobs t.current;
  waiting = t.waiting;
  sent = t.sent;
  tasks = t.tasks;
}

pub cancel_job_with_job_id-IsTracked :
    (c : ContractsClient) (id : ℕ) → IsTracked c → IsTracked (cancel_job_with_job_id c id)
unfolding cancel_job_with_job_id
cancel_job_with_job_id-IsTracked c id t = elim (Option-cases (lookup id c.active_jobs)) [
  | inl inactive ↦ rw (inactive, cancel_job_with_job_id) (without_current c id t)
  | inr (j, found) ↦ rw (found, cancel_job_with_job_id) (without_active c id t)
]

-- The timer of another gateway's job forgets it, or reports its gateway.
pub job_relayed_slash_timer-IsTracked :
    (abi : Abi) (c c' : ContractsClient) (j : Job) (logs : List Log)
    → IsTracked c
    → Other c.enclave_address j
    → job_relayed_slash_timer abi c j logs ≡ ok c'
    → IsTracked c'
unfolding job_relayed_slash_timer
job_relayed_slash_timer-IsTracked abi c c' j logs t o e =
    let (relayed, _, e₁) = >>=-eq-ok (find_relay abi j logs) _ e in
    elim (Bool-cases relayed) [
      | inl done ↦ rw (ok-injective (rw done at e₁)) at (without_current c j.job_id t)
      | inr missing ↦ rw (ok-injective (rw missing at e₁)) at (report_slash-IsTracked c j t o)
    ]

remove_job-IsTracked : (c : ContractsClient) (j : Job) → IsTracked c → IsTracked (remove_job c j)
unfolding remove_job
remove_job-IsTracked c j t = elim (Option-cases (lookup j.job_id c.active_jobs)) [
  | inl gone ↦ rw (gone, remove_job) t
  | inr (k, found) ↦ elim (Bool-cases (k.sequence_number == j.sequence_number)) [
    | inl same ↦ rw (found, remove_job, same) (without_active c j.job_id t)
    | inr other ↦ rw (found, remove_job, other) t
  ]
]

pub job_responded_handler-IsTracked :
    (c : ContractsClient) (r : ResponseJob) → IsTracked c → IsTracked (job_responded_handler c r)
unfolding job_responded_handler
job_responded_handler-IsTracked c r t = elim (Option-cases (lookup r.job_id c.active_jobs)) [
  | inl unknown ↦ rw (unknown, job_responded_handler) t
  | inr (j, found) ↦
      let left : IsTracked (remove_job c j) = remove_job-IsTracked c j t in
      rw (found, job_responded_handler)
        (record {
          active = left.active;
          current = left.current;
          waiting = left.waiting;
          sent = left.sent;
          tasks = left.tasks;
        })
]

pub remove_response_job_from_active_jobs-IsTracked :
    (c : ContractsClient) (id : ℕ)
    → IsTracked c
    → IsTracked (remove_response_job_from_active_jobs c id)
unfolding remove_response_job_from_active_jobs
remove_response_job_from_active_jobs-IsTracked c id t = without_active c id t
