-- ===== src/System/Invariant.antt =====
-- The tracking of jobs is an invariant of every run of the program.
use serverless_gateway.System.Dispatch.{
  historic-IsTracked, dispatch_request_chain-IsTracked, common_chain-IsTracked, callback-IsTracked,
}
use serverless_gateway.Subscription.Start.{spawn_trigger}
use serverless_gateway.Subscription.Manager.Cases.{without_head}
use serverless_gateway.Subscription.Tracked.{
  spawn_trigger-IsTracked, add_next_trigger_time_to_heap-IsTracked,
}
use serverless_gateway.System.Tracked.{
  subscription_job_to_relay_job-Relayable, retasked-IsTracked, recycled-IsTracked,
}
use serverless_gateway.Jobs.Handlers.{
  job_relayed_handler-IsTracked, job_relayed_slash_timer-IsTracked,
  remove_response_job_from_active_jobs-IsTracked,
}
use serverless_gateway.Subscription.{
  trigger_subscription_job, subscription_job_to_relay_job, add_next_trigger_time_to_heap,
}
use serverless_gateway.Subscription.Manager.{continues, job_subscription_manager, trigger_popped}
use serverless_gateway.Jobs.Tracked.{Due}
use serverless_gateway.System.{
  Reach, start, next, task, manager, cycle_generated, cycles_pruned, waitlist_called_back,
  response_sent, historic_logs, common_chain_event, request_chain_event,
  handle_single_request_chain_events, run_task, Step,
}
use serverless_gateway.Prelude.{
  Bool-cases, Option-cases, All, All-append, All-middle, >>=-eq-ok, ok-injective, ok, ℕ, ◌≡◌, refl,
  ◌⊎◌, inl, inr, false, List, [], ◌∷◌, ◌++◌,
}
use serverless_gateway.Model.{
  ContractsClient, Task, slash_timer, relay_handler, relay_handlers, trigger,
  SubscriptionJobInstanceHeap,
}
use serverless_gateway.Chain.{Log, Abi, is_removed}
use serverless_gateway.Table.{lookup}
use serverless_gateway.Prelude.{
  Bool-cases, Option-cases, All, All-append, All-middle, >>=-eq-ok, ok-injective, ok, ℕ, ◌≡◌, refl,
  ◌⊎◌, inl, inr, false, List, [], ◌∷◌, ◌++◌,
}
use serverless_gateway.System.{handle_single_request_chain_events, run_task, Step}
use serverless_gateway.Jobs.Tracked.{IsTracked, Due}
use serverless_gateway.Jobs.{job_relayed_handler}
use serverless_gateway.Selection.{StdRng}

spawned-IsTracked :
    (c : ContractsClient) (due_task : Task)
    → IsTracked c
    → Due c.enclave_address due_task
    → IsTracked (record c { spawned = c.spawned ++ due_task ∷ [] })
spawned-IsTracked c due_task t due = record {
  active = t.active;
  current = t.current;
  waiting = t.waiting;
  sent = t.sent;
  tasks = All-append (Due c.enclave_address) c.spawned (due_task ∷ []) t.tasks (due, tt);
}

run_task-IsTracked :
    (rng : StdRng) (abi : Abi) (c c' : ContractsClient) (now : ℕ) (logs : List Log) (task : Task)
    → IsTracked c
    → Due c.enclave_address task
    → run_task rng abi c now logs task ≡ ok c'
    → IsTracked c'
unfolding run_task trigger_subscription_job
run_task-IsTracked rng abi c c' now logs (slash_timer j) t due e =
    job_relayed_slash_timer-IsTracked abi c c' j logs t due e
run_task-IsTracked rng abi c c' now logs (relay_handler j) t due e =
    job_relayed_handler-IsTracked rng c c' now j t due e
run_task-IsTracked rng abi c c' now logs (relay_handlers []) t due e = rw (ok-injective e) at t
run_task-IsTracked rng abi c c' now logs (relay_handlers (j ∷ js)) t due e =
    let (d, done, e₁) = >>=-eq-ok (job_relayed_handler rng c now j) _ e in
    rw (ok-injective e₁) at (
      spawned-IsTracked d (relay_handlers js)
        (job_relayed_handler-IsTracked rng c d now j t due.0 done) due.1)
run_task-IsTracked rng abi c c' now logs (trigger s time) t due e =
    let (j, made, e₁) = >>=-eq-ok (subscription_job_to_relay_job s time) _ e in
    job_relayed_handler-IsTracked rng c c' now j t
      (subscription_job_to_relay_job-Relayable s time j made) e₁

heap_cases :
    (heap : List SubscriptionJobInstanceHeap)
    → (heap ≡ [])
      ⊎ ((x : SubscriptionJobInstanceHeap) × (rest : List SubscriptionJobInstanceHeap) × (heap
            ≡ x ∷ rest))
heap_cases [] = inl refl
heap_cases (x ∷ heap) = inr (x, heap, refl)

continues-injective : {c d : ContractsClient} → continues c ≡ continues d → c ≡ d
continues-injective e = cc

without_head-IsTracked :
    (c : ContractsClient) (heap : List SubscriptionJobInstanceHeap)
    → IsTracked c
    → IsTracked (without_head c heap)
without_head-IsTracked c heap t = record {
  active = t.active;
  current = t.current;
  waiting = t.waiting;
  sent = t.sent;
  tasks = t.tasks;
}

trigger_popped-IsTracked :
    (c c' : ContractsClient) (now : ℕ) (popped : SubscriptionJobInstanceHeap)
    → IsTracked c
    → trigger_popped c now popped ≡ ok (continues c')
    → IsTracked c'
unfolding trigger_popped
trigger_popped-IsTracked c c' now popped t e =
    elim (Option-cases (lookup popped.subscription_id c.subscription_jobs)) [
      | inl unknown ↦ cc (rw (unknown, trigger_popped) at e)
      | inr (s, known) ↦
          let triggered : ContractsClient = spawn_trigger c s popped.next_trigger_time in
          let (d, scheduled, e₁) =
            >>=-eq-ok
              (add_next_trigger_time_to_heap triggered now popped.subscription_id
                popped.next_trigger_time false)
              _ (rw (known, trigger_popped) at e) in
          rw (continues-injective (ok-injective e₁)) at (
            add_next_trigger_time_to_heap-IsTracked triggered d now popped.subscription_id
              popped.next_trigger_time false
              (spawn_trigger-IsTracked c s popped.next_trigger_time t) scheduled)
    ]

manager-IsTracked :
    (c c' : ContractsClient) (now : ℕ)
    → IsTracked c
    → job_subscription_manager c now ≡ ok (continues c')
    → IsTracked c'
unfolding job_subscription_manager
manager-IsTracked c c' now t e = elim (heap_cases c.subscription_job_instance_heap) [
  | inl idle ↦
      rw (continues-injective (ok-injective (rw (idle, job_subscription_manager) at e))) at t
  | inr (popped, heap, some_due) ↦
      trigger_popped-IsTracked (without_head c heap) c' now popped (without_head-IsTracked c heap t)
        (rw (some_due, job_subscription_manager) at e)
]

Step-IsTracked :
    (rng : StdRng) (abi : Abi) (c c' : ContractsClient)
    → IsTracked c
    → Step rng abi c c'
    → IsTracked c'
unfolding handle_single_request_chain_events
Step-IsTracked rng abi c c' t (request_chain_event chain now r log e) =
    elim (Bool-cases (is_removed log)) [
      | inl removed ↦ rw (ok-injective (rw removed at e)) at t
      | inr kept ↦ dispatch_request_chain-IsTracked rng abi c c' chain now r log t (rw kept at e)
    ]
Step-IsTracked rng abi c c' t (common_chain_event log e) = common_chain-IsTracked abi c c' log t e
Step-IsTracked rng abi c c' t (historic_logs chain logs e) =
    historic-IsTracked abi c c' chain logs t e
Step-IsTracked rng abi c c' t (response_sent id) =
    remove_response_job_from_active_jobs-IsTracked c id t
Step-IsTracked rng abi c c' t (task before after x now logs spawned e) =
    let all : All (Due c.enclave_address) (before ++ x ∷ after) = rw spawned at t.tasks in
    let (due, others) = All-middle (Due c.enclave_address) before x after all in
    run_task-IsTracked rng abi (record c { spawned = before ++ after }) c' now logs x
      (retasked-IsTracked c (before ++ after) t others) due e
Step-IsTracked rng abi c c' t (manager now e) = manager-IsTracked c c' now t e
Step-IsTracked rng abi c c' t (cycle_generated p cycle state e) = recycled-IsTracked c state t
Step-IsTracked rng abi c c' t (waitlist_called_back cycle) = callback-IsTracked c cycle t
Step-IsTracked rng abi c c' t (cycles_pruned now state e) = recycled-IsTracked c state t

-- In every run, from a client whose jobs are tracked: an active job is one of this gateway on its
-- first or second try, and filed under its id; a current job is another gateway's; a job waits or
-- is to be relayed only on such a try; and what is sent to the common chain relays a job of this
-- gateway, or reports the gateway of another job.
pub Reach-IsTracked :
    (rng : StdRng) (abi : Abi) (c c' : ContractsClient)
    → IsTracked c
    → Reach rng abi c c'
    → IsTracked c'
Reach-IsTracked rng abi c c' t start = t
Reach-IsTracked rng abi c c' t (next {d} run step) =
    Step-IsTracked rng abi d c' (Reach-IsTracked rng abi c d t run) step
