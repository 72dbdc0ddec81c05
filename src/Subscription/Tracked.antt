-- ===== src/Subscription/Tracked.antt =====
-- Subscriptions only add triggers to the tasks, and leave the jobs of the client alone.
use serverless_gateway.Model.{
  SubscriptionJob, SubscriptionJobInstanceHeap, ContractsClient, trigger,
}
use serverless_gateway.Chain.{Log, Abi, topic}
use serverless_gateway.Table.{Table, lookup, insert, remove, modify}
use serverless_gateway.Words.{add64, sub64, as_u64}
use serverless_gateway.Prelude.{
  ltb, if◌then◌else◌, Bool-cases, Option-cases, All-append, Outcome, >>=-eq-ok, ok-injective,
  ok-pair, ok, ℕ, ◌≡◌, inl, inr, Bool, ◌&&◌, List, [], ◌∷◌,
}
use serverless_gateway.Subscription.{
  add_next_trigger_time, push, get_minimum_timestamp_for_job, historic_trigger_time, push_trigger,
  add_next_trigger_time_to_heap,
}
use serverless_gateway.Subscription.Start.{
  Readings, subscription_started_types, subscription_of_tokens, spawn_trigger, schedule_start,
  start_subscription, is_complete, add_subscription, add_subscription_job,
}
use serverless_gateway.Subscription.Start.Cases.{Stored}
use serverless_gateway.Subscription.Update.{
  update_subscription_job_params, job_params_types, termination_params_types, update_subscription,
  update_subscription_job_termination_params,
}
use serverless_gateway.Jobs.Tracked.{IsTracked, Due}

rescheduled-IsTracked :
    (c : ContractsClient) (subscriptions : Table SubscriptionJob)
    (heap : List SubscriptionJobInstanceHeap)
    → IsTracked c
    → IsTracked
        (record c { subscription_jobs = subscriptions; subscription_job_instance_heap = heap })
rescheduled-IsTracked c subscriptions heap t = record {
  active = t.active;
  current = t.current;
  waiting = t.waiting;
  sent = t.sent;
  tasks = t.tasks;
}

pub spawn_trigger-IsTracked :
    (c : ContractsClient) (s : SubscriptionJob) (time : ℕ)
    → IsTracked c
    → IsTracked (spawn_trigger c s time)
unfolding spawn_trigger
spawn_trigger-IsTracked c s time t = record {
  active = t.active;
  current = t.current;
  waiting = t.waiting;
  sent = t.sent;
  tasks = All-append (Due c.enclave_address) c.spawned (trigger s time ∷ []) t.tasks (tt, tt);
}

add_next_trigger_time-IsTracked :
    (c c' : ContractsClient) (now id previous : ℕ) (historic : Bool) (s : SubscriptionJob)
    → IsTracked c
    → add_next_trigger_time c now id previous historic s ≡ ok c'
    → IsTracked c'
unfolding add_next_trigger_time push_trigger
add_next_trigger_time-IsTracked c c' now id previous historic s tracked e =
    let (interval, _, e₁) = >>=-eq-ok (as_u64 s.interval) _ e in
    let (termination, _, e₂) = >>=-eq-ok (as_u64 s.termination_time) _ e₁ in
    elim (Bool-cases (ltb termination (add64 previous interval))) [
      | inl ended ↦ rw (ok-injective (rw ended at e₂)) at (
          rescheduled-IsTracked c (remove id c.subscription_jobs) c.subscription_job_instance_heap
            tracked)
      | inr live ↦
          let (t, _, e₃) =
            >>=-eq-ok
              (if historic
                then historic_trigger_time c now s (add64 previous interval)
                else ok (add64 previous interval))
              _ (rw live at e₂) in
          rw (ok-injective e₃) at (
            rescheduled-IsTracked c c.subscription_jobs
              (push (record { subscription_id = s.subscription_id; next_trigger_time = t })
                c.subscription_job_instance_heap)
              tracked)
    ]

pub add_next_trigger_time_to_heap-IsTracked :
    (c c' : ContractsClient) (now id previous : ℕ) (historic : Bool)
    → IsTracked c
    → add_next_trigger_time_to_heap c now id previous historic ≡ ok c'
    → IsTracked c'
unfolding add_next_trigger_time_to_heap
add_next_trigger_time_to_heap-IsTracked c c' now id previous historic t e =
    elim (Option-cases (lookup id c.subscription_jobs)) [
      | inl unknown ↦ rw (ok-injective (rw (unknown, add_next_trigger_time_to_heap) at e)) at t
      | inr (s, known) ↦
          add_next_trigger_time-IsTracked c c' now id previous historic s t
            (rw (known, add_next_trigger_time_to_heap) at e)
    ]

start_subscription-IsTracked :
    (c c' : ContractsClient) (s : SubscriptionJob) (historic : Bool) (r : Readings)
    → IsTracked c
    → start_subscription c s historic r ≡ ok c'
    → IsTracked c'
unfolding start_subscription schedule_start
start_subscription-IsTracked c c' s historic r t e =
    let (start, _, e₁) = >>=-eq-ok (as_u64 s.starttime) _ e in
    let stored : IsTracked (Stored c s) =
      rescheduled-IsTracked c (insert s.subscription_id s c.subscription_jobs)
        c.subscription_job_instance_heap t in
    elim (Bool-cases (ltb r.current start)) [
      | inl future ↦
          let (interval, _, e₂) = >>=-eq-ok (as_u64 s.interval) _ (rw future at e₁) in
          add_next_trigger_time_to_heap-IsTracked (Stored c s) c' r.next s.subscription_id
            (sub64 start interval) historic stored e₂
      | inr present ↦
          elim (Bool-cases
            (historic && ltb start (get_minimum_timestamp_for_job (Stored c s) r.minimum))) [
              | inl old ↦
                  add_next_trigger_time_to_heap-IsTracked (Stored c s) c' r.next s.subscription_id
                    start historic stored (rw (present, old) at e₁)
              | inr recent ↦
                  add_next_trigger_time_to_heap-IsTracked (spawn_trigger (Stored c s) s start) c'
                    r.next s.subscription_id start historic
                    (spawn_trigger-IsTracked (Stored c s) s start stored)
                    (rw (present, recent) at e₁)
            ]
    ]

add_subscription-IsTracked :
    (c c' : ContractsClient) (s : SubscriptionJob) (historic : Bool) (r : Readings) (id : ℕ)
    → IsTracked c
    → add_subscription c s historic r ≡ ok (id, c')
    → IsTracked c'
unfolding add_subscription
add_subscription-IsTracked c c' s historic r id t e =
    let (complete, _, e₁) = >>=-eq-ok (is_complete s historic r) _ e in
    elim (Bool-cases complete) [
      | inl over ↦ rw (ok-pair (rw over at e₁)).1 at t
      | inr live ↦
          let (d, started, e₂) = >>=-eq-ok (start_subscription c s historic r) _ (rw live at e₁) in
          rw (ok-pair e₂).1 at (start_subscription-IsTracked c d s historic r t started)
    ]

pub add_subscription_job-IsTracked :
    (abi : Abi) (c c' : ContractsClient) (log : Log) (chain : ℕ) (historic : Bool) (r : Readings)
    (id : ℕ)
    → IsTracked c
    → add_subscription_job abi c log chain historic r ≡ ok (id, c')
    → IsTracked c'
unfolding add_subscription_job
add_subscription_job-IsTracked abi c c' log chain historic r id t e =
    elim (Option-cases (abi.decode subscription_started_types log.payload)) [
      | inl garbled ↦ cc (rw (garbled, add_subscription_job) at e)
      | inr (decoded, parsed) ↦
          let (s, _, e₁) =
            >>=-eq-ok (subscription_of_tokens log chain decoded) _
              (rw (parsed, add_subscription_job) at e) in
          add_subscription-IsTracked c c' s historic r id t e₁
    ]

update_subscription-IsTracked :
    (c c' : ContractsClient) (id : ℕ) (change : Outcome (SubscriptionJob → SubscriptionJob))
    → IsTracked c
    → update_subscription c id change ≡ ok c'
    → IsTracked c'
unfolding update_subscription
update_subscription-IsTracked c c' id change t e =
    elim (Option-cases (lookup id c.subscription_jobs)) [
      | inl unknown ↦ cc (rw (unknown, update_subscription) at e)
      | inr (s, known) ↦
          let (f, _, e₁) = >>=-eq-ok change _ (rw (known, update_subscription) at e) in
          rw (ok-injective e₁) at (
            rescheduled-IsTracked c (modify id f c.subscription_jobs)
              c.subscription_job_instance_heap t)
    ]

pub update_subscription_job_params-IsTracked :
    (abi : Abi) (c c' : ContractsClient) (log : Log)
    → IsTracked c
    → update_subscription_job_params abi c log ≡ ok c'
    → IsTracked c'
unfolding update_subscription_job_params
update_subscription_job_params-IsTracked abi c c' log t e =
    elim (Option-cases (abi.decode job_params_types log.payload)) [
      | inl garbled ↦ cc (rw (garbled, update_subscription_job_params) at e)
      | inr (decoded, parsed) ↦
          let (id, _, e₁) =
            >>=-eq-ok (topic log 1) _ (rw (parsed, update_subscription_job_params) at e) in
          update_subscription-IsTracked c c' id _ t e₁
    ]

pub update_subscription_job_termination_params-IsTracked :
    (abi : Abi) (c c' : ContractsClient) (log : Log)
    → IsTracked c
    → update_subscription_job_termination_params abi c log ≡ ok c'
    → IsTracked c'
unfolding update_subscription_job_termination_params
update_subscription_job_termination_params-IsTracked abi c c' log t e =
    elim (Option-cases (abi.decode termination_params_types log.payload)) [
      | inl garbled ↦ cc (rw (garbled, update_subscription_job_termination_params) at e)
      | inr (decoded, parsed) ↦
          let (id, _, e₁) =
            >>=-eq-ok (topic log 1) _
              (rw (parsed, update_subscription_job_termination_params) at e) in
          update_subscription-IsTracked c c' id _ t e₁
    ]
