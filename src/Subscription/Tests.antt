-- ===== src/Subscription/Tests.antt =====
-- Subscriptions at concrete inputs.
use mathlib.Core.List.{Perm}
use serverless_gateway.Table.{remove}
use serverless_gateway.Model.{trigger}
use serverless_gateway.Model.{SubscriptionJob, SubscriptionJobInstanceHeap, ContractsClient}
use serverless_gateway.Chain.{Token, Abi}
use serverless_gateway.Table.{lookup}
use serverless_gateway.Prelude.{
  ltb, if◌then◌else◌, ok, ℕ, ◌+◌, ◌≤◌, ◌<◌, ◌≡◌, refl, true, false, List, [], ◌∷◌, ◌++◌, arith,
}
use serverless_gateway.Subscription.{
  push, get_minimum_timestamp_for_job, push_trigger, add_next_trigger_time_to_heap,
  subscription_job_to_relay_job,
}
use serverless_gateway.Subscription.Grid.{
  instance_time, InstanceOf, subscription_job_to_relay_job-InstanceOf,
}
use serverless_gateway.Subscription.Next.{
  Fits, Scheduled, add_next_trigger_time_to_heap-historic,
  add_next_trigger_time_to_heap-after_termination,
}
use serverless_gateway.Subscription.Start.{Readings, spawn_trigger, add_subscription}
use serverless_gateway.Subscription.Start.Cases.{Stored, add_subscription-Scheduled}
use serverless_gateway.Subscription.Manager.{continues, returns, job_subscription_manager}
use serverless_gateway.Subscription.Manager.Cases.{
  job_subscription_manager-returns, without_head, job_subscription_manager-Scheduled,
}
use serverless_gateway.Subscription.Update.{
  update_subscription_job_params, update_subscription_job_termination_params,
}
use serverless_gateway.Subscription.Update.Laws.{
  Updated, update_subscription_job_params-Updated,
  update_subscription_job_termination_params-Updated,
}
use serverless_gateway.Subscription.Queue.{IsOrdered, push-IsOrdered-perm}
use serverless_gateway.Samples.{a_client, reading, log_of, a_subscription}

a_subscription-Fits : Fits a_subscription
a_subscription-Fits = record {
  starttime = omega arith;
  interval = omega arith;
  termination_time = omega arith;
  positive = omega arith;
}

subscription_job_to_relay_job-InstanceOf_example :
    subscription_job_to_relay_job a_subscription (instance_time a_subscription 2)
    ≡ ok (InstanceOf a_subscription 2)
subscription_job_to_relay_job-InstanceOf_example =
    subscription_job_to_relay_job-InstanceOf a_subscription 2 (omega arith) (omega arith)
      (omega arith)

-- The clock stands at 23 throughout.
abbrev at_23 : Readings
at_23 = record { completed = 23; minimum = 23; current = 23; next = 23 }

add_subscription-Scheduled_example :
    add_subscription a_client a_subscription false at_23
    ≡ ok (
      600,
      if ltb 23 20
          then Scheduled (Stored a_client a_subscription) 600 a_subscription 20
          else Scheduled
              (spawn_trigger (Stored a_client a_subscription) a_subscription 20)
              600
              a_subscription
              (20 + 10),
    )
add_subscription-Scheduled_example =
    add_subscription-Scheduled a_client a_subscription at_23 a_subscription-Fits (omega arith)

-- At 60 the subscription, which ended at 45, is over.
abbrev at_60 : Readings
at_60 = record { completed = 60; minimum = 60; current = 60; next = 60 }

abbrev no_id : ℕ
no_id = 0

-- The entry of the subscription at 30, and at 40, its last.
abbrev entry : ℕ → SubscriptionJobInstanceHeap
entry time = record { subscription_id = 600; next_trigger_time = time }

abbrev holding : List SubscriptionJobInstanceHeap → ContractsClient
holding heap = record a_client { subscription_job_instance_heap = heap }

job_subscription_manager-Scheduled_example :
    job_subscription_manager (holding (entry 30 ∷ [])) 30
    ≡ ok (
        continues (
          Scheduled
            (spawn_trigger
              (without_head (holding (entry 30 ∷ [])) [])
              a_subscription
              (instance_time a_subscription 1))
            600
            a_subscription
            (instance_time a_subscription 2)))
job_subscription_manager-Scheduled_example =
    job_subscription_manager-Scheduled (holding (entry 30 ∷ [])) 30 1 a_subscription (entry 30) []
      refl (unfold lookup in refl) a_subscription-Fits refl (omega arith)

job_subscription_manager-returns_example :
    (c₁ c₂ : ContractsClient) × (job_subscription_manager (holding (entry 40 ∷ entry 40 ∷ [])) 40
      ≡ ok (continues c₁))
    × (job_subscription_manager c₁ 40 ≡ ok (returns c₂))
    × (c₁.subscription_jobs ≡ remove 600 (holding (entry 40 ∷ entry 40 ∷ [])).subscription_jobs)
    × (c₁.spawned ≡ (holding (entry 40 ∷ entry 40 ∷ [])).spawned ++ trigger a_subscription 40 ∷ [])
    × (c₂ ≡ without_head c₁ [])
job_subscription_manager-returns_example =
    job_subscription_manager-returns (holding (entry 40 ∷ entry 40 ∷ [])) 40 40 a_subscription
      (entry 40) (entry 40) [] refl (unfold lookup in refl) refl a_subscription-Fits (omega arith)
      (omega arith)

-- Read at 97, so that the minimum, five cycles back, is 47.
abbrev ends_at_49 : SubscriptionJob
ends_at_49 = record a_subscription { termination_time = 49 }

abbrev a_client_49 : ContractsClient
a_client_49 = record a_client { subscription_jobs = (600, ends_at_49) ∷ [] }

ends_at_49-Fits : Fits ends_at_49
ends_at_49-Fits = record {
  starttime = omega arith;
  interval = omega arith;
  termination_time = omega arith;
  positive = omega arith;
}

minimum_47 : get_minimum_timestamp_for_job a_client_49 97 ≡ 47
unfolding get_minimum_timestamp_for_job
minimum_47 = refl

add_next_trigger_time_to_heap-historic_example :
    let minimum = get_minimum_timestamp_for_job a_client_49 97 in
    (k : ℕ) × (minimum < instance_time ends_at_49 k)
    × (instance_time ends_at_49 k ≤ minimum + 10)
    × (add_next_trigger_time_to_heap a_client_49 97 600 20 true
        ≡ ok (push_trigger a_client_49 600 (instance_time ends_at_49 k)))
add_next_trigger_time_to_heap-historic_example =
    add_next_trigger_time_to_heap-historic a_client_49 97 600 20 ends_at_49 (unfold lookup in refl)
      ends_at_49-Fits (rw minimum_47 (omega arith)) (rw minimum_47 (omega arith))
      (rw minimum_47 (omega arith)) (omega arith)

add_next_trigger_time_to_heap-after_termination_example :
    (t : ℕ) × (49 < t)
    × (add_next_trigger_time_to_heap a_client_49 97 600 20 true
        ≡ ok (push_trigger a_client_49 600 t))
add_next_trigger_time_to_heap-after_termination_example =
    add_next_trigger_time_to_heap-after_termination a_client_49 97 600 20 2 ends_at_49
      (unfold lookup in refl) ends_at_49-Fits (rw minimum_47 (omega arith))
      (rw minimum_47 (omega arith)) (rw minimum_47 (omega arith)) (omega arith)
      (rw minimum_47 (omega arith)) (omega arith)

abbrev new_params : Abi
new_params = reading (Token.fixed_bytes (2 ∷ []) ∷ Token.bytes (3 ∷ []) ∷ [])

update_subscription_job_params-Updated_example :
    Updated a_client 600
      (λ s. record s { tx_hash = 2 ∷ []; code_input = 3 ∷ [] })
      (update_subscription_job_params new_params a_client (log_of (17 ∷ 600 ∷ [])))
update_subscription_job_params-Updated_example =
    update_subscription_job_params-Updated new_params a_client (log_of (17 ∷ 600 ∷ [])) 600 (2 ∷ [])
      (3 ∷ []) refl refl

abbrev new_end : Abi
new_end = reading (Token.uint 80 ∷ [])

update_subscription_job_termination_params-Updated_example :
    Updated a_client 600
      (λ s. record s { termination_time = 80 })
      (update_subscription_job_termination_params new_end a_client (log_of (17 ∷ 600 ∷ [])))
update_subscription_job_termination_params-Updated_example =
    update_subscription_job_termination_params-Updated new_end a_client (log_of (17 ∷ 600 ∷ [])) 600
      80 refl refl

push-IsOrdered-perm_example :
    IsOrdered (push (entry 35) (entry 30 ∷ entry 40 ∷ []))
    × Perm (push (entry 35) (entry 30 ∷ entry 40 ∷ [])) (entry 35 ∷ entry 30 ∷ entry 40 ∷ [])
push-IsOrdered-perm_example =
    push-IsOrdered-perm (entry 35) (entry 30 ∷ entry 40 ∷ []) ((omega arith, tt), (tt, tt))
