-- ===== src/Subscription/Manager.antt =====
-- `job_subscription_manager`, on the branch of its `select!` that a trigger time wakes.
pub mod Cases
use serverless_gateway.Model.{SubscriptionJobInstanceHeap, ContractsClient}
use serverless_gateway.Table.{lookup}
use serverless_gateway.Prelude.{Outcome, ◌>>=◌, ok, ℕ, false, none, some, [], ◌∷◌}
use serverless_gateway.Subscription.{add_next_trigger_time_to_heap}
use serverless_gateway.Subscription.Start.{spawn_trigger}

-- What the manager's loop does when the time of its first entry has come: it goes on with a client,
-- or it returns.
pub data ManagerStep : Type 0 where
  continues : ContractsClient → ManagerStep
  returns : ContractsClient → ManagerStep

unfoldable pub trigger_popped :
    ContractsClient → ℕ → SubscriptionJobInstanceHeap → Outcome ManagerStep
trigger_popped c now popped = elim (lookup popped.subscription_id c.subscription_jobs) [
  | none ↦ ok (returns c)
  | some s ↦
      add_next_trigger_time_to_heap (spawn_trigger c s popped.next_trigger_time) now
        popped.subscription_id popped.next_trigger_time false
      >>= λ c'. ok (continues c')
]

unfoldable pub job_subscription_manager : ContractsClient → ℕ → Outcome ManagerStep
job_subscription_manager c now = elim c.subscription_job_instance_heap [
  | [] ↦ ok (continues c)
  | popped ∷ heap ↦ trigger_popped (record c { subscription_job_instance_heap = heap }) now popped
]
