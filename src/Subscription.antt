-- ===== src/Subscription.antt =====
-- The subscriptions of src/job_subscription_management.rs: their start, the heap of trigger times
-- and the jobs that they trigger. The start, the updates and the manager are in the children.
pub mod Queue
pub mod Grid
pub mod Next
pub mod Start
pub mod Manager
pub mod Historic
pub mod Tracked
pub mod Update
mod Tests
use serverless_gateway.Model.{
  Job, SubscriptionJob, SubscriptionJobInstanceHeap, ContractsClient, job_relay, subscription,
}
use serverless_gateway.Constants.{gateway_block_states_to_maintain}
use serverless_gateway.Table.{lookup, remove}
use serverless_gateway.Words.{add64, sub64, mul64, div64, as_u64, add256, sub256, mul256, div256}
use Prim.Native.Nat.{compare, Ordering}
use serverless_gateway.Prelude.{
  ltb, if◌then◌else◌, Outcome, ◌>>=◌, ok, ℕ, ◌+◌, ◌-◌, Bool, none, some, List, [], ◌∷◌,
}
use serverless_gateway.Selection.{StdRng}
use serverless_gateway.Jobs.{job_relayed_handler}

-- The wake-up time: a timestamp in the past gives the present. Seconds; `system_now` and `now` are
-- the readings of `SystemTime::now` and `Instant::now`.
unfoldable pub unix_timestamp_to_instant : ℕ → ℕ → ℕ → ℕ
unix_timestamp_to_instant timestamp system_now now = now + (timestamp - system_now)

reverse_ordering : Ordering → Ordering
reverse_ordering Ordering.lt = Ordering.gt
reverse_ordering Ordering.eq = Ordering.eq
reverse_ordering Ordering.gt = Ordering.lt

-- `Ord for SubscriptionJobInstanceHeap`: the entry that is due first is the greatest.
unfoldable pub cmp : SubscriptionJobInstanceHeap → SubscriptionJobInstanceHeap → Ordering
unfolding reverse_ordering
cmp a b = reverse_ordering (compare a.next_trigger_time b.next_trigger_time)

-- `BinaryHeap`, as the list of its entries from the greatest down: `peek` is the head and `pop`
-- takes it off. Of equal entries, which the documentation leaves open, the oldest stands first.
unfoldable pub push :
    SubscriptionJobInstanceHeap
    → List SubscriptionJobInstanceHeap
    → List SubscriptionJobInstanceHeap
unfolding cmp
push x [] = x ∷ []
push x (y ∷ heap) =
    let rest = y ∷ push x heap in elim (cmp x y) [ Ordering.gt ↦ x ∷ y ∷ heap | _ ↦ rest ]

unfoldable pub get_minimum_timestamp_for_job : ContractsClient → ℕ → ℕ
get_minimum_timestamp_for_job c now =
    sub64 (sub64 now (mul64 gateway_block_states_to_maintain c.time_interval)) c.offset_for_epoch

-- The first time on the subscription's grid after the minimum.
unfoldable pub first_after : SubscriptionJob → ℕ → Outcome ℕ
first_after s minimum = do
  start ← as_u64 s.starttime
  interval ← as_u64 s.interval
  count ← div64 (sub64 minimum start) interval
  ok (add64 start (mul64 (add64 count 1) interval))

-- It replaces a next time that lies before the minimum.
unfoldable pub historic_trigger_time : ContractsClient → ℕ → SubscriptionJob → ℕ → Outcome ℕ
historic_trigger_time c now s next_trigger_time =
    let minimum : ℕ = get_minimum_timestamp_for_job c now in
    if ltb next_trigger_time minimum then first_after s minimum else ok next_trigger_time

unfoldable pub push_trigger : ContractsClient → ℕ → ℕ → ContractsClient
push_trigger c subscription_id next_trigger_time = record c {
  subscription_job_instance_heap =
      push (record { subscription_id = subscription_id; next_trigger_time = next_trigger_time })
        c.subscription_job_instance_heap;
}

-- The rest of `add_next_trigger_time_to_heap`, on the subscription that was found.
unfoldable pub add_next_trigger_time :
    ContractsClient → ℕ → ℕ → ℕ → Bool → SubscriptionJob → Outcome ContractsClient
add_next_trigger_time c now subscription_id previous_trigger_time is_historic_log s = do
  interval ← as_u64 s.interval
  termination ← as_u64 s.termination_time
  if ltb termination (add64 previous_trigger_time interval)
      then ok (record c { subscription_jobs = remove subscription_id c.subscription_jobs })
      else ((if is_historic_log
            then historic_trigger_time c now s (add64 previous_trigger_time interval)
            else ok (add64 previous_trigger_time interval))
          >>= λ t. ok (push_trigger c s.subscription_id t))

unfoldable pub add_next_trigger_time_to_heap :
    ContractsClient → ℕ → ℕ → ℕ → Bool → Outcome ContractsClient
add_next_trigger_time_to_heap c now subscription_id previous_trigger_time is_historic_log =
    elim (lookup subscription_id c.subscription_jobs) [
      | none ↦ ok c
      | some s ↦ add_next_trigger_time c now subscription_id previous_trigger_time is_historic_log s
    ]

unfoldable pub subscription_job_to_relay_job : SubscriptionJob → ℕ → Outcome Job
subscription_job_to_relay_job s trigger_timestamp = do
  elapsed ← sub256 trigger_timestamp s.starttime
  instance_count ← div256 elapsed s.interval
  job_id ← add256 s.subscription_id instance_count
  offset ← mul256 instance_count s.interval
  instance_starttime ← add256 s.starttime offset
  ok (record {
    job_id = job_id;
    request_chain_id = s.request_chain_id;
    tx_hash = s.tx_hash;
    code_input = s.code_input;
    user_timeout = s.user_timeout;
    starttime = instance_starttime;
    job_owner = s.subscriber;
    job_type = job_relay;
    sequence_number = 1;
    gateway_address = none;
    job_mode = subscription;
    env = s.env;
  })

unfoldable pub trigger_subscription_job :
    StdRng → ContractsClient → ℕ → SubscriptionJob → ℕ → Outcome ContractsClient
trigger_subscription_job rng c now s trigger_timestamp = do
  job ← subscription_job_to_relay_job s trigger_timestamp
  job_relayed_handler rng c now job
