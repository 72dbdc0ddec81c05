-- ===== src/Subscription/Start.antt =====
-- `add_subscription_job`: a subscription is decoded, stored and scheduled.
pub mod Cases
use serverless_gateway.Model.{SubscriptionJob, ContractsClient, trigger}
use serverless_gateway.Chain.{Log, ParamType, Token, Abi, topic, uint_at, bytes_at, fixed_bytes_at}
use serverless_gateway.Table.{insert}
use serverless_gateway.Words.{sub64, as_u8, as_u64}
use serverless_gateway.Prelude.{
  ltb, if◌then◌else◌, Outcome, ◌>>=◌, log_decode_failure, ok, err, ℕ, ◌%◌, ◌^◌, Bool, true, false,
  ◌&&◌, none, some, List, [], ◌∷◌, ◌++◌,
}
use serverless_gateway.Subscription.{get_minimum_timestamp_for_job, add_next_trigger_time_to_heap}

-- The readings of the clock in `add_subscription_job`, in the order of the code.
pub record Readings : Type 0 where
  pub completed : ℕ
  pub minimum : ℕ
  pub current : ℕ
  pub next : ℕ

abbrev pub subscription_started_types : List ParamType
subscription_started_types =
    ParamType.uint 256
    ∷ ParamType.uint 256
    ∷ ParamType.uint 256
    ∷ ParamType.uint 256
    ∷ ParamType.address
    ∷ ParamType.fixed_bytes 32
    ∷ ParamType.bytes
    ∷ ParamType.uint 256
    ∷ []

-- An `H256` becomes an address by its last 20 bytes.
unfoldable pub subscription_of_tokens : Log → ℕ → List Token → Outcome SubscriptionJob
subscription_of_tokens log request_chain_id decoded = do
  subscription_id ← topic log 1
  subscriber ← topic log 3
  interval ← uint_at decoded 0
  termination_time ← uint_at decoded 2
  user_timeout ← uint_at decoded 3
  tx_hash ← fixed_bytes_at decoded 5
  code_input ← bytes_at decoded 6
  starttime ← uint_at decoded 7
  env ← topic log 2 >>= as_u64
  ok (record {
    subscription_id = subscription_id;
    request_chain_id = request_chain_id;
    subscriber = subscriber % 2 ^ 160;
    interval = interval;
    termination_time = termination_time;
    user_timeout = user_timeout;
    tx_hash = tx_hash;
    code_input = code_input;
    starttime = starttime;
    env = as_u8 env;
  })

unfoldable pub spawn_trigger : ContractsClient → SubscriptionJob → ℕ → ContractsClient
spawn_trigger c s time = record c { spawned = c.spawned ++ trigger s time ∷ [] }

-- The first time of a start in the future is the start itself, one interval after the time before.
unfoldable pub schedule_start :
    ContractsClient → SubscriptionJob → ℕ → Bool → Readings → Outcome ContractsClient
schedule_start c s start is_historic_log r = do
  interval ← as_u64 s.interval
  add_next_trigger_time_to_heap c r.next s.subscription_id (sub64 start interval) is_historic_log

-- From the insertion into `subscription_jobs` on. The first instance is triggered at once unless it
-- lies in the future, or in a past whose gateways are not known any more.
unfoldable pub start_subscription :
    ContractsClient → SubscriptionJob → Bool → Readings → Outcome ContractsClient
start_subscription c s is_historic_log r = do
  start ← as_u64 s.starttime
  let c' = record c { subscription_jobs = insert s.subscription_id s c.subscription_jobs }
  let too_old = is_historic_log && ltb start (get_minimum_timestamp_for_job c' r.minimum)
  if ltb r.current start
      then schedule_start c' s start is_historic_log r
      else add_next_trigger_time_to_heap (if too_old then c' else spawn_trigger c' s start) r.next
          s.subscription_id start is_historic_log

-- A historic subscription that has ended by now is skipped, and zero returned.
unfoldable pub is_complete : SubscriptionJob → Bool → Readings → Outcome Bool
is_complete s false r = ok false
is_complete s true r = do termination ← as_u64 s.termination_time; ok (ltb termination r.completed)

unfoldable pub add_subscription :
    ContractsClient → SubscriptionJob → Bool → Readings → Outcome (ℕ × ContractsClient)
add_subscription c s is_historic_log r = do
  complete ← is_complete s is_historic_log r
  if complete
      then ok (0, c)
      else (start_subscription c s is_historic_log r >>= λ c'. ok (s.subscription_id, c'))

unfoldable pub add_subscription_job :
    Abi → ContractsClient → Log → ℕ → Bool → Readings → Outcome (ℕ × ContractsClient)
add_subscription_job abi c log request_chain_id is_historic_log r =
    elim (abi.decode subscription_started_types log.payload) [
      | none ↦ err log_decode_failure
      | some decoded ↦ subscription_of_tokens log request_chain_id decoded >>= λ s.
          add_subscription c s is_historic_log r
    ]
