-- ===== src/Subscription/Grid.antt =====
-- The trigger times of a subscription are its start plus whole intervals, and each stands for one
-- job: the job's number and start time are read off the time.
use serverless_gateway.Model.{Job, SubscriptionJob, job_relay, subscription}
use serverless_gateway.Words.{u256_mod}
use serverless_gateway.Prelude.{
  ltb, leb, ◌==◌, lt→ltb, le→leb, ==_ne, ok, ℕ, ◌+◌, ◌-◌, ◌*◌, ◌/◌, ◌<◌, ◌≡◌, true, false, none,
  arith,
}
use serverless_gateway.Subscription.{subscription_job_to_relay_job}

-- The time of the instance with this number.
abbrev pub instance_time : SubscriptionJob → ℕ → ℕ
instance_time s k = s.starttime + k * s.interval

-- The relay job of instance `k`.
abbrev pub InstanceOf : SubscriptionJob → ℕ → Job
InstanceOf s k = record {
  job_id = s.subscription_id + k;
  request_chain_id = s.request_chain_id;
  tx_hash = s.tx_hash;
  code_input = s.code_input;
  user_timeout = s.user_timeout;
  starttime = instance_time s k;
  job_owner = s.subscriber;
  job_type = job_relay;
  sequence_number = 1;
  gateway_address = none;
  job_mode = subscription;
  env = s.env;
}

elapsed_instances :
    (start k interval : ℕ) → 0 < interval → (start + k * interval - start) / interval ≡ k
elapsed_instances start k interval h = grind arith

-- The trigger time of instance `k` gives the job of instance `k`: its id is that of the
-- subscription plus `k`, its start the trigger time, where these fit a `U256`.
pub subscription_job_to_relay_job-InstanceOf :
    (s : SubscriptionJob) (k : ℕ)
    → 0 < s.interval
    → s.subscription_id + k < u256_mod
    → instance_time s k < u256_mod
    → subscription_job_to_relay_job s (instance_time s k) ≡ ok (InstanceOf s k)
unfolding subscription_job_to_relay_job
subscription_job_to_relay_job-InstanceOf s k pos id_fits time_fits =
    let begun : leb s.starttime (instance_time s k) ≡ true = le→leb _ _ (omega arith) in
    let proper : (s.interval == 0) ≡ false = ==_ne _ _ (omega arith) in
    let id_small : ltb (s.subscription_id + k) u256_mod ≡ true = lt→ltb _ _ id_fits in
    let offset_small : ltb (k * s.interval) u256_mod ≡ true = lt→ltb _ _ (omega arith) in
    let time_small : ltb (instance_time s k) u256_mod ≡ true = lt→ltb _ _ time_fits in
    rw (
      begun,
      proper,
      elapsed_instances s.starttime k s.interval pos,
      id_small,
      offset_small,
      time_small,
    )
