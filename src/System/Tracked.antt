-- ===== src/System/Tracked.antt =====
-- The tracking of jobs is an invariant of the whole program.
use serverless_gateway.Selection.{StdRng}
use serverless_gateway.Jobs.Handlers.{job_relayed_handler-IsTracked}
use serverless_gateway.System.{relay_decoded, announce_added}
use serverless_gateway.Subscription.Historic.{announce, ignore_error}
use serverless_gateway.EpochState.{Gateways}
use serverless_gateway.Table.{Table}
use serverless_gateway.Words.{as_u64, add256, sub256, mul256, div256}
use serverless_gateway.Model.{
  Job, SubscriptionJob, JobSubscriptionChannelType, Task, ContractsClient, job_relay,
  JobSubscriptionAction,
}
use serverless_gateway.Chain.{Log, Abi, Token, topic, uint_at, bytes_at, fixed_bytes_at}
use serverless_gateway.Prelude.{
  ◌==◌, Bool-cases, Option-cases, All, Outcome, ◌>>=◌, >>=-eq-ok, ok-injective, ok, err, panicked,
  ℕ, ◌≡◌, refl, sym, ap, inl, inr, List, [], ◌∷◌, ◌++◌, arith,
}
use serverless_gateway.Subscription.{subscription_job_to_relay_job}
use serverless_gateway.Jobs.Tracked.{Relayable, Due, IsTracked}
use serverless_gateway.Jobs.{job_of_tokens, get_job_from_job_relay_event, job_relay_types}

first_try : (j : Job) → 1 ≡ j.sequence_number → job_relay ≡ j.job_type → Relayable j
first_try j e k = record { lower = omega arith; upper = omega arith; kind = sym k }

-- A job made from an event or a subscription is on its first try.
job_of_tokens-Relayable :
    (log : Log) (chain : ℕ) (decoded : List Token) (j : Job)
    → job_of_tokens log 1 chain decoded ≡ ok j
    → Relayable j
unfolding job_of_tokens
job_of_tokens-Relayable log chain decoded j e =
    let (id, _, e₁) = >>=-eq-ok (topic log 1) _ e in
    let (tx_hash, _, e₂) = >>=-eq-ok (fixed_bytes_at decoded 0) _ e₁ in
    let (code_input, _, e₃) = >>=-eq-ok (bytes_at decoded 1) _ e₂ in
    let (user_timeout, _, e₄) = >>=-eq-ok (uint_at decoded 2) _ e₃ in
    let (starttime, _, e₅) = >>=-eq-ok (uint_at decoded 8) _ e₄ in
    let (env, _, e₆) = >>=-eq-ok (topic log 2 >>= as_u64) _ e₅ in
    first_try j (ap (λ k. k.sequence_number) (ok-injective e₆))
      (ap (λ k. k.job_type) (ok-injective e₆))

pub get_job_from_job_relay_event-Relayable :
    (abi : Abi) (log : Log) (chain : ℕ) (j : Job)
    → get_job_from_job_relay_event abi log 1 chain ≡ ok j
    → Relayable j
unfolding get_job_from_job_relay_event
get_job_from_job_relay_event-Relayable abi log chain j e =
    elim (Option-cases (abi.decode job_relay_types log.payload)) [
      | inl garbled ↦ cc (rw (garbled, get_job_from_job_relay_event) at e)
      | inr (decoded, parsed) ↦
          job_of_tokens-Relayable log chain decoded j
            (rw (parsed, get_job_from_job_relay_event) at e)
    ]

pub subscription_job_to_relay_job-Relayable :
    (s : SubscriptionJob) (time : ℕ) (j : Job)
    → subscription_job_to_relay_job s time ≡ ok j
    → Relayable j
unfolding subscription_job_to_relay_job
subscription_job_to_relay_job-Relayable s time j e =
    let (elapsed, _, e₁) = >>=-eq-ok (sub256 time s.starttime) _ e in
    let (count, _, e₂) = >>=-eq-ok (div256 elapsed s.interval) _ e₁ in
    let (id, _, e₃) = >>=-eq-ok (add256 s.subscription_id count) _ e₂ in
    let (offset, _, e₄) = >>=-eq-ok (mul256 count s.interval) _ e₃ in
    let (begun, _, e₅) = >>=-eq-ok (add256 s.starttime offset) _ e₄ in
    first_try j (ap (λ k. k.sequence_number) (ok-injective e₅))
      (ap (λ k. k.job_type) (ok-injective e₅))

-- Taking a task off, and writing the cycles, leave the jobs alone.
pub retasked-IsTracked :
    (c : ContractsClient) (ts : List Task)
    → IsTracked c
    → All (Due c.enclave_address) ts
    → IsTracked (record c { spawned = ts })
retasked-IsTracked c ts t all = record {
  active = t.active;
  current = t.current;
  waiting = t.waiting;
  sent = t.sent;
  tasks = all;
}

pub recycled-IsTracked :
    (c : ContractsClient) (state : Table Gateways)
    → IsTracked c
    → IsTracked (record c { gateway_epoch_state = state })
recycled-IsTracked c state t = record {
  active = t.active;
  current = t.current;
  waiting = t.waiting;
  sent = t.sent;
  tasks = t.tasks;
}

renotified-IsTracked :
    (c : ContractsClient) (messages : List JobSubscriptionChannelType)
    → IsTracked c
    → IsTracked (record c { job_subscription_tx = messages })
renotified-IsTracked c messages t = record {
  active = t.active;
  current = t.current;
  waiting = t.waiting;
  sent = t.sent;
  tasks = t.tasks;
}

-- The messages to the manager with one more.
abbrev told : ContractsClient → ℕ → List JobSubscriptionChannelType
told c id =
    c.job_subscription_tx
    ++ record { subscription_action = JobSubscriptionAction.add; subscription_id = id } ∷ []

pub relay_decoded-IsTracked :
    (rng : StdRng) (c c' : ContractsClient) (now : ℕ) (o : Outcome Job)
    → IsTracked c
    → ((j : Job) → o ≡ ok j → Relayable j)
    → relay_decoded rng c now o ≡ ok c'
    → IsTracked c'
unfolding relay_decoded
relay_decoded-IsTracked rng c c' now (ok j) t h e =
    job_relayed_handler-IsTracked rng c c' now j t (h j refl) e
relay_decoded-IsTracked rng c c' now (err x) t h e = rw (ok-injective e) at t
relay_decoded-IsTracked rng c c' now panicked t h e = cc

pub ignore_error-IsTracked :
    (c c' : ContractsClient) (o : Outcome ContractsClient)
    → IsTracked c
    → ((d : ContractsClient) → o ≡ ok d → IsTracked d)
    → ignore_error c o ≡ ok c'
    → IsTracked c'
unfolding ignore_error
ignore_error-IsTracked c c' (ok d) t h e = rw (ok-injective e) at (h d refl)
ignore_error-IsTracked c c' (err x) t h e = rw (ok-injective e) at t
ignore_error-IsTracked c c' panicked t h e = cc

pub announce_added-IsTracked :
    (c c' : ContractsClient) (id : ℕ) (o : Outcome (ℕ × ContractsClient))
    → IsTracked c
    → ((k : ℕ) (d : ContractsClient) → o ≡ ok (k, d) → IsTracked d)
    → announce_added c id o ≡ ok c'
    → IsTracked c'
unfolding announce_added
announce_added-IsTracked c c' id (ok (k, d)) t h e =
    rw (ok-injective e) at (renotified-IsTracked d (told d id) (h k d refl))
announce_added-IsTracked c c' id (err x) t h e = rw (ok-injective e) at t
announce_added-IsTracked c c' id panicked t h e = cc

pub announce-IsTracked :
    (c' : ContractsClient) (o : Outcome (ℕ × ContractsClient))
    → ((k : ℕ) (d : ContractsClient) → o ≡ ok (k, d) → IsTracked d)
    → announce o ≡ ok c'
    → IsTracked c'
unfolding announce
announce-IsTracked c' (ok (k, d)) h e = elim (Bool-cases (k == 0)) [
  | inl nothing ↦ rw (ok-injective (rw nothing at e)) at (h k d refl)
  | inr something ↦
      rw (ok-injective (rw something at e)) at (renotified-IsTracked d (told d k) (h k d refl))
]
announce-IsTracked c' (err x) h e = cc
announce-IsTracked c' panicked h e = cc
