-- ===== src/Subscription/Start/Cases.antt =====
-- What a new subscription does to the client, on each path.
use serverless_gateway.Model.{SubscriptionJob, Task, ContractsClient, trigger}
use serverless_gateway.Table.Laws.{lookup-insert}
use serverless_gateway.Table.{lookup, insert}
use serverless_gateway.Words.{u64_mod, add64, sub64, as_u64, add64-exact}
use serverless_gateway.Prelude.{
  ltb, if◌then◌else◌, ==_refl, Bool-cases, Option-cases, >>=-eq-ok, ok-injective, ok, ℕ, ◌+◌, ◌<◌,
  ◌≡◌, refl, sym, ap, inl, inr, Bool, false, ◌&&◌, some, List, [], ◌∷◌, ◌++◌, arith,
}
use serverless_gateway.Subscription.{
  push_trigger, historic_trigger_time, add_next_trigger_time, add_next_trigger_time_to_heap,
  get_minimum_timestamp_for_job,
}
use serverless_gateway.Subscription.Next.{Fits, Scheduled, lookup-Scheduled, as_u64-exact}
use serverless_gateway.Subscription.Start.{
  Readings, spawn_trigger, schedule_start, start_subscription, is_complete, add_subscription,
}

-- The client in which the subscription is stored.
abbrev pub Stored : ContractsClient → SubscriptionJob → ContractsClient
Stored c s = record c { subscription_jobs = insert s.subscription_id s c.subscription_jobs }

Stored-lookup :
    (c : ContractsClient) (s : SubscriptionJob)
    → lookup s.subscription_id (Stored c s).subscription_jobs ≡ some s
Stored-lookup c s =
    rw
      (
        lookup-insert s.subscription_id s.subscription_id s c.subscription_jobs,
        ==_refl s.subscription_id,
      )
      refl

-- One interval back and forth.
back_and_forth :
    (start interval : ℕ)
    → start < u64_mod
    → interval < u64_mod
    → add64 (sub64 start interval) interval ≡ start
back_and_forth start interval h k = omega arith

-- A subscription that is not read from the past is stored under its id. If its start has come, its
-- first instance is triggered and the time of the second is scheduled; if not, the start is
-- scheduled. Scheduling puts an entry of that time on the heap, except where the time is after the
-- termination: then the subscription is removed again and the heap stays as it is. (The numbers of
-- the subscription, and its start time with the interval added, fit a `u64`.)
pub add_subscription-Scheduled :
    (c : ContractsClient) (s : SubscriptionJob) (r : Readings)
    → Fits s
    → s.starttime + s.interval < u64_mod
    → add_subscription c s false r
      ≡ ok (
        s.subscription_id,
        if ltb r.current s.starttime
            then Scheduled (Stored c s) s.subscription_id s s.starttime
            else Scheduled
                (spawn_trigger (Stored c s) s s.starttime)
                s.subscription_id
                s
                (s.starttime + s.interval),
      )
unfolding add_subscription is_complete start_subscription schedule_start spawn_trigger
add_subscription-Scheduled c s r fits room =
    let id : ℕ = s.subscription_id in
    let next : add64 s.starttime s.interval ≡ s.starttime + s.interval = add64-exact _ _ room in
    let again : add64 (sub64 s.starttime s.interval) s.interval ≡ s.starttime =
      back_and_forth _ _ fits.starttime fits.interval in
    elim (Bool-cases (ltb r.current s.starttime)) [
      | inl future ↦
          rw
            (
              as_u64-exact s.starttime fits.starttime,
              future,
              as_u64-exact s.interval fits.interval,
              lookup-Scheduled (Stored c s) r.next id (sub64 s.starttime s.interval) s.starttime s
                  (Stored-lookup c s) fits again,
            )
            refl
      | inr present ↦
          rw
            (
              as_u64-exact s.starttime fits.starttime,
              present,
              lookup-Scheduled (spawn_trigger (Stored c s) s s.starttime) r.next id s.starttime
                  (s.starttime + s.interval) s (Stored-lookup c s) fits next,
            )
            refl
    ]

-- Scheduling spawns nothing.
add_next_trigger_time-spawned :
    (c c' : ContractsClient) (now id previous : ℕ) (historic : Bool) (s : SubscriptionJob)
    → add_next_trigger_time c now id previous historic s ≡ ok c'
    → c'.spawned ≡ c.spawned
unfolding add_next_trigger_time push_trigger
add_next_trigger_time-spawned c c' now id previous historic s e =
    let (interval, _, e₁) = >>=-eq-ok (as_u64 s.interval) _ e in
    let (termination, _, e₂) = >>=-eq-ok (as_u64 s.termination_time) _ e₁ in
    elim (Bool-cases (ltb termination (add64 previous interval))) [
      | inl ended ↦ sym (ap (λ d. d.spawned) (ok-injective (rw ended at e₂)))
      | inr live ↦
          let (t, _, e₃) =
            >>=-eq-ok
              (if historic
                then historic_trigger_time c now s (add64 previous interval)
                else ok (add64 previous interval))
              _ (rw live at e₂) in
          sym (ap (λ d. d.spawned) (ok-injective e₃))
    ]

add_next_trigger_time_to_heap-spawned :
    (c c' : ContractsClient) (now id previous : ℕ) (historic : Bool)
    → add_next_trigger_time_to_heap c now id previous historic ≡ ok c'
    → c'.spawned ≡ c.spawned
unfolding add_next_trigger_time_to_heap
add_next_trigger_time_to_heap-spawned c c' now id previous historic e =
    elim (Option-cases (lookup id c.subscription_jobs)) [
      | inl unknown ↦
          sym
            (ap (λ d. d.spawned) (ok-injective (rw (unknown, add_next_trigger_time_to_heap) at e)))
      | inr (s, known) ↦
          add_next_trigger_time-spawned c c' now id previous historic s
            (rw (known, add_next_trigger_time_to_heap) at e)
    ]

-- The tasks after a start: the first instance is triggered if it has come and, for a subscription
-- read from the past, is not before the minimum.
abbrev pub first_triggered : ContractsClient → SubscriptionJob → Bool → Readings → List Task
first_triggered c s is_historic_log r =
    if ltb r.current s.starttime
    then c.spawned
    else if is_historic_log && ltb s.starttime (get_minimum_timestamp_for_job c r.minimum)
    then c.spawned
    else c.spawned ++ trigger s s.starttime ∷ []

pub start_subscription-spawned :
    (c c' : ContractsClient) (s : SubscriptionJob) (is_historic_log : Bool) (r : Readings)
    → s.starttime < u64_mod
    → start_subscription c s is_historic_log r ≡ ok c'
    → c'.spawned ≡ first_triggered c s is_historic_log r
unfolding start_subscription schedule_start spawn_trigger get_minimum_timestamp_for_job
start_subscription-spawned c c' s is_historic_log r fits e =
    let id : ℕ = s.subscription_id in
    let e₁ = rw (as_u64-exact s.starttime fits) at e in
    elim (Bool-cases (ltb r.current s.starttime)) [
      | inl future ↦
          let (interval, _, e₂) = >>=-eq-ok (as_u64 s.interval) _ (rw future at e₁) in
          rw future (
            add_next_trigger_time_to_heap-spawned (Stored c s) c' r.next id
              (sub64 s.starttime interval) is_historic_log e₂)
      | inr present ↦
          elim (Bool-cases
            (is_historic_log && ltb s.starttime (get_minimum_timestamp_for_job c r.minimum))) [
              | inl old ↦
                  rw (present, old)
                    (add_next_trigger_time_to_heap-spawned (Stored c s) c' r.next id s.starttime
                      is_historic_log (rw (present, old) at e₁))
              | inr recent ↦
                  rw (present, recent)
                    (add_next_trigger_time_to_heap-spawned
                      (spawn_trigger (Stored c s) s s.starttime) c' r.next id s.starttime
                      is_historic_log (rw (present, recent) at e₁))
            ]
    ]
