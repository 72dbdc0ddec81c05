-- ===== src/Subscription/Manager/Cases.antt =====
-- What one wake-up of the manager does to the heap, the subscriptions and the tasks.
use serverless_gateway.Table.Laws.{lookup-remove}
use serverless_gateway.Model.{
  SubscriptionJob, SubscriptionJobInstanceHeap, ContractsClient, trigger,
}
use serverless_gateway.Table.{lookup, remove}
use serverless_gateway.Words.{u64_mod, add64, add64-exact}
use serverless_gateway.Prelude.{
  ltb, lt→ltb, ==_refl, ok, ℕ, ◌+◌, ◌<◌, ◌≡◌, refl, ◌∙◌, true, none, some, List, [], ◌∷◌, ◌++◌,
  arith,
}
use serverless_gateway.Subscription.Grid.{instance_time}
use serverless_gateway.Subscription.Next.{Fits, Scheduled, lookup-Scheduled}
use serverless_gateway.Subscription.Start.{spawn_trigger}
use serverless_gateway.Subscription.Manager.{
  continues, returns, trigger_popped, job_subscription_manager,
}

abbrev pub without_head : ContractsClient → List SubscriptionJobInstanceHeap → ContractsClient
without_head c heap = record c { subscription_job_instance_heap = heap }

next_instance :
    (s : SubscriptionJob) (k : ℕ) → instance_time s k + s.interval ≡ instance_time s (k + 1)
next_instance s k = omega arith

-- The first entry of the heap stands for instance `k` of a live subscription: the manager triggers
-- that instance, takes the entry off, and puts the entry of instance `k + 1` on the heap, or, if
-- that lies after the termination, forgets the subscription.
pub job_subscription_manager-Scheduled :
    (c : ContractsClient) (now k : ℕ) (s : SubscriptionJob) (popped : SubscriptionJobInstanceHeap)
    (heap : List SubscriptionJobInstanceHeap)
    → c.subscription_job_instance_heap ≡ popped ∷ heap
    → lookup popped.subscription_id c.subscription_jobs ≡ some s
    → Fits s
    → popped.next_trigger_time ≡ instance_time s k
    → instance_time s (k + 1) < u64_mod
    → job_subscription_manager c now
      ≡ ok (
          continues (
            Scheduled
              (spawn_trigger (without_head c heap) s (instance_time s k))
              popped.subscription_id
              s
              (instance_time s (k + 1))))
unfolding job_subscription_manager trigger_popped spawn_trigger
job_subscription_manager-Scheduled c now k s popped heap first known fits due room =
    let next : add64 popped.next_trigger_time s.interval ≡ instance_time s (k + 1) =
      rw due (add64-exact _ _ (omega (arith, next_instance s k)) ∙ next_instance s k) in
    rw (first, job_subscription_manager, known, trigger_popped)
      (rw
        (
          lookup-Scheduled (spawn_trigger (without_head c heap) s popped.next_trigger_time) now
              popped.subscription_id popped.next_trigger_time (instance_time s (k + 1)) s known fits
              next,
          due,
        )
        refl)

-- The first two entries of the heap are of one live subscription, and the next time of the first is
-- after the termination. Then the first wake-up triggers the first entry's instance and forgets the
-- subscription, and the second makes the manager return, triggers nothing and takes only the second
-- entry off: the entries behind the two, of whatever subscription, are left on the heap.
pub job_subscription_manager-returns :
    (c : ContractsClient) (now later : ℕ) (s : SubscriptionJob) (x y : SubscriptionJobInstanceHeap)
    (heap : List SubscriptionJobInstanceHeap)
    → c.subscription_job_instance_heap ≡ x ∷ y ∷ heap
    → lookup x.subscription_id c.subscription_jobs ≡ some s
    → y.subscription_id ≡ x.subscription_id
    → Fits s
    → x.next_trigger_time + s.interval < u64_mod
    → s.termination_time < x.next_trigger_time + s.interval
    → (c₁ c₂ : ContractsClient) × (job_subscription_manager c now ≡ ok (continues c₁))
      × (job_subscription_manager c₁ later ≡ ok (returns c₂))
      × (c₁.subscription_jobs ≡ remove x.subscription_id c.subscription_jobs)
      × (c₁.spawned ≡ c.spawned ++ trigger s x.next_trigger_time ∷ [])
      × (c₂ ≡ without_head c₁ heap)
unfolding job_subscription_manager trigger_popped spawn_trigger
job_subscription_manager-returns c now later s x y heap two known same fits room ends =
    let t : ℕ = x.next_trigger_time + s.interval in
    let c₁ : ContractsClient =
      record (spawn_trigger (without_head c (y ∷ heap)) s x.next_trigger_time) {
        subscription_jobs = remove x.subscription_id c.subscription_jobs;
      } in
    let next : add64 x.next_trigger_time s.interval ≡ t = add64-exact _ _ room in
    let ended : ltb s.termination_time t ≡ true = lt→ltb _ _ ends in
    let gone : lookup y.subscription_id (remove x.subscription_id c.subscription_jobs) ≡ none =
      rw
        (
          same,
          lookup-remove x.subscription_id x.subscription_id c.subscription_jobs,
          ==_refl x.subscription_id,
        )
        refl in
    (
      c₁,
      without_head c₁ heap,
      rw (two, job_subscription_manager, known, trigger_popped)
          (rw
            (
              lookup-Scheduled (spawn_trigger (without_head c (y ∷ heap)) s x.next_trigger_time) now
                  x.subscription_id x.next_trigger_time t s known fits next,
              ended,
            )
            refl),
      rw (gone, trigger_popped) refl,
      refl,
      refl,
      refl,
    )
