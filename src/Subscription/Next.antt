-- ===== src/Subscription/Next.antt =====
-- `add_next_trigger_time_to_heap`: which time it schedules, for a live subscription and for one
-- that is read from the past.
use serverless_gateway.Model.{SubscriptionJob, ContractsClient}
use serverless_gateway.Table.{lookup, remove}
use serverless_gateway.Words.{u64_mod, add64, as_u64, sub64, mul64, add64-exact, sub64-exact}
use serverless_gateway.Prelude.{
  ltb, ◌==◌, if◌then◌else◌, lt→ltb, le→not-ltb, ==_ne, Bool-cases, ok, ℕ, ◌+◌, ◌-◌, ◌*◌, ◌/◌, ◌%◌,
  ◌≤◌, ◌<◌, ◌≡◌, refl, inl, inr, true, false, some, arith,
}
use serverless_gateway.Subscription.{
  first_after, push_trigger, add_next_trigger_time, add_next_trigger_time_to_heap,
  get_minimum_timestamp_for_job, historic_trigger_time,
}
use native.Mathlib.Decide.{dec_le}
use serverless_gateway.Subscription.Grid.{instance_time}

-- The numbers of a subscription are `u64` values and its interval is not zero.
pub record Fits (s : SubscriptionJob) : Type 0 where
  pub starttime : s.starttime < u64_mod
  pub interval : s.interval < u64_mod
  pub termination_time : s.termination_time < u64_mod
  pub positive : 0 < s.interval

pub as_u64-exact : (a : ℕ) → a < u64_mod → as_u64 a ≡ ok a
as_u64-exact a h = let small : ltb a u64_mod ≡ true = lt→ltb a u64_mod h in rw small

-- The client after the next time of a live subscription is scheduled, or the subscription ended.
abbrev pub Scheduled : ContractsClient → ℕ → SubscriptionJob → ℕ → ContractsClient
Scheduled c subscription_id s t =
    if ltb s.termination_time t
    then record c { subscription_jobs = remove subscription_id c.subscription_jobs }
    else push_trigger c s.subscription_id t

pub add_next_trigger_time-Scheduled :
    (c : ContractsClient) (now subscription_id previous t : ℕ) (s : SubscriptionJob)
    → Fits s
    → add64 previous s.interval ≡ t
    → add_next_trigger_time c now subscription_id previous false s
      ≡ ok (Scheduled c subscription_id s t)
unfolding add_next_trigger_time
add_next_trigger_time-Scheduled c now subscription_id previous t s fits e =
    rw
      (
        as_u64-exact s.interval fits.interval,
        as_u64-exact s.termination_time fits.termination_time,
        e,
      )
      (elim (Bool-cases (ltb s.termination_time t)) [ inl ended ↦ rw ended | inr live ↦ rw live ])

pub lookup-Scheduled :
    (c : ContractsClient) (now subscription_id previous t : ℕ) (s : SubscriptionJob)
    → lookup subscription_id c.subscription_jobs ≡ some s
    → Fits s
    → add64 previous s.interval ≡ t
    → add_next_trigger_time_to_heap c now subscription_id previous false
      ≡ ok (Scheduled c subscription_id s t)
unfolding add_next_trigger_time_to_heap
lookup-Scheduled c now subscription_id previous t s known fits e =
    rw (known, add_next_trigger_time_to_heap)
      (add_next_trigger_time-Scheduled c now subscription_id previous t s fits e)

div_bounds : (d i : ℕ) → 0 < i → (d / i * i ≤ d) × (d < d / i * i + i)
div_bounds d i h = (grind arith, grind arith)

le-mul : (n i : ℕ) → 0 < i → n ≤ n * i
le-mul n i h = grind arith

mod64-exact : (a : ℕ) → a < u64_mod → a % u64_mod ≡ a
mod64-exact a h = omega arith

suc-mul : (n i : ℕ) → (n + 1) * i ≡ n * i + i
suc-mul n i = omega arith

-- The time that replaces one before the minimum is a time of the grid, the first after the minimum.
pub first_after-instance_time :
    (s : SubscriptionJob) (minimum : ℕ)
    → Fits s
    → s.starttime ≤ minimum
    → minimum + s.interval < u64_mod
    → (k : ℕ) × (first_after s minimum ≡ ok (instance_time s k))
      × (minimum < instance_time s k)
      × (instance_time s k ≤ minimum + s.interval)
unfolding first_after
first_after-instance_time s minimum fits begun room =
    let d : ℕ = minimum - s.starttime in
    let n : ℕ = d / s.interval in
    let (low, high) = div_bounds d s.interval fits.positive in
    let next : (n + 1) * s.interval ≡ n * s.interval + s.interval = suc-mul n s.interval in
    let grows : n ≤ n * s.interval = le-mul n s.interval fits.positive in
    let proper : (s.interval == 0) ≡ false = ==_ne _ _ (omega (arith, fits.positive)) in
    let elapsed : sub64 minimum s.starttime ≡ d = sub64-exact _ _ begun (omega arith) in
    let counted : add64 n 1 ≡ n + 1 =
      add64-exact n 1 (omega (arith, low, begun, grows, fits.positive)) in
    let offset : mul64 (n + 1) s.interval ≡ (n + 1) * s.interval =
      mod64-exact _ (omega (arith, next, low, begun)) in
    let total : add64 s.starttime ((n + 1) * s.interval) ≡ instance_time s (n + 1) =
      mod64-exact _ (omega (arith, next, low, begun)) in
    (
      n + 1,
      rw
          (
            as_u64-exact s.starttime fits.starttime,
            as_u64-exact s.interval fits.interval,
            elapsed,
            proper,
            counted,
            offset,
            total,
          )
          refl,
      omega (arith, low, high, next, begun),
      omega (arith, low, high, next, begun),
    )

-- A live subscription read from the past whose next time lies before the minimum is scheduled at the
-- first grid time after the minimum, which is at most one interval away.
pub add_next_trigger_time_to_heap-historic :
    (c : ContractsClient) (now subscription_id previous : ℕ) (s : SubscriptionJob)
    → let minimum = get_minimum_timestamp_for_job c now in
      lookup subscription_id c.subscription_jobs ≡ some s
      → Fits s
      → s.starttime ≤ minimum
      → minimum + s.interval < u64_mod
      → previous + s.interval < minimum
      → previous + s.interval ≤ s.termination_time
      → (k : ℕ) × (minimum < instance_time s k)
        × (instance_time s k ≤ minimum + s.interval)
        × (add_next_trigger_time_to_heap c now subscription_id previous true
            ≡ ok (push_trigger c s.subscription_id (instance_time s k)))
unfolding add_next_trigger_time_to_heap add_next_trigger_time historic_trigger_time
add_next_trigger_time_to_heap-historic c now subscription_id previous s known fits begun room past
      within =
    let minimum : ℕ = get_minimum_timestamp_for_job c now in
    let (k, found, later, close) = first_after-instance_time s minimum fits begun room in
    let next : add64 previous s.interval ≡ previous + s.interval = add64-exact _ _ (omega arith) in
    let live : ltb s.termination_time (previous + s.interval) ≡ false = le→not-ltb _ _ within in
    let before : ltb (previous + s.interval) minimum ≡ true = lt→ltb _ _ past in
    (
      k,
      later,
      close,
      rw
          (
            known,
            add_next_trigger_time_to_heap,
            as_u64-exact s.interval fits.interval,
            as_u64-exact s.termination_time fits.termination_time,
            next,
            live,
            before,
            found,
          )
          refl,
    )

mul_mono : (a b i : ℕ) → a ≤ b → a * i ≤ b * i
mul_mono a b i h = grind arith

later_instance :
    (s : SubscriptionJob) (j k : ℕ)
    → instance_time s j < instance_time s k
    → instance_time s (j + 1) ≤ instance_time s k
later_instance s j k h = elim (dec_le (j + 1) k) [
  | yes after ↦ omega (arith, mul_mono (j + 1) k s.interval after)
  | no not_after ↦ absurd (omega (arith, mul_mono k j s.interval (omega arith)))
]

-- The last instance before the termination lies before the minimum, and the termination after it:
-- the subscription is scheduled once more, at a time after its termination.
pub add_next_trigger_time_to_heap-after_termination :
    (c : ContractsClient) (now subscription_id previous j : ℕ) (s : SubscriptionJob)
    → let minimum = get_minimum_timestamp_for_job c now in
      lookup subscription_id c.subscription_jobs ≡ some s
      → Fits s
      → s.starttime ≤ minimum
      → minimum + s.interval < u64_mod
      → previous + s.interval < minimum
      → previous + s.interval ≤ s.termination_time
      → instance_time s j ≤ minimum
      → s.termination_time < instance_time s (j + 1)
      → (t : ℕ) × (s.termination_time < t)
        × (add_next_trigger_time_to_heap c now subscription_id previous true
            ≡ ok (push_trigger c s.subscription_id t))
add_next_trigger_time_to_heap-after_termination c now subscription_id previous j s known fits begun
      room past within last ends =
    let (k, later, _, pushed) =
      add_next_trigger_time_to_heap-historic c now subscription_id previous s known fits begun room
        past within in
    let reached : instance_time s (j + 1) ≤ instance_time s k =
      later_instance s j k (omega (arith, last, later)) in
    (instance_time s k, omega (arith, ends, reached), pushed)
