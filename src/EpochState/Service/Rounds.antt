-- ===== src/EpochState/Service/Rounds.antt =====
-- One round of the inner loop of the service, and the tables behind it.
use serverless_gateway.EpochState.Service.{caught_up, again}
use serverless_gateway.Table.Sorted.{IsSorted}
use serverless_gateway.EpochState.Generate.{
  continued, Wrote, first_block, last_block, generate_gateway_epoch_state_for_cycle-Wrote,
}
use serverless_gateway.EpochState.Service.{service_round, after_generation, skip_old_cycles}
use serverless_gateway.EpochState.{current_cycle, EpochProvider}
use serverless_gateway.Model.{ContractsClient}
use serverless_gateway.Chain.{Abi}
use serverless_gateway.Constants.{gateway_block_states_to_maintain}
use serverless_gateway.Table.{Table, lookup}
use serverless_gateway.Words.{u64_mod, add64, add64-exact}
use serverless_gateway.Prelude.{
  leb, ◌==◌, if◌then◌else◌, lt→not-leb, Bool-cases, Option-cases, ok, ℕ, ◌+◌, ◌≤◌, ◌<◌, ◌≡◌, refl,
  ◌∙◌, ◌⊎◌, inl, inr, true, false, some, arith,
}
use serverless_gateway.EpochState.Service.{
  Round, again, skip_old_cycles, after_generation, service_round,
}
use serverless_gateway.EpochState.{
  callback_for_gateway_epoch_waitlist, Gateways, generate_gateway_epoch_state_for_cycle,
  current_cycle, EpochProvider,
}

-- A round in one cycle of the client's clock, with a chain whose answers never make the
-- generation of a cycle panic.
pub record InCycle (abi : Abi) (epoch time_interval current : ℕ) (r : Round) : Type 0 where
  pub begins : current_cycle r.now epoch time_interval ≡ ok current
  pub ends : current_cycle r.later epoch time_interval ≡ ok current
  pub answers :
      (state : Table Gateways) (n : ℕ)
      → (after : Table Gateways) × (generate_gateway_epoch_state_for_cycle abi r.provider state n
            epoch time_interval
          ≡ ok after)

pub callback-state :
    (c : ContractsClient) (n : ℕ)
    → ((callback_for_gateway_epoch_waitlist c n).gateway_epoch_state ≡ c.gateway_epoch_state)
      × ((callback_for_gateway_epoch_waitlist c n).epoch ≡ c.epoch)
      × ((callback_for_gateway_epoch_waitlist c n).time_interval ≡ c.time_interval)
unfolding callback_for_gateway_epoch_waitlist
callback-state c n = elim (Option-cases (lookup n c.gateway_epoch_state_waitlist)) [
  | inl nobody ↦ rw (nobody, callback_for_gateway_epoch_waitlist) (refl, refl, refl)
  | inr (jobs, waited) ↦ rw (waited, callback_for_gateway_epoch_waitlist) (refl, refl, refl)
]

-- The client after a round.
abbrev pub generated : ContractsClient → ℕ → Table Gateways → ContractsClient
generated c n after =
    callback_for_gateway_epoch_waitlist (record c { gateway_epoch_state = after }) n

skip_old_cycles_recent :
    (current n : ℕ)
    → current < n + gateway_block_states_to_maintain
    → n + gateway_block_states_to_maintain < u64_mod
    → skip_old_cycles current n ≡ n
unfolding skip_old_cycles
skip_old_cycles_recent current n recent room =
    let exact : add64 gateway_block_states_to_maintain n ≡ gateway_block_states_to_maintain + n =
      add64-exact gateway_block_states_to_maintain n (omega arith) in
    let young : leb (gateway_block_states_to_maintain + n) current ≡ false =
      lt→not-leb _ _ (omega arith) in
    rw (exact, young) refl

-- A round in one cycle of the clock, on a cycle that is not too old.
pub service_round-after :
    (abi : Abi) (c : ContractsClient) (current n : ℕ) (r : Round)
    → InCycle abi c.epoch c.time_interval current r
    → current < n + gateway_block_states_to_maintain
    → n + gateway_block_states_to_maintain < u64_mod
    → (after : Table Gateways) × (generate_gateway_epoch_state_for_cycle abi r.provider
          c.gateway_epoch_state n c.epoch c.time_interval
        ≡ ok after)
      × (service_round abi c n r ≡ after_generation c n r.later (ok after))
unfolding service_round
service_round-after abi c current n r h recent room =
    let (after, answered) = h.answers c.gateway_epoch_state n in
    (after, answered, rw (h.begins, skip_old_cycles_recent current n recent room, answered) refl)

pub after_generation-again :
    (c : ContractsClient) (current n later : ℕ) (after : Table Gateways)
    → current_cycle later c.epoch c.time_interval ≡ ok current
    → n == current ≡ false
    → n + 1 < u64_mod
    → after_generation c n later (ok after) ≡ ok (again (n + 1) (generated c n after))
unfolding after_generation
after_generation-again c current n later after ends beyond room =
    let next : add64 n 1 ≡ n + 1 = add64-exact n 1 room in rw (ends, beyond, next) refl

pub after_generation-caught_up :
    (c : ContractsClient) (current n later : ℕ) (after : Table Gateways)
    → current_cycle later c.epoch c.time_interval ≡ ok current
    → n == current ≡ true
    → after_generation c n later (ok after) ≡ ok (caught_up n (generated c n after))
unfolding after_generation
after_generation-caught_up c current n later after ends there = rw (ends, there) refl

-- The tables after a generation.
pub generated-tables :
    (abi : Abi) (p : EpochProvider) (state after : Table Gateways) (n epoch interval : ℕ)
    → IsSorted state
    → generate_gateway_epoch_state_for_cycle abi p state n epoch interval ≡ ok after
    → (m : Gateways) × ((k : ℕ) → lookup k after ≡ (if k == n then some m else lookup k state))
      × IsSorted after
unfolding Wrote
generated-tables abi p state after n epoch interval sorted e =
    let wrote : Wrote n state (continued state n) (first_block state n)
        (last_block p state n epoch interval) (ok after) =
      rw e at (generate_gateway_epoch_state_for_cycle-Wrote abi p state n epoch interval sorted) in
    let (m, tables, _, rising) = wrote in (m, tables, rising)

-- A cycle that is still to come, or has a table.
abbrev pub ToComeOrKnown : ℕ → ℕ → Table Gateways → Type 0
ToComeOrKnown n cycle state = (n ≤ cycle) ⊎ ((m : Gateways) × (lookup cycle state ≡ some m))

pub ToComeOrKnown-next :
    (n cycle : ℕ) (m : Gateways) (state after : Table Gateways)
    → ((k : ℕ) → lookup k after ≡ (if k == n then some m else lookup k state))
    → ToComeOrKnown n cycle state
    → ToComeOrKnown (n + 1) cycle after
ToComeOrKnown-next n cycle m state after tables kept = elim (Bool-cases (cycle == n)) [
  | inl same ↦ inr (m, tables cycle ∙ rw same refl)
  | inr differs ↦ elim kept [
    | inl later ↦ inl (ground arith)
    | inr (k, known) ↦ inr (k, tables cycle ∙ rw differs known)
  ]
]
