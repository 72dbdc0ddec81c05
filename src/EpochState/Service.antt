-- ===== src/EpochState/Service.antt =====
-- `gateway_epoch_state_service`: its loops, on the readings of the clock and the chain that each
-- round makes.
pub mod Laws
pub mod Rounds
use serverless_gateway.Model.{ContractsClient}
use serverless_gateway.Chain.{Abi}
use serverless_gateway.Constants.{gateway_block_states_to_maintain}
use serverless_gateway.Table.{Table}
use serverless_gateway.Words.{add64, sub64}
use serverless_gateway.Prelude.{
  leb, ◌==◌, if◌then◌else◌, Outcome, ◌>>=◌, ok, err, panicked, ℕ, List, [], ◌∷◌,
}
use serverless_gateway.EpochState.{
  EpochProvider, generate_gateway_epoch_state_for_cycle, Gateways, current_cycle,
  prune_old_cycle_states, callback_for_gateway_epoch_waitlist,
}

-- What one round reads: the time at its start, the chain, and the time at its end.
pub record Round : Type 0 where
  pub now : ℕ
  pub provider : EpochProvider
  pub later : ℕ

-- Where a loop of the service stands: at the next round with this cycle number, or behind its
-- `break`.
pub data Progress : Type 0 where
  again : ℕ → ContractsClient → Progress
  caught_up : ℕ → ContractsClient → Progress

-- The first cycle that the service generates.
unfoldable pub initial_epoch_cycle : ℕ → ℕ
initial_epoch_cycle current =
    if leb gateway_block_states_to_maintain current
    then add64 (sub64 current gateway_block_states_to_maintain) 1
    else 1

-- A cycle that is too old already is passed over.
unfoldable pub skip_old_cycles : ℕ → ℕ → ℕ
skip_old_cycles current cycle_number =
    if leb (add64 gateway_block_states_to_maintain cycle_number) current
    then add64 (sub64 current gateway_block_states_to_maintain) 1
    else cycle_number

-- The rest of a round of the first loop, which counts up to the cycle of the start.
unfoldable pub after_initial_generation :
    ContractsClient → ℕ → Outcome (Table Gateways) → Outcome Progress
after_initial_generation c cycle_number (ok state) = ok (
    again (add64 cycle_number 1)
      (callback_for_gateway_epoch_waitlist (record c { gateway_epoch_state = state }) cycle_number))
after_initial_generation c cycle_number (err e) = ok (again cycle_number c)
after_initial_generation c cycle_number panicked = panicked

unfoldable pub initial_round : Abi → ContractsClient → ℕ → Round → Outcome Progress
initial_round abi c cycle_number r = do
  current ← current_cycle r.now c.epoch c.time_interval
  let next = skip_old_cycles current cycle_number
  after_initial_generation c next (
      generate_gateway_epoch_state_for_cycle abi r.provider c.gateway_epoch_state next c.epoch
        c.time_interval)

-- The first loop, as far as the rounds go: it ends above the cycle of the start.
unfoldable pub initial_rounds : Abi → ContractsClient → ℕ → ℕ → List Round → Outcome Progress
initial_rounds abi c start cycle_number [] =
    ok (if leb cycle_number start then again cycle_number c else caught_up cycle_number c)
initial_rounds abi c start cycle_number (r ∷ rounds) =
    let rest = initial_round abi c cycle_number r >>= λ progress. elim progress [
      | again n c' ↦ initial_rounds abi c' start n rounds
      | caught_up n c' ↦ ok (caught_up n c')
    ] in
    if leb cycle_number start then rest else ok (caught_up cycle_number c)

-- The rest of a round. An error of the generation repeats it.
unfoldable pub after_generation :
    ContractsClient → ℕ → ℕ → Outcome (Table Gateways) → Outcome Progress
after_generation c cycle_number later (ok state) = do
  current ← current_cycle later c.epoch c.time_interval
  let c' =
      callback_for_gateway_epoch_waitlist (record c { gateway_epoch_state = state }) cycle_number
  if cycle_number == current
      then ok (caught_up cycle_number c')
      else ok (again (add64 cycle_number 1) c')
after_generation c cycle_number later (err e) = ok (again cycle_number c)
after_generation c cycle_number later panicked = panicked

-- One round of the inner loop.
unfoldable pub service_round : Abi → ContractsClient → ℕ → Round → Outcome Progress
service_round abi c cycle_number r = do
  current ← current_cycle r.now c.epoch c.time_interval
  let next = skip_old_cycles current cycle_number
  after_generation c next r.later (
      generate_gateway_epoch_state_for_cycle abi r.provider c.gateway_epoch_state next c.epoch
        c.time_interval)

-- The inner loop, as far as the rounds go.
unfoldable pub service_rounds : Abi → ContractsClient → ℕ → List Round → Outcome Progress
service_rounds abi c cycle_number [] = ok (again cycle_number c)
service_rounds abi c cycle_number (r ∷ rounds) = service_round abi c cycle_number r >>= λ progress.
    elim progress [
      | again n c' ↦ service_rounds abi c' n rounds
      | caught_up n c' ↦ ok (caught_up n c')
    ]

-- A tick of the outer loop: after the inner loop the old cycles are pruned, and the next tick is to
-- generate the next cycle.
unfoldable pub service_tick : Abi → ContractsClient → ℕ → List Round → ℕ → Outcome Progress
service_tick abi c cycle_number rounds now =
    service_rounds abi c cycle_number rounds >>= λ progress. elim progress [
      | again n c' ↦ ok (again n c')
      | caught_up n c' ↦
          prune_old_cycle_states c'.gateway_epoch_state c'.epoch c'.time_interval now >>= λ state.
          ok (caught_up (add64 n 1) (record c' { gateway_epoch_state = state }))
    ]

-- The ticks in turn, each with its rounds and the time of the pruning, as far as they go.
unfoldable pub service_ticks : Abi → ContractsClient → ℕ → List (List Round × ℕ) → Outcome Progress
service_ticks abi c cycle_number [] = ok (caught_up cycle_number c)
service_ticks abi c cycle_number ((rounds, now) ∷ ticks) =
    service_tick abi c cycle_number rounds now >>= λ progress. elim progress [
      | again n c' ↦ ok (again n c')
      | caught_up n c' ↦ service_ticks abi c' n ticks
    ]

-- The service from its start at `current_time`. When the ticks come is not followed.
unfoldable pub gateway_epoch_state_service :
    Abi → ContractsClient → ℕ → List Round → List (List Round × ℕ) → Outcome Progress
gateway_epoch_state_service abi c current_time rounds ticks =
    current_cycle current_time c.epoch c.time_interval >>= λ current.
    initial_rounds abi c current (initial_epoch_cycle current) rounds >>= λ progress.
    elim progress [ again n c' ↦ ok (again n c') | caught_up n c' ↦ service_ticks abi c' n ticks ]
