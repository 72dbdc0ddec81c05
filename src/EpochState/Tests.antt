-- ===== src/EpochState/Tests.antt =====
-- The state of the cycles at concrete inputs.
use serverless_gateway.EpochState.History.{history, process_logs-history}
use serverless_gateway.EpochState.{process_logs, process_log, callback_for_gateway_epoch_waitlist}
use serverless_gateway.Model.{ContractsClient}
use serverless_gateway.EpochState.Service.{
  Round, again, caught_up, service_rounds, initial_epoch_cycle, skip_old_cycles,
  after_initial_generation, initial_round, initial_rounds, after_generation, service_round,
  service_tick, service_ticks, gateway_epoch_state_service,
}
use serverless_gateway.EpochState.Service.Rounds.{InCycle}
use serverless_gateway.EpochState.Service.Laws.{service_rounds-runs_away, service_rounds-caught_up}
use serverless_gateway.EpochState.Generate.{continued}
use serverless_gateway.Samples.{a_client}
use Prim.Native.String.{len}
use serverless_gateway.Chain.{Abi}
use serverless_gateway.Table.{Table, lookup, insert, remove, contains_key}
use serverless_gateway.Prelude.{
  leb, if◌then◌else◌, le→leb, ok, ℕ, ◌+◌, ◌≡◌, refl, true, none, some, [], ◌∷◌, arith,
}
use serverless_gateway.EpochState.Generate.{continued, first_block}
use serverless_gateway.EpochState.{
  EpochProvider, Gateways, process_gateway_deregistered_event, process_log, process_logs,
  refresh_stakes, last_added, previous_state, generate_between,
  generate_gateway_epoch_state_for_cycle, current_cycle, cycles_to_remove, remove_all,
  prune_old_cycle_states, callback_for_gateway_epoch_waitlist,
}
use serverless_gateway.EpochState.Prune.{is_old, lookup-prune_old_cycle_states}
use serverless_gateway.Samples.{gateway_at, log_of}
use serverless_gateway.Table.Sorted.{IsSorted}

-- Cycle 3 with one gateway, written at block 90.
abbrev one_cycle : Table Gateways
one_cycle = (3, (7, gateway_at 7 200) ∷ []) ∷ []

one_cycle-IsSorted : IsSorted one_cycle
one_cycle-IsSorted = (omega arith, tt)

-- A chain whose last block is this one, with a log that takes the gateway off.
abbrev ending_at : ℕ → EpochProvider
ending_at block = record {
  block_before = λ timestamp. some block;
  logs = λ from to. some (log_of (28 ∷ 7 ∷ []) ∷ []);
  gateways = λ block address. some (0, true);
}

-- The events that are read differ in length.
abbrev hashing : Abi
hashing = record { keccak256 = len; decode = λ types payload. none }

-- The gateway is gone after the blocks up to 95.
deregistered :
    generate_gateway_epoch_state_for_cycle hashing (ending_at 95) one_cycle 4 0 10
    ≡ ok (insert 4 [] one_cycle)
unfolding generate_gateway_epoch_state_for_cycle generate_between last_added previous_state lookup
    process_logs process_log process_gateway_deregistered_event remove refresh_stakes
deregistered = refl

-- With block 91 alone, which is the first new one, it stays.
ignored :
    generate_gateway_epoch_state_for_cycle hashing (ending_at 91) one_cycle 4 0 10
    ≡ ok (insert 4 (continued one_cycle 4) one_cycle)
unfolding generate_gateway_epoch_state_for_cycle generate_between last_added previous_state lookup
ignored = refl

-- In cycle 10, cycle 3 is seven behind.
pruned : prune_old_cycle_states one_cycle 0 10 105 ≡ ok []
unfolding prune_old_cycle_states current_cycle cycles_to_remove remove_all remove
pruned = refl

in_cycle_10 : current_cycle 105 0 10 ≡ ok 10
unfolding current_cycle
in_cycle_10 = refl

lookup-prune_old_cycle_states_example :
    lookup 3 [] ≡ (if is_old 10 3 then none else lookup 3 one_cycle)
lookup-prune_old_cycle_states_example =
    lookup-prune_old_cycle_states one_cycle [] 0 10 105 10 3 one_cycle-IsSorted in_cycle_10 pruned
      (omega arith)

-- A chain that does not answer for a timestamp: the cycle before is taken over.
abbrev silent : EpochProvider
silent = record {
  block_before = λ timestamp. none;
  logs = λ from to. none;
  gateways = λ block address. none;
}

silent-answers :
    (state : Table Gateways) (n epoch interval : ℕ)
    → generate_gateway_epoch_state_for_cycle hashing silent state n epoch interval
      ≡ ok (insert n (continued state n) state)
unfolding generate_gateway_epoch_state_for_cycle generate_between
silent-answers state n epoch interval =
    let from = first_block state n in
    let stays : leb from from ≡ true = le→leb from from (omega arith) in rw stays refl

-- Rounds between 35 and 36, in cycle 3.
abbrev a_round : Round
a_round = record { now = 35; provider = silent; later = 36 }

a_round-InCycle : InCycle hashing 0 10 3 a_round
a_round-InCycle = record {
  begins = unfold current_cycle in refl;
  ends = unfold current_cycle in refl;
  answers = λ state n. (insert n (continued state n) state, silent-answers state n 0 10);
}

service_rounds-runs_away_example :
    (c' : ContractsClient) × (m : Gateways) × (service_rounds hashing a_client 4
        (a_round ∷ a_round ∷ a_round ∷ [])
      ≡ ok (again (4 + 3) c'))
    × (lookup 5 c'.gateway_epoch_state ≡ some m)
service_rounds-runs_away_example =
    service_rounds-runs_away hashing a_client 3 4 5 (a_round ∷ a_round ∷ a_round ∷ [])
      (omega arith, tt) (a_round-InCycle, (a_round-InCycle, (a_round-InCycle, tt))) (omega arith)
      (omega arith) (omega arith) (omega arith)

service_rounds-caught_up_example :
    (c' : ContractsClient) × (m : Gateways) × (service_rounds hashing a_client 1
        (a_round ∷ a_round ∷ a_round ∷ [])
      ≡ ok (caught_up 3 c'))
    × (lookup 2 c'.gateway_epoch_state ≡ some m)
service_rounds-caught_up_example =
    service_rounds-caught_up hashing a_client 3 1 2 (a_round ∷ a_round ∷ a_round ∷ [])
      (omega arith, tt) (a_round-InCycle, (a_round-InCycle, (a_round-InCycle, tt))) (omega arith)
      (omega arith) (omega arith) (omega arith) (omega arith)

abbrev one_gateway : Gateways
one_gateway = (7, gateway_at 7 200) ∷ []

abbrev no_gateways : Gateways
no_gateways = []

applied : process_logs hashing 95 one_gateway (log_of (28 ∷ 7 ∷ []) ∷ []) ≡ ok []
unfolding process_logs process_log process_gateway_deregistered_event remove
applied = refl

process_logs-history_example :
    contains_key 7 no_gateways
    ≡ history hashing 7 (log_of (28 ∷ 7 ∷ []) ∷ []) (contains_key 7 one_gateway)
process_logs-history_example =
    process_logs-history hashing 7 95 one_gateway no_gateways (log_of (28 ∷ 7 ∷ []) ∷ []) applied

-- Started in cycle 3 without a table, the service generates cycles 1 to 3, and on a tick cycle 4.
abbrev empty_client : ContractsClient
empty_client = record a_client { gateway_epoch_state = [] }

abbrev a_later_round : Round
a_later_round = record { now = 45; provider = silent; later = 46 }

four_cycles :
    gateway_epoch_state_service hashing empty_client 35
      (a_round ∷ a_round ∷ a_round ∷ [])
      ((a_later_round ∷ [], 47) ∷ [])
    ≡ ok (
        caught_up 5 (record empty_client {
          gateway_epoch_state = (1, []) ∷ (2, []) ∷ (3, []) ∷ (4, []) ∷ [];
        }))
unfolding gateway_epoch_state_service service_ticks service_tick service_rounds service_round
    initial_rounds initial_round initial_epoch_cycle after_initial_generation after_generation
    skip_old_cycles generate_gateway_epoch_state_for_cycle generate_between last_added
    previous_state current_cycle lookup insert callback_for_gateway_epoch_waitlist
    prune_old_cycle_states cycles_to_remove remove_all remove
four_cycles = refl
