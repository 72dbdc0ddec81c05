-- ===== src/EpochState/Generate.antt =====
-- What the generation of a cycle writes.
use mathlib.Core.List.{reverse}
use serverless_gateway.Words.{add64, mul64}
use serverless_gateway.Chain.{Abi}
use serverless_gateway.Table.{Table, lookup, insert, keys}
use serverless_gateway.Prelude.{
  leb, ◌==◌, if◌then◌else◌, Bool-cases, All, Outcome, ◌>>=◌, unwrap, ok, err, panicked, ℕ, ◌≡◌,
  refl, inl, inr, Bool, true, false, none, some, map, arith,
}
use serverless_gateway.Table.Laws.{lookup-insert}
use serverless_gateway.Table.Sorted.{IsSorted, insert-From}
use serverless_gateway.EpochState.{
  Gateways, EpochProvider, generate_between, process_logs, refresh_stakes, last_added,
  previous_state, set_block, or_else, generate_gateway_epoch_state_for_cycle,
}
use serverless_gateway.EpochState.Stamped.{
  At, Stamped, >>=-Stamped, unwrap-not-err, process_logs-Stamped, set_block-At, refresh_stakes-At,
}

-- The cycle's table: that of the cycle before where no block is read, else one of gateways that
-- all bear the last block.
abbrev pub Continues : Bool → Gateways → ℕ → Gateways → Type 0
Continues true previous to m = m ≡ previous
Continues false previous to m = All (At to) m

-- The state after a cycle is written: its table is there, every other cycle is as it was, and the
-- cycles still rise.
unfoldable pub Wrote : ℕ → Table Gateways → Gateways → ℕ → ℕ → Outcome (Table Gateways) → Type 0
Wrote cycle_number state previous from to (ok after) =
    (m : Gateways) × ((k : ℕ)
      → lookup k after ≡ (if k == cycle_number then some m else lookup k state))
    × Continues (leb to from) previous to m
    × IsSorted after
Wrote cycle_number state previous from to (err e) = ⊥
Wrote cycle_number state previous from to panicked = Unit

insert-Wrote :
    (cycle_number : ℕ) (m : Gateways) (state : Table Gateways) (previous : Gateways) (from to : ℕ)
    → IsSorted state
    → Continues (leb to from) previous to m
    → Wrote cycle_number state previous from to (ok (insert cycle_number m state))
unfolding Wrote
insert-Wrote c m state previous from to s h =
    (m, λ k. lookup-insert c k m state, h, insert-From 0 c m state (omega arith) s)

refreshed-Wrote :
    (p : EpochProvider) (state : Table Gateways) (cycle_number : ℕ) (previous : Gateways)
    (from to : ℕ) (o : Outcome Gateways)
    → IsSorted state
    → leb to from ≡ false
    → Stamped to o
    → Wrote cycle_number state previous from to
        (o >>= λ m. ok (insert cycle_number (refresh_stakes (p.gateways to) (keys m) m) state))
unfolding Wrote Stamped
refreshed-Wrote p state c previous from to (ok m) s some_new all =
    insert-Wrote c (refresh_stakes (p.gateways to) (keys m) m) state previous from to s
      (rw some_new (refresh_stakes-At to (p.gateways to) (keys m) m all))
refreshed-Wrote p state c previous from to (err e) s some_new all = all
refreshed-Wrote p state c previous from to panicked s some_new all = tt

generate_between-Wrote :
    (abi : Abi) (p : EpochProvider) (state : Table Gateways) (cycle_number : ℕ)
    (previous : Gateways) (from to : ℕ)
    → IsSorted state
    → Wrote cycle_number state previous from to
        (generate_between abi p state cycle_number previous from to)
unfolding generate_between
generate_between-Wrote abi p state c previous from to s = elim (Bool-cases (leb to from)) [
  | inl none_new ↦ rw none_new (insert-Wrote c previous state previous from to s (rw none_new refl))
  | inr some_new ↦
      let read = process_logs abi to (map (set_block to) previous) in
      rw some_new (
        refreshed-Wrote p state c previous from to (unwrap (p.logs from to) >>= read) s some_new (
          >>=-Stamped to (unwrap (p.logs from to)) read (unwrap-not-err (p.logs from to)) λ logs.
            process_logs-Stamped abi to (map (set_block to) previous) logs
              (set_block-At to previous)))
]

-- Where the generation of a cycle reads from and up to, and the table that it continues.
abbrev pub first_block : Table Gateways → ℕ → ℕ
first_block state cycle_number = (last_added (reverse state) cycle_number none).1

abbrev pub continued : Table Gateways → ℕ → Gateways
continued state cycle_number = previous_state state (last_added (reverse state) cycle_number none).0

abbrev pub last_block : EpochProvider → Table Gateways → ℕ → ℕ → ℕ → ℕ
last_block p state cycle_number epoch time_interval =
    or_else (p.block_before (add64 epoch (mul64 cycle_number time_interval)))
      (first_block state cycle_number)

pub generate_gateway_epoch_state_for_cycle-Wrote :
    (abi : Abi) (p : EpochProvider) (state : Table Gateways) (cycle_number epoch time_interval : ℕ)
    → IsSorted state
    → Wrote cycle_number state
        (continued state cycle_number)
        (first_block state cycle_number)
        (last_block p state cycle_number epoch time_interval)
        (generate_gateway_epoch_state_for_cycle abi p state cycle_number epoch time_interval)
unfolding generate_gateway_epoch_state_for_cycle
generate_gateway_epoch_state_for_cycle-Wrote abi p state c epoch time_interval s =
    generate_between-Wrote abi p state c (continued state c) (first_block state c)
      (last_block p state c epoch time_interval) s
