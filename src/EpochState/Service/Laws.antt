-- ===== src/EpochState/Service/Laws.antt =====
-- When the inner loop of the service ends, and when it does not.
use serverless_gateway.EpochState.Service.{caught_up, again}
use serverless_gateway.Table.Sorted.{IsSorted}
use serverless_gateway.Model.{ContractsClient}
use serverless_gateway.Chain.{Abi}
use serverless_gateway.Constants.{gateway_block_states_to_maintain}
use serverless_gateway.Table.{lookup}
use serverless_gateway.Words.{u64_mod}
use serverless_gateway.Prelude.{
  ◌==◌, ==→eq, ==→ne, ==_ne, Bool-cases, length, All, ok, ℕ, suc, ◌+◌, ◌≤◌, ◌<◌, ◌≡◌, refl, ap, inl,
  inr, false, some, List, [], ◌∷◌, arith,
}
use serverless_gateway.EpochState.Service.{Round, again, service_rounds}
use serverless_gateway.EpochState.{Gateways}
use serverless_gateway.EpochState.Service.Rounds.{
  InCycle, callback-state, generated, service_round-after, after_generation-again,
  after_generation-caught_up, generated-tables, ToComeOrKnown, ToComeOrKnown-next,
}

catches_up :
    (abi : Abi) (c : ContractsClient) (current n cycle : ℕ) (rounds : List Round)
    → IsSorted c.gateway_epoch_state
    → All (InCycle abi c.epoch c.time_interval current) rounds
    → n ≤ current
    → current < n + gateway_block_states_to_maintain
    → current + gateway_block_states_to_maintain < u64_mod
    → current < n + length rounds
    → ToComeOrKnown n cycle c.gateway_epoch_state
    → cycle ≤ current
    → (c' : ContractsClient) × (m : Gateways) × (service_rounds abi c n rounds
        ≡ ok (caught_up current c'))
      × (lookup cycle c'.gateway_epoch_state ≡ some m)
unfolding service_rounds
catches_up abi c current n cycle [] sorted all behind recent room enough kept within =
    absurd (omega arith)
catches_up abi c current n cycle (r ∷ rounds) sorted all behind recent room enough kept within =
    let (after, answered, round) =
      service_round-after abi c current n r all.0 recent (omega arith) in
    let (m, tables, rising) =
      generated-tables abi r.provider c.gateway_epoch_state after n c.epoch c.time_interval sorted
        answered in
    let kept' = ToComeOrKnown-next n cycle m c.gateway_epoch_state after tables kept in
    let (same_state, epoch, interval) =
      callback-state (record c { gateway_epoch_state = after }) n in
    elim (Bool-cases (n == current)) [
      | inl there ↦ elim kept' [
        | inl later ↦ absurd (omega (arith, ==→eq n current there))
        | inr (k, known) ↦ (
          generated c n after,
          k,
          rw (round, after_generation-caught_up c current n r.later after all.0.ends there)
              (ap (λ x. ok (caught_up x (generated c n after))) (==→eq n current there)),
          rw same_state known,
        )
      ]
      | inr before ↦
          let others : All
              (InCycle abi (generated c n after).epoch (generated c n after).time_interval current)
              rounds =
            rw (epoch, interval) all.1 in
          let (c', k, rest, known) =
            catches_up abi (generated c n after) current (n + 1) cycle rounds (rw same_state rising)
              others (omega (arith, ==→ne n current before)) (omega arith) room (omega arith)
              (rw same_state kept') within in
          (
            c',
            k,
            rw
                (
                  round,
                  after_generation-again c current n r.later after all.0.ends before (omega arith),
                  rest,
                )
                refl,
            known,
          )
    ]

-- A cycle number that is at most the clock's, and not too old, is caught up: with as many rounds in
-- one cycle of the clock as there are cycles from it to the clock's, the inner loop ends at the
-- clock's cycle, and each of these cycles then has a table. (The numbers fit a `u64`, the
-- generation does not panic, and the cycles of the client rise.)
pub service_rounds-caught_up :
    (abi : Abi) (c : ContractsClient) (current cycle_number cycle : ℕ) (rounds : List Round)
    → IsSorted c.gateway_epoch_state
    → All (InCycle abi c.epoch c.time_interval current) rounds
    → current < cycle_number + gateway_block_states_to_maintain
    → current + gateway_block_states_to_maintain < u64_mod
    → current < cycle_number + length rounds
    → cycle_number ≤ cycle
    → cycle ≤ current
    → (c' : ContractsClient) × (m : Gateways) × (service_rounds abi c cycle_number rounds
        ≡ ok (caught_up current c'))
      × (lookup cycle c'.gateway_epoch_state ≡ some m)
service_rounds-caught_up abi c current n cycle rounds sorted all recent room enough first last =
    catches_up abi c current n cycle rounds sorted all (omega arith) recent room enough (inl first)
      last

runs_away :
    (abi : Abi) (c : ContractsClient) (current n cycle : ℕ) (rounds : List Round)
    → IsSorted c.gateway_epoch_state
    → All (InCycle abi c.epoch c.time_interval current) rounds
    → current < n
    → n + length rounds + gateway_block_states_to_maintain < u64_mod
    → ToComeOrKnown n cycle c.gateway_epoch_state
    → cycle < n + length rounds
    → (c' : ContractsClient) × (m : Gateways) × (service_rounds abi c n rounds
        ≡ ok (again (n + length rounds) c'))
      × (lookup cycle c'.gateway_epoch_state ≡ some m)
unfolding service_rounds
runs_away abi c current n cycle [] sorted all ahead room (inl later) within = absurd (omega arith)
runs_away abi c current n cycle [] sorted all ahead room (inr (m, known)) within =
    (c, m, let e : n ≡ n + 0 = omega arith in ap (λ k. ok (again k c)) e, known)
runs_away abi c current n cycle (r ∷ rounds) sorted all ahead room kept within =
    let (after, answered, round) =
      service_round-after abi c current n r all.0 (omega arith) (omega arith) in
    let (m, tables, rising) =
      generated-tables abi r.provider c.gateway_epoch_state after n c.epoch c.time_interval sorted
        answered in
    let kept' = ToComeOrKnown-next n cycle m c.gateway_epoch_state after tables kept in
    let (same_state, epoch, interval) =
      callback-state (record c { gateway_epoch_state = after }) n in
    let beyond : (n == current) ≡ false = ==_ne n current (omega arith) in
    let others : All
        (InCycle abi (generated c n after).epoch (generated c n after).time_interval current)
        rounds =
      rw (epoch, interval) all.1 in
    let (c', k, rest, known) =
      runs_away abi (generated c n after) current (n + 1) cycle rounds (rw same_state rising) others
        (omega arith) (omega arith) (rw same_state kept') (omega arith) in
    let e : n + 1 + length rounds ≡ n + suc (length rounds) = omega arith in
    (
      c',
      k,
      rw
          (
            round,
            after_generation-again c current n r.later after all.0.ends beyond (omega arith),
            rest,
            e,
          )
          refl,
      known,
    )

-- A cycle number ahead of the clock never ends the inner loop: after one or more rounds in one
-- cycle of the clock, the loop goes on with the cycle number that many further, and each of the
-- cycles from the one at the start to there, all in the future, has a table. (The numbers fit a
-- `u64`, the generation does not panic, and the cycles of the client rise.)
pub service_rounds-runs_away :
    (abi : Abi) (c : ContractsClient) (current cycle_number cycle : ℕ) (rounds : List Round)
    → IsSorted c.gateway_epoch_state
    → All (InCycle abi c.epoch c.time_interval current) rounds
    → current < cycle_number
    → cycle_number + length rounds + gateway_block_states_to_maintain < u64_mod
    → cycle_number ≤ cycle
    → cycle < cycle_number + length rounds
    → (c' : ContractsClient) × (m : Gateways) × (service_rounds abi c cycle_number rounds
        ≡ ok (again (cycle_number + length rounds) c'))
      × (lookup cycle c'.gateway_epoch_state ≡ some m)
service_rounds-runs_away abi c current n cycle rounds sorted all ahead room first last =
    runs_away abi c current n cycle rounds sorted all ahead room (inl first) last
