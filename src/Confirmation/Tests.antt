-- ===== src/Confirmation/Tests.antt =====
-- Confirmations at concrete inputs.
use serverless_gateway.Chain.{Log}
use serverless_gateway.Prelude.{
  ltb, if◌then◌else◌, ℕ, ◌+◌, ◌≤◌, ◌<◌, ◌≡◌, refl, none, some, [], ◌∷◌, arith,
}
use serverless_gateway.Samples.{log_of}
use serverless_gateway.Confirmation.{
  confirm_round, ConfirmReadings, load_last_seen, on_receipt, on_block_number, confirmed_at,
  confirm_rounds, confirm_event, receipt_present, receipt_error,
}
use serverless_gateway.Confirmation.Laws.{confirm_event-Confirmed}
use serverless_gateway.Confirmation.Ends.{confirm_event-ends}

-- A log in block 90.
abbrev in_block_90 : Log
in_block_90 = record (log_of (28 ∷ [])) { block_number = some 90; transaction_hash = some 7 }

-- The chain grows by a block each round, from block 92; the receipt fails once.
abbrev growing : ConfirmReadings
growing = record {
  stored = λ round. none;
  get_transaction_receipt = λ round. if ltb round 4 then receipt_error else receipt_present;
  get_block_number = λ round. some (92 + round);
}

confirmed_log : confirm_event in_block_90 5 0 growing 9 ≡ some (in_block_90, 95)
unfolding confirm_event confirm_rounds confirm_round load_last_seen on_receipt on_block_number
confirmed_log = refl

confirm_event-Confirmed_example :
    (in_block_90 ≡ in_block_90)
    × ((h : ℕ) × (in_block_90.transaction_hash ≡ some h) × (0 < h))
    × (confirmed_at in_block_90 5 ≤ 95)
    × ((i : ℕ) × (i < 9) × (growing.get_transaction_receipt i ≡ receipt_present))
confirm_event-Confirmed_example =
    confirm_event-Confirmed in_block_90 in_block_90 5 0 95 growing 9 confirmed_log refl

-- Round 3 fetches block 95, and from then on the numbers are enough.
confirm_event-ends_example :
    (log' : Log) × (seen : ℕ) × (confirm_event in_block_90 5 0 growing (3 + 6) ≡ some (log', seen))
confirm_event-ends_example =
    confirm_event-ends in_block_90 5 0 growing 3 (λ i n late e. cc)
      (λ i late. (92 + i, refl, omega arith))
