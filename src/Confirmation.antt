-- ===== src/Confirmation.antt =====
-- src/chain_util.rs, `confirm_event`: a log of a request chain waits for its confirmations. The
-- answers of the provider, and what the other tasks store in `last_seen_block`, are readings by the
-- number of the round.
mod Laws
mod Ends
mod Tests
use serverless_gateway.Chain.{Log}
use serverless_gateway.Constants.{max_tx_receipt_retries}
use serverless_gateway.Words.{add64}
use serverless_gateway.Prelude.{
  leb, ◌==◌, if◌then◌else◌, ℕ, zero, suc, ◌+◌, true, Option, none, some,
}

-- `Result<Option<TransactionReceipt>>`.
pub data Receipt : Type 0 where
  receipt_present receipt_absent receipt_error : Receipt

-- What a round reads: the value that another task has stored in `last_seen_block` since the round
-- before, if one has, and the answers to `get_transaction_receipt` and `get_block_number`.
pub record ConfirmReadings : Type 0 where
  pub stored : ℕ → Option ℕ
  pub get_transaction_receipt : ℕ → Receipt
  pub get_block_number : ℕ → Option ℕ

-- Where the loop stands: before a round, with the retries and `last_seen_block`, or behind its
-- `break`, with the log and `last_seen_block`.
pub data Confirming : Type 0 where
  waiting : ℕ → ℕ → Confirming
  left_loop : Log → ℕ → Confirming

abbrev pub mark_removed : Log → Log
mark_removed log = record log { removed = some true }

abbrev pub or_zero : Option ℕ → ℕ
or_zero none = 0
or_zero (some n) = n

-- `last_seen_block.load`.
unfoldable pub load_last_seen : Option ℕ → ℕ → ℕ
load_last_seen none last_seen = last_seen
load_last_seen (some n) last_seen = n

unfoldable pub on_receipt : Log → ℕ → ℕ → Receipt → Confirming
on_receipt log retries last_seen receipt_present = left_loop log last_seen
on_receipt log retries last_seen receipt_absent = left_loop (mark_removed log) last_seen
on_receipt log retries last_seen receipt_error =
    if leb max_tx_receipt_retries (retries + 1)
    then left_loop (mark_removed log) last_seen
    else waiting (retries + 1) last_seen

-- The block number that is fetched is stored in `last_seen_block`.
unfoldable pub on_block_number : ℕ → ℕ → Option ℕ → Confirming
on_block_number retries last_seen none = waiting retries last_seen
on_block_number retries last_seen (some n) = waiting retries n

-- The block from which the log counts as confirmed.
abbrev pub confirmed_at : Log → ℕ → ℕ
confirmed_at log confirmation_blocks = add64 (or_zero log.block_number) confirmation_blocks

unfoldable pub confirm_round : Log → ℕ → ConfirmReadings → ℕ → ℕ → ℕ → Confirming
confirm_round log confirmation_blocks r round retries last_seen =
    let seen = load_last_seen (r.stored round) last_seen in
    if leb (confirmed_at log confirmation_blocks) seen
    then on_receipt log retries seen (r.get_transaction_receipt round)
    else on_block_number retries seen (r.get_block_number round)

-- The loop, for at most `fuel` rounds.
unfoldable pub confirm_rounds : Log → ℕ → ConfirmReadings → ℕ → ℕ → Confirming → Option (Log × ℕ)
confirm_rounds log confirmation_blocks r fuel round (left_loop log' last_seen) =
    some (log', last_seen)
confirm_rounds log confirmation_blocks r zero round (waiting retries last_seen) = none
confirm_rounds log confirmation_blocks r (suc fuel) round (waiting retries last_seen) =
    confirm_rounds log confirmation_blocks r fuel (suc round)
      (confirm_round log confirmation_blocks r round retries last_seen)

-- The log as it is returned, and `last_seen_block` then.
unfoldable pub confirm_event : Log → ℕ → ℕ → ConfirmReadings → ℕ → Option (Log × ℕ)
confirm_event log confirmation_blocks last_seen r fuel =
    let looped = confirm_rounds log confirmation_blocks r fuel 0 (waiting 0 last_seen) in
    if or_zero log.transaction_hash == 0 then some (mark_removed log, last_seen) else looped
