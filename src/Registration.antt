-- ===== src/Registration.antt =====
-- src/common_chain_interaction.rs, `wait_for_registration`: the listeners for the events of the
-- registration, and the loop that waits for their messages.
mod Laws
mod Tests
use serverless_gateway.Model.{ChainSet}
use serverless_gateway.Chain.{Log, is_removed}
use serverless_gateway.Prelude.{
  if◌then◌else◌, Outcome, ◌>>=◌, unwrap, ok, ℕ, Bool, true, false, ◌&&◌, Option, none, some, List,
  [], ◌∷◌,
}
use serverless_gateway.Confirmation.{ConfirmReadings, confirm_event}
use serverless_gateway.Table.{remove}

pub data RegisterType : Type 0 where
  common_chain request_chain : RegisterType

pub record RegisteredData : Type 0 where
  pub register_type : RegisterType
  pub chain_id : Option ℕ

-- The listener on the common chain, on the logs of its stream: the first that is not removed is
-- reported, and its block is where the client starts.
unfoldable pub listen_common_chain : ℕ → List Log → Option (RegisteredData × ℕ)
listen_common_chain start_block_number [] = none
listen_common_chain start_block_number (log ∷ logs) = elim (is_removed log) [
  | true ↦ listen_common_chain start_block_number logs
  | false ↦ some (
    record { register_type = common_chain; chain_id = none },
    elim log.block_number [ none ↦ start_block_number | some n ↦ n ],
  )
]

-- The listener on a request chain, whose logs are confirmed first, each within `fuel` rounds. It
-- returns `last_seen_block` with its message.
unfoldable pub listen_request_chain :
    ℕ → ℕ → ℕ → ℕ → List (Log × ConfirmReadings) → Option RegisteredData × ℕ
listen_request_chain chain_id confirmation_blocks fuel last_seen [] = (none, last_seen)
listen_request_chain chain_id confirmation_blocks fuel last_seen ((log, r) ∷ logs) =
    elim (confirm_event log confirmation_blocks last_seen r fuel) [
      | none ↦ (none, last_seen)
      | some (log', seen) ↦ elim (is_removed log') [
        | true ↦ listen_request_chain chain_id confirmation_blocks fuel seen logs
        | false ↦ (some (record { register_type = request_chain; chain_id = some chain_id }), seen)
      ]
    ]

-- One message: the flag of the common chain, and the chains that are not registered yet.
unfoldable pub note_registered : RegisteredData → Bool × ChainSet → Outcome (Bool × ChainSet)
note_registered m (common, left) = elim m.register_type [
  | common_chain ↦ ok (true, left)
  | request_chain ↦ unwrap m.chain_id >>= λ chain_id. ok (common, remove chain_id left)
]

abbrev pub none_left : ChainSet → Bool
none_left [] = true
none_left (n ∷ ns) = false

-- The loop on the messages, as far as they go: whether it marks the gateway as registered.
unfoldable pub await_registered : Bool × ChainSet → List RegisteredData → Outcome Bool
await_registered waiting_for [] = ok false
await_registered waiting_for (m ∷ ms) = note_registered m waiting_for >>= λ now_waiting_for.
    let rest = await_registered now_waiting_for ms in
    if now_waiting_for.0 && none_left now_waiting_for.1 then ok true else rest

-- At first the chains are those of the clients.
unfoldable pub wait_for_registration : ChainSet → List RegisteredData → Outcome Bool
wait_for_registration chain_ids ms = await_registered (false, chain_ids) ms
