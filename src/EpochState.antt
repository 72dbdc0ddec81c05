-- ===== src/EpochState.antt =====
-- src/common_chain_gateway_state_service.rs: the gateways of each epoch cycle, built from the events
-- of the common chain up to the cycle's end, and the pruning of old cycles.
pub mod Prune
pub mod Stamped
pub mod Generate
pub mod History
pub mod Service
mod Tests
use serverless_gateway.Model.{ChainSet, GatewayData, ContractsClient, relay_handlers}
use serverless_gateway.Chain.{Log, ParamType, Token, Abi, topic, token, uint_at}
use serverless_gateway.Constants.{
  gateway_block_states_to_maintain, common_chain_gateway_registered_event,
  common_chain_gateway_deregistered_event, common_chain_gateway_chain_added_event,
  common_chain_gateway_chain_removed_event,
}
use serverless_gateway.Table.{Table, lookup, insert, remove, modify, keys}
use serverless_gateway.Words.{add64, sub64, mul64, div64, as_u64}
use serverless_gateway.Prelude.{
  ltb, leb, ◌==◌, if◌then◌else◌, Outcome, ◌>>=◌, unwrap, ok, ℕ, ◌*◌, ◌/◌, ◌%◌, ◌^◌, Bool, false,
  Option, none, some, List, [], ◌∷◌, ◌++◌, map,
}
use mathlib.Core.List.{reverse}

abbrev pub Gateways : Type 0
Gateways = Table GatewayData

-- `topics[1][12..]`: the last 20 bytes.
abbrev pub address_topic : Log → Outcome ℕ
address_topic log = topic log 1 >>= λ t. ok (t % 2 ^ 160)

-- The tokens of the array, each as a `u64`.
unfoldable pub collect_chains : List ℕ → ChainSet → Outcome ChainSet
collect_chains [] ids = ok ids
collect_chains (t ∷ tokens) ids = do id ← as_u64 t; collect_chains tokens (insert id tt ids)

unfoldable pub chains_of_token : Token → Outcome ChainSet
chains_of_token (Token.array tokens) = collect_chains tokens []
chains_of_token (Token.uint n) = ok []
chains_of_token (Token.address n) = ok []
chains_of_token (Token.bytes b) = ok []
chains_of_token (Token.fixed_bytes b) = ok []
chains_of_token (Token.string t) = ok []

abbrev pub new_gateway : ℕ → ℕ → ChainSet → GatewayData
new_gateway to_block_number address ids = record {
  last_block_number = to_block_number;
  address = address;
  stake_amount = 0;
  req_chain_ids = ids;
  draining = false;
}

abbrev pub registered_types : List ParamType
registered_types = ParamType.array (ParamType.uint 256) ∷ []

abbrev pub chain_types : List ParamType
chain_types = ParamType.uint 256 ∷ []

unfoldable pub register : Gateways → ℕ → ℕ → List Token → Outcome Gateways
register m to_block_number address decoded = do
  t ← token decoded 0
  ids ← chains_of_token t
  ok (insert address (new_gateway to_block_number address ids) m)

-- A log that cannot be decoded is passed over.
abbrev pub if_decoded :
    Option (List Token) → Gateways → (List Token → Outcome Gateways) → Outcome Gateways
if_decoded none m f = ok m
if_decoded (some decoded) m f = f decoded

unfoldable pub process_gateway_registered_event : Abi → Log → ℕ → Gateways → Outcome Gateways
unfolding register chains_of_token
process_gateway_registered_event abi log to_block_number m = address_topic log >>= λ address.
    if_decoded (abi.decode registered_types log.payload) m (register m to_block_number address)

unfoldable pub process_gateway_deregistered_event : Log → Gateways → Outcome Gateways
process_gateway_deregistered_event log m = address_topic log >>= λ address. ok (remove address m)

abbrev pub add_chain : ℕ → GatewayData → GatewayData
add_chain chain_id g = record g { req_chain_ids = insert chain_id tt g.req_chain_ids }

abbrev pub remove_chain : ℕ → GatewayData → GatewayData
remove_chain chain_id g = record g { req_chain_ids = remove chain_id g.req_chain_ids }

-- `get_mut` on the gateway of the log, with the chain id of the log.
unfoldable pub change_chain :
    (ℕ → GatewayData → GatewayData) → Abi → Log → Gateways → Outcome Gateways
change_chain f abi log m = address_topic log >>= λ address.
    if_decoded (abi.decode chain_types log.payload) m
      λ decoded. uint_at decoded 0 >>= as_u64 >>= λ chain_id. ok (modify address (f chain_id) m)

unfoldable pub process_chain_added_event : Abi → Log → Gateways → Outcome Gateways
unfolding change_chain
process_chain_added_event abi log m = change_chain add_chain abi log m

unfoldable pub process_chain_removed_event : Abi → Log → Gateways → Outcome Gateways
unfolding change_chain
process_chain_removed_event abi log m = change_chain remove_chain abi log m

-- The loop over the logs.
unfoldable pub process_log : Abi → ℕ → Gateways → Log → Outcome Gateways
process_log abi to_block_number m log = topic log 0 >>= λ topic0.
    if topic0 == abi.keccak256 common_chain_gateway_registered_event
    then process_gateway_registered_event abi log to_block_number m
    else if topic0 == abi.keccak256 common_chain_gateway_deregistered_event
    then process_gateway_deregistered_event log m
    else if topic0 == abi.keccak256 common_chain_gateway_chain_added_event
    then process_chain_added_event abi log m
    else if topic0 == abi.keccak256 common_chain_gateway_chain_removed_event
    then process_chain_removed_event abi log m
    else ok m

unfoldable pub process_logs : Abi → ℕ → Gateways → List Log → Outcome Gateways
process_logs abi to_block_number m [] = ok m
process_logs abi to_block_number m (log ∷ logs) = do
  m' ← process_log abi to_block_number m log
  process_logs abi to_block_number m' logs

-- What the cycle is read from: the block before a timestamp (`get_block_number_by_timestamp`), the
-- logs of the gateways contract between two blocks, where a failed call panics, and its `gateways` call at a block: stake and
-- draining.
pub record EpochProvider : Type 0 where
  pub block_before : ℕ → Option ℕ
  pub logs : ℕ → ℕ → Option (List Log)
  pub gateways : ℕ → ℕ → Option (ℕ × Bool)

-- A call that fails leaves the gateway as it is.
unfoldable pub refresh_stakes : (ℕ → Option (ℕ × Bool)) → List ℕ → Gateways → Gateways
refresh_stakes call [] m = m
refresh_stakes call (a ∷ addresses) m = refresh_stakes call addresses (elim (call a) [
  | none ↦ m
  | some (stake, draining) ↦
      modify a (λ g. record g { stake_amount = stake; draining = draining }) m
])

-- The loop from the latest cycle down: the last cycle looked at, and the first block after it. An
-- empty cycle is passed over, as it holds no block number.
unfoldable pub last_added : List (ℕ × Gateways) → ℕ → Option ℕ → Option ℕ × ℕ
last_added [] cycle_number last = (last, 0)
last_added ((cycle, []) ∷ rest) cycle_number last =
    last_added rest cycle_number (if ltb cycle cycle_number then some cycle else last)
last_added ((cycle, (a, g) ∷ m) ∷ rest) cycle_number last =
    let older = last_added rest cycle_number last in
    if ltb cycle cycle_number then (some cycle, add64 g.last_block_number 1) else older

unfoldable pub previous_state : Table Gateways → Option ℕ → Gateways
previous_state state none = []
previous_state state (some cycle) = elim (lookup cycle state) [ none ↦ [] | some m ↦ m ]

abbrev pub set_block : ℕ → ℕ × GatewayData → ℕ × GatewayData
set_block to_block_number (a, g) = (a, record g { last_block_number = to_block_number })

abbrev pub or_else : Option ℕ → ℕ → ℕ
or_else none d = d
or_else (some n) d = n

-- From the bounds on: nothing is read if the last block is not after the first.
unfoldable pub generate_between :
    Abi → EpochProvider → Table Gateways → ℕ → Gateways → ℕ → ℕ → Outcome (Table Gateways)
generate_between abi p state cycle_number previous from_block_number to_block_number =
    if leb to_block_number from_block_number
    then ok (insert cycle_number previous state)
    else (unwrap (p.logs from_block_number to_block_number)
        >>= process_logs abi to_block_number (map (set_block to_block_number) previous)
        >>= λ m.
            ok (insert cycle_number (refresh_stakes (p.gateways to_block_number) (keys m) m) state))

unfoldable pub generate_gateway_epoch_state_for_cycle :
    Abi → EpochProvider → Table Gateways → ℕ → ℕ → ℕ → Outcome (Table Gateways)
generate_gateway_epoch_state_for_cycle abi p state cycle_number epoch time_interval =
    let (last, from_block_number) = last_added (reverse state) cycle_number none in
    let timestamp_to_fetch : ℕ = add64 epoch (mul64 cycle_number time_interval) in
    generate_between abi p state cycle_number (previous_state state last) from_block_number
      (or_else (p.block_before timestamp_to_fetch) from_block_number)

-- `(now - epoch) / time_interval`.
unfoldable pub current_cycle : ℕ → ℕ → ℕ → Outcome ℕ
current_cycle now epoch time_interval = div64 (sub64 now epoch) time_interval

-- The keys from the first on, as long as they are old.
unfoldable pub cycles_to_remove : ℕ → List ℕ → List ℕ
cycles_to_remove current [] = []
cycles_to_remove current (cycle ∷ rest) =
    let more = cycle ∷ cycles_to_remove current rest in
    if leb (add64 (gateway_block_states_to_maintain * 3 / 2) cycle) current then more else []

unfoldable pub remove_all {ℓ} : {V : Type ℓ} → List ℕ → Table V → Table V
remove_all [] m = m
remove_all (k ∷ ks) m = remove_all ks (remove k m)

unfoldable pub prune_old_cycle_states : Table Gateways → ℕ → ℕ → ℕ → Outcome (Table Gateways)
prune_old_cycle_states state epoch time_interval now = do
  current ← current_cycle now epoch time_interval
  ok (remove_all (cycles_to_remove current (keys state)) state)

-- The jobs that waited for the cycle are handed to one task, which runs the relay handler on each of
-- them in turn.
unfoldable pub callback_for_gateway_epoch_waitlist : ContractsClient → ℕ → ContractsClient
callback_for_gateway_epoch_waitlist c cycle_number =
    elim (lookup cycle_number c.gateway_epoch_state_waitlist) [
      | none ↦ c
      | some jobs ↦ record c {
        gateway_epoch_state_waitlist = remove cycle_number c.gateway_epoch_state_waitlist;
        spawned = c.spawned ++ relay_handlers jobs ∷ [];
      }
    ]
