-- ===== src/Api.antt =====
-- src/api_impl.rs: the endpoints, on the state of src/model.rs that src/main.rs creates. Parsing,
-- keys and connections belong to libraries and are parameters.
pub mod Export
pub mod Runs
mod Steps
mod Belongs
mod Consistent
mod Settled
mod Tests
use serverless_gateway.Model.{ChainSet, ContractsClient}
use serverless_gateway.Prelude.{
  ◌==◌, if◌then◌else◌, ℕ, String, Bool, true, false, not, ◌&&◌, Option, none, some, List, [], ◌∷◌,
}
use serverless_gateway.Table.{Table}

-- What the libraries answer: `H160::from_str`, `hex::decode_to_slice` into 32 bytes,
-- `LocalWallet::from_bytes`, `Wallet::address`, whether `Provider::try_from` takes a URL, and the
-- order in which a `HashSet` is iterated.
pub record ApiLibraries : Type 0 where
  pub address_from_str : String → Option ℕ
  pub decode_to_slice : String → Option (List ℕ)
  pub wallet_from_bytes : List ℕ → Option ℕ
  pub wallet_address : ℕ → ℕ
  pub connects : String → Bool
  pub set_order : ChainSet → List ℕ

-- `LocalWallet`: a key and a chain.
pub record LocalWallet : Type 0 where
  pub key : ℕ
  pub chain_id : ℕ

abbrev pub with_chain_id : LocalWallet → ℕ → LocalWallet
with_chain_id w chain_id = record w { chain_id = chain_id }

-- A contract, with the wallet that signs its transactions.
pub record Contract : Type 0 where
  pub contract_address : ℕ
  pub signer : LocalWallet

pub record RequestChainClient : Type 0 where
  pub chain_id : ℕ
  pub relay_address : ℕ
  pub relay_subscriptions_address : ℕ
  pub http_rpc_url : String
  pub relay_contract : Contract
  pub relay_subscriptions_contract : Contract
  pub request_chain_start_block_number : ℕ
  pub confirmation_blocks : ℕ
  pub last_seen_block : ℕ

-- The fields of `ContractsClient` that the handlers do not use, and the rest.
pub record ChainClients : Type 0 where
  pub enclave_owner : ℕ
  pub gateway_jobs_contract : Contract
  pub request_chain_clients : Table RequestChainClient
  pub common_chain_start_block_number : ℕ
  pub client : ContractsClient

pub record AppState : Type 0 where
  pub enclave_address : ℕ
  pub wallet : Option LocalWallet
  pub common_chain_id : ℕ
  pub common_chain_http_url : String
  pub gateway_jobs_contract_addr : ℕ
  pub request_chain_ids : ChainSet
  pub registered : Bool
  pub epoch : ℕ
  pub time_interval : ℕ
  pub offset_for_epoch : ℕ
  pub enclave_owner : ℕ
  pub immutable_params_injected : Bool
  pub mutable_params_injected : Bool
  pub registration_events_listener_active : Bool
  pub contracts_client : Option ChainClients

-- `struct Config`, in the fields that the state keeps.
pub record Config : Type 0 where
  pub common_chain_id : ℕ
  pub common_chain_http_url : String
  pub gateway_jobs_contract_addr : ℕ
  pub epoch : ℕ
  pub time_interval : ℕ
  pub offset_for_epoch : ℕ

-- The state that `main` creates.
unfoldable pub initial_app_state : Config → ℕ → AppState
initial_app_state config enclave_address = record {
  enclave_address = enclave_address;
  wallet = none;
  common_chain_id = config.common_chain_id;
  common_chain_http_url = config.common_chain_http_url;
  gateway_jobs_contract_addr = config.gateway_jobs_contract_addr;
  request_chain_ids = [];
  registered = false;
  epoch = config.epoch;
  time_interval = config.time_interval;
  offset_for_epoch = config.offset_for_epoch;
  enclave_owner = 0;
  immutable_params_injected = false;
  mutable_params_injected = false;
  registration_events_listener_active = false;
  contracts_client = none;
}

-- The statuses of the responses that refuse a request.
pub data Status : Type 0 where
  bad_request not_acceptable internal_server_error : Status

-- A request that is answered with a value, refused, or ended by a panic.
pub data Served {ℓ} (A : Type ℓ) : Type ℓ where
  served : A → Served A
  refused : Status → Served A
  crashed : Served A

abbrev pub and_then {ℓ κ} : {A : Type ℓ} {B : Type κ} → Served A → (A → Served B) → Served B
and_then (served a) next = next a
and_then (refused status) next = refused status
and_then crashed next = crashed

-- An early return where a test fails, and where a value is not there.
abbrev pub require : Bool → Status → Served (Unit {0})
require b status = if b then served tt else refused status

abbrev pub found_or {ℓ} : {A : Type ℓ} → Status → Option A → Served A
found_or status none = refused status
found_or status (some a) = served a

-- The state after a request, which a refusal leaves as it is.
unfoldable pub inject_immutable_config : ApiLibraries → AppState → String → Served AppState
inject_immutable_config libs s owner_address_hex =
    and_then (found_or bad_request (libs.address_from_str owner_address_hex)) (λ owner_address.
      and_then (require (not s.immutable_params_injected) bad_request) (λ u.
        served (record s { enclave_owner = owner_address; immutable_params_injected = true })))

-- Every client's server takes a connection.
unfoldable pub all_connect : ApiLibraries → Table RequestChainClient → Bool
all_connect libs [] = true
all_connect libs ((chain_id, r) ∷ rs) = libs.connects r.http_rpc_url && all_connect libs rs

-- The contracts of each chain, with the new wallet. A client is stored under its own `chain_id`.
unfoldable pub sign_clients : LocalWallet → Table RequestChainClient → Table RequestChainClient
sign_clients w [] = []
sign_clients w ((chain_id, r) ∷ rs) =
    (
      chain_id,
      record r {
        relay_contract = record {
          contract_address = r.relay_address;
          signer = with_chain_id w chain_id;
        };
        relay_subscriptions_contract = record {
          contract_address = r.relay_subscriptions_address;
          signer = with_chain_id w chain_id;
        };
      },
    )
    ∷ sign_clients w rs

-- The clients are updated once every server has been reached.
unfoldable pub update_contracts :
    ApiLibraries → AppState → LocalWallet → Option ChainClients → Served (Option ChainClients)
update_contracts libs s w none = served none
update_contracts libs s w (some c) =
    and_then
      (require (libs.connects s.common_chain_http_url && all_connect libs c.request_chain_clients)
        internal_server_error)
      (λ u. served (
        some (record c {
          gateway_jobs_contract = record {
            contract_address = s.gateway_jobs_contract_addr;
            signer = w;
          };
          request_chain_clients = sign_clients w c.request_chain_clients;
        })))

-- `*wallet_guard == Some(gas_wallet)`.
abbrev pub same_wallet : Option LocalWallet → LocalWallet → Bool
same_wallet none w = false
same_wallet (some v) w = v.key == w.key && v.chain_id == w.chain_id

unfoldable pub inject_mutable_config : ApiLibraries → AppState → String → Served AppState
inject_mutable_config libs s gas_key_hex =
    and_then (found_or bad_request (libs.decode_to_slice gas_key_hex)) (λ bytes32_gas_key.
      and_then (found_or bad_request (libs.wallet_from_bytes bytes32_gas_key)) (λ key.
        let gas_wallet : LocalWallet = record { key = key; chain_id = s.common_chain_id } in
        and_then (require (not (same_wallet s.wallet gas_wallet)) not_acceptable) (λ u.
          and_then (update_contracts libs s gas_wallet s.contracts_client) (λ clients.
            served (record s {
              contracts_client = clients;
              wallet = some gas_wallet;
              mutable_params_injected = true;
            })))))

pub record GatewayDetailsResponse : Type 0 where
  pub enclave_address : ℕ
  pub owner_address : ℕ
  pub gas_address : ℕ

-- The public key of the enclave is left out.
unfoldable pub get_gateway_details : ApiLibraries → AppState → Served GatewayDetailsResponse
get_gateway_details libs s = and_then (require s.immutable_params_injected bad_request) (λ u.
    and_then (require s.mutable_params_injected bad_request) (λ v. elim s.wallet [
      | none ↦ crashed
      | some w ↦ served (record {
        enclave_address = s.enclave_address;
        owner_address = s.enclave_owner;
        gas_address = libs.wallet_address w.key;
      })
    ]))
