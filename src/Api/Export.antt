-- ===== src/Api/Export.antt =====
-- src/api_impl.rs, `export_signed_registration_message`. Between its checks and the creation of the
-- client it waits for the chains, and other requests are served meanwhile: it is two steps, with
-- what it has gathered in between.
use serverless_gateway.Model.{ChainSet, ContractsClient}
use serverless_gateway.Chain.{Token}
use serverless_gateway.Prelude.{
  ◌==◌, if◌then◌else◌, ℕ, String, Bool, true, false, not, ◌&&◌, ◌||◌, Option, none, some, List, [],
  ◌∷◌,
}
use serverless_gateway.Api.{
  AppState, ApiLibraries, LocalWallet, with_chain_id, RequestChainClient, Served, and_then, require,
  found_or, bad_request, internal_server_error, served, refused, crashed,
}
use serverless_gateway.Signing.{Crypto, sign_digest, typed_data}
use serverless_gateway.Table.{insert, Table, lookup}

pub record RequestChainData : Type 0 where
  pub relay_address : ℕ
  pub relay_subscriptions_address : ℕ
  pub http_rpc_url : String
  pub block_number : ℕ

-- What the request reads of the chains and the clock. `request_chains` of the gateways contract
-- answers with two addresses and a URL.
pub record ExportReadings : Type 0 where
  pub now : ℕ
  pub common_chain_block_number : Option ℕ
  pub request_chains : ℕ → Option (ℕ × ℕ × String)
  pub block_number : ℕ → Option ℕ

-- What is gathered before the client is created.
pub record Prepared : Type 0 where
  pub chain_ids : ChainSet
  pub requested : List ℕ
  pub enclave_owner : ℕ
  pub sign_timestamp : ℕ
  pub common_chain_signature : List ℕ
  pub request_chain_signature : List ℕ
  pub common_chain_block_number : ℕ
  pub request_chains_data : Table RequestChainData

pub record SignedRegistrationResponse : Type 0 where
  pub owner : ℕ
  pub sign_timestamp : ℕ
  pub chain_ids : List ℕ
  pub common_chain_signature : List ℕ
  pub request_chain_signature : List ℕ

-- `collect` into a `HashSet`.
unfoldable pub set_of : List ℕ → ChainSet
set_of [] = []
set_of (n ∷ ns) = insert n tt (set_of ns)

-- The equality of two sets, whose elements are listed in their order.
unfoldable pub same_set : ChainSet → ChainSet → Bool
same_set [] [] = true
same_set [] ((n, u) ∷ ns) = false
same_set ((m, u) ∷ ms) [] = false
same_set ((m, u) ∷ ms) ((n, v) ∷ ns) = m == n && same_set ms ns

abbrev pub is_empty_set : ChainSet → Bool
is_empty_set [] = true
is_empty_set (n ∷ ns) = false

abbrev pub is_some {ℓ} : {A : Type ℓ} → Option A → Bool
is_some none = false
is_some (some a) = true

-- The chains are those of the state, if it has any.
abbrev pub chain_ids_fit : ChainSet → ChainSet → Bool
chain_ids_fit known chain_ids = is_empty_set known || same_set known chain_ids

-- The checks, in their order.
unfoldable pub may_export : AppState → ChainSet → Served (Unit {0})
may_export s chain_ids = and_then (require (not s.registered) bad_request) (λ a.
    and_then (require (not (is_empty_set chain_ids)) bad_request) (λ b.
      and_then (require (chain_ids_fit s.request_chain_ids chain_ids) bad_request) (λ c.
        and_then (require s.immutable_params_injected bad_request) (λ d.
          and_then (require s.mutable_params_injected bad_request)
            (λ e. require (is_some s.wallet) bad_request)))))

-- The hash of the chain ids is that of their packed encoding, in the order of the set.
unfoldable pub common_chain_register_tokens : Crypto → ℕ → List ℕ → ℕ → List Token
common_chain_register_tokens k enclave_owner packed_chain_ids sign_timestamp =
    Token.fixed_bytes
      (k.keccak256_text "Register(address owner,uint256[] chainIds,uint256 signTimestamp)")
    ∷ Token.address enclave_owner
    ∷ Token.fixed_bytes (k.keccak256 packed_chain_ids)
    ∷ Token.uint sign_timestamp
    ∷ []

unfoldable pub request_chain_register_tokens : Crypto → ℕ → ℕ → List Token
request_chain_register_tokens k enclave_owner sign_timestamp =
    Token.fixed_bytes (k.keccak256_text "Register(address owner,uint256 signTimestamp)")
    ∷ Token.address enclave_owner
    ∷ Token.uint sign_timestamp
    ∷ []

abbrev pub found_or_crash {ℓ} : {A : Type ℓ} → Option A → Served A
found_or_crash none = crashed
found_or_crash (some a) = served a

-- The signature for the common chain, and the one for the request chains.
unfoldable pub registration_signatures :
    ApiLibraries → Crypto → ℕ → ℕ → ChainSet → Served (List ℕ × List ℕ)
registration_signatures libs k enclave_owner now chain_ids =
    and_then (found_or_crash (k.encode_packed (Token.array (libs.set_order chain_ids) ∷ [])))
      (λ packed_chain_ids.
        and_then
          (found_or internal_server_error (
            sign_digest k now (
              typed_data k "marlin.oyster.Gateways"
                (common_chain_register_tokens k enclave_owner packed_chain_ids now))))
          (λ common.
            and_then
              (found_or internal_server_error (
                sign_digest k now (
                  typed_data k "marlin.oyster.Relay"
                    (request_chain_register_tokens k enclave_owner now))))
              (λ request. served (common.0, request.0))))

-- The data of each chain in turn. A block number that is not fetched panics.
unfoldable pub fetch_request_chains :
    ApiLibraries → ExportReadings → List ℕ → Served (Table RequestChainData)
fetch_request_chains libs r [] = served []
fetch_request_chains libs r (chain_id ∷ chain_ids) =
    and_then (found_or internal_server_error (r.request_chains chain_id))
      (λ (relay, subscriptions, url).
        and_then (require (libs.connects url) internal_server_error) (λ u.
          and_then (found_or_crash (r.block_number chain_id)) (λ block_number.
            and_then (fetch_request_chains libs r chain_ids) (λ others. served (
              insert chain_id
                (record {
                  relay_address = relay;
                  relay_subscriptions_address = subscriptions;
                  http_rpc_url = url;
                  block_number = block_number;
                })
                others)))))

-- Up to the last wait.
unfoldable pub prepare_export :
    ApiLibraries → Crypto → AppState → ExportReadings → List ℕ → Served Prepared
prepare_export libs k s r requested =
    let chain_ids = set_of requested in
    and_then (may_export s chain_ids) (λ u.
      and_then (registration_signatures libs k s.enclave_owner r.now chain_ids)
        (λ (common, request).
          and_then (require (libs.connects s.common_chain_http_url) internal_server_error) (λ v.
            and_then (found_or internal_server_error r.common_chain_block_number) (λ block_number.
              and_then (fetch_request_chains libs r (libs.set_order chain_ids)) (λ chains.
                served (record {
                  chain_ids = chain_ids;
                  requested = requested;
                  enclave_owner = s.enclave_owner;
                  sign_timestamp = r.now;
                  common_chain_signature = common;
                  request_chain_signature = request;
                  common_chain_block_number = block_number;
                  request_chains_data = chains;
                }))))))

unfoldable pub request_chain_client : LocalWallet → ℕ → RequestChainData → RequestChainClient
request_chain_client w chain_id d = record {
  chain_id = chain_id;
  relay_address = d.relay_address;
  relay_subscriptions_address = d.relay_subscriptions_address;
  http_rpc_url = d.http_rpc_url;
  relay_contract = record { contract_address = d.relay_address; signer = with_chain_id w chain_id };
  relay_subscriptions_contract = record {
    contract_address = d.relay_subscriptions_address;
    signer = with_chain_id w chain_id;
  };
  request_chain_start_block_number = d.block_number;
  confirmation_blocks = 5;
  last_seen_block = 0;
}

-- A client for each chain in turn.
unfoldable pub create_clients :
    ApiLibraries → LocalWallet → Table RequestChainData → List ℕ → Served (Table RequestChainClient)
create_clients libs w data_of [] = served []
create_clients libs w data_of (chain_id ∷ chain_ids) =
    and_then (found_or_crash (lookup chain_id data_of)) (λ d.
      and_then (require (libs.connects d.http_rpc_url) internal_server_error) (λ u.
        and_then (create_clients libs w data_of chain_ids)
          (λ others. served (insert chain_id (request_chain_client w chain_id d) others))))

-- `ContractsClient` as it is created, for the handlers.
unfoldable pub new_client : AppState → ChainSet → ContractsClient
new_client s chain_ids = record {
  enclave_address = s.enclave_address;
  gateway_epoch_state = [];
  request_chain_ids = chain_ids;
  active_jobs = [];
  current_jobs = [];
  epoch = s.epoch;
  time_interval = s.time_interval;
  offset_for_epoch = s.offset_for_epoch;
  gateway_epoch_state_waitlist = [];
  subscription_job_instance_heap = [];
  subscription_jobs = [];
  req_chain_tx = [];
  com_chain_tx = [];
  job_subscription_tx = [];
  spawned = [];
}

-- The client, and its listener.
unfoldable pub activated : AppState → Prepared → LocalWallet → Table RequestChainClient → AppState
activated s p w clients = record s {
  contracts_client = some (record {
    enclave_owner = p.enclave_owner;
    gateway_jobs_contract = record {
      contract_address = s.gateway_jobs_contract_addr;
      signer = with_chain_id w s.common_chain_id;
    };
    request_chain_clients = clients;
    common_chain_start_block_number = p.common_chain_block_number;
    client = new_client s p.chain_ids;
  });
  registration_events_listener_active = true;
}

-- They are created where the listener is not active yet.
unfoldable pub activate_listener :
    AppState → Prepared → LocalWallet → Table RequestChainClient → AppState
activate_listener s p w clients =
    if s.registration_events_listener_active then s else activated s p w clients

-- The second check of the chains, which are kept where the state has none yet.
unfoldable pub keep_chain_ids : AppState → ChainSet → Served AppState
keep_chain_ids s chain_ids =
    if is_empty_set s.request_chain_ids
    then served (record s { request_chain_ids = chain_ids })
    else (if same_set s.request_chain_ids chain_ids then served s else refused bad_request)

-- Behind the last wait, in one step under the lock of the wallet.
unfoldable pub commit_export :
    ApiLibraries → AppState → Prepared → Served (SignedRegistrationResponse × AppState)
commit_export libs s p = and_then (found_or_crash s.wallet) (λ w.
    and_then (require (libs.connects s.common_chain_http_url) internal_server_error) (λ u.
      and_then (create_clients libs w p.request_chains_data (libs.set_order p.chain_ids))
        (λ clients. and_then (keep_chain_ids s p.chain_ids) (λ s'. served (
          record {
            owner = p.enclave_owner;
            sign_timestamp = p.sign_timestamp;
            chain_ids = p.requested;
            common_chain_signature = p.common_chain_signature;
            request_chain_signature = p.request_chain_signature;
          },
          activate_listener s' p w clients,
        )))))
