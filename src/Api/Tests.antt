-- ===== src/Api/Tests.antt =====
-- The server at concrete inputs.
use serverless_gateway.Model.{ChainSet}
use serverless_gateway.Table.{contains_key}
use serverless_gateway.Table.Sets.{elem, contains_key-insert}
use serverless_gateway.Samples.{first_draw, reading}
use serverless_gateway.Chain.{Token}
use serverless_gateway.Prelude.{
  ◌==◌, ℕ, ◌≡◌, refl, ◌∙◌, ◌⊎◌, Bool, true, false, ◌||◌, some, List, [], ◌∷◌, arith,
}
use serverless_gateway.Api.Runs.{
  Requests, Server, started, no_request, more_requests, immutable_config, mutable_config,
  export_begins, export_ends,
}
use serverless_gateway.Api.Consistent.{Requests-IsConsistent, IsConsistent}
use serverless_gateway.Api.Settled.{Requests-SettledIn, prepare_export-IsSignedBy}
use serverless_gateway.Samples.Signer.{plain, recovers_40, plain-Recovers}
use serverless_gateway.Table.{keys, lookup}
use serverless_gateway.Api.{
  AppState, ApiLibraries, Config, initial_app_state, served, inject_immutable_config,
  update_contracts, inject_mutable_config,
}
use serverless_gateway.Api.Export.{
  Prepared, ExportReadings, set_of, same_set, may_export, common_chain_register_tokens,
  request_chain_register_tokens, registration_signatures, fetch_request_chains, prepare_export,
  SignedRegistrationResponse, is_empty_set, request_chain_client, create_clients, activated,
  activate_listener, keep_chain_ids, commit_export,
}
use serverless_gateway.Signing.{domain_separator, typed_data, signature_text, sign_digest}
use serverless_gateway.Signing.Recovered.{IsSignedBy}
use serverless_gateway.Table.{insert, lookup}

abbrev sample_libraries : ApiLibraries
sample_libraries = record {
  address_from_str = λ text. some 33;
  decode_to_slice = λ text. some (1 ∷ []);
  wallet_from_bytes = λ bytes. some 12;
  wallet_address = λ key. key;
  connects = λ url. true;
  set_order = keys;
}

abbrev sample_config : Config
sample_config = record {
  common_chain_id = 2;
  common_chain_http_url = "http://common";
  gateway_jobs_contract_addr = 70;
  epoch = 0;
  time_interval = 10;
  offset_for_epoch = 0;
}

abbrev sample_readings : ExportReadings
sample_readings = record {
  now = 500;
  common_chain_block_number = some 90;
  request_chains = λ chain_id. some (80, 81, "http://chain");
  block_number = λ chain_id. some 60;
}

-- The server after both configurations.
abbrev configured : AppState
configured = record (initial_app_state sample_config 40) {
  enclave_owner = 33;
  immutable_params_injected = true;
  wallet = some (record { key = 12; chain_id = 2 });
  mutable_params_injected = true;
}

abbrev chain_5 : Prepared
chain_5 = record {
  chain_ids = (5, tt) ∷ [];
  requested = 5 ∷ 5 ∷ [];
  enclave_owner = 33;
  sign_timestamp = 500;
  common_chain_signature = 3 ∷ 28 ∷ [];
  request_chain_signature = 3 ∷ 28 ∷ [];
  common_chain_block_number = 90;
  request_chains_data =
      (
        5,
        record {
          relay_address = 80;
          relay_subscriptions_address = 81;
          http_rpc_url = "http://chain";
          block_number = 60;
        },
      )
      ∷ [];
}

chain_5_prepared :
    prepare_export sample_libraries plain configured sample_readings (5 ∷ 5 ∷ []) ≡ served chain_5
unfolding prepare_export may_export registration_signatures fetch_request_chains set_of insert
    sign_digest typed_data domain_separator signature_text initial_app_state
    common_chain_register_tokens request_chain_register_tokens same_set
chain_5_prepared = refl

abbrev after_commit : AppState
after_commit =
    activated (record configured { request_chain_ids = (5, tt) ∷ [] }) chain_5
      (record { key = 12; chain_id = 2 })
      ((
        5,
        request_chain_client (record { key = 12; chain_id = 2 }) 5
            (record {
              relay_address = 80;
              relay_subscriptions_address = 81;
              http_rpc_url = "http://chain";
              block_number = 60;
            }),
      )
        ∷ [])

abbrev response_5 : SignedRegistrationResponse
response_5 = record {
  owner = 33;
  sign_timestamp = 500;
  chain_ids = 5 ∷ 5 ∷ [];
  common_chain_signature = 3 ∷ 28 ∷ [];
  request_chain_signature = 3 ∷ 28 ∷ [];
}

chain_5_committed :
    commit_export sample_libraries configured chain_5 ≡ served (response_5, after_commit)
unfolding commit_export create_clients keep_chain_ids activate_listener insert lookup
    initial_app_state
chain_5_committed = refl

-- The two configurations, and an export.
abbrev after_immutable : AppState
after_immutable = record (initial_app_state sample_config 40) {
  enclave_owner = 33;
  immutable_params_injected = true;
}

injected_immutable :
    inject_immutable_config sample_libraries (initial_app_state sample_config 40) "33"
    ≡ served after_immutable
unfolding inject_immutable_config initial_app_state
injected_immutable = refl

injected_mutable : inject_mutable_config sample_libraries after_immutable "01" ≡ served configured
unfolding inject_mutable_config initial_app_state update_contracts
injected_mutable = refl

abbrev configured_server : Server
configured_server = record { state = configured; pending = [] }

configuring :
    Requests sample_libraries plain first_draw
      (reading [])
      (started sample_config 40)
      configured_server
configuring =
    more_requests (more_requests no_request (immutable_config "33" injected_immutable))
      (mutable_config "01" injected_mutable)

abbrev exported_server : Server
exported_server = record { state = after_commit; pending = [] }

exporting :
    Requests sample_libraries plain first_draw (reading []) configured_server exported_server
exporting =
    more_requests
      (more_requests no_request (export_begins sample_readings (5 ∷ 5 ∷ []) chain_5_prepared))
      (export_ends [] [] chain_5 response_5 refl chain_5_committed)

running :
    Requests sample_libraries plain first_draw
      (reading [])
      (started sample_config 40)
      exported_server
running =
    more_requests
      (more_requests configuring (export_begins sample_readings (5 ∷ 5 ∷ []) chain_5_prepared))
      (export_ends [] [] chain_5 response_5 refl chain_5_committed)

Requests-IsConsistent_example : IsConsistent exported_server
Requests-IsConsistent_example =
    Requests-IsConsistent sample_libraries plain first_draw (reading []) sample_config 40
      exported_server running

Requests-SettledIn_example :
    (exported_server.state.immutable_params_injected ≡ true)
    × (exported_server.state.enclave_owner ≡ configured_server.state.enclave_owner)
    × ((is_empty_set configured_server.state.request_chain_ids ≡ true)
        ⊎ (exported_server.state.request_chain_ids ≡ configured_server.state.request_chain_ids))
Requests-SettledIn_example =
    Requests-SettledIn sample_libraries plain first_draw (reading []) configured_server
      exported_server refl exporting

abbrev chains_5 : ChainSet
chains_5 = (5, tt) ∷ []

twice : (b : Bool) → (b || false) ≡ (b || (b || false))
twice true = refl
twice false = refl

only_5 : (n : ℕ) → contains_key n chains_5 ≡ elem n (5 ∷ 5 ∷ [])
unfolding contains_key lookup elem insert
only_5 n = contains_key-insert 5 n [] ∙ twice (n == 5)

prepare_export-IsSignedBy_example :
    (packed signature : List ℕ) × (plain.encode_packed
        (Token.array (sample_libraries.set_order chains_5) ∷ [])
      ≡ some packed)
    × (plain.from_hex chain_5.common_chain_signature ≡ some signature)
    × IsSignedBy plain recovers_40 40 (
      typed_data plain "marlin.oyster.Gateways"
          (common_chain_register_tokens plain configured.enclave_owner packed sample_readings.now),
      signature,
    )
prepare_export-IsSignedBy_example =
    prepare_export-IsSignedBy sample_libraries plain recovers_40 40 configured sample_readings
      (5 ∷ 5 ∷ []) chain_5 chains_5 plain-Recovers chain_5_prepared (omega arith, tt) only_5
