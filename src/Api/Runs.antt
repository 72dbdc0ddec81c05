-- ===== src/Api/Runs.antt =====
-- The server: its requests in any order, where other requests are served between the two steps of
-- an export, and what the registration and the client do meanwhile.
use serverless_gateway.Model.{ContractsClient}
use serverless_gateway.Chain.{Abi}
use serverless_gateway.Prelude.{ℕ, String, ◌≡◌, true, some, List, [], ◌∷◌, ◌++◌}
use serverless_gateway.System.{Reach}
use serverless_gateway.Selection.{StdRng}
use serverless_gateway.Api.{
  AppState, ApiLibraries, Config, initial_app_state, inject_immutable_config, inject_mutable_config,
  served, ChainClients,
}
use serverless_gateway.Api.Export.{
  Prepared, ExportReadings, SignedRegistrationResponse, prepare_export, commit_export,
}
use serverless_gateway.Signing.{Crypto}

-- The state, and the exports between their two steps.
pub record Server : Type 0 where
  pub state : AppState
  pub pending : List Prepared

-- One step of the server. A request that is refused or crashes leaves the state as it is; it stands for no step.
pub data Request (libs : ApiLibraries) (k : Crypto) (rng : StdRng) (abi : Abi) (v : Server)
    : Server → Type 0 where
  immutable_config :
      {s' : AppState} (owner_address_hex : String)
      → inject_immutable_config libs v.state owner_address_hex ≡ served s'
      → Request libs k rng abi v (record v { state = s' })
  mutable_config :
      {s' : AppState} (gas_key_hex : String)
      → inject_mutable_config libs v.state gas_key_hex ≡ served s'
      → Request libs k rng abi v (record v { state = s' })
  export_begins :
      {p : Prepared} (r : ExportReadings) (requested : List ℕ)
      → prepare_export libs k v.state r requested ≡ served p
      → Request libs k rng abi v (record v { pending = p ∷ v.pending })
  export_ends :
      {s' : AppState} (before after : List Prepared) (p : Prepared)
      (response : SignedRegistrationResponse)
      → v.pending ≡ before ++ p ∷ after
      → commit_export libs v.state p ≡ served (response, s')
      → Request libs k rng abi v (record { state = s'; pending = before ++ after })
  registration_completed :
      Request libs k rng abi v (record v { state = record v.state { registered = true } })
  -- Once the gateway is registered, the handlers and their tasks run on the client. Its chains are
  -- a field that is never written.
  client_runs :
      (c : ChainClients) (d : ContractsClient)
      → v.state.registered ≡ true
      → v.state.contracts_client ≡ some c
      → Reach rng abi c.client d
      → d.request_chain_ids ≡ c.client.request_chain_ids
      → Request libs k rng abi v (record v {
        state = record v.state { contracts_client = some (record c { client = d }) };
      })

pub data Requests (libs : ApiLibraries) (k : Crypto) (rng : StdRng) (abi : Abi) (v : Server)
    : Server → Type 0 where
  no_request : Requests libs k rng abi v v
  more_requests :
      {u w : Server}
      → Requests libs k rng abi v u
      → Request libs k rng abi u w
      → Requests libs k rng abi v w

-- The server as it starts.
abbrev pub started : Config → ℕ → Server
started config enclave_address = record {
  state = initial_app_state config enclave_address;
  pending = [];
}
