-- ===== src/Api/Consistent.antt =====
-- What holds of the server's state after any requests.
use serverless_gateway.Chain.{Abi}
use serverless_gateway.Selection.{StdRng}
use serverless_gateway.Api.Belongs.{
  ClientBelongs, PendingFits, create_clients-SignedFor, ClientBelongs-first,
  update_contracts-belongs, activate_listener-belongs, keep_chain_ids-belongs, registered-belongs,
  runs-belongs,
}
use serverless_gateway.Prelude.{
  All, All-middle, All-imp, ℕ, String, ◌≡◌, refl, sym, subst, ◌∙◌, true, List, ◌∷◌, ◌++◌,
}
use serverless_gateway.Api.{
  AppState, ApiLibraries, require, inject_immutable_config, internal_server_error, served, found_or,
  inject_mutable_config, Config, initial_app_state,
}
use serverless_gateway.Api.Export.{
  Prepared, ExportReadings, set_of, may_export, registration_signatures, fetch_request_chains,
  prepare_export, activate_listener, SignedRegistrationResponse, commit_export,
}
use serverless_gateway.Signing.{Crypto}
use serverless_gateway.Api.Steps.{
  and_then-served, served-injective, inject_immutable_config-served, inject_mutable_config-served,
  may_export-served, commit_export-served, activate_listener-same,
}
use serverless_gateway.Api.Runs.{
  Server, Request, Requests, started, immutable_config, mutable_config, export_begins, export_ends,
  registration_completed, no_request, more_requests, client_runs,
}

pub record IsConsistent (v : Server) : Type 0 where
  pub client : ClientBelongs v.state v.state.contracts_client
  pub exports : All (PendingFits v.state) v.pending

immutable_config-IsConsistent :
    (libs : ApiLibraries) (v : Server) (s' : AppState) (text : String)
    → IsConsistent v
    → inject_immutable_config libs v.state text ≡ served s'
    → IsConsistent (record v { state = s' })
immutable_config-IsConsistent libs v s' text h e =
    let (not_yet, (owner, after)) = inject_immutable_config-served libs v.state s' text e in
    let s1 = record v.state { enclave_owner = owner; immutable_params_injected = true } in
    subst (λ x. IsConsistent (record v { state = x })) after
      (record {
        client = ClientBelongs-first v.state s1 v.state.contracts_client not_yet refl h.client;
        exports =
            All-imp (PendingFits v.state) (PendingFits s1) v.pending
              (λ p fits. let never = sym not_yet ∙ fits.0 in cc) h.exports;
      })

mutable_config-IsConsistent :
    (libs : ApiLibraries) (v : Server) (s' : AppState) (text : String)
    → IsConsistent v
    → inject_mutable_config libs v.state text ≡ served s'
    → IsConsistent (record v { state = s' })
mutable_config-IsConsistent libs v s' text h e =
    let (w, clients, updated, chain, after) = inject_mutable_config-served libs v.state s' text e in
    subst (λ x. IsConsistent (record v { state = x })) after
      (record {
        client =
            update_contracts-belongs libs v.state w v.state.contracts_client clients chain h.client
              updated;
        exports = h.exports;
      })

-- The first step lets through what fits.
prepare_export-PendingFits :
    (libs : ApiLibraries) (k : Crypto) (s : AppState) (r : ExportReadings) (requested : List ℕ)
    (p : Prepared)
    → prepare_export libs k s r requested ≡ served p
    → PendingFits s p
unfolding prepare_export
prepare_export-PendingFits libs k s r requested p e =
    let ids = set_of requested in
    let (u, allowed, e1) = and_then-served (may_export s ids) _ e in
    let ((common, request), signed, e2) =
      and_then-served (registration_signatures libs k s.enclave_owner r.now ids) _ e1 in
    let (v, reached, e3) =
      and_then-served (require (libs.connects s.common_chain_http_url) internal_server_error) _
        e2 in
    let (block, known, e4) =
      and_then-served (found_or internal_server_error r.common_chain_block_number) _ e3 in
    let (chains, fetched, e5) =
      and_then-served (fetch_request_chains libs r (libs.set_order ids)) _ e4 in
    let (configured, full) = may_export-served s ids u allowed in
    subst (PendingFits s) (served-injective e5) (configured, refl, full)

export_ends-IsConsistent :
    (libs : ApiLibraries) (v : Server) (s' : AppState) (before after : List Prepared) (p : Prepared)
    (response : SignedRegistrationResponse)
    → IsConsistent v
    → v.pending ≡ before ++ p ∷ after
    → commit_export libs v.state p ≡ served (response, s')
    → IsConsistent (record { state = s'; pending = before ++ after })
export_ends-IsConsistent libs v s' before after p response h pending e =
    let c = commit_export-served libs v.state s' p response e in
    let s1 = record v.state { request_chain_ids = p.chain_ids } in
    let (fits, others) =
      All-middle (PendingFits v.state) before p after
        (subst (All (PendingFits v.state)) pending h.exports) in
    let signed =
      create_clients-SignedFor libs c.w p.request_chains_data (libs.set_order p.chain_ids) c.clients
        c.made in
    let kept =
      keep_chain_ids-belongs v.state p.chain_ids v.state.contracts_client c.kept h.client in
    let (flag, owner, ids) = activate_listener-same s1 p c.w c.clients in
    subst (λ x. IsConsistent (record { state = x; pending = before ++ after })) c.result
      (record {
        client = activate_listener-belongs s1 p c.w c.clients c.signed refl fits signed kept;
        exports =
            All-imp (PendingFits v.state) (PendingFits (activate_listener s1 p c.w c.clients))
              (before ++ after) (λ q fit. (flag ∙ fit.0, fit.1 ∙ sym owner, fit.2)) others;
      })

Request-IsConsistent :
    (libs : ApiLibraries) (k : Crypto) (rng : StdRng) (abi : Abi) (v w : Server)
    → IsConsistent v
    → Request libs k rng abi v w
    → IsConsistent w
Request-IsConsistent libs k rng abi v w h (immutable_config text e) =
    immutable_config-IsConsistent libs v _ text h e
Request-IsConsistent libs k rng abi v w h (mutable_config text e) =
    mutable_config-IsConsistent libs v _ text h e
Request-IsConsistent libs k rng abi v w h (export_begins r requested e) = record {
  client = h.client;
  exports = (prepare_export-PendingFits libs k v.state r requested _ e, h.exports);
}
Request-IsConsistent libs k rng abi v w h (export_ends before after p response pending e) =
    export_ends-IsConsistent libs v _ before after p response h pending e
Request-IsConsistent libs k rng abi v w h registration_completed = record {
  client = registered-belongs v.state v.state.contracts_client h.client;
  exports = h.exports;
}
Request-IsConsistent libs k rng abi v w h (client_runs c d on known run same) = record {
  client = runs-belongs rng abi v.state c d (subst (ClientBelongs v.state) known h.client) run same;
  exports = h.exports;
}

-- After any requests, exports that overlap with others and runs of the handlers included, a client
-- that was created belongs to the state of the server: it has the state's owner, which was
-- configured, and the state's chains, of which there is at least one; each of its contracts is
-- signed by the wallet of the state, for the contract's own chain; and its jobs are tracked, as
-- IsTracked says. There is such a client exactly where the listener is active.
pub Requests-IsConsistent :
    (libs : ApiLibraries) (k : Crypto) (rng : StdRng) (abi : Abi) (config : Config)
    (enclave_address : ℕ) (v : Server)
    → Requests libs k rng abi (started config enclave_address) v
    → IsConsistent v
unfolding initial_app_state
Requests-IsConsistent libs k rng abi config enclave v no_request = record {
  client = refl;
  exports = tt;
}
Requests-IsConsistent libs k rng abi config enclave v (more_requests run last) =
    Request-IsConsistent libs k rng abi _ v
      (Requests-IsConsistent libs k rng abi config enclave _ run) last
