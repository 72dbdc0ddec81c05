-- ===== src/Api/Belongs.antt =====
-- What binds a client to the state of the server, and that each change of the state keeps it.
use serverless_gateway.Chain.{Abi}
use serverless_gateway.Jobs.Tracked.{IsTracked}
use serverless_gateway.System.{Reach}
use serverless_gateway.System.Invariant.{Reach-IsTracked}
use serverless_gateway.Selection.{StdRng}
use serverless_gateway.Model.{ChainSet, ContractsClient}
use serverless_gateway.Table.{Table, lookup}
use serverless_gateway.Prelude.{
  if◌then◌else◌, Bool-cases, All, ℕ, ◌≡◌, refl, sym, ap, subst, ◌∙◌, ◌⊎◌, inl, inr, Bool, true,
  false, ◌&&◌, Option, none, some, List, [], ◌∷◌,
}
use serverless_gateway.Api.{
  AppState, ApiLibraries, LocalWallet, with_chain_id, RequestChainClient, ChainClients, require,
  sign_clients, internal_server_error, served, update_contracts, all_connect,
}
use serverless_gateway.Api.Export.{
  Prepared, RequestChainData, found_or_crash, request_chain_client, create_clients, is_empty_set,
  new_client, activate_listener, activated,
}
use serverless_gateway.Api.Steps.{and_then-served, served-injective}
use serverless_gateway.Table.Laws.{insert-All}

-- A request chain's client is stored under its chain, and its contracts are signed for that chain.
abbrev pub SignedFor : LocalWallet → ℕ × RequestChainClient → Type 0
SignedFor w (chain, r) =
    (r.chain_id ≡ chain)
    × (r.relay_contract.signer ≡ with_chain_id w chain)
    × (r.relay_subscriptions_contract.signer ≡ with_chain_id w chain)

-- The client belongs to the state: its owner, its chains, and the wallet of each contract. Its jobs
-- are tracked.
pub record Belongs (s : AppState) (c : ChainClients) : Type 0 where
  pub owner : c.enclave_owner ≡ s.enclave_owner
  pub chains : c.client.request_chain_ids ≡ s.request_chain_ids
  pub some_chain : is_empty_set s.request_chain_ids ≡ false
  pub tracked : IsTracked c.client
  pub wallet :
      (w : LocalWallet) × (s.wallet ≡ some w)
      × (c.gateway_jobs_contract.signer ≡ with_chain_id w s.common_chain_id)
      × All (SignedFor w) c.request_chain_clients

abbrev pub ClientBelongs : AppState → Option ChainClients → Type 0
ClientBelongs s none = s.registration_events_listener_active ≡ false
ClientBelongs s (some c) =
    (s.registration_events_listener_active ≡ true)
    × (s.immutable_params_injected ≡ true)
    × Belongs s c

-- An export that was let through, for the owner of the state and at least one chain.
abbrev pub PendingFits : AppState → Prepared → Type 0
PendingFits s p =
    (s.immutable_params_injected ≡ true)
    × (p.enclave_owner ≡ s.enclave_owner)
    × (is_empty_set p.chain_ids ≡ false)

sign_clients-SignedFor :
    (v w : LocalWallet) (rs : Table RequestChainClient)
    → All (SignedFor v) rs
    → All (SignedFor w) (sign_clients w rs)
unfolding sign_clients
sign_clients-SignedFor v w [] all = tt
sign_clients-SignedFor v w ((chain, r) ∷ rs) all =
    ((all.0.0, refl, refl), sign_clients-SignedFor v w rs all.1)

pub create_clients-SignedFor :
    (libs : ApiLibraries) (w : LocalWallet) (data_of : Table RequestChainData) (ids : List ℕ)
    (rs : Table RequestChainClient)
    → create_clients libs w data_of ids ≡ served rs
    → All (SignedFor w) rs
unfolding create_clients request_chain_client
create_clients-SignedFor libs w data_of [] rs e = subst (All (SignedFor w)) (served-injective e) tt
create_clients-SignedFor libs w data_of (n ∷ ns) rs e =
    let (d, known, e1) = and_then-served (found_or_crash (lookup n data_of)) _ e in
    let (u, reached, e2) =
      and_then-served (require (libs.connects d.http_rpc_url) internal_server_error) _ e1 in
    let (others, made, e3) = and_then-served (create_clients libs w data_of ns) _ e2 in
    subst (All (SignedFor w)) (served-injective e3) (
      insert-All (SignedFor w) n (request_chain_client w n d) others (refl, refl, refl)
        (create_clients-SignedFor libs w data_of ns others made))

-- Before the first configuration there is no client.
pub ClientBelongs-first :
    (s s' : AppState) (o : Option ChainClients)
    → s.immutable_params_injected ≡ false
    → s'.registration_events_listener_active ≡ s.registration_events_listener_active
    → ClientBelongs s o
    → ClientBelongs s' o
ClientBelongs-first s s' none not_yet same h = same ∙ h
ClientBelongs-first s s' (some c) not_yet same h = let never = sym not_yet ∙ h.1 in cc

-- The client after the update of its contracts.
pub update_contracts-belongs :
    (libs : ApiLibraries) (s : AppState) (w : LocalWallet) (o clients : Option ChainClients)
    → w.chain_id ≡ s.common_chain_id
    → ClientBelongs s o
    → update_contracts libs s w o ≡ served clients
    → let s' = record s {
      contracts_client = clients;
      wallet = some w;
      mutable_params_injected = true;
    } in
      ClientBelongs s' clients
unfolding update_contracts
update_contracts-belongs libs s w none clients chain h e =
    subst
      (λ o.
        ClientBelongs
          (record s { contracts_client = o; wallet = some w; mutable_params_injected = true }) o)
      (served-injective e) h
update_contracts-belongs libs s w (some c) clients chain h e =
    let (u, reached, e1) =
      and_then-served
        (require (libs.connects s.common_chain_http_url && all_connect libs c.request_chain_clients)
          internal_server_error)
        _ e in
    let (v, known, for_v, all) = h.2.wallet in
    subst
      (λ o.
        ClientBelongs
          (record s { contracts_client = o; wallet = some w; mutable_params_injected = true }) o)
      (served-injective e1)
      (
        h.0,
        h.1,
        record {
          owner = h.2.owner;
          chains = h.2.chains;
          some_chain = h.2.some_chain;
          tracked = h.2.tracked;
          wallet = (
            w,
            refl,
            ap (with_chain_id w) chain,
            sign_clients-SignedFor v w c.request_chain_clients all,
          );
        },
      )

-- A new client has no jobs.
new_client-IsTracked : (s : AppState) (ids : ChainSet) → IsTracked (new_client s ids)
unfolding new_client
new_client-IsTracked s ids = record {
  active = tt;
  current = tt;
  waiting = tt;
  sent = tt;
  tasks = tt;
}

-- The listener is activated for the client that there is, or for a new one.
pub activate_listener-belongs :
    (s : AppState) (p : Prepared) (w : LocalWallet) (clients : Table RequestChainClient)
    → s.wallet ≡ some w
    → s.request_chain_ids ≡ p.chain_ids
    → PendingFits s p
    → All (SignedFor w) clients
    → ClientBelongs s s.contracts_client
    → let s' = activate_listener s p w clients in ClientBelongs s' s'.contracts_client
unfolding activate_listener activated new_client
activate_listener-belongs s p w clients wallet ids fits all h =
    let by_listener = λ (b : Bool). if b then s else activated s p w clients in
    elim (Bool-cases s.registration_events_listener_active) [
      | inl active ↦ subst (λ x. ClientBelongs x x.contracts_client) (sym (ap by_listener active)) h
      | inr idle ↦
          subst (λ x. ClientBelongs x x.contracts_client) (sym (ap by_listener idle))
            (
              refl,
              fits.0,
              record {
                owner = fits.1;
                chains = sym ids;
                some_chain = ap is_empty_set ids ∙ fits.2;
                tracked = new_client-IsTracked s p.chain_ids;
                wallet = (w, wallet, refl, all);
              },
            )
    ]

-- A client that is there has the chains of the export.
pub keep_chain_ids-belongs :
    (s : AppState) (ids : ChainSet) (o : Option ChainClients)
    → (is_empty_set s.request_chain_ids ≡ true) ⊎ (s.request_chain_ids ≡ ids)
    → ClientBelongs s o
    → ClientBelongs (record s { request_chain_ids = ids }) o
keep_chain_ids-belongs s ids none kept h = h
keep_chain_ids-belongs s ids (some c) (inl empty) h = let never = sym empty ∙ h.2.some_chain in cc
keep_chain_ids-belongs s ids (some c) (inr same) h = (
  h.0,
  h.1,
  record {
    owner = h.2.owner;
    chains = h.2.chains ∙ same;
    some_chain = ap is_empty_set (sym same) ∙ h.2.some_chain;
    tracked = h.2.tracked;
    wallet = h.2.wallet;
  },
)

pub registered-belongs :
    (s : AppState) (o : Option ChainClients)
    → ClientBelongs s o
    → ClientBelongs (record s { registered = true }) o
registered-belongs s none h = h
registered-belongs s (some c) h = (
  h.0,
  h.1,
  record {
    owner = h.2.owner;
    chains = h.2.chains;
    some_chain = h.2.some_chain;
    tracked = h.2.tracked;
    wallet = h.2.wallet;
  },
)

-- The client after its handlers have run.
pub runs-belongs :
    (rng : StdRng) (abi : Abi) (s : AppState) (c : ChainClients) (d : ContractsClient)
    → ClientBelongs s (some c)
    → Reach rng abi c.client d
    → d.request_chain_ids ≡ c.client.request_chain_ids
    → let o = some (record c { client = d }) in ClientBelongs (record s { contracts_client = o }) o
runs-belongs rng abi s c d h run same = (
  h.0,
  h.1,
  record {
    owner = h.2.owner;
    chains = same ∙ h.2.chains;
    some_chain = h.2.some_chain;
    tracked = Reach-IsTracked rng abi c.client d h.2.tracked run;
    wallet = h.2.wallet;
  },
)
