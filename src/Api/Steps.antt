-- ===== src/Api/Steps.antt =====
-- What a request has passed and done where it is served.
use serverless_gateway.Model.{ChainSet}
use serverless_gateway.Table.{Table}
use serverless_gateway.Prelude.{
  ◌==◌, if◌then◌else◌, ==→eq, Bool-cases, ℕ, String, ◌≡◌, refl, sym, ap, subst, ◌∙◌, ◌⊎◌, inl, inr,
  Bool, true, false, not, Option, none, some, [], ◌∷◌,
}
use serverless_gateway.Api.{
  AppState, ApiLibraries, LocalWallet, RequestChainClient, ChainClients, Status, Served, and_then,
  require, found_or, inject_immutable_config, update_contracts, same_wallet, inject_mutable_config,
  bad_request, not_acceptable, internal_server_error, served, refused, crashed,
}
use serverless_gateway.Api.Export.{
  Prepared, SignedRegistrationResponse, same_set, is_empty_set, found_or_crash, create_clients,
  activate_listener, keep_chain_ids, commit_export, chain_ids_fit, may_export, activated,
}

-- What a request that was served has passed.
pub and_then-served {ℓ κ} :
    {A : Type ℓ} {B : Type κ} (first : Served A) (next : A → Served B) {b : B}
    → and_then first next ≡ served b
    → (a : A) × (first ≡ served a) × (next a ≡ served b)
and_then-served (served a) next e = (a, refl, e)
and_then-served (refused status) next e = cc
and_then-served crashed next e = cc

pub require-served :
    (b : Bool) (status : Status) (u : Unit {0}) → require b status ≡ served u → b ≡ true
require-served true status u e = refl
require-served false status u e = cc

pub served-injective {ℓ} : {A : Type ℓ} {a b : A} → served a ≡ served b → a ≡ b
served-injective e = cc

pub found_or-served {ℓ} :
    {A : Type ℓ} (status : Status) (o : Option A) (a : A)
    → found_or status o ≡ served a
    → o ≡ some a
found_or-served status none a e = cc
found_or-served status (some b) a e = cc

pub found_or_crash-served {ℓ} :
    {A : Type ℓ} (o : Option A) (a : A) → found_or_crash o ≡ served a → o ≡ some a
found_or_crash-served none a e = cc
found_or_crash-served (some b) a e = cc

not-true : (b : Bool) → not b ≡ true → b ≡ false
not-true true e = cc
not-true false e = refl

same_set-eq : (ms ns : ChainSet) → same_set ms ns ≡ true → ms ≡ ns
unfolding same_set
same_set-eq [] [] e = refl
same_set-eq [] (n ∷ ns) e = cc
same_set-eq (m ∷ ms) [] e = cc
same_set-eq ((m, u) ∷ ms) ((n, v) ∷ ns) e = elim (Bool-cases (m == n)) [
  | inl same ↦
      let heads = ==→eq m n same in
      let rest = same_set-eq ms ns (rw (same, same_set) at e) in rw (heads, rest) refl
  | inr differs ↦ let nothing = rw (differs, same_set) at e in cc
]

-- What each request does where it is served.
pub inject_immutable_config-served :
    (libs : ApiLibraries) (s s' : AppState) (text : String)
    → inject_immutable_config libs s text ≡ served s'
    → (s.immutable_params_injected ≡ false)
      × ((owner : ℕ) × (record s { enclave_owner = owner; immutable_params_injected = true } ≡ s'))
unfolding inject_immutable_config
inject_immutable_config-served libs s s' text e =
    let (owner, parsed, e1) =
      and_then-served (found_or bad_request (libs.address_from_str text)) _ e in
    let (u, first, e2) =
      and_then-served (require (not s.immutable_params_injected) bad_request) _ e1 in
    (
      not-true s.immutable_params_injected
          (require-served (not s.immutable_params_injected) bad_request u first),
      (owner, served-injective e2),
    )

pub inject_mutable_config-served :
    (libs : ApiLibraries) (s s' : AppState) (text : String)
    → inject_mutable_config libs s text ≡ served s'
    → (w : LocalWallet) × (clients : Option ChainClients) × (update_contracts libs s w
          s.contracts_client
        ≡ served clients)
      × (w.chain_id ≡ s.common_chain_id)
      × (record s { contracts_client = clients; wallet = some w; mutable_params_injected = true }
          ≡ s')
unfolding inject_mutable_config
inject_mutable_config-served libs s s' text e =
    let (bytes, read, e1) =
      and_then-served (found_or bad_request (libs.decode_to_slice text)) _ e in
    let (key, valid, e2) =
      and_then-served (found_or bad_request (libs.wallet_from_bytes bytes)) _ e1 in
    let w : LocalWallet = record { key = key; chain_id = s.common_chain_id } in
    let (u, other, e3) =
      and_then-served (require (not (same_wallet s.wallet w)) not_acceptable) _ e2 in
    let (clients, updated, e4) =
      and_then-served (update_contracts libs s w s.contracts_client) _ e3 in
    (w, clients, updated, refl, served-injective e4)

keep_chain_ids-served :
    (s s' : AppState) (ids : ChainSet)
    → keep_chain_ids s ids ≡ served s'
    → (record s { request_chain_ids = ids } ≡ s')
      × ((is_empty_set s.request_chain_ids ≡ true) ⊎ (s.request_chain_ids ≡ ids))
unfolding keep_chain_ids
keep_chain_ids-served s s' ids e = elim (Bool-cases (is_empty_set s.request_chain_ids)) [
  | inl empty ↦ (served-injective (rw (empty, keep_chain_ids) at e), inl empty)
  | inr full ↦ elim (Bool-cases (same_set s.request_chain_ids ids)) [
    | inl same ↦
        let kept = same_set-eq s.request_chain_ids ids same in
        (
          ap (λ (x : ChainSet). record s { request_chain_ids = x }) (sym kept)
              ∙ served-injective (rw (full, same, keep_chain_ids) at e),
          inr kept,
        )
    | inr differs ↦ let nothing = rw (full, differs, keep_chain_ids) at e in cc
  ]
]

-- A request in its second step.
pub record Committed (libs : ApiLibraries) (s s' : AppState) (p : Prepared) : Type 0 where
  pub w : LocalWallet
  pub clients : Table RequestChainClient
  pub signed : s.wallet ≡ some w
  pub made :
      create_clients libs w p.request_chains_data (libs.set_order p.chain_ids) ≡ served clients
  pub kept : (is_empty_set s.request_chain_ids ≡ true) ⊎ (s.request_chain_ids ≡ p.chain_ids)
  pub result : activate_listener (record s { request_chain_ids = p.chain_ids }) p w clients ≡ s'

pub commit_export-served :
    (libs : ApiLibraries) (s s' : AppState) (p : Prepared) (response : SignedRegistrationResponse)
    → commit_export libs s p ≡ served (response, s')
    → Committed libs s s' p
unfolding commit_export
commit_export-served libs s s' p response e =
    let (w, wallet, e1) = and_then-served (found_or_crash s.wallet) _ e in
    let (u, reached, e2) =
      and_then-served (require (libs.connects s.common_chain_http_url) internal_server_error) _
        e1 in
    let (clients, made, e3) =
      and_then-served (create_clients libs w p.request_chains_data (libs.set_order p.chain_ids)) _
        e2 in
    let (s1, keeps, e4) = and_then-served (keep_chain_ids s p.chain_ids) _ e3 in
    let (same, kept) = keep_chain_ids-served s s1 p.chain_ids keeps in
    record {
      w = w;
      clients = clients;
      signed = found_or_crash-served s.wallet w wallet;
      made = made;
      kept = kept;
      result =
          ap (λ (x : AppState). activate_listener x p w clients) same
          ∙ ap (λ x. x.1) (served-injective e4);
    }

pub may_export-served :
    (s : AppState) (ids : ChainSet) (u : Unit {0})
    → may_export s ids ≡ served u
    → (s.immutable_params_injected ≡ true) × (is_empty_set ids ≡ false)
unfolding may_export
may_export-served s ids u e =
    let (a, open_state, e1) = and_then-served (require (not s.registered) bad_request) _ e in
    let (b, full, e2) = and_then-served (require (not (is_empty_set ids)) bad_request) _ e1 in
    let (c, fits, e3) =
      and_then-served (require (chain_ids_fit s.request_chain_ids ids) bad_request) _ e2 in
    let (d, configured, e4) =
      and_then-served (require s.immutable_params_injected bad_request) _ e3 in
    (
      require-served s.immutable_params_injected bad_request d configured,
      not-true (is_empty_set ids) (require-served (not (is_empty_set ids)) bad_request b full),
    )

-- What the second step of an export leaves.
pub activate_listener-same :
    (s : AppState) (p : Prepared) (w : LocalWallet) (clients : Table RequestChainClient)
    → let s' = activate_listener s p w clients in
      (s'.immutable_params_injected ≡ s.immutable_params_injected)
      × (s'.enclave_owner ≡ s.enclave_owner)
      × (s'.request_chain_ids ≡ s.request_chain_ids)
unfolding activate_listener activated
activate_listener-same s p w clients =
    let choose = λ (b : Bool). if b then s else activated s p w clients in
    elim (Bool-cases s.registration_events_listener_active) [
      | inl active ↦
          subst
            (λ (x : AppState).
              (x.immutable_params_injected ≡ s.immutable_params_injected)
              × (x.enclave_owner ≡ s.enclave_owner)
              × (x.request_chain_ids ≡ s.request_chain_ids))
            (sym (ap choose active)) (refl, refl, refl)
      | inr idle ↦
          subst
            (λ (x : AppState).
              (x.immutable_params_injected ≡ s.immutable_params_injected)
              × (x.enclave_owner ≡ s.enclave_owner)
              × (x.request_chain_ids ≡ s.request_chain_ids))
            (sym (ap choose idle)) (refl, refl, refl)
    ]
