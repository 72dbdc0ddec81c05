-- ===== src/Api/Settled.antt =====
-- What stays as it is once it is set.
use serverless_gateway.Table.{contains_key, lookup}
use serverless_gateway.Table.Sorted.{IsSorted, insert-From}
use serverless_gateway.Table.Sets.{elem, contains_key-insert, contains_key-injective}
use serverless_gateway.Selection.{StdRng}
use serverless_gateway.Model.{ChainSet}
use serverless_gateway.Signing.Recovered.{Recovers, IsSignedBy, sign_digest-read}
use serverless_gateway.Chain.{Token, Abi}
use serverless_gateway.Prelude.{
  ◌==◌, ℕ, ◌≡◌, refl, sym, ap, subst, ◌∙◌, ◌⊎◌, inl, inr, true, ◌||◌, Option, some, List, [], ◌∷◌,
  arith,
}
use serverless_gateway.Api.{
  AppState, ApiLibraries, served, require, found_or, internal_server_error,
}
use serverless_gateway.Api.Export.{
  Prepared, ExportReadings, set_of, is_empty_set, common_chain_register_tokens,
  registration_signatures, prepare_export, may_export, request_chain_register_tokens,
  found_or_crash, fetch_request_chains,
}
use serverless_gateway.Api.Runs.{
  Request, Server, Requests, immutable_config, mutable_config, export_begins, export_ends,
  registration_completed, no_request, more_requests, client_runs,
}
use serverless_gateway.Api.Steps.{
  inject_immutable_config-served, inject_mutable_config-served, commit_export-served,
  activate_listener-same, and_then-served, served-injective, found_or-served, found_or_crash-served,
}
use serverless_gateway.Signing.{Crypto, typed_data, sign_digest}

-- The owner and the chains of a state are those of the one before, where that was configured and
-- had chains.
abbrev pub SettledIn : AppState → AppState → Type 0
SettledIn s s' =
    (s'.immutable_params_injected ≡ true)
    × (s'.enclave_owner ≡ s.enclave_owner)
    × ((is_empty_set s.request_chain_ids ≡ true) ⊎ (s'.request_chain_ids ≡ s.request_chain_ids))

Request-SettledIn :
    (libs : ApiLibraries) (k : Crypto) (rng : StdRng) (abi : Abi) (v w : Server)
    → v.state.immutable_params_injected ≡ true
    → Request libs k rng abi v w
    → SettledIn v.state w.state
Request-SettledIn libs k rng abi v w set (immutable_config text e) =
    let (not_yet, after) = inject_immutable_config-served libs v.state _ text e in
    let never = sym not_yet ∙ set in cc
Request-SettledIn libs k rng abi v w set (mutable_config text e) =
    let (wallet, clients, updated, chain, after) =
      inject_mutable_config-served libs v.state _ text e in
    subst (SettledIn v.state) after (set, refl, inr refl)
Request-SettledIn libs k rng abi v w set (export_begins r requested e) = (set, refl, inr refl)
Request-SettledIn libs k rng abi v w set (export_ends before after p response pending e) =
    let c = commit_export-served libs v.state _ p response e in
    let s1 = record v.state { request_chain_ids = p.chain_ids } in
    let (flag, owner, ids) = activate_listener-same s1 p c.w c.clients in
    subst (SettledIn v.state) c.result
      (flag ∙ set, owner, elim c.kept [ inl empty ↦ inl empty | inr same ↦ inr (ids ∙ sym same) ])
Request-SettledIn libs k rng abi v w set registration_completed = (set, refl, inr refl)
Request-SettledIn libs k rng abi v w set (client_runs c d on known run same) = (set, refl, inr refl)

-- Once the immutable parameters are injected, no further requests and no runs of the handlers change
-- the owner, and chains that are chosen stay the chains, whatever overlapping exports ask for.
pub Requests-SettledIn :
    (libs : ApiLibraries) (k : Crypto) (rng : StdRng) (abi : Abi) (v w : Server)
    → v.state.immutable_params_injected ≡ true
    → Requests libs k rng abi v w
    → (w.state.immutable_params_injected ≡ true)
      × (w.state.enclave_owner ≡ v.state.enclave_owner)
      × ((is_empty_set v.state.request_chain_ids ≡ true)
          ⊎ (w.state.request_chain_ids ≡ v.state.request_chain_ids))
Requests-SettledIn libs k rng abi v w set no_request = (set, refl, inr refl)
Requests-SettledIn libs k rng abi v w set (more_requests run last) =
    let (set1, owner1, ids1) = Requests-SettledIn libs k rng abi v _ set run in
    let (set2, owner2, ids2) = Request-SettledIn libs k rng abi _ w set1 last in
    (
      set2,
      owner2 ∙ owner1,
      elim ids1 [
        | inl empty ↦ inl empty
        | inr same ↦ elim ids2 [
          | inl empty ↦ inl (ap is_empty_set (sym same) ∙ empty)
          | inr again ↦ inr (again ∙ same)
        ]
      ],
    )

registration_signatures-IsSignedBy :
    (libs : ApiLibraries) (k : Crypto) (ecrecover : List ℕ → List ℕ → Option ℕ)
    (enclave owner now : ℕ) (ids : ChainSet) (common request : List ℕ)
    → Recovers k ecrecover enclave
    → registration_signatures libs k owner now ids ≡ served (common, request)
    → (packed : List ℕ) × (k.encode_packed (Token.array (libs.set_order ids) ∷ []) ≡ some packed)
      × (signature : List ℕ) × (k.from_hex common ≡ some signature)
      × IsSignedBy k ecrecover enclave (
        typed_data k "marlin.oyster.Gateways" (common_chain_register_tokens k owner packed now),
        signature,
      )
unfolding registration_signatures
registration_signatures-IsSignedBy libs k ecrecover enclave owner now ids common request h e =
    let (packed, encoded, e1) =
      and_then-served (found_or_crash (k.encode_packed (Token.array (libs.set_order ids) ∷ []))) _
        e in
    let claim =
      typed_data k "marlin.oyster.Gateways" (common_chain_register_tokens k owner packed now) in
    let (first, made, e2) =
      and_then-served (found_or internal_server_error (sign_digest k now claim)) _ e1 in
    let (second, others, e3) =
      and_then-served
        (found_or internal_server_error (
          sign_digest k now
            (typed_data k "marlin.oyster.Relay" (request_chain_register_tokens k owner now))))
        _ e2 in
    let same : first.0 ≡ common = ap (λ x. x.0) (served-injective e3) in
    let signed = found_or-served internal_server_error (sign_digest k now claim) first made in
    let (signature, read, by_enclave) =
      sign_digest-read k ecrecover enclave now claim first h signed in
    (
      packed,
      found_or_crash-served (k.encode_packed (Token.array (libs.set_order ids) ∷ [])) packed
          encoded,
      signature,
      ap k.from_hex (sym same) ∙ read,
      by_enclave,
    )

-- The set of a list rises, and has the elements of the list.
set_of-IsSorted : (ns : List ℕ) → IsSorted (set_of ns)
unfolding set_of
set_of-IsSorted [] = tt
set_of-IsSorted (n ∷ ns) = insert-From 0 n tt (set_of ns) (omega arith) (set_of-IsSorted ns)

contains_key-set_of : (k : ℕ) (ns : List ℕ) → contains_key k (set_of ns) ≡ elem k ns
unfolding set_of elem contains_key lookup
contains_key-set_of k [] = refl
contains_key-set_of k (n ∷ ns) =
    contains_key-insert n k (set_of ns) ∙ ap (λ b. k == n || b) (contains_key-set_of k ns)

-- The signature for the common chain in a prepared export is hexadecimal digits of the enclave's
-- signature, which recovers to its address. What is signed is the owner of the state, the time of
-- the request, and the chains of the request as a set, in the order that the set is iterated in (a
-- parameter, which depends on the elements): any table whose keys rise and are the elements of the
-- request gives what is signed, so neither the order nor the duplicates of the request count.
pub prepare_export-IsSignedBy :
    (libs : ApiLibraries) (k : Crypto) (ecrecover : List ℕ → List ℕ → Option ℕ) (enclave : ℕ)
    (s : AppState) (r : ExportReadings) (requested : List ℕ) (p : Prepared) (chains : ChainSet)
    → Recovers k ecrecover enclave
    → prepare_export libs k s r requested ≡ served p
    → IsSorted chains
    → ((n : ℕ) → contains_key n chains ≡ elem n requested)
    → (packed signature : List ℕ) × (k.encode_packed (Token.array (libs.set_order chains) ∷ [])
        ≡ some packed)
      × (k.from_hex p.common_chain_signature ≡ some signature)
      × IsSignedBy k ecrecover enclave (
        typed_data k "marlin.oyster.Gateways"
            (common_chain_register_tokens k s.enclave_owner packed r.now),
        signature,
      )
unfolding prepare_export registration_signatures
prepare_export-IsSignedBy libs k ecrecover enclave s r requested p chains h e rising same_chains =
    let ids = set_of requested in
    let (u, allowed, e1) = and_then-served (may_export s ids) _ e in
    let ((common, request), signed, e2) =
      and_then-served (registration_signatures libs k s.enclave_owner r.now ids) _ e1 in
    let (v, reached, e3) =
      and_then-served (require (libs.connects s.common_chain_http_url) internal_server_error) _
        e2 in
    let (block, known, e4) =
      and_then-served (found_or internal_server_error r.common_chain_block_number) _ e3 in
    let (all, fetched, e5) =
      and_then-served (fetch_request_chains libs r (libs.set_order ids)) _ e4 in
    let (packed, encoded, signature, read, by_enclave) =
      registration_signatures-IsSignedBy libs k ecrecover enclave s.enclave_owner r.now ids common
        request h signed in
    let same : common ≡ p.common_chain_signature =
      ap (λ (x : Prepared). x.common_chain_signature) (served-injective e5) in
    let one : ids ≡ chains =
      contains_key-injective ids chains (set_of-IsSorted requested) rising
        (λ n. contains_key-set_of n requested ∙ sym (same_chains n)) in
    (
      packed,
      signature,
      subst (λ set. k.encode_packed (Token.array (libs.set_order set) ∷ []) ≡ some packed) one
          encoded,
      ap k.from_hex (sym same) ∙ read,
      by_enclave,
    )
