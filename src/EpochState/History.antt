-- ===== src/EpochState/History.antt =====
-- The gateways that the logs leave registered, against the history of each gateway by itself.
use serverless_gateway.EpochState.{
  process_logs, process_log, if_decoded, add_chain, remove_chain, process_chain_added_event,
  process_chain_removed_event,
}
use serverless_gateway.Model.{GatewayData}
use serverless_gateway.Words.{as_u64}
use serverless_gateway.Table.Laws.{lookup-remove, lookup-modify}
use serverless_gateway.EpochState.{
  address_topic, register, chains_of_token, change_chain, process_gateway_registered_event,
  process_gateway_deregistered_event, new_gateway, chain_types, if_decoded, add_chain, remove_chain,
  process_chain_added_event, process_chain_removed_event,
}
use mathlib.Core.Option
use serverless_gateway.Chain.{Log, Abi, topic, Token, token, uint_at}
use serverless_gateway.Constants.{
  common_chain_gateway_registered_event, common_chain_gateway_deregistered_event,
  common_chain_gateway_chain_added_event, common_chain_gateway_chain_removed_event,
}
use serverless_gateway.Table.{Table, lookup, insert, remove, modify, contains_key}
use serverless_gateway.Prelude.{
  ◌==◌, if◌then◌else◌, Bool-cases, Option-cases, get_elem?, ◌>>=◌, unwrap, >>=-eq-ok, ok-injective,
  ok, ℕ, ◌%◌, ◌^◌, ◌≡◌, refl, sym, ap, ◌∙◌, inl, inr, Bool, true, false, ◌&&◌, Option, none, some,
  List, [], ◌∷◌,
}
use serverless_gateway.EpochState.{
  process_gateway_registered_event, address_topic, registered_types,
  process_gateway_deregistered_event, new_gateway, chain_types, if_decoded, add_chain, remove_chain,
  process_chain_added_event, process_chain_removed_event,
}
use serverless_gateway.Table.Laws.{lookup-insert, lookup-remove, lookup-modify}
use serverless_gateway.Selection.{get_or}
use serverless_gateway.EpochState.{
  Gateways, register, address_topic, registered_types, process_gateway_deregistered_event,
  new_gateway, chain_types, if_decoded, add_chain, remove_chain, process_chain_added_event,
  process_chain_removed_event,
}

abbrev decodes : Abi → Log → Bool
decodes abi log = elim (abi.decode registered_types log.payload) [ none ↦ false | some _ ↦ true ]

-- Whether the gateway is registered after the log, if it was before or was not.
unfoldable pub registered_after : Abi → ℕ → Log → Bool → Bool
registered_after abi a log before =
    let event : ℕ = get_or log.topics 0 0 in
    let named : Bool = a == (get_or log.topics 1 0 % 2 ^ 160) in
    if event == abi.keccak256 common_chain_gateway_registered_event
    then (if named && decodes abi log then true else before)
    else if event == abi.keccak256 common_chain_gateway_deregistered_event
    then (if named then false else before)
    else before

-- The last log that says something of the gateway decides.
unfoldable pub history : Abi → ℕ → List Log → Bool → Bool
history abi a [] before = before
history abi a (log ∷ logs) before = history abi a logs (registered_after abi a log before)

module _ {ℓ} {V : Type ℓ} where
  abbrev present : Option V → Bool
  present none = false
  present (some v) = true

  contains_key-insert :
      (a b : ℕ) (v : V) (m : Table V)
      → contains_key a (insert b v m) ≡ (if a == b then true else contains_key a m)
  unfolding contains_key
  contains_key-insert a b v m =
      ap present (lookup-insert b a v m)
      ∙ elim (Bool-cases (a == b)) [ inl same ↦ rw same refl | inr differs ↦ rw differs refl ]

  contains_key-remove :
      (a b : ℕ) (m : Table V)
      → contains_key a (remove b m) ≡ (if a == b then false else contains_key a m)
  unfolding contains_key
  contains_key-remove a b m =
      ap present (lookup-remove b a m)
      ∙ elim (Bool-cases (a == b)) [ inl same ↦ rw same refl | inr differs ↦ rw differs refl ]

  present-map : (f : V → V) (o : Option V) → present (Option.map f o) ≡ present o
  present-map f none = refl
  present-map f (some v) = refl

  contains_key-modify :
      (a b : ℕ) (f : V → V) (m : Table V) → contains_key a (modify b f m) ≡ contains_key a m
  unfolding contains_key
  contains_key-modify a b f m = ap present (lookup-modify b a f m) ∙ elim (Bool-cases (a == b)) [
    | inl same ↦ rw same (present-map f (lookup a m))
    | inr differs ↦ rw differs refl
  ]

-- A topic that is read without a panic.
get_or_unwrap : (o : Option ℕ) (t : ℕ) → unwrap o ≡ ok t → o ≡ some t
get_or_unwrap none t e = cc
get_or_unwrap (some u) t e = ap some (ok-injective e)

topic-get_or : (log : Log) (i t : ℕ) → topic log i ≡ ok t → get_or log.topics i 0 ≡ t
topic-get_or log i t e =
    ap (λ o. elim o [ none ↦ 0 | some x ↦ x ]) (get_or_unwrap (get_elem? log.topics i) t e)

address_topic-get_or :
    (log : Log) (b : ℕ) → address_topic log ≡ ok b → get_or log.topics 1 0 % 2 ^ 160 ≡ b
address_topic-get_or log b e =
    let (t, read, e₁) = >>=-eq-ok (topic log 1) _ e in
    ap (λ u. u % 2 ^ 160) (topic-get_or log 1 t read) ∙ ok-injective e₁

module _ (abi : Abi) (a : ℕ) (log : Log) (m m' : Gateways) where
  abbrev named : Bool
  named = a == (get_or log.topics 1 0 % 2 ^ 160)

  register-contains_key :
      (block b : ℕ) (decoded : List Token)
      → register m block b decoded ≡ ok m'
      → contains_key a m' ≡ (if a == b then true else contains_key a m)
  unfolding register
  register-contains_key block b decoded e =
      let (t, _, e₁) = >>=-eq-ok (token decoded 0) _ e in
      let (ids, _, e₂) = >>=-eq-ok (chains_of_token t) _ e₁ in
      ap (contains_key a) (sym (ok-injective e₂))
      ∙ contains_key-insert a b (new_gateway block b ids) m

  decoded-contains_key :
      (block b : ℕ) (o : Option (List Token))
      → if_decoded o m (register m block b) ≡ ok m'
      → contains_key a m'
        ≡ (if (a == b) && elim o [ none ↦ false | some _ ↦ true ] then true else contains_key a m)
  decoded-contains_key block b none e =
      ap (contains_key a) (sym (ok-injective e))
      ∙ elim (Bool-cases (a == b)) [ inl same ↦ rw same refl | inr differs ↦ rw differs refl ]
  decoded-contains_key block b (some decoded) e =
      register-contains_key block b decoded e
      ∙ elim (Bool-cases (a == b)) [ inl same ↦ rw same refl | inr differs ↦ rw differs refl ]

  registered-contains_key :
      (block : ℕ)
      → process_gateway_registered_event abi log block m ≡ ok m'
      → contains_key a m' ≡ (if named && decodes abi log then true else contains_key a m)
  unfolding process_gateway_registered_event
  registered-contains_key block e =
      let (b, addressed, e₁) = >>=-eq-ok (address_topic log) _ e in
      rw (address_topic-get_or log b addressed)
        (decoded-contains_key block b (abi.decode registered_types log.payload) e₁)

  deregistered-contains_key :
      process_gateway_deregistered_event log m ≡ ok m'
      → contains_key a m' ≡ (if named then false else contains_key a m)
  unfolding process_gateway_deregistered_event
  deregistered-contains_key e =
      let (b, addressed, e₁) = >>=-eq-ok (address_topic log) _ e in
      rw (address_topic-get_or log b addressed)
        (ap (contains_key a) (sym (ok-injective e₁)) ∙ contains_key-remove a b m)

  change_chain-contains_key :
      (f : ℕ → GatewayData → GatewayData)
      → change_chain f abi log m ≡ ok m'
      → contains_key a m' ≡ contains_key a m
  unfolding change_chain
  change_chain-contains_key f e =
      let (b, addressed, e₁) = >>=-eq-ok (address_topic log) _ e in
      elim (Option-cases (abi.decode chain_types log.payload)) [
        | inl garbled ↦ ap (contains_key a) (sym (ok-injective (rw garbled at e₁)))
        | inr (decoded, parsed) ↦
            let (chain, _, e₂) = >>=-eq-ok (uint_at decoded 0 >>= as_u64) _ (rw parsed at e₁) in
            ap (contains_key a) (sym (ok-injective e₂)) ∙ contains_key-modify a b (f chain) m
      ]

others-contains_key :
    (abi : Abi) (a event : ℕ) (log : Log) (m m' : Gateways)
    → (if event == abi.keccak256 common_chain_gateway_chain_added_event
        then process_chain_added_event abi log m
        else if event == abi.keccak256 common_chain_gateway_chain_removed_event
        then process_chain_removed_event abi log m
        else ok m)
      ≡ ok m'
    → contains_key a m' ≡ contains_key a m
unfolding process_chain_added_event process_chain_removed_event
others-contains_key abi a event log m m' e =
    elim (Bool-cases (event == abi.keccak256 common_chain_gateway_chain_added_event)) [
      | inl hit ↦ change_chain-contains_key abi a log m m' add_chain (rw hit at e)
      | inr e₂ ↦
          elim (Bool-cases (event == abi.keccak256 common_chain_gateway_chain_removed_event)) [
            | inl hit ↦ change_chain-contains_key abi a log m m' remove_chain (rw (e₂, hit) at e)
            | inr other ↦ ap (contains_key a) (sym (ok-injective (rw (e₂, other) at e)))
          ]
    ]

process_log-registered_after :
    (abi : Abi) (a block : ℕ) (m m' : Gateways) (log : Log)
    → process_log abi block m log ≡ ok m'
    → contains_key a m' ≡ registered_after abi a log (contains_key a m)
unfolding process_log registered_after
process_log-registered_after abi a block m m' log e =
    let (event, read, e₁) = >>=-eq-ok (topic log 0) _ e in
    rw (topic-get_or log 0 event read)
      (elim (Bool-cases (event == abi.keccak256 common_chain_gateway_registered_event)) [
        | inl hit ↦ rw hit (registered-contains_key abi a log m m' block (rw hit at e₁))
        | inr e₂ ↦
            elim (Bool-cases (event == abi.keccak256 common_chain_gateway_deregistered_event)) [
              | inl hit ↦
                  rw (e₂, hit) (deregistered-contains_key abi a log m m' (rw (e₂, hit) at e₁))
              | inr e₃ ↦ rw (e₂, e₃) (others-contains_key abi a event log m m' (rw (e₂, e₃) at e₁))
            ]
      ])

-- The logs of a cycle, applied without a panic, leave a gateway registered exactly as its own
-- history says: the last of its registrations that decode and of its deregistrations decides, and
-- where there is none, it is as before.
pub process_logs-history :
    (abi : Abi) (a block : ℕ) (m m' : Gateways) (logs : List Log)
    → process_logs abi block m logs ≡ ok m'
    → contains_key a m' ≡ history abi a logs (contains_key a m)
unfolding process_logs history
process_logs-history abi a block m m' [] e = ap (contains_key a) (sym (ok-injective e))
process_logs-history abi a block m m' (log ∷ logs) e =
    let (d, first, rest) = >>=-eq-ok (process_log abi block m log) _ e in
    process_logs-history abi a block d m' logs rest
    ∙ ap (history abi a logs) (process_log-registered_after abi a block m d log first)
