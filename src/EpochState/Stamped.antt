-- ===== src/EpochState/Stamped.antt =====
-- The logs of a cycle are applied without an error, and every gateway bears the cycle's last block.
use serverless_gateway.Table.Laws.{insert-All, remove-All}
use serverless_gateway.Words.{u64_mod, as_u64}
use serverless_gateway.Model.{ChainSet, GatewayData}
use serverless_gateway.Chain.{Log, Token, Abi, into_uint, token, uint_at, topic}
use serverless_gateway.Table.{insert, modify, remove}
use serverless_gateway.Prelude.{
  ltb, ◌==◌, if◌then◌else◌, Bool-cases, Option-cases, get_elem?, All, ServerlessError, Outcome,
  ◌>>=◌, unwrap, ok, err, panicked, ℕ, ◌≡◌, refl, ◌∙◌, ◌≢◌, inl, inr, Bool, true, false, Option,
  none, some, List, [], ◌∷◌, map,
}
use serverless_gateway.EpochState.{
  Gateways, process_logs, collect_chains, process_log, chains_of_token, register, address_topic,
  new_gateway, process_gateway_registered_event, process_gateway_deregistered_event, change_chain,
  registered_types, chain_types, if_decoded, process_chain_added_event, process_chain_removed_event,
  add_chain, remove_chain, refresh_stakes, set_block,
}

-- The gateway was written at the block.
abbrev pub At : ℕ → ℕ × GatewayData → Type 0
At block (a, g) = g.last_block_number ≡ block

-- No error, and every gateway at the block.
unfoldable pub Stamped : ℕ → Outcome Gateways → Type 0
Stamped block (ok m) = All (At block) m
Stamped block (err e) = ⊥
Stamped block panicked = Unit

pub >>=-Stamped {ℓ} :
    {A : Type ℓ} (block : ℕ) (o : Outcome A) (f : A → Outcome Gateways)
    → ((e : ServerlessError) → o ≢ err e)
    → ((a : A) → Stamped block (f a))
    → Stamped block (o >>= f)
unfolding Stamped
>>=-Stamped block (ok a) f n h = h a
>>=-Stamped block (err e) f n h = n e refl
>>=-Stamped block panicked f n h = tt

-- `unwrap` and what is read with it return no error.
pub unwrap-not-err {ℓ} : {A : Type ℓ} (o : Option A) (e : ServerlessError) → unwrap o ≢ err e
unwrap-not-err none e h = cc
unwrap-not-err (some a) e h = cc

modify-All :
    (P : ℕ × GatewayData → Type 0) (k : ℕ) (f : GatewayData → GatewayData) (m : Gateways)
    → ((j : ℕ) (g : GatewayData) → P (j, g) → P (j, f g))
    → All P m
    → All P (modify k f m)
unfolding modify
modify-All P k f [] h all = tt
modify-All P k f ((j, g) ∷ m) h all =
    let rest = modify-All P k f m h all.1 in
    elim (Bool-cases (k == j)) [
      | inl same ↦ rw same (h j g all.0, rest)
      | inr differs ↦ rw differs (all.0, rest)
    ]

collect_chains-not-err :
    (ts : List ℕ) (ids : ChainSet) (e : ServerlessError) → collect_chains ts ids ≢ err e
unfolding collect_chains
collect_chains-not-err [] ids e h = cc
collect_chains-not-err (t ∷ ts) ids e h = elim (Bool-cases (ltb t u64_mod)) [
  | inl small ↦ collect_chains-not-err ts (insert t tt ids) e (rw small at h)
  | inr large ↦ cc (rw large at h)
]

chains_of_token-not-err : (t : Token) (e : ServerlessError) → chains_of_token t ≢ err e
unfolding chains_of_token
chains_of_token-not-err (Token.array ts) e h = collect_chains-not-err ts [] e h
chains_of_token-not-err (Token.uint n) e h = cc
chains_of_token-not-err (Token.address n) e h = cc
chains_of_token-not-err (Token.bytes b) e h = cc
chains_of_token-not-err (Token.fixed_bytes b) e h = cc
chains_of_token-not-err (Token.string s) e h = cc

register-Stamped :
    (m : Gateways) (block address : ℕ) (decoded : List Token)
    → All (At block) m
    → Stamped block (register m block address decoded)
unfolding register Stamped
register-Stamped m block address decoded all =
    >>=-Stamped block (token decoded 0)
      (λ t. chains_of_token t >>= λ ids. ok (insert address (new_gateway block address ids) m))
      (unwrap-not-err (get_elem? decoded 0))
      λ t.
        >>=-Stamped block (chains_of_token t)
          (λ ids. ok (insert address (new_gateway block address ids) m)) (chains_of_token-not-err t)
          λ ids. insert-All (At block) address (new_gateway block address ids) m refl all

address_topic-not-err : (log : Log) (e : ServerlessError) → address_topic log ≢ err e
address_topic-not-err log e h = elim (Option-cases (get_elem? log.topics 1)) [
  | inl absent ↦ cc (rw absent at h)
  | inr (t, present) ↦ cc (rw present at h)
]

into_uint-not-err : (t : Token) (e : ServerlessError) → into_uint t >>= as_u64 ≢ err e
into_uint-not-err (Token.uint n) e h = elim (Bool-cases (ltb n u64_mod)) [
  | inl small ↦ cc (rw small at h)
  | inr large ↦ cc (rw large at h)
]
into_uint-not-err (Token.array a) e h = cc
into_uint-not-err (Token.address n) e h = cc
into_uint-not-err (Token.bytes b) e h = cc
into_uint-not-err (Token.fixed_bytes b) e h = cc
into_uint-not-err (Token.string s) e h = cc

chain_id-not-err :
    (decoded : List Token) (e : ServerlessError) → uint_at decoded 0 >>= as_u64 ≢ err e
chain_id-not-err decoded e h = elim (Option-cases (get_elem? decoded 0)) [
  | inl absent ↦ cc (rw absent at h)
  | inr (t, present) ↦ into_uint-not-err t e (rw present at h)
]

if_decoded-Stamped :
    (block : ℕ) (o : Option (List Token)) (m : Gateways) (f : List Token → Outcome Gateways)
    → All (At block) m
    → ((decoded : List Token) → Stamped block (f decoded))
    → Stamped block (if_decoded o m f)
unfolding Stamped
if_decoded-Stamped block none m f all h = all
if_decoded-Stamped block (some decoded) m f all h = h decoded

registered-Stamped :
    (abi : Abi) (log : Log) (block : ℕ) (m : Gateways)
    → All (At block) m
    → Stamped block (process_gateway_registered_event abi log block m)
unfolding process_gateway_registered_event
registered-Stamped abi log block m all =
    let o = abi.decode registered_types log.payload in
    >>=-Stamped block (address_topic log) (λ a. if_decoded o m (register m block a))
      (address_topic-not-err log)
      λ a.
        if_decoded-Stamped block o m (register m block a) all
          λ decoded. register-Stamped m block a decoded all

deregistered-Stamped :
    (log : Log) (block : ℕ) (m : Gateways)
    → All (At block) m
    → Stamped block (process_gateway_deregistered_event log m)
unfolding process_gateway_deregistered_event Stamped
deregistered-Stamped log block m all =
    >>=-Stamped block (address_topic log) (λ a. ok (remove a m)) (address_topic-not-err log)
      λ a. remove-All (At block) a m all

change_chain-Stamped :
    (f : ℕ → GatewayData → GatewayData) (abi : Abi) (log : Log) (block : ℕ) (m : Gateways)
    → ((c : ℕ) (g : GatewayData) → (f c g).last_block_number ≡ g.last_block_number)
    → All (At block) m
    → Stamped block (change_chain f abi log m)
unfolding change_chain Stamped
change_chain-Stamped f abi log block m keeps all =
    let o = abi.decode chain_types log.payload in
    let change : ℕ → List Token → Outcome Gateways =
      λ a decoded. uint_at decoded 0 >>= as_u64 >>= λ c. ok (modify a (f c) m) in
    >>=-Stamped block (address_topic log) (λ a. if_decoded o m (change a))
      (address_topic-not-err log)
      λ a. if_decoded-Stamped block o m (change a) all λ decoded.
        >>=-Stamped block (uint_at decoded 0 >>= as_u64) (λ c. ok (modify a (f c) m))
          (chain_id-not-err decoded)
          λ c. modify-All (At block) a (f c) m (λ j g e. keeps c g ∙ e) all

if-Stamped :
    (block : ℕ) (b : Bool) (x y : Outcome Gateways)
    → Stamped block x
    → Stamped block y
    → Stamped block (if b then x else y)
if-Stamped block true x y h k = h
if-Stamped block false x y h k = k

process_log-Stamped :
    (abi : Abi) (block : ℕ) (m : Gateways) (log : Log)
    → All (At block) m
    → Stamped block (process_log abi block m log)
unfolding process_log process_chain_added_event process_chain_removed_event Stamped
process_log-Stamped abi block m log all =
    let registered = registered-Stamped abi log block m all in
    let deregistered = deregistered-Stamped log block m all in
    let added = change_chain-Stamped add_chain abi log block m (λ c g. refl) all in
    let removed = change_chain-Stamped remove_chain abi log block m (λ c g. refl) all in
    >>=-Stamped block (topic log 0) _ (unwrap-not-err (get_elem? log.topics 0))
      λ t. search (if-Stamped, registered, deregistered, added, removed, all)

pub followed-Stamped :
    (block : ℕ) (o : Outcome Gateways) (f : Gateways → Outcome Gateways)
    → Stamped block o
    → ((m : Gateways) → All (At block) m → Stamped block (f m))
    → Stamped block (o >>= f)
unfolding Stamped
followed-Stamped block (ok m) f s h = h m s
followed-Stamped block (err e) f s h = s
followed-Stamped block panicked f s h = tt

pub process_logs-Stamped :
    (abi : Abi) (block : ℕ) (m : Gateways) (logs : List Log)
    → All (At block) m
    → Stamped block (process_logs abi block m logs)
unfolding process_logs Stamped
process_logs-Stamped abi block m [] all = all
process_logs-Stamped abi block m (log ∷ logs) all =
    followed-Stamped block (process_log abi block m log) (λ m'. process_logs abi block m' logs)
      (process_log-Stamped abi block m log all)
      λ m' all'. process_logs-Stamped abi block m' logs all'

pub set_block-At : (block : ℕ) (m : Gateways) → All (At block) (map (set_block block) m)
set_block-At block [] = tt
set_block-At block ((a, g) ∷ m) = (refl, set_block-At block m)

pub refresh_stakes-At :
    (block : ℕ) (call : ℕ → Option (ℕ × Bool)) (addresses : List ℕ) (m : Gateways)
    → All (At block) m
    → All (At block) (refresh_stakes call addresses m)
unfolding refresh_stakes
refresh_stakes-At block call [] m all = all
refresh_stakes-At block call (a ∷ addresses) m all = elim (Option-cases (call a)) [
  | inl absent ↦ rw absent (refresh_stakes-At block call addresses m all)
  | inr ((stake, draining), present) ↦ rw present (
      refresh_stakes-At block call addresses
        (modify a (λ g. record g { stake_amount = stake; draining = draining }) m)
        (modify-All (At block) a (λ g. record g { stake_amount = stake; draining = draining }) m
          (λ j g e. e) all))
]
