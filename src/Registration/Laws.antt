-- ===== src/Registration/Laws.antt =====
-- The gateway is registered when every chain has reported, in any order.
use serverless_gateway.Model.{ChainSet}
use serverless_gateway.Table.{remove}
use serverless_gateway.Prelude.{
  ◌==◌, if◌then◌else◌, Bool-cases, All, ok, ℕ, ◌≡◌, refl, sym, ap, ◌∙◌, ◌⊎◌, inl, inr, Bool, true,
  false, ◌&&◌, ◌||◌, Option, none, some, List, [], ◌∷◌,
}
use serverless_gateway.Registration.{
  RegisteredData, common_chain, request_chain, RegisterType, note_registered, none_left,
  await_registered, wait_for_registration,
}

-- A message of a request chain names it.
abbrev pub NamesChain : RegisteredData → Type 0
NamesChain m =
    (m.register_type ≡ common_chain)
    ⊎ ((m.register_type ≡ request_chain) × ((n : ℕ) × (m.chain_id ≡ some n)))

abbrev pub is_common : RegisterType → Bool
is_common common_chain = true
is_common request_chain = false

abbrev pub is_chain : ℕ → RegisterType → Option ℕ → Bool
is_chain id common_chain n = false
is_chain id request_chain none = false
is_chain id request_chain (some n) = n == id

-- The common chain has reported; a chain has; all of them have.
unfoldable pub common_reported : List RegisteredData → Bool
common_reported [] = false
common_reported (m ∷ ms) = is_common m.register_type || common_reported ms

unfoldable pub chain_reported : ℕ → List RegisteredData → Bool
chain_reported id [] = false
chain_reported id (m ∷ ms) = is_chain id m.register_type m.chain_id || chain_reported id ms

unfoldable pub all_reported : ChainSet → List RegisteredData → Bool
all_reported [] ms = true
all_reported ((id, u) ∷ ids) ms = chain_reported id ms && all_reported ids ms

all_reported-remove :
    (n : ℕ) (ids : ChainSet) (m : RegisteredData) (ms : List RegisteredData)
    → m.register_type ≡ request_chain
    → m.chain_id ≡ some n
    → all_reported (remove n ids) ms ≡ all_reported ids (m ∷ ms)
unfolding all_reported chain_reported remove
all_reported-remove n [] m ms type chain = refl
all_reported-remove n ((j, u) ∷ ids) m ms type chain =
    let ih = all_reported-remove n ids m ms type chain in
    let one : is_chain j m.register_type m.chain_id ≡ (n == j) =
      ap (λ x. is_chain j x m.chain_id) type ∙ ap (is_chain j request_chain) chain in
    elim (Bool-cases (n == j)) [
      | inl same ↦ rw (one, same) ih
      | inr differs ↦ rw (one, differs) (ap (λ b. chain_reported j ms && b) ih)
    ]

all_reported-common :
    (ids : ChainSet) (m : RegisteredData) (ms : List RegisteredData)
    → m.register_type ≡ common_chain
    → all_reported ids (m ∷ ms) ≡ all_reported ids ms
unfolding all_reported chain_reported
all_reported-common [] m ms type = refl
all_reported-common ((j, u) ∷ ids) m ms type =
    let one : is_chain j m.register_type m.chain_id ≡ false =
      ap (λ x. is_chain j x m.chain_id) type in
    rw (one, all_reported-common ids m ms type) refl

-- The rest of a step of the loop, from what it waits for next.
await_registered-step :
    (common : Bool) (left : ChainSet) (ms : List RegisteredData)
    → ((common && none_left left) ≡ false
        → await_registered (common, left) ms
          ≡ ok ((common || common_reported ms) && all_reported left ms))
    → (if common && none_left left then ok true else await_registered (common, left) ms)
      ≡ ok ((common || common_reported ms) && all_reported left ms)
unfolding all_reported
await_registered-step true [] ms ih = refl
await_registered-step true (n ∷ left) ms ih = ih refl
await_registered-step false left ms ih = ih refl

-- One message, by its type.
note_common :
    (m : RegisteredData) (common : Bool) (left : ChainSet)
    → m.register_type ≡ common_chain
    → note_registered m (common, left) ≡ ok (true, left)
unfolding note_registered
note_common m common left type = rw type refl

note_chain :
    (m : RegisteredData) (common : Bool) (left : ChainSet) (n : ℕ)
    → m.register_type ≡ request_chain
    → m.chain_id ≡ some n
    → note_registered m (common, left) ≡ ok (common, remove n left)
unfolding note_registered
note_chain m common left n type chain = rw (type, chain) refl

or-true : (b c : Bool) → c ≡ true → (b || c) ≡ true
or-true true c e = refl
or-true false c e = e

awaits :
    (common : Bool) (left : ChainSet) (ms : List RegisteredData)
    → All NamesChain ms
    → (common && none_left left) ≡ false
    → await_registered (common, left) ms
      ≡ ok ((common || common_reported ms) && all_reported left ms)
unfolding await_registered common_reported all_reported chain_reported
awaits true [] [] all open_still = cc
awaits true (n ∷ left) [] all open_still = refl
awaits false left [] all open_still = refl
awaits common left (m ∷ ms) all open_still = elim all.0 [
  | inl type ↦
      let done : (common || (is_common m.register_type || common_reported ms)) ≡ true =
        or-true common (is_common m.register_type || common_reported ms)
          (rw (ap is_common type) refl) in
      rw (note_common m common left type, all_reported-common left m ms type, done)
        (await_registered-step true left ms (awaits true left ms all.1))
  | inr (type, (n, chain)) ↦
      let other : is_common m.register_type ≡ false = ap is_common type in
      rw
        (
          note_chain m common left n type chain,
          sym (all_reported-remove n left m ms type chain),
          other,
        )
        (await_registered-step common (remove n left) ms (awaits common (remove n left) ms all.1))
]

-- On any messages that name their chains, the gateway is marked as registered exactly where the
-- common chain and each of the request chains are among the senders: in any order, with any
-- repetitions, and whatever other chains report.
pub wait_for_registration-completes :
    (chain_ids : ChainSet) (ms : List RegisteredData)
    → All NamesChain ms
    → wait_for_registration chain_ids ms ≡ ok (common_reported ms && all_reported chain_ids ms)
unfolding wait_for_registration
wait_for_registration-completes chain_ids ms all = awaits false chain_ids ms all refl
