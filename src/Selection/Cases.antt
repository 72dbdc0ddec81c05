-- ===== src/Selection/Cases.antt =====
-- What `select_gateway_for_job_id` returns on each of its paths.
use serverless_gateway.Constants.{gateway_block_states_to_maintain}
use serverless_gateway.Table.{Table, lookup, values}
use serverless_gateway.Words.{as_u64, add64}
use serverless_gateway.Prelude.{
  leb, ◌==◌, Bool-cases, Option-cases, All, In, All-get_elem?, All-append, Outcome, ◌>>=◌, unwrap,
  >>=-eq-ok, ok-pair, ok, err, panicked, ℕ, suc, ◌≡◌, refl, sym, ap, ◌∙◌, ◌⊎◌, inl, inr, true,
  Option, none, some, List, [], ◌∷◌, ◌++◌, arith,
}
use serverless_gateway.Model.{GatewayData, Job, ContractsClient}
use serverless_gateway.Selection.{
  StdRng, Distribution, is_eligible, add_gateway, distribute, pick, choose, cycle_at, no_stake,
  push_gateway, add_to_waitlist, select_gateway_for_job_id, select_in_cycle,
}

-- The address is that of a gateway of the list that can serve the chain.
abbrev pub Serves : ℕ → List GatewayData → ℕ → Type 0
Serves chain gs a = (g : GatewayData) × In g gs × (is_eligible chain g ≡ true) × (g.address ≡ a)

Serves-cons :
    (chain : ℕ) (g : GatewayData) (gs : List GatewayData) (a : ℕ)
    → Serves chain gs a
    → Serves chain (g ∷ gs) a
Serves-cons chain g gs a (h, (i, at), able, e) = (h, (suc i, at), able, e)

push_gateway-addresses :
    (m : Outcome ℕ) (a : ℕ) (d d' : Distribution)
    → (m >>= push_gateway a d) ≡ ok d'
    → d.addresses ++ a ∷ [] ≡ d'.addresses
push_gateway-addresses (ok w) a d d' e = ground arith
push_gateway-addresses (err x) a d d' e = cc
push_gateway-addresses panicked a d d' e = cc

unwrap-eq-ok : {a : ℕ} (o : Option ℕ) → unwrap o ≡ ok a → o ≡ some a
unwrap-eq-ok none e = cc
unwrap-eq-ok (some b) e = ground arith

module _ (chain : ℕ) (all : List GatewayData) where
  add_gateway-Serves :
      (g : GatewayData) (d d' : Distribution)
      → In g all
      → All (Serves chain all) d.addresses
      → add_gateway chain g d ≡ ok d'
      → All (Serves chain all) d'.addresses
  unfolding add_gateway
  add_gateway-Serves g d d' here h e = elim (Bool-cases (is_eligible chain g)) [
    | inl able ↦
        let grown : All (Serves chain all) (d.addresses ++ g.address ∷ []) =
          All-append (Serves chain all) d.addresses (g.address ∷ []) h
            ((g, here, able, refl), tt) in
        rw (← push_gateway-addresses _ g.address d d' (rw able at e)) grown
    | inr unable ↦ let same : d ≡ d' = cc (rw unable at e) in rw (← same) h
  ]

  distribute-Serves :
      (gs : List GatewayData) (d d' : Distribution)
      → ((g : GatewayData) → In g gs → In g all)
      → All (Serves chain all) d.addresses
      → distribute chain gs d ≡ ok d'
      → All (Serves chain all) d'.addresses
  unfolding distribute
  distribute-Serves [] d d' sub h e = let same : d ≡ d' = cc in rw (← same) h
  distribute-Serves (g ∷ gs) d d' sub h e =
      let (d₁, first, rest) = >>=-eq-ok _ _ e in
      distribute-Serves gs d₁ d' (λ x at. sub x (suc at.0, at.1))
        (add_gateway-Serves g d d₁ (sub g (0, refl)) h first) rest

-- Whatever the numbers are, a gateway that is chosen can serve the job's chain.
pub choose-Serves :
    (rng : StdRng) (job_cycle : ℕ) (job : Job) (gs : List GatewayData) (seed skips a : ℕ)
    → choose rng job_cycle job gs seed skips ≡ ok a
    → Serves job.request_chain_id gs a
unfolding choose pick
choose-Serves rng job_cycle job [] seed skips a e = cc
choose-Serves rng job_cycle job (g ∷ gs) seed skips a e =
    let (d, collected, picked) =
      >>=-eq-ok (distribute job.request_chain_id (g ∷ gs) no_stake) _ e in
    let able : All (Serves job.request_chain_id (g ∷ gs)) d.addresses =
      distribute-Serves job.request_chain_id (g ∷ gs) (g ∷ gs) no_stake d (λ x at. at) tt
        collected in
    elim (Bool-cases (d.total == 0)) [
      | inl none_left ↦ cc (rw none_left at picked)
      | inr some_left ↦
          All-get_elem? (Serves job.request_chain_id (g ∷ gs)) d.addresses _ a able
            (unwrap-eq-ok _ (rw some_left at picked))
    ]

-- What a successful selection in a cycle has done.
abbrev pub Selected : ContractsClient → Job → ℕ → ℕ → ContractsClient → Type 0
Selected c job job_cycle a c' =
    ((lookup job_cycle c.gateway_epoch_state ≡ none)
      × (a ≡ 0)
      × (c' ≡ record c {
        gateway_epoch_state_waitlist = add_to_waitlist job_cycle job c.gateway_epoch_state_waitlist;
      }))
    ⊎ ((state : Table GatewayData) × (lookup job_cycle c.gateway_epoch_state ≡ some state)
        × Serves job.request_chain_id (values state) a
        × (c' ≡ c))

select_in_cycle-Selected :
    (rng : StdRng) (c : ContractsClient) (job_cycle : ℕ) (job : Job) (seed skips a : ℕ)
    (c' : ContractsClient)
    → select_in_cycle rng c job_cycle job seed skips ≡ ok (a, c')
    → Selected c job job_cycle a c'
unfolding select_in_cycle
select_in_cycle-Selected rng c job_cycle job seed skips a c' e =
    elim (Option-cases (lookup job_cycle c.gateway_epoch_state)) [
      | inl unknown ↦
          let (zero_address, waits) = ok-pair (rw (unknown, select_in_cycle) at e) in
          inl (unknown, sym zero_address, sym waits)
      | inr (state, known) ↦
          let (b, chosen, done) =
            >>=-eq-ok (choose rng job_cycle job (values state) seed skips) _
              (rw (known, select_in_cycle) at e) in
          let (same, kept) = ok-pair done in
          inr (
            state,
            known,
            rw same at (choose-Serves rng job_cycle job (values state) seed skips b chosen),
            sym kept,
          )
    ]

-- A selection that succeeds is one of two: the job's cycle is not known yet, the job is put on the
-- waitlist of the cycle and the zero address returned; or the client is unchanged and the address
-- is that of a gateway which in the job's cycle serves the chain, has more than the minimal stake
-- and is not draining.
pub select_gateway_for_job_id-Selected :
    (rng : StdRng) (c : ContractsClient) (now : ℕ) (job : Job) (seed skips a : ℕ)
    (c' : ContractsClient)
    → select_gateway_for_job_id rng c now job seed skips ≡ ok (a, c')
    → (job_cycle : ℕ) × ((as_u64 job.starttime >>= cycle_at c) ≡ ok job_cycle)
      × Selected c job job_cycle a c'
unfolding select_gateway_for_job_id
select_gateway_for_job_id-Selected rng c now job seed skips a c' e =
    let (start, started, e₁) = >>=-eq-ok (as_u64 job.starttime) _ e in
    let (job_cycle, of_job, e₂) = >>=-eq-ok (cycle_at c start) _ e₁ in
    let (current, of_now, e₃) = >>=-eq-ok (cycle_at c now) _ e₂ in
    (
      job_cycle,
      ap (λ m. m >>= cycle_at c) started ∙ of_job,
      elim (Bool-cases (leb (add64 gateway_block_states_to_maintain job_cycle) current)) [
        | inl old ↦ cc (rw old at e₃)
        | inr recent ↦
            select_in_cycle-Selected rng c job_cycle job seed skips a c' (rw recent at e₃)
      ],
    )
