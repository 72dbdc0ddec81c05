-- ===== src/Subscription/Update/Laws.antt =====
-- An update changes the parameters it names, of the subscription it names.
use serverless_gateway.Model.{SubscriptionJob, ContractsClient}
use serverless_gateway.Chain.{Log, Token, Abi, topic}
use serverless_gateway.Table.Laws.{lookup-modify}
use serverless_gateway.Table.{lookup}
use serverless_gateway.Prelude.{
  ◌==◌, if◌then◌else◌, Option-cases, Outcome, no_subscription_job_found, ok, err, panicked, ℕ, ◌≡◌,
  refl, ◌≢◌, inl, inr, none, some, List, [], ◌∷◌,
}
use mathlib.Core.Option
use serverless_gateway.Subscription.Update.{
  job_params_types, termination_params_types, update_subscription, update_subscription_job_params,
  update_subscription_job_termination_params,
}

-- What an update with the change `f` of a subscription has done: the error names the missing one.
abbrev pub Updated :
    ContractsClient → ℕ → (SubscriptionJob → SubscriptionJob) → Outcome ContractsClient → Type 0
Updated c id f (ok c') =
    ((j : ℕ)
      → lookup j c'.subscription_jobs ≡ (
          if j == id
          then Option.map f (lookup j c.subscription_jobs)
          else lookup j c.subscription_jobs))
    × (c' ≡ record c { subscription_jobs = c'.subscription_jobs })
    × (lookup id c.subscription_jobs ≢ none)
Updated c id f (err e) = (lookup id c.subscription_jobs ≡ none) × (e ≡ no_subscription_job_found id)
Updated c id f panicked = ⊥

update_subscription-Updated :
    (c : ContractsClient) (id : ℕ) (f : SubscriptionJob → SubscriptionJob)
    → Updated c id f (update_subscription c id (ok f))
unfolding update_subscription
update_subscription-Updated c id f = elim (Option-cases (lookup id c.subscription_jobs)) [
  | inl unknown ↦ rw (unknown, update_subscription) (unknown, refl)
  | inr (s, known) ↦
      rw (known, update_subscription)
        ((λ j. lookup-modify id j f c.subscription_jobs), refl, λ missing. cc)
]

-- The event of new job parameters, decoded: the code hash and input of its subscription are the new
-- ones, and nothing else in the client changes; for an unknown subscription it is the error.
pub update_subscription_job_params-Updated :
    (abi : Abi) (c : ContractsClient) (log : Log) (id : ℕ) (hash input : List ℕ)
    → abi.decode job_params_types log.payload
      ≡ some (Token.fixed_bytes hash ∷ Token.bytes input ∷ [])
    → topic log 1 ≡ ok id
    → Updated c id
        (λ s. record s { tx_hash = hash; code_input = input })
        (update_subscription_job_params abi c log)
unfolding update_subscription_job_params
update_subscription_job_params-Updated abi c log id hash input decoded named =
    rw (decoded, update_subscription_job_params, named) (update_subscription-Updated c id _)

-- The same of a new termination time.
pub update_subscription_job_termination_params-Updated :
    (abi : Abi) (c : ContractsClient) (log : Log) (id time : ℕ)
    → abi.decode termination_params_types log.payload ≡ some (Token.uint time ∷ [])
    → topic log 1 ≡ ok id
    → Updated c id
        (λ s. record s { termination_time = time })
        (update_subscription_job_termination_params abi c log)
unfolding update_subscription_job_termination_params
update_subscription_job_termination_params-Updated abi c log id time decoded named =
    rw (decoded, update_subscription_job_termination_params, named)
      (update_subscription-Updated c id _)
