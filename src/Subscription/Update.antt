-- ===== src/Subscription/Update.antt =====
-- `update_subscription_job_params` and `update_subscription_job_termination_params`.
pub mod Laws
use serverless_gateway.Model.{SubscriptionJob, ContractsClient}
use serverless_gateway.Chain.{Log, ParamType, Token, Abi, topic, uint_at, bytes_at, fixed_bytes_at}
use serverless_gateway.Table.{lookup, modify}
use serverless_gateway.Prelude.{
  Outcome, ◌>>=◌, log_decode_failure, no_subscription_job_found, ok, err, ℕ, none, some, List, [],
  ◌∷◌,
}

abbrev pub job_params_types : List ParamType
job_params_types = ParamType.fixed_bytes 32 ∷ ParamType.bytes ∷ []

abbrev pub termination_params_types : List ParamType
termination_params_types = ParamType.uint 256 ∷ []

-- `get_mut` on a subscription that was found before.
unfoldable pub update_subscription :
    ContractsClient → ℕ → Outcome (SubscriptionJob → SubscriptionJob) → Outcome ContractsClient
update_subscription c subscription_id change = elim (lookup subscription_id c.subscription_jobs) [
  | none ↦ err (no_subscription_job_found subscription_id)
  | some s ↦ change >>= λ f.
      ok (record c { subscription_jobs = modify subscription_id f c.subscription_jobs })
]

new_job_params : List Token → Outcome (SubscriptionJob → SubscriptionJob)
new_job_params decoded = do
  new_tx_hash ← fixed_bytes_at decoded 0
  new_code_input ← bytes_at decoded 1
  ok (λ s. record s { tx_hash = new_tx_hash; code_input = new_code_input })

unfoldable pub update_subscription_job_params :
    Abi → ContractsClient → Log → Outcome ContractsClient
unfolding new_job_params
update_subscription_job_params abi c log = elim (abi.decode job_params_types log.payload) [
  | none ↦ err log_decode_failure
  | some decoded ↦ topic log 1 >>= λ subscription_id.
      update_subscription c subscription_id (new_job_params decoded)
]

new_termination : List Token → Outcome (SubscriptionJob → SubscriptionJob)
new_termination decoded = do
  new_termination_time ← uint_at decoded 0
  ok (λ s. record s { termination_time = new_termination_time })

unfoldable pub update_subscription_job_termination_params :
    Abi → ContractsClient → Log → Outcome ContractsClient
unfolding new_termination
update_subscription_job_termination_params abi c log =
    elim (abi.decode termination_params_types log.payload) [
      | none ↦ err log_decode_failure
      | some decoded ↦ topic log 1 >>= λ subscription_id.
          update_subscription c subscription_id (new_termination decoded)
    ]
