-- ===== src/Constants.antt =====
-- src/constant.rs.
use serverless_gateway.Prelude.{ℕ, ◌^◌, String}

abbrev pub request_relay_timeout : ℕ
request_relay_timeout = 40

abbrev pub max_gateway_retries : ℕ
max_gateway_retries = 2

abbrev pub max_tx_receipt_retries : ℕ
max_tx_receipt_retries = 5

abbrev pub max_retry_on_provider_error : ℕ
max_retry_on_provider_error = 5

abbrev pub gateway_block_states_to_maintain : ℕ
gateway_block_states_to_maintain = 5

abbrev pub min_gateway_stake : ℕ
min_gateway_stake = 111_111_111_111_111_110_000

abbrev pub gateway_stake_adjustment_factor : ℕ
gateway_stake_adjustment_factor = 10 ^ 18

abbrev pub common_chain_gateway_registered_event : String
common_chain_gateway_registered_event = "GatewayRegistered(address,address,uint256[])"

abbrev pub common_chain_gateway_deregistered_event : String
common_chain_gateway_deregistered_event = "GatewayDeregistered(address)"

abbrev pub common_chain_gateway_chain_added_event : String
common_chain_gateway_chain_added_event = "ChainAdded(address,uint256)"

abbrev pub common_chain_gateway_chain_removed_event : String
common_chain_gateway_chain_removed_event = "ChainRemoved(address,uint256)"

abbrev pub common_chain_job_relayed_event : String
common_chain_job_relayed_event = "JobRelayed(uint256,uint256,uint8,address,address)"

abbrev pub common_chain_job_responded_event : String
common_chain_job_responded_event = "JobResponded(uint256,bytes,uint256,uint8)"

abbrev pub common_chain_job_resource_unavailable_event : String
common_chain_job_resource_unavailable_event = "JobResourceUnavailable(uint256,address)"

abbrev pub common_chain_gateway_reassigned_event : String
common_chain_gateway_reassigned_event = "GatewayReassigned(uint256,address,address,uint8)"

abbrev pub request_chain_job_relayed_event : String
request_chain_job_relayed_event =
    "JobRelayed(uint256,uint8,bytes32,bytes,uint256,uint256,uint256,uint256,address,address,uint256,uint256)"

abbrev pub request_chain_job_cancelled_event : String
request_chain_job_cancelled_event = "JobCancelled(uint256)"

abbrev pub request_chain_job_subscription_started_event : String
request_chain_job_subscription_started_event =
    "JobSubscriptionStarted(uint256,uint8,address,uint256,uint256,uint256,uint256,address,bytes32,bytes,uint256)"

abbrev pub request_chain_job_subscription_job_params_updated_event : String
request_chain_job_subscription_job_params_updated_event =
    "JobSubscriptionJobParamsUpdated(uint256,bytes32,bytes)"

abbrev pub request_chain_job_subscription_termination_params_updated_event : String
request_chain_job_subscription_termination_params_updated_event =
    "JobSubscriptionTerminationParamsUpdated(uint256,uint256)"
