-- ===== src/Samples.antt =====
-- A concrete gateway, job, subscription, generator and decoder, for the tests.
pub mod Jobs
pub mod Gateways
pub mod Signer
use serverless_gateway.Model.{GatewayData, Job, SubscriptionJob, ContractsClient, job_relay, once}
use serverless_gateway.Chain.{Log, Token, Abi}
use serverless_gateway.Constants.{gateway_stake_adjustment_factor}
use serverless_gateway.Prelude.{ℕ, ◌*◌, false, none, some, List, [], ◌∷◌, arith}
use serverless_gateway.Selection.{StdRng}

-- A generator that always draws 1.
abbrev pub first_draw : StdRng
first_draw = record {
  State = Unit;
  seed_from_u64 = λ seed. tt;
  gen_range = λ s n. (1, s);
  gen_range_bounds = λ s n h. (omega arith, h);
}

-- A decoder that finds these tokens in every payload.
abbrev pub reading : List Token → Abi
reading tokens = record { keccak256 = λ s. 17; decode = λ types payload. some tokens }

abbrev pub log_of : List ℕ → Log
log_of topics = record {
  address = 50;
  topics = topics;
  payload = [];
  block_number = some 90;
  transaction_hash = some 1;
  removed = some false;
}

abbrev pub gateway_at : ℕ → ℕ → GatewayData
gateway_at address tokens = record {
  last_block_number = 90;
  address = address;
  stake_amount = tokens * gateway_stake_adjustment_factor;
  req_chain_ids = (5, tt) ∷ [];
  draining = false;
}

-- A gateway with 200 tokens of stake, one with too little, and one with 300.
abbrev pub three_gateways : List GatewayData
three_gateways = gateway_at 7 200 ∷ gateway_at 8 100 ∷ gateway_at 9 300 ∷ []

abbrev pub a_job : Job
a_job = record {
  job_id = 260;
  request_chain_id = 5;
  tx_hash = 1 ∷ [];
  code_input = [];
  user_timeout = 100;
  starttime = 35;
  job_owner = 40;
  job_type = job_relay;
  sequence_number = 1;
  gateway_address = none;
  job_mode = once;
  env = 4;
}

-- The job, given to a gateway.
abbrev pub given_to : ℕ → Job
given_to gateway = record a_job { gateway_address = some gateway }

-- An interval of 10, a start at 20 and an end at 45.
abbrev pub a_subscription : SubscriptionJob
a_subscription = record {
  subscription_id = 600;
  request_chain_id = 5;
  subscriber = 40;
  interval = 10;
  termination_time = 45;
  user_timeout = 100;
  tx_hash = 1 ∷ [];
  code_input = [];
  starttime = 20;
  env = 1;
}

-- Cycles of 10 seconds from time 0. Cycle 3 is known, its own job is active and a job of gateway 9
-- is watched.
abbrev pub a_client : ContractsClient
a_client = record {
  enclave_address = 7;
  gateway_epoch_state =
      (3, (7, gateway_at 7 200) ∷ (8, gateway_at 8 100) ∷ (9, gateway_at 9 300) ∷ []) ∷ [];
  request_chain_ids = (5, tt) ∷ [];
  active_jobs = (260, given_to 7) ∷ [];
  current_jobs = (261, record (given_to 9) { job_id = 261 }) ∷ [];
  epoch = 0;
  time_interval = 10;
  offset_for_epoch = 0;
  gateway_epoch_state_waitlist = [];
  subscription_job_instance_heap = [];
  subscription_jobs = (600, a_subscription) ∷ [];
  req_chain_tx = [];
  com_chain_tx = [];
  job_subscription_tx = [];
  spawned = [];
}
