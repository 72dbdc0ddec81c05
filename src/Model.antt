-- ===== src/Model.antt =====
-- src/model.rs: the data of the gateway. Words, addresses and hashes are numbers, byte strings are
-- lists of numbers. URLs, keys and contract handles of the library ethers are left out.
use serverless_gateway.Prelude.{ℕ, Bool, Option, List}
use serverless_gateway.Table.{Table}

-- A `BTreeSet` is a `BTreeMap` to the unit type.
abbrev pub ChainSet : Type 0
ChainSet = Table (Unit {0})

pub record GatewayData : Type 0 where
  pub last_block_number : ℕ
  pub address : ℕ
  pub stake_amount : ℕ
  pub req_chain_ids : ChainSet
  pub draining : Bool

pub data GatewayJobType : Type 0 where
  job_relay slash_gateway_job job_responded : GatewayJobType

pub data JobMode : Type 0 where
  once subscription : JobMode

pub record Job : Type 0 where
  pub job_id : ℕ
  pub request_chain_id : ℕ
  pub tx_hash : List ℕ
  pub code_input : List ℕ
  pub user_timeout : ℕ
  pub starttime : ℕ
  pub job_owner : ℕ
  pub job_type : GatewayJobType
  pub sequence_number : ℕ
  pub gateway_address : Option ℕ
  pub job_mode : JobMode
  pub env : ℕ

pub record ResponseJob : Type 0 where
  pub job_id : ℕ
  pub request_chain_id : ℕ
  pub output : List ℕ
  pub total_time : ℕ
  pub error_code : ℕ
  pub job_type : GatewayJobType
  pub gateway_address : Option ℕ
  pub job_mode : JobMode

pub record SubscriptionJob : Type 0 where
  pub subscription_id : ℕ
  pub request_chain_id : ℕ
  pub subscriber : ℕ
  pub interval : ℕ
  pub termination_time : ℕ
  pub user_timeout : ℕ
  pub tx_hash : List ℕ
  pub code_input : List ℕ
  pub starttime : ℕ
  pub env : ℕ

pub record SubscriptionJobInstanceHeap : Type 0 where
  pub subscription_id : ℕ
  pub next_trigger_time : ℕ

pub data JobSubscriptionAction : Type 0 where
  add : JobSubscriptionAction

pub record JobSubscriptionChannelType : Type 0 where
  pub subscription_action : JobSubscriptionAction
  pub subscription_id : ℕ

-- What `tokio::spawn` starts: the slash timer of a job, the relay handler on a job or on
-- each of several jobs in turn, or the trigger of a subscription at a time.
pub data Task : Type 0 where
  slash_timer : Job → Task
  relay_handler : Job → Task
  relay_handlers : List Job → Task
  trigger : SubscriptionJob → ℕ → Task

-- `struct ContractsClient`, in the fields that the handlers read and write. The last four fields
-- are what the handlers have handed on: the messages of the three channels, `req_chain_tx` (jobs
-- for the common chain), `com_chain_tx` (responses for a request chain) and `job_subscription_tx`
-- (new subscriptions, for the manager), and the tasks spawned, each oldest first.
pub record ContractsClient : Type 0 where
  pub enclave_address : ℕ
  pub gateway_epoch_state : Table (Table GatewayData)
  pub request_chain_ids : ChainSet
  pub active_jobs : Table Job
  pub current_jobs : Table Job
  pub epoch : ℕ
  pub time_interval : ℕ
  pub offset_for_epoch : ℕ
  pub gateway_epoch_state_waitlist : Table (List Job)
  pub subscription_job_instance_heap : List SubscriptionJobInstanceHeap
  pub subscription_jobs : Table SubscriptionJob
  pub req_chain_tx : List Job
  pub com_chain_tx : List ResponseJob
  pub job_subscription_tx : List JobSubscriptionChannelType
  pub spawned : List Task
