-- ===== src/Lib.antt =====
-- The serverless gateway: it watches jobs on request chains, chooses the gateway that relays each
-- of them to the common chain, watches that this gateway does so, and passes the response back.
--
-- Parts and files:
--   Model, Constants, Prelude/Results  src/model.rs, src/constant.rs and src/error.rs.
--   Chain       logs, ABI tokens and what is read from them.
--   Words       the machine integers; Table the maps, with the laws of their operations.
--   Selection   select_gateway_for_job_id of src/common_chain_interaction.rs: the job's cycle, the
--               distribution of stakes (distribute), the draw, and the binary search. Search and
--               Ticket describe the search and the distribution independently; Weighted, Cases and
--               Total hold what follows.
--   Jobs        the handlers of src/common_chain_interaction.rs, each under its own name. The
--               children hold the relay handler (Relay), the tracking of jobs (Tracked,
--               Handlers), the retry (Reassign), the slash timer (Slash) and the response.
--   Subscription  src/job_subscription_management.rs: the heap and the trigger times, with Start
--               (add_subscription_job), Update, Manager (job_subscription_manager, on the branch
--               that a trigger time wakes) and Historic.
--   EpochState  src/common_chain_gateway_state_service.rs: the generation of a cycle from the
--               events of the common chain, the pruning, the callback of the waitlist, and in
--               Service the loops of gateway_epoch_state_service, on the readings of each round
--               (Rounds is about one round, Laws about the inner loop).
--   BlockSearch   get_block_number_by_timestamp of src/chain_util.rs: the loop over get_block and the
--               loop that confirms a block by the next one (at_block and at_next). Moves, Left,
--               Progress and Ends measure what is left to search, Rate holds the rates that it can
--               meet; Faults is about the ways round it.
--   Confirmation  confirm_event of src/chain_util.rs, on what each round of its loop reads.
--   Signing     the requests of src/chain_util.rs that are signed; Recovered says when a signature
--               leads back to the enclave.
--   Transactions  txns_to_common_chain and txns_to_request_chain of
--               src/common_chain_interaction.rs, with the calls that they submit and the three
--               attempts of each.
--   Api         the endpoints of src/api_impl.rs on the state that src/main.rs creates. Export is
--               export_signed_registration_message in two steps, up to its last wait
--               (prepare_export) and behind it (commit_export); Runs serves requests in any order,
--               others between the two steps and the runs of System included.
--   Registration  wait_for_registration of src/common_chain_interaction.rs: its listeners and its
--               loop.
--   System      the dispatch of the logs of both chains, and the runs of the program, in which the
--               handlers, the spawned tasks, the manager and the epoch state take their steps in
--               any order.
--   Samples     a gateway, a job, a subscription and decoders, for the tests.
--
-- How they meet: the Api creates the client and starts the Registration, which starts the handlers.
-- A log of a request chain passes the Confirmation before it is dispatched. Jobs and Subscription
-- hand messages to Transactions by the lists of the client (below); the generation of a cycle asks
-- BlockSearch for its blocks, behind the parameter EpochProvider.
--
-- State: ContractsClient is the client that the tasks share under locks. A handler takes it and
-- returns it changed. What a handler sends on a channel is appended to a list of the client, as long
-- as the receiver lives, which the program keeps for its run; what it spawns is appended to
-- `spawned`. Each handler is one step: the locks within a handler are taken in turn, and steps of
-- two handlers do not interleave here. The one task that relays the jobs of a waitlist in turn takes a
-- step for each job, and other tasks may take theirs in between. A reading of the clock is an argument, one for each reading.
--
-- Outcome: `ok`, `err` with an error of src/error.rs, or `panicked`, which stands for an unwrap, an
-- index out of range, a division by zero or a U256 that overflows. A panic ends its task; what the
-- task wrote before is not followed. u8, u64 and u128 wrap, as in a release build.
--
-- Bounds and fuel: the binary search narrows its window on fuel, and the length of the list is
-- enough, as the window is at least halved each round; Search proves that the result is reached.
-- The loops of BlockSearch and Confirmation run on fuel, one for each call of
-- get_block and one for each round: they may go on for ever when the provider does not answer, so
-- their functions return `none` when the fuel is used up, and their Ends say what fuel is enough.
-- All other loops follow a list or a count of attempts.
--
-- Parameters: the generator StdRng of the crate rand, with the bounds that gen_range documents; the
-- hash and the ABI decoding of ethers (Abi); what the common chain answers (EpochProvider). What a
-- provider answers to each call, and what other tasks store in last_seen_block meanwhile, are
-- functions of the number of the call or round. The arithmetic of f64 on the block rate (Rates);
-- hashing, encoding and signing (Crypto), with the law that a contract recovers the enclave's address
-- from its signatures (Recovers); parsing, keys and connections of the API (ApiLibraries), and the
-- order in which a HashSet is iterated, a function of its elements here, where the standard library may
-- draw another for each set. The binary search and the binary heap of the standard library
-- are modelled: the heap as the list of its entries in the order in which they are popped.
--
-- Not modelled: the pauses between retries, which have no effect on the state; the reconnecting loops
-- around the streams of logs; the start of the HTTP server and of the tasks (main and run), the texts
-- of the responses and of the log; the configuration file (src/config.rs); the log filters
-- (LogsProvider), and the contract bindings. That an error of a submission is one of the nonce is
-- read from the text of the error, and is a reading here.
pub mod Prelude
pub mod Words
pub mod Table
pub mod Chain
pub mod Constants
pub mod Model
pub mod Samples
pub mod Selection
pub mod Jobs
pub mod Subscription
pub mod EpochState
pub mod BlockSearch
pub mod Confirmation
pub mod Signing
pub mod Transactions
pub mod Api
pub mod Registration
pub mod System
