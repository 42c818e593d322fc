-- ===== src/Lib.antt =====
-- mu: a distributed cloud provider. Providers run executors that deploy stacks of clients' functions.
-- An on-chain program keeps the stacks and takes the payments. Each executor's blockchain monitor
-- follows it and tells the scheduler which stacks are available; the nodes of a provider tell one
-- another which stacks they run, and the scheduler deploys a stack on the node that is closest to it.
--
-- Files and the code that they model (paths from the repository's root):
--   Base.antt, Base/*: shared names and lemmas. Base/HashMap and Base/HashSet stand for Rust's
--     containers: an association list and a list, which the theorems only see through get and
--     contains. Where the code goes through a container in its own order, so does the model, in the
--     order of the list.
--   MuStack.antt: rust-libs/mu_stack/src/lib.rs, the definition of a stack.
--   MuStack/Validation*: rust-libs/mu_stack/src/validation.rs. MuStack/Protobuf*: protobuf.rs beside it;
--     the code that protobuf generates is a parameter. MuStack/Ids*: the bytes and the text of a StackID;
--     the crate base58 is a parameter.
--   StackMetadata.antt: executor/src/stack.rs.
--   Scheduler/*: executor/src/stack/scheduler.rs. State holds SchedulerState and its messages,
--     Closest get_closest_node, Handlers and Step the arms of step, Tick tick, Start start. What
--     deploy.rs does is the record Services: each call answers whether it succeeded and changes a
--     world of any type. Notifications go to a list, the newest first. The mailbox hands over one
--     message at a time, so a run of the scheduler is a list of messages.
--   Monitor/Collection.antt, Monitor/Collection/*: executor/src/stack/blockchain_monitor/
--     stack_collection.rs. A panic is none. Indexed says when the indexes agree, Views what the
--     iterators yield.
--   Monitor/Events.antt, Monitor/Events/*: the handlers of events in executor/src/stack/
--     blockchain_monitor.rs, on accounts that are already decoded. The RPC request for an escrow
--     balance is a function, which may fail.
--   Marketplace/*: marketplace/programs/marketplace/src/lib.rs. Arithmetic holds Rust's integer
--     arithmetic, both with overflow-checks and without; Usage the price of a usage; Accounts the
--     accounts; Program and Instructions the instructions with the checks of their contexts, one
--     function each, and transactions, which change nothing if they fail. The address derivation and
--     the token program are the record Runtime.
--   UsageAggregator/*: executor/src/stack/usage_aggregator.rs, on the sequence of its messages.
--   RequestSignerCache/*: executor/src/stack/request_signer_cache.rs, likewise.
--   Membership/NodeCollection.antt, Membership/NodeCollection/*: executor/src/network/membership/
--     node_collection.rs. The hash of an address is a parameter.
--   Membership/Status.antt, Membership/Status/*: the statuses in executor/src/network/membership.rs and
--     write_status. The database is the record DbClient. The loop has a number of rounds; it needs one
--     more than others write in between. Membership/Update.antt, Membership/Update/*: the messages of the
--     same file with perform_update, and start in Start.
--   Gateway.antt, Gateway/*: rust-libs/gateway/src/lib.rs. Paths is the matching of a request's path
--     with an endpoint's, Requests the handler of a request, with Requests/PassedOn for what a function is
--     given, Deployed what the gateways of a stack lead to. The users' functions, the text of headers and
--     the parser of queries are parameters.
--   Deploy.antt, Deploy/*: executor/src/stack/deploy.rs. Exactly is about the gateways of a stack, with
--     Unslashed for the slashes of their paths. Stacks holds deploy and undeploy_stack, over interfaces
--     of the runtime, the database and the storage. AsServices makes the scheduler's Services of them.
--   Routing.antt, Routing/*: executor/src/request_routing.rs, on the states of Scheduler and Membership.
--   Runtime.antt, Runtime/Provided: rust-libs/runtime/src/providers.rs, the functions that the runtime
--     has, as an instance of the interface of Deploy/Stacks.
--
-- All functions are total by structural recursion on lists, and only write_status is on fuel. Numbers
-- are natural numbers; those of the on-chain program are checked or wrap around where Rust's do. In the
-- scheduler and the monitor, numbers are only compared; the aggregator's amounts wrap around at 2^128
-- and the gateway's sizes at 2^64. The length of a text stands for that in bytes,
-- which it is where all its characters are ASCII.
--
-- Not modelled: logging, timers, the network, RPC and the subscriptions of the monitor; the crates
-- base58 and protobuf; account sizes, rent and the creation of token accounts. The reporting
-- of usages to the chain, connections between nodes, the runtime but for its provider, the
-- databases, the storage, the client and the guest side of the SDK have no model yet.
pub mod Base
pub mod MuStack
pub mod StackMetadata
pub mod Scheduler
pub mod Monitor
pub mod Marketplace
pub mod UsageAggregator
pub mod RequestSignerCache
pub mod Membership
pub mod Gateway
pub mod Deploy
pub mod Runtime
pub mod Routing
