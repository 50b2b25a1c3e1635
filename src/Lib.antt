-- ===== src/Lib.antt =====
-- A model of the actor runtime with event-sourced actors, and what is proved of it.
--
-- An actor that is event sourced decides events, which are written to a journal before they are
-- folded into its state; an instance that starts rebuilds its state from the journal. Each write
-- names the number where the writer believes the log ends, and the journal refuses it if the log
-- ends elsewhere: so an instance that another host has superseded can do no harm. Which host runs
-- a shard is a function of the shard's ids and the set of live members; a command for a shard
-- travels in an envelope with an id, and a window of ids drops what is delivered twice. On its
-- node a command finds its actor in the registry, which files every actor under its path and
-- builds one where none is; the answer to a question travels back by a reply handle.
--
--   * Base, Map: the shared names, tests, lists, results, machine words, and maps.
--   * PersistenceId (src/persistence_id.rs): the key of a log.
--   * Journal (src/journal.rs, src/error.rs): the trait as a record of operations, which return the
--     next state of the implementation, and the journal in memory. Journal.Contract is what a
--     caller relies on, Memory shows that the journal in memory keeps it and fails no more than it
--     must, Log says what a well-formed log is, Fence and Reach are about single operations and about
--     all of them.
--   * Effect (src/actor.rs, src/behaviour.rs): what handling a command asks for, and the trait of
--     an event-sourced actor. The actor's own code is a parameter, as is the serialization library.
--   * Persistent (src/persistent.rs): `recover`, `on_start`, `persist_events`, `snapshot_state` and
--     `handle` over any journal. Refinement, Recovering, Fence and World use the contract
--     only; in World hosts start, handle commands and vanish in any order, and a start may have read
--     its snapshot earlier than its events. Race is about another host's writes between these reads.
--   * ActorPath (src/path.rs) and Shard (src/shard.rs): addresses.
--   * Delivery (src/envelope.rs, src/cluster/delivery.rs): messages and the window of ids. Window is
--     about one id, Redelivery and Remembering about what the window still knows later.
--   * Placement (src/cluster/placement.rs): the hash and the owner of a shard.
--   * Node (src/cluster/node.rs): a node's ids, the table of callers that wait for an answer, the live
--     set and one round of `watch_cluster`. The metrics of the consensus library are arguments.
--     Node.Sending is `send` with its attempts; the rest of the cluster is a parameter. Node.Running
--     is the start of a node and its rounds in sequence.
--   * Registry (src/system.rs, the end of `run_actor` in src/runtime.rs): the actors of a node with
--     the mailboxes that were given out and those that ended. Prefixes, Shrinking, Stopping,
--     Order, Sweeping and Enough are about stopping a subtree; Instances, Creation and Reached about
--     any run, Typed about the command type of a mailbox in it. There a stop, and the end of a
--     task, is done in one go; Interleaved has their parts as steps, between which other tasks create
--     and stop actors, and Interleaved.Serial shows that doing them in one go is one of its orders.
--   * Lifecycle (src/runtime.rs): `run_actor` and `serve`, with the branch that each `select!` takes.
--   * ActorRef (src/runtime.rs): references with their cached link, `tell`, `stop`.
--   * Replies (src/reply.rs): reply handles, over the node's table. Lives is about the end of one
--     handle, Crossing about a question to another node.
--   * Asking (src/runtime.rs): `ask` and `ask_within`, over what telling does with the handle. Table and
--     Waits are about the table of callers afterwards, Late about a handle that is encoded too late.
--   * InProcess (src/transport.rs) and TransportTcp (src/transport_tcp.rs): the network of one
--     process; frames and the handshake, over the bytes of a stream. TransportTcp.Peer is one connection:
--     Accounts is about what becomes of calls, Exchange both ends of it, Kept and Ownership who
--     gets which answer, Orphans a call after the reader ended. TransportTcp.Connections is the cache
--     of them, TransportTcp.Serving the accepting side: Sent is about what arrives there, Enough about
--     its fuel. TransportTcp.Listening is the listener with all its connections at a time; Interleaved,
--     Kept and Alone compare each with one that is served alone.
--   * Consensus (src/cluster/network.rs): the messages of the consensus library. PeerLink is the asking
--     side; Results says which replies a success comes from; Answering and Soundness join it with the
--     answering one over the network of one process.
--   * Store (src/cluster/store.rs): the consensus log and state machine in one file. Durable is
--     about a restart, Ordered and Log about the log, Snapshots about the state machine.
--   * System (src/system.rs): registration, `dispatch`, `deliver_to_shard` and the release of shards
--     that moved away, over the registry, the window, the node and the shard types. Watching is the
--     relay of stand-down and the watch for live members, Hosting about shards on several nodes. Redelivering
--     and Once are about messages that arrive again.
--     Handles is what the holder of a system, or an actor with its context, calls.
--   * Testkit (src/testkit.rs): the journal that fails on demand, over any journal. Conformance is the
--     executable contract, each assertion a list of statements.
--   * Units: the unit tests in src/journal.rs, src/testkit.rs, src/cluster/delivery.rs,
--     src/cluster/placement.rs, src/path.rs, src/shard.rs and src/persistent.rs, run on the model.
--   * Tests: the theorems at concrete inputs.
--
-- Numbers are natural numbers. A counter of a log wraps at 2 ^ 64 as written, and the theorems that
-- need it ask that a write stays below; the hash wraps at 2 ^ 64 too. A text is the list of its
-- bytes. Each operation of the journal in memory holds its lock throughout, so it is one step, and
-- handling one command is one step of a host; a recovery is its two reads. Loops are structural
-- recursion over their list, and `halt`, which is recursive through the tasks it waits for, is
-- recursion on fuel: the number of live actors, since each halt takes one out. The loop of `serve` has
-- the bytes of its stream as fuel, since a frame takes four at least. A stop of a subtree is one
-- step but in Registry.Interleaved; a dispatch and a `tell` are one step each: a `tell` finds the node as it
-- is when its wait for room in the mailbox is over. Logging, the standard library's containers beyond
-- what iterating over them shows, and the context that each hook gets as an argument are left out. Parameters
-- stand for SHA-256, the encodings of serde_json, the types of the consensus library and what a
-- file system, a socket or a peer does. A task that waits is in the state until what it waits for comes:
-- what tasks do in between are separate steps, in any order. Not modelled: the sockets themselves, the
-- bound of a mailbox and the log output.
pub mod Base
pub mod Map
pub mod PersistenceId
pub mod Journal
pub mod Effect
pub mod Persistent
pub mod ActorPath
pub mod Shard
pub mod Delivery
pub mod Placement
pub mod Node
pub mod Testkit
pub mod Units
pub mod Registry
pub mod Lifecycle
pub mod ActorRef
pub mod Replies
pub mod Asking
pub mod InProcess
pub mod Store
pub mod Consensus
pub mod TransportTcp
pub mod System
pub mod Tests
