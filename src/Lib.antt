-- ===== src/Lib.antt =====
-- A verification library for agent-collab, a program through which the coding agents of several
-- people share a repository: they lock the line ranges they edit, tell each other what they changed,
-- and settle conflicts.
--
-- Parts. The lock package (src/domain/lock) decides who may edit what. A node runs one LockService
-- over one LockNegotiator over one LockStore; the negotiator asks a RateLimiter. A client's
-- acquisition has two phases, an announced intent and the acquisition itself, between which calls of
-- other clients and messages of other nodes may come. Conflicts open negotiation sessions, which
-- proposals or votes settle.
--   The ctxsync package (src/domain/ctxsync) tells nodes what others changed. A SyncManager stamps each
-- local change with its vector clock, logs it as a delta and broadcasts it; it merges the clock of
-- each delta that a peer sends, logs that delta, and reports concurrent changes of one file.
--   The agent package (src/domain/agent) keeps a Registry of connected agents, indexed by peer and by
-- capability.
--   The event package (src/domain/event) keeps a bounded EventLog with indexes, and a Router that hands
-- each event to the agents whose interests (src/domain/interest) its path matches.
--   The differ of src/domain/ast compares the symbols of two versions of a file.
--   Of the networks, the libp2p package has access lists of topics, a batcher of messages and a store of
-- large contents, and the wireguard package an allocator of addresses.
--
-- Files.
--   Common and its children: Boolean tests, integers, lists, results and association lists.
--   Lock.Target: target.go, and the errors of errors.go. Lock.Target.Ranges proves what a range is.
--   Lock.Semantic: lock.go.
--   Lock.Store: store.go. Its children are Laws (what operations do to the maps), Valid
--     (well-formedness), Exclusion (mutual exclusion), Index (the index by target), Holding (how
--     long a lock is found) and History.
--   Lock.Limiter: ratelimit.go, with Bound (and Coarse, an arithmetic for tests).
--   Lock.Negotiator: the state of negotiator.go. Phases models AnnounceIntent, AcquireLock,
--     ReleaseLock and the sessions; Proposals models Negotiate, the proposals and Vote. Takeover,
--     Settlement and Votes prove what those do.
--   Lock.Recovery: recovery.go, with Agreement (what two nodes keep) and Reconciled (what a recovery
--     leaves).
--   Lock.Service: service.go. Lock.Service.Schedule models the calls of a node in any order, with
--     Invariant, Calls and Safety for what they keep. Its calls do not include Negotiate and Vote.
--   Sync.Clock: vector_clock.go, with Order (the order of clocks) and Merge.
--   Sync.Delta: delta.go, with Log (the log and its indexes) and Retention (what the log keeps).
--   Sync.Manager: sync.go, with Causality, Run (the calls of a manager in any order), Conflicts and
--     Peers.
--   Sync.Recovery: recovery.go of src/domain/ctxsync, with Winners.
--   Agents: src/domain/agent/registry.go, with Laws.
--   Events: src/domain/event/types.go. Events.Log: eventlog.go, with Index (one index), Views (the
--     indexes are views of one sequence), Writes, Steps (the operations) and Runs (calls in any order).
--     Events.Router: router.go, with Delivery and Queries.
--   Interests: manager.go and types.go of src/domain/interest, with Ownership and Lifecycle (the index
--     by agent) and Matching.
--   Ast.Differ: src/domain/ast/differ.go, with Counts.
--   Network.Acl: src/infrastructure/network/libp2p/topic_acl.go, with Access (one list), Denial
--     (calls in any order) and Secrecy.
--   Network.Batcher: batcher.go beside it, with Order and Runs (calls in any order).
--   Network.Content: content_store.go beside it, with Wrapping.
--   Network.Allocator: src/infrastructure/network/wireguard/ip_allocator.go, with Search and Leases.
--   Names are the source's in snake case (FindConflicts is find_conflicts).
--
-- How the code is modelled.
--   A call reads the clock once: its instant is an argument, in nanoseconds since Go's zero time.
--   The mutexes make each call one step, so an interleaving is a list of calls. A Go map is an
--   association list, and its order is the order of a range loop. Locks stand on a heap and maps
--   and sessions hold their addresses, since the source shares pointers to them and a split writes
--   through those. Random identifiers, the conflict handler and the handlers' presence are
--   arguments. What the source broadcasts or escalates is collected in an outbox. How the float64
--   arithmetic of the rate limiter rounds is an argument. Where the source panics, the model's
--   result is `none`, and an announcement that panics gives an error. The fencing counter wraps
--   around at 64 bits; it grows by one for a lock. Each loop is over a list; only the printing of a
--   decimal takes fuel, as many rounds as the number, which has at most that many digits.
--
-- Libraries are parameters: the cipher, which may refuse a key, and the hash (of which the theorems
-- use that it opens what it sealed, and that no stored content collides), which bytes are JSON,
-- whether a pattern matches a path and the directory of a path. The loop of the event log's limit
-- takes as many rounds as there are events, since each round removes one; the search for an address
-- takes as many as there are hosts.
--
-- Not modelled: Close and contexts, the hash of a target's content, the error type LockError,
-- local-first locks, the registry's usage counters, the matching of one pattern with **, the
-- router's store of vectors, and the other packages: token usage and cohesion (floating point), the
-- parser of source code (regular expressions) and the watcher of files, the application's wiring,
-- the daemon, the user interfaces, and network and disk I/O.
pub mod Common
pub mod Lock
pub mod Sync
pub mod Agents
pub mod Events
pub mod Interests
pub mod Ast
pub mod Network
