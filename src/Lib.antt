-- ===== src/Lib.antt =====
-- A verification library for the MIT 6.824 labs of this repository (MIT-6.824/src).
--
-- Raft (MIT-6.824/src/raft/raft.go, persister.go) is modelled in Raft.antt and the modules below
-- it. A peer is the record `Raft` of Raft/Types.antt: the fields of the Go struct, with
-- `len(peers)` for the RPC end points, whether each timer runs, and the goroutines that were
-- started, in order. Each handler is a function from the state to the new state and the reply,
-- under one name with the Go function: Raft/Roles.antt (convertTo, startElection,
-- broadcastHeartbeat), Raft/Vote.antt (RequestVote and the handling of its reply),
-- Raft/Append.antt (AppendEntries), Raft/Heartbeat.antt (the goroutine that replicates to one
-- follower), Raft/Snapshot.antt (ReplaceLogWithSnapshot, InstallSnapshot, syncSnapshotWith),
-- Raft/Lifecycle.antt (Make, Start, the timers), Raft/Storage.antt (persist, readPersist),
-- Raft/Persister.antt. A function that locks the mutex twice, around an RPC, is two functions.
-- Raft/Steps.antt puts the critical sections together as a step relation in which the environment
-- chooses every message, so replies may be late, lost or repeated, and a peer may crash and
-- restart from its persister.
--
-- A Go panic (an index or a slice bound out of range) is the result `panic` of `Outcome`
-- (Prelude/Panics.antt). Terms, indexes and peer numbers are natural numbers: Go's int and int32
-- are not run to their limits. The sentinel -1 of votedFor and ConflictTerm is `none`; where the
-- source may compute a negative number, the test is written so that it has the same outcome. A
-- slice past the length but within the capacity, which Go allows, does not occur, as every bound
-- is at most the length; an append never shares its array with another holder, since entries that
-- leave the lock are copied. Persisted bytes are lists of numbers; their format is that of
-- encoding/gob, a parameter with the laws `IsGob` where a theorem needs them, and
-- Raft/Samples.antt has a format that meets them. Loops recur on the list or on the rounds left,
-- so no fuel is needed.
--
-- The key/value service (MIT-6.824/src/kvraft) is Kv.antt and the modules below it: Kv/Types.antt
-- has the structs, Kv/Server.antt the goroutine that applies what Raft commits (serve) and the
-- snapshots, Kv/Waiting.antt the two RPC handlers in the critical sections between which they
-- wait, Kv/Clerk.antt the client. A channel of the dispatcher is a cell for one notification in
-- the list `channels`, and the map holds its position; a send on a full channel is `blocked`.
-- Handlers call Raft's Start and ReplaceLogWithSnapshot as modelled in Raft.antt. Go's maps are
-- association lists (Prelude/Dict.antt). The clerk's calls take the network's answers from a list,
-- and its loop is modelled up to the end of that list; it panics where its leader is not among its
-- servers. Kv/ExactlyOnce.antt describes what a log of requests means without the server's tables,
-- and Kv/Replicas.antt, Kv/Notices.antt, Kv/Waits.antt, Kv/Channels.antt, Kv/Waiters.antt,
-- Kv/Transfer.antt and Kv/Retries.antt hold the proofs about replicas, waiting handlers, snapshots
-- and the clerk; Kv/Waits.antt interleaves the critical sections of any number of handlers with
-- Raft's messages as a step relation. Client and request numbers are naturals.
--
-- MapReduce (MIT-6.824/src/mapreduce and main/wc.go) is MapReduce.antt and the modules below it:
-- MapReduce/Types.antt has the structs, MapReduce/Host.antt the libraries that are called, as the
-- fields of `Host`, and the file names, MapReduce/Tasks.antt doMap and doReduce,
-- MapReduce/Master.antt the master with schedule, merge and CleanupFiles, MapReduce/Worker.antt
-- the worker, MapReduce/WordCount.antt the word count. The file system is a map from names to
-- contents, and log.Fatal ends the process like a panic. The goroutines of schedule are one loop
-- for each task over the workers it receives; how they share the channel is not modelled, so
-- Distributed is not composed. A map's keys come in the order in which they were inserted, and are
-- sorted before the source uses them. The laws that theorems need are IsHost
-- (MapReduce/Names.antt) and IsJson (MapReduce/Grouping.antt); MapReduce/Samples.antt has a host
-- that meets them.
--
-- The model of the service for the checker of histories (MIT-6.824/src/linearizability/models.go)
-- is Linearizability/KvModel.antt; Linearizability/Partition.antt compares it with a service that
-- has all keys. The groups that Partition makes come in the order in which their keys first occur,
-- where Go's order is arbitrary.
--
-- The checker of histories (MIT-6.824/src/linearizability) has Linearizability/Model.antt for
-- Model, Operation and Event, Linearizability/Bitset.antt for bitset.go,
-- Linearizability/Entries.antt for makeEntries, renumber and convertEntries,
-- Linearizability/Nodes.antt for the doubly linked list of nodes with lift and unlift, and
-- Linearizability/Checker.antt for checkSingle and the loop that collects the results of all
-- partitions. Nodes are addresses in a store with one map for each field; a node gets as its
-- address the number of nodes made before it, so that an entry later in time has a smaller
-- address. Reading a field of nil panics. The loop of length has the size of the store as its
-- fuel: a list has no node twice. The loop of checkSingle has a number of rounds as a parameter,
-- since it takes calls back and tries others. The value of the kill flag in each round is a
-- parameter. Nodes/Chain, Nodes/Lifting and Nodes/Held (under Linearizability/) have the laws of
-- the list, Checker/Trail, Checker/Lifted and Checker/Rounds the invariant of the search,
-- Checker/Explore the search as a whole, and Checker/Verdict, Checker/Linearizable and
-- Checker/Later what its answer means. Not modelled there: that checkSingle answers true for every
-- history that has a linearization, sort.Sort, which is a parameter, and CheckEvents as a whole.
-- Linearizability/Checks.antt composes CheckOperations of its parts, with the goroutines' answers
-- in any order and without a timeout; Linearizability/Reordering.antt,
-- Linearizability/Sorted.antt, Linearizability/Operations.antt, Linearizability/RealTime.antt and
-- Checks/Verdicts (under Linearizability/) have its proofs, and Checks/SortedEntries a sort for
-- the tests.
--
-- The simulated network (MIT-6.824/src/labrpc/labrpc.go) has Labrpc/Bytes.antt for the names of
-- services and methods, Labrpc/Server.antt for Server and Service, Labrpc/Network.antt for the
-- state of Network and its operations, and Labrpc/Delivery.antt for ProcessReq and Call. A server
-- is known by its address, so that a new server under an old name is another one. ProcessReq reads
-- the network as it is when the request comes, at each tick of its wait, and behind the wait;
-- these networks and the reply of the handler are arguments, in any order of events, and so are
-- the numbers that rand draws. Reflection gives the methods of a receiver as a list, and its test
-- of an argument's type is a parameter. labgob is a parameter, and the law that theorems need is
-- that it decodes into a new value what it encoded. Labrpc/Paths.antt, Labrpc/Replies.antt,
-- Labrpc/Times.antt, Labrpc/Changes.antt and Labrpc/Calls.antt have the proofs. The goroutine that
-- takes requests from the channel is not modelled. The peers and servers above do not use this
-- model: their RPCs stand for any network.
--
-- The sharded service (MIT-6.824/src/shardmaster and MIT-6.824/src/shardkv) has clerks and data
-- only, since its servers' handlers have empty bodies: Shards/Master.antt has the configurations
-- and the clerk of the shardmaster, Shards/Groups.antt key2shard and the clerk of shardkv, and
-- Shards/Routing.antt its proofs. The answers of the network and the configurations that the
-- shardmaster gives are lists, and the loops end with them.
--
-- Not modelled: time (how long a timer runs, but for the delays of ProcessReq), the scheduler,
-- debug output, the test harness, and the package labgob.
pub mod Prelude
pub mod Raft
pub mod Kv
pub mod MapReduce
pub mod Linearizability
pub mod Labrpc
pub mod Shards
