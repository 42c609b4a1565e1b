-- ===== src/Lib.antt =====
-- fragkv, a key-value store for large values. A value is split into fragments, a metadata service
-- replicated by Raft keeps the catalog of keys and nodes, and storage nodes keep the fragments.
--
-- Files and the code that they model:
--   Base, Base/*: texts as lists of bytes, Go's maps with string keys and the order of their range
--     statements, int64 with its wrap-around, decimal digits, JSON as a codec, encodings for examples.
--   Fragment, Fragment/*: internal/fragment/fragment.go (ID, Split, Assemble).
--   Storage, Storage/*: internal/storage/storage.go (Open, Put, Get, GetStream, Delete, Meta, List,
--     DiskUsage, chunkPath).
--   Placement, Placement/*: internal/placement/placement.go (ConsistentHash in Ring, Rendezvous and
--     Weighted in Scored, the hashes in Hashing).
--   Metadata/Types: internal/metadata/types.go.
--   Metadata/Fsm, Metadata/Fsm/*: internal/metadata/fsm.go (Apply, Snapshot, Restore, the reads).
--   Metadata/Setup, Metadata/Store, Metadata/Store/*: internal/metadata/store.go (PrepareKey,
--     CommitKey, DeleteKey, RegisterNode, Heartbeat, MarkNodeDown, UpdateFragmentNodes, newPlacer,
--     the defaults of Open).
--   Metadata/Workers, Metadata/Rebalance and their children: internal/metadata/workers.go (failure
--     detector, recovery, rebalancing).
--   Metadata/Server, Metadata/Server/*: internal/metadata/server.go (handleKeys, handleNodes,
--     handleNodeByID).
--   Metadata/System, Metadata/System/*: all of internal/metadata as one state machine.
--   Transport, Transport/*: internal/transport/storaged_server.go (handleFragment, putFragment,
--     getFragment, deleteFragment, replicateFrom, handleHealth, sendFragment, parseIntHeader).
--   Kvctl, Kvctl/*: cmd/kvctl/main.go (put, get, delete, list and their requests).
--   Daemon, Daemon/*: cmd/storaged/main.go (registerNode, heartbeatLoop, the defaults of its file).
--   Harness, Harness/*: experiments/harness/harness.go (PutValue, GetValue).
--   Experiments, Experiments/*: experiments/harness/harness.go (RunThroughput, RunAvailability),
--     experiments/harness/main/main.go (runRolling, runAvailabilityToFile) and
--     experiments/harness/main/chaos.go (runChaos).
--   Cluster, Cluster/*: the servers as one system, as the client reaches them.
--   The modules named Tests run the code on small values; Insertion, Encode and Encoded give them a
--   sort and codecs.
--
-- How the parts interact: PrepareKey plans the fragments that Split will cut, and places them by a
-- strategy of Placement on the nodes of the catalog; every change of the catalog goes by Raft to
-- Apply; the workers read the catalog, ask storage nodes for copies and write the new node lists
-- back by Raft; the servers call the store operations and answer with a status. A storage daemon
-- registers with metad and reports to it in a loop. The client asks for a plan, cuts the file,
-- sends each chunk to the first node of its fragment, commits, and reads it back from there;
-- Cluster joins the client's requests to the handlers, so that theorems on Kvctl go from a command
-- to the files of the nodes. Storage/Refinement has the map that a node's store stands for, and
-- Metadata/System the steps that change a catalog, in any order.
--
-- State: a storage node is its files and its index; the catalog is two maps, of keys and of nodes.
-- Operations take the state and return it with their result. A loop over a collection is structural
-- recursion. The loop of Split is on fuel, one more than the bytes of the reader, and the theorems
-- on it say that this is enough; the binary search of the ring has fuel for its length and one
-- more, and the walk for one round and one more step, where the code breaks off. The loop of
-- registerNode has fuel for its attempts, and a theorem says that the attempts up to the first one
-- served are enough.
--
-- Parameters, for code that is not in the repository: encoding/json (what is encoded is decoded to
-- the same value), float64, SHA-256, sort.Slice (a sorted permutation for an order), the order of a
-- range statement over a map (any permutation), hashicorp/raft (whether this node leads, and
-- whether a command is applied, fails, or fails and is applied all the same), the faults of the
-- file system and of bbolt, the decoding of request bodies, the answers of other nodes to requests,
-- docker, and the order in which goroutines of the client and of the experiments run. The requests
-- of a daemon and the answers to them may be lost. Time is a number, 0 is Go's zero time.
--
-- Paths: the client writes a key into the path of a request as it is. Here the server reads the same
-- key from the path, which holds for the plain keys of Kvctl/Keys; the decoding of % and the
-- cleaning of dots by net/http and net/url are not modelled.
--
-- Not modelled: the status command of the client, the main functions of the daemons but for the
-- registration and the heartbeats of storaged, the metrics, and in the experiments the command
-- line, RunLoadBalance and MeasureRebalance, the queries to Prometheus, the floating point
-- statistics and the printing; handleStatus, which reports values of the Raft library; the headers
-- of responses and the texts of errors; the setup of Raft in Open; locks and the races that they
-- exclude; the slice of fragments that a read shares with the state, of which a read here returns
-- the value at its time. The rebalancing that a registration starts in a goroutine runs here before
-- the answer, and PrepareKey panics on a negative count of fragments but not on one that is too
-- large for memory. Storage nodes of Cluster have no faults of their own, only the network and Raft
-- do.
pub mod Base
pub mod Fragment
pub mod Storage
pub mod Placement
pub mod Metadata
pub mod Cluster
pub mod Daemon
pub mod Kvctl
pub mod Harness
pub mod Experiments
pub mod Transport
