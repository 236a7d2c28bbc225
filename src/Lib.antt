-- ===== src/Lib.antt =====
-- FStoreX, a distributed file store (a Go program): its metadata server, data nodes and client.
--
-- Clients and data nodes send requests to the metadata server. A request that writes becomes a
-- command of a Raft log; each server of the cluster applies the log to its own state: a tree of
-- directories and files, the registered data nodes with the times of their last heartbeats. A request
-- that reads looks at the state. Files lie on the data nodes at /data/{file id}; a background
-- collector deletes there what the tree no longer refers to. A data node keeps the files below one
-- directory of its disk. The client asks the metadata server where a file lies, follows its
-- redirects to the leader, and reads and writes the replicas.
--
-- Files of this library, and the code that each is about:
--   Base                 helpers: tests on numbers, lists of names, signed numbers
--   Types                internal/types/types.go
--   Text                 what the code uses of package strings
--   Path                 `splitPath` of internal/metadata/mds.go
--   Tree                 `entry` of internal/metadata/mds.go. A Go pointer to an entry is the path of
--                        names that leads to it (every entry is in one map), a write through a
--                        pointer is `modify` at that path; Tree/Sound says what a tree keeps
--   Metadata             the state and the commands (internal/metadata/mds.go). Below it a module for
--                        each handler of internal/metadata/apply.go (Mkdir, CreateFile, Delete,
--                        Rename, UpdateFile, DataNodes); Machine and Snapshot are
--                        internal/metadata/state_machine.go; Placement, Raft, Service (requests that
--                        write) and Read (requests that read) are internal/metadata/mds.go; Gc is
--                        internal/metadata/gc.go
--   DataNode             internal/datanode/datanode.go: Content and Disk are the calls of package os;
--                        Resolve is `resolvePath`; Service the requests for whole files and the list
--                        of files; Ranges those for parts of a file, its size and `Sync`
--   Client               internal/client/client.go: the calls and the redirects; Requests what is only
--                        passed on; Replicas the calls to all replicas; Transfer upload, download and
--                        deletion; Handle (with Open) internal/client/file_handle.go; Storage
--                        the client over the model of the data nodes; System the client over the
--                        models of the metadata server and of the data nodes
--   Commands             the programs under cmd/: Cli (with Performed and Uploads) cmd/fstorex/main.go;
--                        Peers, Start and Shutdown the two servers, with `NewMetadataServer` and the
--                        start of internal/datanode/datanode.go
--   View, Spec           the abstract file system: a map from paths to attributes, the meaning of
--                        every command for it, and the refinement by the handlers
--   Invariant            what every log keeps
--   Examples             runs and theorems at concrete inputs
--
-- How the code is modelled:
--   - An operation is a function of the state to its error, if any, and the state that it leaves.
--     Each error text is a constructor of `Error` (state machine), `RpcError` (requests), `DataError`
--     (data nodes) or `ClientError` (client).
--   - A handler takes the time as an argument: one reading of the clock for each application of a
--     command, and one for a new server. Times are nanoseconds as natural numbers.
--   - A Go map is an association list, and a lookup takes the first match. A nil map is the empty one.
--   - An `int64` size is an integer; the hash of `selectDataNodes` is its 64-bit pattern, with the
--     overflow written out. A `CreateMode` is one of its two constants.
--   - Paths are texts of Unicode characters; Go strings that are no UTF-8 are left out.
--   - All loops are recursion on a list, a tree or the number of rounds (three for a redirect, as in
--     the code); nothing runs on fuel.
--   - The disk of a data node is a map from real paths to files and directories, whose data directory
--     has a clean path. `Faults` says for a request which calls of package os fail, and after how many
--     bytes a write does. Bytes are numbers that are passed on as they are; the size of a file and of
--     a buffer has no bound. The texts of the errors of package os are left out. filepath.Walk goes in
--     the order of the map. The disk has no links, and nothing else writes to it. A call of
--     os.MkdirAll that fails leaves none of the directories.
--   - The client's parallel calls to the replicas of a file are made in the order of the replicas;
--     Client/Replicas/Parallel has the calls in any order. The lock of a file handle is left out: one
--     operation runs at a time. Offsets and sizes of the client are integers, without the overflow of
--     int64.
--   - The handlers hold the server's lock while they run, so they are steps; between the check of a
--     request and its command the Raft server may apply any other commands. A cycle of the collector
--     takes as arguments the commands of others after its health check, and what happens to the state
--     after it has collected the ids.
--   - A command of cmd/fstorex ends with a code, what it prints, and what it leaves outside. The rows
--     that go through text/tabwriter are kept as rows, and a time or a number is shown by a parameter.
--   - The end of a server is a step relation: a signal, a connection, a failure of `Accept`, and the
--     two goroutines that read the channel of signals, in any order.
--
-- What is a parameter: encoding/json (`PayloadJson`, `SnapshotJson`), the Raft server
-- (`RaftServer`), the answers of the data nodes to the collector (`DataNodes`), the random file id,
-- `filepath.Join`, the servers and local files as the client meets them (`Network`), the flags
-- (`PutFlags` and the records of flags), the formats of package fmt (`Formats`), and what a server
-- calls at its start (`Host`). What they are relied on for is in `IsLossless`, `IsRaft`, `IsQuiet`,
-- `IsStorage`, `IsRangeStorage` and `IsSystem`.
--
-- Not modelled: logging other than the errors of the commands, the timers (their ticks are modelled),
-- the connections of net/rpc, and the integration tests.
pub mod Base
pub mod Client
pub mod Commands
pub mod Text
pub mod Types
pub mod Tree
pub mod Path
pub mod Metadata
pub mod View
pub mod Spec
pub mod DataNode
pub mod Invariant
mod Examples
