-- ===== src/Metadata/Gc.antt =====
-- The garbage collector: internal/metadata/gc.go. The ticker and the logger are left out. Times are
-- nanoseconds.
pub mod Live
pub mod Orphans
pub mod Asked
pub mod Undisturbed
pub mod Overwritten
use Prim.Native.Char.{code}
use file_storage.Base.{
  ℕ, ◌+◌, String, Bool, ◌&&◌, not, Option, none, some, List, [], ◌∷◌, ◌++◌, contains, eqb, ltb,
  if◌then◌else◌,
}
use file_storage.Text.{after_prefix}
use file_storage.Types.{NodeFile}
use file_storage.Path.{is_empty}
use file_storage.Tree.{Entry, node, Children, nil, child}
use file_storage.Metadata.{MetadataServer}
use file_storage.Metadata.Machine.{LogEntry, PayloadJson, op_remove_data_node, replay}
use file_storage.Metadata.Raft.{RpcError, RaftServer, check_leader, submit_command, no_payload}

-- 30 seconds and 10 minutes.
abbrev pub gc_safety_window : ℕ
gc_safety_window = 30000000000

abbrev pub heartbeat_timeout : ℕ
heartbeat_timeout = 600000000000

-- What the data nodes answer: their files, `none` where the connection or the call fails, and
-- whether a deletion succeeds.
pub record DataNodes : Type 0 where
  pub list_all_paths : String → Option (List NodeFile)
  pub delete_data : String → String → Bool

-- A call of DataService.DeleteData, and whether it succeeded.
pub record DeleteCall : Type 0 where
  pub addr : String
  pub path : String
  pub succeeded : Bool

-- The nodes whose last heartbeat is before the cutoff, in the order of the map.
unfoldable pub dead_nodes : ℕ → List (String × ℕ) → List String
dead_nodes now [] = []
dead_nodes now ((addr, last) ∷ m) =
    let rest = dead_nodes now m in if ltb (last + heartbeat_timeout) now then addr ∷ rest else rest

-- Each dead node is removed by a command; an error is only logged.
unfoldable pub remove_dead :
    (json : PayloadJson) → RaftServer json → List String → MetadataServer → MetadataServer
remove_dead json raft [] mds = mds
remove_dead json raft (addr ∷ dead) mds =
    remove_dead json raft dead
      (submit_command json raft (record no_payload { op = op_remove_data_node; addr = addr }) mds).1

unfoldable pub check_data_node_health :
    (json : PayloadJson) → RaftServer json → ℕ → MetadataServer → MetadataServer
unfolding dead_nodes remove_dead
check_data_node_health json raft now mds =
    remove_dead json raft (dead_nodes now mds.last_heartbeat) mds

-- The set `ids` is the list of its members.
unfoldable mutual
  pub collect_file_ids_recursive : Entry → List String → List String
  collect_file_ids_recursive (node a cs) ids =
      let all = collect_children cs ids in
      if a.is_dir then all else if is_empty a.file_id then ids else a.file_id ∷ ids

  pub collect_children : Children → List String → List String
  collect_children nil ids = ids
  collect_children (child n e cs) ids = collect_children cs (collect_file_ids_recursive e ids)

unfoldable pub collect_valid_file_ids : MetadataServer → List String
unfolding collect_file_ids_recursive
collect_valid_file_ids mds = collect_file_ids_recursive mds.root []

-- strings.TrimPrefix(path, "/data/")
unfoldable pub file_id_of : String → String
unfolding after_prefix
file_id_of path = elim (after_prefix "/data/" path) [ none ↦ path | some id ↦ id ]

-- Whether the loop gets as far as the deletion of a file.
unfoldable pub is_orphan : List String → ℕ → NodeFile → Bool
unfolding file_id_of
is_orphan valid gc_start f =
    not (not (is_empty (file_id_of f.path)) && contains valid (file_id_of f.path))
    && not (ltb gc_start (f.mod_time + gc_safety_window))

-- The loop over the files of a node: the deletions that it asks for.
unfoldable pub delete_orphans :
    DataNodes → String → List String → ℕ → List NodeFile → List DeleteCall
delete_orphans nodes addr valid gc_start [] = []
delete_orphans nodes addr valid gc_start (f ∷ fs) =
    let rest = delete_orphans nodes addr valid gc_start fs in
    if is_orphan valid gc_start f
    then record { addr = addr; path = f.path; succeeded = nodes.delete_data addr f.path } ∷ rest
    else rest

unfoldable pub garbage_collect_node : DataNodes → String → List String → ℕ → List DeleteCall
unfolding delete_orphans
garbage_collect_node nodes addr valid gc_start = elim (nodes.list_all_paths addr) [
  | none ↦ []
  | some files ↦ delete_orphans nodes addr valid gc_start files
]

unfoldable pub collect_nodes : DataNodes → List String → List String → ℕ → List DeleteCall
unfolding garbage_collect_node
collect_nodes nodes [] valid gc_start = []
collect_nodes nodes (addr ∷ addrs) valid gc_start =
    garbage_collect_node nodes addr valid gc_start ++ collect_nodes nodes addrs valid gc_start

-- One cycle: the deletions that it asks for, and the state whose file ids it collects. `before` are
-- the commands of other requests that are applied after the health check and before the ids are
-- collected, and `meanwhile` is what other requests do to the state from then until the cycle reads
-- the addresses of the nodes.
unfoldable pub run_gc :
    (json : PayloadJson)
    → RaftServer json
    → DataNodes
    → List LogEntry
    → (MetadataServer → MetadataServer)
    → ℕ
    → ℕ
    → MetadataServer
    → List DeleteCall × MetadataServer
unfolding check_data_node_health replay collect_valid_file_ids collect_nodes
run_gc json raft nodes before meanwhile gc_start now mds =
    let live = replay before (check_data_node_health json raft now mds) in
    (collect_nodes nodes (meanwhile live).data_nodes (collect_valid_file_ids live) gc_start, live)

-- One tick of the timer of `startGC`: only the leader runs a cycle.
unfoldable pub gc_tick :
    (json : PayloadJson)
    → RaftServer json
    → DataNodes
    → List LogEntry
    → (MetadataServer → MetadataServer)
    → ℕ
    → ℕ
    → MetadataServer
    → List DeleteCall × MetadataServer
unfolding run_gc
gc_tick json raft nodes before meanwhile gc_start now mds =
    if raft.is_leader then run_gc json raft nodes before meanwhile gc_start now mds else ([], mds)

-- The request that starts a cycle in the background.
abbrev pub trigger_gc : (json : PayloadJson) → RaftServer json → Option RpcError
trigger_gc json raft = check_leader json raft
