-- ===== src/Metadata/Service/Assignment.antt =====
-- What `CreateFile` of internal/metadata/mds.go replies.
use mathlib.Core.Bool.{false≢true}
use file_storage.Base.{
  String, ◌≡◌, ◌≢◌, sym, ◌∙◌, ap, false, true, Bool-cases, Option, none, some, List, [], length,
  inl, inr,
}
use file_storage.Types.{Replica, CreateFileArgs}
use file_storage.Path.{split_path}
use file_storage.Tree.{Entry, walk_dirs}
use file_storage.Metadata.{MetadataServer, Target, no_target, target, split_last}
use file_storage.Metadata.Placement.{remote_path_of, replica_target}
use file_storage.Metadata.Placement.Distinct.{IsAssignment, select_data_nodes-IsAssignment}
use file_storage.Metadata.Machine.{PayloadJson}
use file_storage.Metadata.Raft.{RpcError, RaftServer, check_leader}
use file_storage.Metadata.Service.{
  Answer, failed, replied, panicked, reply_with, unless_failed, is_no_node, create_with,
  create_below, create_target, create_named, create_file,
}

-- An error, or a good assignment to the nodes for the file with this id; no panic.
abbrev pub IsAssigned : MetadataServer → String → Answer (List Replica) → Type 0
IsAssigned mds file_id (failed e) = Unit {0}
IsAssigned mds file_id (replied rs) =
    IsAssignment mds.data_nodes (remote_path_of file_id) []
      (replica_target mds.replica_count (length mds.data_nodes)) rs
IsAssigned mds file_id panicked = true ≡ false

unless_failed-IsAssigned :
    (file_id : String) (mds : MetadataServer) (e : Option RpcError)
    (rest : Answer (List Replica) × MetadataServer)
    → IsAssigned mds file_id rest.0
    → IsAssigned mds file_id (unless_failed e mds rest).0
unless_failed-IsAssigned file_id mds none rest good = good
unless_failed-IsAssigned file_id mds (some e) rest good = tt

pub some_node : (nodes : List String) → is_no_node nodes ≡ false → nodes ≢ []
some_node nodes h e = false≢true (sym h ∙ ap is_no_node e)

module _ (json : PayloadJson) (raft : RaftServer json) (args : CreateFileArgs) (file_id : String)
    (mds : MetadataServer) where
  reply_with-IsAssigned :
      (rs : List Replica) (o : Option RpcError × MetadataServer)
      → IsAssigned mds file_id (replied rs)
      → IsAssigned mds file_id (reply_with rs o).0
  reply_with-IsAssigned rs (none, _) good = good
  reply_with-IsAssigned rs (some e, _) good = tt

  create_below-IsAssigned :
      (dir : Option Entry)
      → mds.data_nodes ≢ []
      → IsAssigned mds file_id (create_below json raft args file_id dir mds).0
  unfolding create_below create_with
  create_below-IsAssigned none has_node = tt
  create_below-IsAssigned (some dir) has_node =
      let (rs, chosen, good) =
        select_data_nodes-IsAssignment args.path file_id mds.replica_count mds.data_nodes
          has_node in
      rw chosen (reply_with-IsAssigned rs _ good)

  create_target-IsAssigned :
      (t : Target)
      → mds.data_nodes ≢ []
      → IsAssigned mds file_id (create_target json raft args file_id t mds).0
  unfolding create_target
  create_target-IsAssigned no_target has_node = tt
  create_target-IsAssigned (target dir name) has_node =
      create_below-IsAssigned (walk_dirs dir mds.root) has_node

  create_named-IsAssigned : IsAssigned mds file_id (create_named json raft args (inr file_id) mds).0
  unfolding create_named
  create_named-IsAssigned = elim (Bool-cases (is_no_node mds.data_nodes)) [
    | inl no_node ↦ rw no_node tt
    | inr has_node ↦ rw has_node (
        create_target-IsAssigned (split_last (split_path args.path))
          (some_node mds.data_nodes has_node))
  ]

-- A creation never panics, and replicas that it replies with are a good assignment: on nodes that
-- are registered, no two on the same, all at the path of the file's id, and not too many.
pub create_file-IsAssigned :
    (json : PayloadJson) (raft : RaftServer json) (args : CreateFileArgs) (file_id : String)
    (mds : MetadataServer)
    → IsAssigned mds file_id (create_file json raft args (inr file_id) mds).0
unfolding create_file
create_file-IsAssigned json raft args file_id mds =
    unless_failed-IsAssigned file_id mds (check_leader json raft) _
      (create_named-IsAssigned json raft args file_id mds)
