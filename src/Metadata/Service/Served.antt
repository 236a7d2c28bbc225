-- ===== src/Metadata/Service/Served.antt =====
-- The requests of internal/metadata/mds.go that write, and the state that they leave.
use mathlib.Core.Path.{subst}
use file_storage.Base.{
  String, is_negative, ◌||◌, ◌==◌, Bool-cases, true, ◌≡◌, refl, sym, Option, none, some, List, [],
  ◌⊎◌, inl, inr,
}
use file_storage.Types.{Replica, CreateFileArgs, RenameArgs, UpdateSizeArgs}
use file_storage.Tree.{Entry}
use file_storage.Tree.Sound.{IsTree}
use file_storage.Metadata.{CommandPayload, MetadataServer, Target, no_target, target}
use file_storage.Metadata.DataNodes.Registry.{IsRegistry}
use file_storage.Metadata.Machine.{PayloadJson, LogEntry, replay}
use file_storage.Metadata.Raft.{RpcError, RaftServer, IsRaft, submit_command, submit_command-replay}
use file_storage.Metadata.Service.{
  Answer, reply_with, unless_failed, create_with, create_below, create_target, create_named,
  delete_found, rename_checked, update_checked, is_no_node,
}
use file_storage.Metadata.Service as Service
use file_storage.Invariant.{replay-IsTree}
use file_storage.Invariant.Cluster.{replay-IsRegistry}

-- The requests that write.
pub data Request : Type 0 where
  heartbeat_of : String → Request
  mkdir_at : String → Request
  create_of : CreateFileArgs → String ⊎ String → Request
  complete_at : String → Request
  delete_at : String → Request
  rename_by : RenameArgs → Request
  update_by : UpdateSizeArgs → Request

-- The state after a request.
unfoldable pub serve :
    (json : PayloadJson) → RaftServer json → Request → MetadataServer → MetadataServer
serve json raft (heartbeat_of addr) mds = (Service.heartbeat json raft addr mds).1
serve json raft (mkdir_at path) mds = (Service.mkdir json raft path mds).1
serve json raft (create_of args new_id) mds = (Service.create_file json raft args new_id mds).1
serve json raft (complete_at path) mds = (Service.complete_file json raft path mds).1
serve json raft (delete_at path) mds = (Service.delete json raft path mds).1
serve json raft (rename_by args) mds = (Service.rename json raft args mds).1
serve json raft (update_by args) mds = (Service.update_size json raft args mds).1

-- The state comes from another by a log.
abbrev pub IsLogged : MetadataServer → MetadataServer → Type 0
IsLogged mds after = (log : List LogEntry) × (after ≡ replay log mds)

pub unchanged : (mds : MetadataServer) → IsLogged mds mds
unchanged mds = ([], unfold replay in refl)

reply_with-IsLogged :
    {A : Type 0} (mds : MetadataServer) (a : A) (o : Option RpcError × MetadataServer)
    → IsLogged mds o.1
    → IsLogged mds (reply_with a o).1
reply_with-IsLogged mds a (none, _) good = good
reply_with-IsLogged mds a (some e, _) good = good

unless_failed-IsLogged :
    {A : Type 0} (mds : MetadataServer) (e : Option RpcError) (rest : Answer A × MetadataServer)
    → IsLogged mds rest.1
    → IsLogged mds (unless_failed e mds rest).1
unless_failed-IsLogged mds none rest good = good
unless_failed-IsLogged mds (some e) rest good = unchanged mds

module _ (json : PayloadJson) (raft : RaftServer json) (good : IsRaft json raft)
    (mds : MetadataServer) where
  -- A command and its reply.
  commanded-IsLogged :
      {A : Type 0} (a : A) (p : CommandPayload)
      → IsLogged mds (reply_with a (submit_command json raft p mds)).1
  commanded-IsLogged a p = reply_with-IsLogged mds a _ (submit_command-replay json raft good p mds)

  create_with-IsLogged :
      (args : CreateFileArgs) (id : String) (rs : Option (List Replica))
      → IsLogged mds (create_with json raft args id rs mds).1
  unfolding create_with
  create_with-IsLogged args id none = unchanged mds
  create_with-IsLogged args id (some rs) = commanded-IsLogged rs _

  create_below-IsLogged :
      (args : CreateFileArgs) (id : String) (dir : Option Entry)
      → IsLogged mds (create_below json raft args id dir mds).1
  unfolding create_below
  create_below-IsLogged args id none = unchanged mds
  create_below-IsLogged args id (some dir) = create_with-IsLogged args id _

  create_target-IsLogged :
      (args : CreateFileArgs) (id : String) (t : Target)
      → IsLogged mds (create_target json raft args id t mds).1
  unfolding create_target
  create_target-IsLogged args id no_target = unchanged mds
  create_target-IsLogged args id (target dir name) = create_below-IsLogged args id _

  create_named-IsLogged :
      (args : CreateFileArgs) (new_id : String ⊎ String)
      → IsLogged mds (create_named json raft args new_id mds).1
  unfolding create_named
  create_named-IsLogged args (inl error) = unchanged mds
  create_named-IsLogged args (inr id) = elim (Bool-cases (is_no_node mds.data_nodes)) [
    | inl no_node ↦ rw no_node (unchanged mds)
    | inr has_node ↦ rw has_node (create_target-IsLogged args id _)
  ]

  delete_found-IsLogged :
      (path : String) (x : Option Entry) → IsLogged mds (delete_found json raft path x mds).1
  unfolding delete_found
  delete_found-IsLogged path none = unchanged mds
  delete_found-IsLogged path (some x) = commanded-IsLogged _ _

  rename_checked-IsLogged : (args : RenameArgs) → IsLogged mds (rename_checked json raft args mds).1
  unfolding rename_checked
  rename_checked-IsLogged args = elim (Bool-cases (args.src_path == "" || args.dst_path == "")) [
    | inl empty ↦ rw empty (unchanged mds)
    | inr full ↦ elim (Bool-cases (args.src_path == "/" || args.dst_path == "/")) [
      | inl root ↦ rw (full, root) (unchanged mds)
      | inr other ↦ elim (Bool-cases (args.src_path == args.dst_path)) [
        | inl same ↦ rw (full, other, same) (unchanged mds)
        | inr differ ↦ rw (full, other, differ) (commanded-IsLogged true _)
      ]
    ]
  ]

  update_checked-IsLogged :
      (args : UpdateSizeArgs) → IsLogged mds (update_checked json raft args mds).1
  unfolding update_checked
  update_checked-IsLogged args = elim (Bool-cases (args.path == "")) [
    | inl empty ↦ rw empty (unchanged mds)
    | inr full ↦ elim (Bool-cases (is_negative args.size)) [
      | inl below ↦ rw (full, below) (unchanged mds)
      | inr there ↦ rw (full, there) (commanded-IsLogged true _)
    ]
  ]

  serve-IsLogged : (r : Request) → IsLogged mds (serve json raft r mds)
  unfolding serve Service.heartbeat Service.mkdir Service.create_file Service.complete_file
      Service.delete Service.rename Service.update_size
  serve-IsLogged (heartbeat_of addr) = unless_failed-IsLogged mds _ _ (commanded-IsLogged _ _)
  serve-IsLogged (mkdir_at path) = unless_failed-IsLogged mds _ _ (commanded-IsLogged _ _)
  serve-IsLogged (create_of args new_id) =
      unless_failed-IsLogged mds _ _ (create_named-IsLogged args new_id)
  serve-IsLogged (complete_at path) = unless_failed-IsLogged mds _ _ (commanded-IsLogged _ _)
  serve-IsLogged (delete_at path) = unless_failed-IsLogged mds _ _ (delete_found-IsLogged path _)
  serve-IsLogged (rename_by args) = unless_failed-IsLogged mds _ _ (rename_checked-IsLogged args)
  serve-IsLogged (update_by args) = unless_failed-IsLogged mds _ _ (update_checked-IsLogged args)

-- Over a Raft server that keeps its promises every request, whatever its arguments, leaves a sound
-- tree and a sound registry of data nodes, if it found them so.
pub serve-IsSound :
    (json : PayloadJson) (raft : RaftServer json) (good : IsRaft json raft) (r : Request)
    (mds : MetadataServer)
    → IsTree mds.root
    → IsRegistry mds
    → IsTree (serve json raft r mds).root × IsRegistry (serve json raft r mds)
serve-IsSound json raft good r mds t nodes =
    let (log, same) = serve-IsLogged json raft good mds r in
    subst (λ m. IsTree m.root × IsRegistry m) (sym same)
      (replay-IsTree log mds t, replay-IsRegistry log mds nodes)
