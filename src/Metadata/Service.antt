-- ===== src/Metadata/Service.antt =====
-- The requests of internal/metadata/mds.go that write: each is a command of the log. A request
-- returns its error or its reply, and the state that this server has then. The logger is left out.

pub mod Assignment
pub mod Served
pub mod Applied
pub mod Promises
pub mod Commands
pub mod Quiet
pub mod Seen
pub mod Created
use file_storage.Base.{
  is_negative, String, Bool, true, false, ◌||◌, ◌==◌, Option, none, some, List, [], ◌∷◌,
  if◌then◌else◌, ◌⊎◌, inl, inr,
}
use file_storage.Types.{
  Replica, CreateFileArgs, HeartbeatReply, DeleteReply, RenameArgs, UpdateSizeArgs,
}
use file_storage.Path.{split_path}
use file_storage.Tree.{Entry, attrs, walk_dirs}
use file_storage.Metadata.{MetadataServer, Target, no_target, target, split_last}
use file_storage.Metadata.UpdateFile.{lookup}
use file_storage.Metadata.Placement.{select_data_nodes}
use file_storage.Metadata.Machine.{
  PayloadJson, op_heartbeat, op_mkdir, op_create_file, op_complete_file, op_delete, op_rename,
  op_update_size,
}
use file_storage.Metadata.Raft.{
  RpcError, file_id_failed, no_data_nodes, bad_path, no_parent, no_path, empty_path, root_rename,
  negative_size, RaftServer, no_payload, check_leader, submit_command,
}

-- `panicked` is a run-time panic of Go.
pub data Answer {ℓ} (A : Type ℓ) : Type ℓ where
  failed : RpcError → Answer A
  replied : A → Answer A
  panicked : Answer A

-- What a request gives after its command: the error of the command, or the reply.
abbrev pub reply_with {ℓ} :
    {A : Type ℓ} → A → Option RpcError × MetadataServer → Answer A × MetadataServer
reply_with a (none, mds) = (replied a, mds)
reply_with a (some e, mds) = (failed e, mds)

-- A request that starts with `checkLeader`.
abbrev pub unless_failed {ℓ} :
    {A : Type ℓ}
    → Option RpcError
    → MetadataServer
    → Answer A × MetadataServer
    → Answer A × MetadataServer
unless_failed none mds rest = rest
unless_failed (some e) mds rest = (failed e, mds)

abbrev pub is_no_node : List String → Bool
is_no_node [] = true
is_no_node (n ∷ nodes) = false

module _ (json : PayloadJson) (raft : RaftServer json) where
  unfoldable pub heartbeat : String → MetadataServer → Answer HeartbeatReply × MetadataServer
  heartbeat addr mds = unless_failed (check_leader json raft) mds (
      reply_with (record { is_leader = true; leader = "" })
        (submit_command json raft (record no_payload { op = op_heartbeat; addr = addr }) mds))

  unfoldable pub mkdir : String → MetadataServer → Answer Bool × MetadataServer
  mkdir path mds = unless_failed (check_leader json raft) mds (
      reply_with true
        (submit_command json raft (record no_payload { op = op_mkdir; path = path }) mds))

  -- The command of a creation, and the reply: the replicas.
  unfoldable pub create_with :
      CreateFileArgs
      → String
      → Option (List Replica)
      → MetadataServer
      → Answer (List Replica) × MetadataServer
  create_with args file_id none mds = (panicked, mds)
  create_with args file_id (some replicas) mds = reply_with replicas (
      submit_command json raft
        (record no_payload {
          op = op_create_file;
          path = args.path;
          size = args.size;
          replicas = replicas;
          create_mode = args.create_mode;
          file_id = file_id;
        })
        mds)

  -- The walk to the parent directory, and the choice of the nodes.
  unfoldable pub create_below :
      CreateFileArgs
      → String
      → Option Entry
      → MetadataServer
      → Answer (List Replica) × MetadataServer
  unfolding create_with
  create_below args file_id none mds = (failed (no_parent args.path), mds)
  create_below args file_id (some dir) mds =
      create_with args file_id
        (select_data_nodes args.path file_id mds.replica_count mds.data_nodes) mds

  unfoldable pub create_target :
      CreateFileArgs → String → Target → MetadataServer → Answer (List Replica) × MetadataServer
  unfolding create_below
  create_target args file_id no_target mds = (failed (bad_path args.path), mds)
  create_target args file_id (target dir name) mds =
      create_below args file_id (walk_dirs dir mds.root) mds

  -- `new_id` is the result of `generateFileID`: random bytes as hexadecimal digits, or an error.
  unfoldable pub create_named :
      CreateFileArgs → String ⊎ String → MetadataServer → Answer (List Replica) × MetadataServer
  unfolding create_target
  create_named args (inl error) mds = (failed (file_id_failed error), mds)
  create_named args (inr file_id) mds =
      if is_no_node mds.data_nodes
      then (failed no_data_nodes, mds)
      else create_target args file_id (split_last (split_path args.path)) mds

  unfoldable pub create_file :
      CreateFileArgs → String ⊎ String → MetadataServer → Answer (List Replica) × MetadataServer
  unfolding create_named
  create_file args new_id mds =
      unless_failed (check_leader json raft) mds (create_named args new_id mds)

  unfoldable pub complete_file : String → MetadataServer → Answer Bool × MetadataServer
  complete_file path mds = unless_failed (check_leader json raft) mds (
      reply_with true
        (submit_command json raft (record no_payload { op = op_complete_file; path = path }) mds))

  -- The reply tells what the lookup before the command found.
  unfoldable pub delete_found :
      String → Option Entry → MetadataServer → Answer DeleteReply × MetadataServer
  delete_found path none mds = (failed (no_path path), mds)
  delete_found path (some x) mds =
      reply_with (record { replicas = (attrs x).replicas; is_dir = (attrs x).is_dir })
        (submit_command json raft
          (record no_payload {
            op = op_delete;
            path = path;
            is_dir = (attrs x).is_dir;
            replicas = (attrs x).replicas;
          })
          mds)

  unfoldable pub delete : String → MetadataServer → Answer DeleteReply × MetadataServer
  unfolding delete_found
  delete path mds =
      unless_failed (check_leader json raft) mds (delete_found path (lookup path mds) mds)

  -- The checks behind `checkLeader`. A rename to the same path succeeds without a command.
  unfoldable pub rename_checked : RenameArgs → MetadataServer → Answer Bool × MetadataServer
  rename_checked args mds =
      if args.src_path == "" || args.dst_path == ""
      then (failed empty_path, mds)
      else if args.src_path == "/" || args.dst_path == "/"
      then (failed root_rename, mds)
      else if args.src_path == args.dst_path
      then (replied true, mds)
      else reply_with true (
          submit_command json raft
            (record no_payload { op = op_rename; path = args.src_path; dst_path = args.dst_path })
            mds)

  unfoldable pub rename : RenameArgs → MetadataServer → Answer Bool × MetadataServer
  unfolding rename_checked
  rename args mds = unless_failed (check_leader json raft) mds (rename_checked args mds)

  unfoldable pub update_checked : UpdateSizeArgs → MetadataServer → Answer Bool × MetadataServer
  update_checked args mds =
      if args.path == ""
      then (failed empty_path, mds)
      else if is_negative args.size
      then (failed negative_size, mds)
      else reply_with true (
          submit_command json raft
            (record no_payload { op = op_update_size; path = args.path; new_size = args.size }) mds)

  unfoldable pub update_size : UpdateSizeArgs → MetadataServer → Answer Bool × MetadataServer
  unfolding update_checked
  update_size args mds = unless_failed (check_leader json raft) mds (update_checked args mds)
