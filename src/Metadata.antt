-- ===== src/Metadata.antt =====
-- The state of the metadata server and the commands of its log (internal/metadata/mds.go). The
-- operations are in the modules below, a module for each handler of internal/metadata/apply.go.
pub mod Mkdir
pub mod CreateFile
pub mod Delete
pub mod Rename
pub mod UpdateFile
pub mod DataNodes
pub mod Machine
pub mod Placement
pub mod Snapshot
pub mod Raft
pub mod Service
pub mod Read
pub mod Gc
use file_storage.Base.{ℕ, ℤ, pos, String, Bool, true, false, Option, some, List, [], ◌∷◌}
use file_storage.Types.{Replica, CreateMode}
use file_storage.Tree.{Attrs, Entry, node, on_attrs, Children, nil, set_child, remove_child}

abbrev pub status_pending : String
status_pending = "pending"

abbrev pub status_complete : String
status_complete = "complete"

-- The payload of a log entry. A handler fills the fields that its command needs.
pub record CommandPayload : Type 0 where
  pub op : String
  pub path : String
  pub addr : String
  pub size : ℤ
  pub replicas : List Replica
  pub is_dir : Bool
  pub create_mode : CreateMode
  pub file_id : String
  pub dst_path : String
  pub new_size : ℤ

-- Times are nanoseconds. The Raft server and the logger are not part of the state machine.
pub record MetadataServer : Type 0 where
  pub root : Entry
  pub data_nodes : List String
  pub last_heartbeat : List (String × ℕ)
  pub replica_count : ℕ

-- What an operation may fail with, a constructor for each text that the code formats.
pub data Error : Type 0 where
  invalid_path : String → Error
  invalid_rename : String → String → Error
  not_a_directory : String → ℕ → String → Error
  parent_not_found : String → Error
  is_a_directory : String → Error
  already_exists : String → Error
  path_not_found : String → Error
  cannot_complete : String → Error
  cannot_update_size : String → Error
  cannot_delete_root : Error
  source_not_found : String → Error
  own_subtree : String → String → Error
  dst_parent_not_found : String → Error
  dst_is_directory : String → Error
  unknown_op : String → Error
  bad_payload : Error

-- An operation returns its error, if it failed, and the state that it left.
abbrev pub Outcome : Type 0
Outcome = Option Error × MetadataServer

abbrev pub fail : Error → MetadataServer → Outcome
fail e mds = (some e, mds)

-- `current.modTime = now`
abbrev pub touch : ℕ → Entry → Entry
touch now = on_attrs (λ a. record a { mod_time = now })

-- A child is written into a directory, and the directory gets the time.
abbrev pub put_in : ℕ → String → Entry → Entry → Entry
put_in now n x (node a cs) = node (record a { mod_time = now }) (set_child n x cs)

-- A child is deleted from a directory, and the directory gets the time.
abbrev pub drop_in : ℕ → String → Entry → Entry
drop_in now n (node a cs) = node (record a { mod_time = now }) (remove_child n cs)

-- parts[:len(parts)-1] and parts[len(parts)-1]
pub data Target : Type 0 where
  no_target : Target
  target : List String → String → Target

abbrev pub below : String → Target → Target
below n no_target = no_target
below n (target dir name) = target (n ∷ dir) name

unfoldable pub split_last : List String → Target
split_last [] = no_target
split_last (n ∷ []) = target [] n
split_last (n ∷ (m ∷ p)) = below n (split_last (m ∷ p))

-- The root directory of a new server.
abbrev pub new_root : ℕ → Entry
new_root now =
    node
      (record {
        name = "/";
        is_dir = true;
        size = pos 0;
        mode = 0o755;
        created_at = now;
        mod_time = now;
        status = "";
        file_id = "";
        replicas = [];
      })
      nil

-- `NewMetadataServer`, as far as it sets the state.
abbrev pub new_metadata_server : ℕ → MetadataServer
new_metadata_server now = record {
  root = new_root now;
  data_nodes = [];
  last_heartbeat = [];
  replica_count = 3;
}
