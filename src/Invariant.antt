-- ===== src/Invariant.antt =====
-- The shape of the metadata server's tree under every handler of internal/metadata/apply.go.
pub mod Writes
pub mod Files
pub mod Rename
pub mod Mkdir
pub mod Cluster
use file_storage.Base.{ℕ, String, ◌≡◌, refl, Option, none, some, List, [], ◌∷◌}
use file_storage.Tree.Sound.{IsTree, file-is_sound}
use file_storage.Metadata.{CommandPayload, MetadataServer, new_metadata_server}
use file_storage.Metadata.DataNodes.{apply_heartbeat, apply_remove_data_node}
use file_storage.Metadata.Machine.{
  Command, heartbeat, remove_data_node, mkdir, create_file, complete_file, delete, rename,
  update_size, command, run_command, dispatch, LogEntry, apply_entry, replay,
}
use Files.{
  apply_create_file-IsTree, apply_delete-IsTree, apply_complete_file-IsTree,
  apply_update_size-IsTree,
}
use Rename.{apply_rename-IsTree}
use Mkdir.{apply_mkdir-IsTree}

run_command-IsTree :
    (now : ℕ) (c : Command) (p : CommandPayload) (mds : MetadataServer)
    → IsTree mds.root
    → IsTree (run_command now c p mds).1.root
unfolding run_command
run_command-IsTree now heartbeat p mds t = unfold apply_heartbeat in t
run_command-IsTree now remove_data_node p mds t = unfold apply_remove_data_node in t
run_command-IsTree now mkdir p mds t = apply_mkdir-IsTree now p mds t
run_command-IsTree now create_file p mds t = apply_create_file-IsTree now p mds t
run_command-IsTree now complete_file p mds t = apply_complete_file-IsTree now p mds t
run_command-IsTree now delete p mds t = apply_delete-IsTree now p mds t
run_command-IsTree now rename p mds t = apply_rename-IsTree now p mds t
run_command-IsTree now update_size p mds t = apply_update_size-IsTree now p mds t

dispatch-IsTree :
    (now : ℕ) (op : String) (c : Option Command) (p : CommandPayload) (mds : MetadataServer)
    → IsTree mds.root
    → IsTree (dispatch now op c p mds).1.root
unfolding dispatch
dispatch-IsTree now op none p mds t = t
dispatch-IsTree now op (some c) p mds t = run_command-IsTree now c p mds t

-- From a sound tree every log, whatever its entries, leaves a sound tree.
pub replay-IsTree :
    (log : List LogEntry) (mds : MetadataServer) → IsTree mds.root → IsTree (replay log mds).root
unfolding replay
replay-IsTree [] mds t = t
replay-IsTree (e ∷ log) mds t =
    replay-IsTree log (apply_entry e mds).1
      (dispatch-IsTree e.now e.op (command e.op) e.payload mds t)

-- The tree of a new server is sound.
pub new_metadata_server-IsTree : (now : ℕ) → IsTree (new_metadata_server now).root
new_metadata_server-IsTree now = record { directory = refl; sound = file-is_sound _ }
