-- ===== src/Metadata/Machine.antt =====
-- `Apply` of internal/metadata/state_machine.go: the dispatch on the operation of a committed log
-- entry, and the run of a whole log.
pub mod Constant
use file_storage.Base.{ℕ, String, Option, none, some, List, [], ◌∷◌, ◌==◌, if◌then◌else◌}
use file_storage.Metadata.{CommandPayload, MetadataServer, unknown_op, bad_payload, Outcome, fail}
use file_storage.Metadata.Mkdir.{apply_mkdir}
use file_storage.Metadata.CreateFile.{apply_create_file}
use file_storage.Metadata.Delete.{apply_delete}
use file_storage.Metadata.Rename.{apply_rename}
use file_storage.Metadata.UpdateFile.{apply_complete_file, apply_update_size}
use file_storage.Metadata.DataNodes.{apply_heartbeat, apply_remove_data_node}

abbrev pub op_heartbeat : String
op_heartbeat = "heartbeat"

abbrev pub op_remove_data_node : String
op_remove_data_node = "remove_dn"

abbrev pub op_mkdir : String
op_mkdir = "mkdir"

abbrev pub op_create_file : String
op_create_file = "create_file"

abbrev pub op_complete_file : String
op_complete_file = "complete_file"

abbrev pub op_delete : String
op_delete = "delete"

abbrev pub op_rename : String
op_rename = "rename"

abbrev pub op_update_size : String
op_update_size = "update_size"

-- The operations that the dispatch knows.
pub data Command : Type 0 where
  heartbeat remove_data_node mkdir create_file complete_file delete rename update_size : Command

unfoldable pub command : String → Option Command
command op =
    if op == op_heartbeat
    then some heartbeat
    else if op == op_remove_data_node
    then some remove_data_node
    else if op == op_mkdir
    then some mkdir
    else if op == op_create_file
    then some create_file
    else if op == op_complete_file
    then some complete_file
    else if op == op_delete
    then some delete
    else if op == op_rename
    then some rename
    else if op == op_update_size
    then some update_size
    else none

unfoldable pub run_command : ℕ → Command → CommandPayload → MetadataServer → Outcome
run_command now heartbeat p mds = apply_heartbeat now p mds
run_command now remove_data_node p mds = apply_remove_data_node p mds
run_command now mkdir p mds = apply_mkdir now p mds
run_command now create_file p mds = apply_create_file now p mds
run_command now complete_file p mds = apply_complete_file now p mds
run_command now delete p mds = apply_delete now p mds
run_command now rename p mds = apply_rename now p mds
run_command now update_size p mds = apply_update_size now p mds

unfoldable pub dispatch : ℕ → String → Option Command → CommandPayload → MetadataServer → Outcome
unfolding run_command
dispatch now op none p mds = fail (unknown_op op) mds
dispatch now op (some c) p mds = run_command now c p mds

-- What encoding/json does for the payload of a command.
pub record PayloadJson : Type 1 where
  pub Data : Type 0
  pub marshal : CommandPayload → Option Data
  pub unmarshal : Data → Option CommandPayload

abbrev pub apply_decoded : ℕ → String → Option CommandPayload → MetadataServer → Outcome
apply_decoded now op none mds = fail bad_payload mds
apply_decoded now op (some p) mds = dispatch now op (command op) p mds

unfoldable pub apply : (json : PayloadJson) → ℕ → String → json.Data → MetadataServer → Outcome
unfolding command dispatch
apply json now op bytes mds = apply_decoded now op (json.unmarshal bytes) mds

-- An entry of the log, with the time at which this server applies it.
pub record LogEntry : Type 0 where
  pub now : ℕ
  pub op : String
  pub payload : CommandPayload

abbrev pub apply_entry : LogEntry → MetadataServer → Outcome
apply_entry e mds = dispatch e.now e.op (command e.op) e.payload mds

-- The state after a log; an entry that fails does not stop the next.
unfoldable pub replay : List LogEntry → MetadataServer → MetadataServer
replay [] mds = mds
replay (e ∷ log) mds = replay log (apply_entry e mds).1
