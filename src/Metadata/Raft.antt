-- ===== src/Metadata/Raft.antt =====
-- How internal/metadata/mds.go stands to its Raft server, the package goraft: `checkLeader`,
-- `submitCommand`, and the errors of the requests.
use file_storage.Base.{
  ℕ, String, Bool, false, ◌≡◌, refl, Option, none, some, List, [], ◌∷◌, ◌++◌, pos, if◌then◌else◌,
}
use file_storage.Types.{create_if_not_exist}
use file_storage.Metadata.{CommandPayload, MetadataServer}
use file_storage.Metadata.Machine.{PayloadJson, LogEntry, replay}

-- What a request may fail with.
pub data RpcError : Type 0 where
  not_leader : String → RpcError
  marshal_failed : RpcError
  raft_failed : String → RpcError
  file_id_failed : String → RpcError
  no_data_nodes : RpcError
  bad_path : String → RpcError
  no_parent : String → RpcError
  no_path : String → RpcError
  no_file : String → RpcError
  no_directory : String → RpcError
  is_directory : String → RpcError
  is_no_directory : String → RpcError
  empty_path : RpcError
  root_rename : RpcError
  negative_size : RpcError

-- What the Raft server answers while one request is served: whether this server leads, who leads,
-- and for a command the error, if there is one, and the state that this server has then. Commands
-- of other requests may be applied before and after it.
pub record RaftServer (json : PayloadJson) : Type 0 where
  pub is_leader : Bool
  pub get_leader : String
  pub do_command : String → json.Data → MetadataServer → Option String × MetadataServer

-- What goraft documents: the state only changes by the log, and where `Do` reports no error the
-- log has the command.
pub record IsRaft (json : PayloadJson) (raft : RaftServer json) : Type 0 where
  pub do_command-replay :
      (op : String) (d : json.Data) (mds : MetadataServer)
      → (log : List LogEntry) × ((raft.do_command op d mds).1 ≡ replay log mds)
  pub do_command-applied :
      (p : CommandPayload) (d : json.Data) (mds : MetadataServer)
      → json.marshal p ≡ some d
      → (raft.do_command p.op d mds).0 ≡ none
      → (now : ℕ) × (before : List LogEntry) × (after : List LogEntry) × ((raft.do_command p.op d
            mds).1
          ≡ replay (before ++ (record { now = now; op = p.op; payload = p } ∷ after)) mds)

-- The zero value, of which a request sets some fields.
abbrev pub no_payload : CommandPayload
no_payload = record {
  op = "";
  path = "";
  addr = "";
  size = pos 0;
  replicas = [];
  is_dir = false;
  create_mode = create_if_not_exist;
  file_id = "";
  dst_path = "";
  new_size = pos 0;
}

-- `ErrNotLeader`, or none.
abbrev pub check_leader : (json : PayloadJson) → RaftServer json → Option RpcError
check_leader json raft = if raft.is_leader then none else some (not_leader raft.get_leader)

abbrev pub raft_error : Option String → Option RpcError
raft_error none = none
raft_error (some e) = some (raft_failed e)

abbrev pub submit_data :
    (json : PayloadJson)
    → RaftServer json
    → String
    → Option json.Data
    → MetadataServer
    → Option RpcError × MetadataServer
submit_data json raft op none mds = (some marshal_failed, mds)
submit_data json raft op (some d) mds =
    (raft_error (raft.do_command op d mds).0, (raft.do_command op d mds).1)

unfoldable pub submit_command :
    (json : PayloadJson)
    → RaftServer json
    → CommandPayload
    → MetadataServer
    → Option RpcError × MetadataServer
submit_command json raft p mds = submit_data json raft p.op (json.marshal p) mds

submit_data-replay :
    (json : PayloadJson) (raft : RaftServer json) (good : IsRaft json raft) (op : String)
    (d : Option json.Data) (mds : MetadataServer)
    → (log : List LogEntry) × ((submit_data json raft op d mds).1 ≡ replay log mds)
unfolding replay
submit_data-replay json raft good op none mds = ([], refl)
submit_data-replay json raft good op (some d) mds = good.do_command-replay op d mds

-- The state only changes by the log.
pub submit_command-replay :
    (json : PayloadJson) (raft : RaftServer json) (good : IsRaft json raft) (p : CommandPayload)
    (mds : MetadataServer)
    → (log : List LogEntry) × ((submit_command json raft p mds).1 ≡ replay log mds)
unfolding submit_command
submit_command-replay json raft good p mds =
    submit_data-replay json raft good p.op (json.marshal p) mds
