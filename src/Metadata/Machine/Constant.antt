-- ===== src/Metadata/Machine/Constant.antt =====
-- What the commands of the log leave alone (internal/metadata/apply.go).
use file_storage.Base.{
  Bool, true, false, ℕ, String, ◌≡◌, refl, ◌∙◌, Option, none, some, List, [], ◌∷◌, arith,
}
use file_storage.Metadata.{CommandPayload, MetadataServer}
use file_storage.Metadata.Mkdir.{apply_mkdir}
use file_storage.Metadata.CreateFile.{apply_create_file}
use file_storage.Metadata.Delete.{apply_delete}
use file_storage.Metadata.Rename.{apply_rename}
use file_storage.Metadata.UpdateFile.{apply_complete_file, apply_update_size}
use file_storage.Metadata.DataNodes.{apply_heartbeat, apply_remove_data_node}
use file_storage.Metadata.Machine.{
  Command, heartbeat, remove_data_node, mkdir, create_file, complete_file, delete, rename,
  update_size, command, run_command, dispatch, LogEntry, apply_entry, replay,
}

-- What the commands on the tree leave alone.
pub record IsSameCluster (a b : MetadataServer) : Type 0 where
  pub replica_count : a.replica_count ≡ b.replica_count
  pub data_nodes : a.data_nodes ≡ b.data_nodes
  pub last_heartbeat : a.last_heartbeat ≡ b.last_heartbeat

module _ (now : ℕ) (p : CommandPayload) (mds : MetadataServer) where
  apply_create_file-IsSameCluster : IsSameCluster (apply_create_file now p mds).1 mds
  unfolding apply_create_file
  apply_create_file-IsSameCluster = record {
    replica_count = ground arith;
    data_nodes = ground arith;
    last_heartbeat = ground arith;
  }

  apply_rename-IsSameCluster : IsSameCluster (apply_rename now p mds).1 mds
  unfolding apply_rename
  apply_rename-IsSameCluster = record {
    replica_count = ground arith;
    data_nodes = ground arith;
    last_heartbeat = ground arith;
  }

  apply_delete-IsSameCluster : IsSameCluster (apply_delete now p mds).1 mds
  unfolding apply_delete
  apply_delete-IsSameCluster = record {
    replica_count = ground arith;
    data_nodes = ground arith;
    last_heartbeat = ground arith;
  }

  apply_complete_file-IsSameCluster : IsSameCluster (apply_complete_file now p mds).1 mds
  unfolding apply_complete_file
  apply_complete_file-IsSameCluster = record {
    replica_count = ground arith;
    data_nodes = ground arith;
    last_heartbeat = ground arith;
  }

  apply_update_size-IsSameCluster : IsSameCluster (apply_update_size now p mds).1 mds
  unfolding apply_update_size
  apply_update_size-IsSameCluster = record {
    replica_count = ground arith;
    data_nodes = ground arith;
    last_heartbeat = ground arith;
  }

-- The commands of data nodes are the only ones that change them.
abbrev is_cluster : Command → Bool
is_cluster heartbeat = true
is_cluster remove_data_node = true
is_cluster _ = false

pub run_command-IsSameCluster :
    (now : ℕ) (c : Command) (p : CommandPayload) (mds : MetadataServer)
    → is_cluster c ≡ false
    → IsSameCluster (run_command now c p mds).1 mds
unfolding run_command
run_command-IsSameCluster now heartbeat p mds h = cc
run_command-IsSameCluster now remove_data_node p mds h = cc
run_command-IsSameCluster now mkdir p mds h =
    unfold apply_mkdir in record { replica_count = refl; data_nodes = refl; last_heartbeat = refl }
run_command-IsSameCluster now create_file p mds h = apply_create_file-IsSameCluster now p mds
run_command-IsSameCluster now rename p mds h = apply_rename-IsSameCluster now p mds
run_command-IsSameCluster now delete p mds h = apply_delete-IsSameCluster now p mds
run_command-IsSameCluster now complete_file p mds h = apply_complete_file-IsSameCluster now p mds
run_command-IsSameCluster now update_size p mds h = apply_update_size-IsSameCluster now p mds

replica_count-run_command :
    (now : ℕ) (c : Command) (p : CommandPayload) (mds : MetadataServer)
    → (run_command now c p mds).1.replica_count ≡ mds.replica_count
replica_count-run_command now heartbeat p mds = unfold run_command apply_heartbeat in refl
replica_count-run_command now remove_data_node p mds =
    unfold run_command apply_remove_data_node in refl
replica_count-run_command now mkdir p mds =
    (run_command-IsSameCluster now mkdir p mds refl).replica_count
replica_count-run_command now create_file p mds =
    (run_command-IsSameCluster now create_file p mds refl).replica_count
replica_count-run_command now rename p mds =
    (run_command-IsSameCluster now rename p mds refl).replica_count
replica_count-run_command now delete p mds =
    (run_command-IsSameCluster now delete p mds refl).replica_count
replica_count-run_command now complete_file p mds =
    (run_command-IsSameCluster now complete_file p mds refl).replica_count
replica_count-run_command now update_size p mds =
    (run_command-IsSameCluster now update_size p mds refl).replica_count

replica_count-dispatch :
    (now : ℕ) (op : String) (c : Option Command) (p : CommandPayload) (mds : MetadataServer)
    → (dispatch now op c p mds).1.replica_count ≡ mds.replica_count
unfolding dispatch
replica_count-dispatch now op none p mds = refl
replica_count-dispatch now op (some c) p mds = replica_count-run_command now c p mds

pub replica_count-replay :
    (log : List LogEntry) (mds : MetadataServer)
    → (replay log mds).replica_count ≡ mds.replica_count
unfolding replay
replica_count-replay [] mds = refl
replica_count-replay (e ∷ log) mds =
    replica_count-replay log (apply_entry e mds).1
    ∙ replica_count-dispatch e.now e.op (command e.op) e.payload mds
