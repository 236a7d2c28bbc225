-- ===== src/Invariant/Cluster.antt =====
-- The registry of data nodes under every command (internal/metadata/apply.go).
use file_storage.Base.{ℕ, String, refl, Option, none, some, List, [], ◌∷◌}
use file_storage.Metadata.{CommandPayload, MetadataServer, new_metadata_server}
use file_storage.Metadata.DataNodes.{get_time}
use file_storage.Metadata.DataNodes.Registry.{
  IsRegistry, apply_heartbeat-IsRegistry, apply_remove_data_node-IsRegistry,
}
use file_storage.Metadata.Machine.{
  Command, heartbeat, remove_data_node, mkdir, create_file, complete_file, delete, rename,
  update_size, command, run_command, dispatch, LogEntry, apply_entry, replay,
}
use file_storage.Metadata.Machine.Constant.{IsSameCluster, run_command-IsSameCluster}

same-IsRegistry : (a b : MetadataServer) → IsSameCluster a b → IsRegistry b → IsRegistry a
same-IsRegistry a b same r = record {
  nodup = rw same.data_nodes r.nodup;
  timed = λ x. rw (same.data_nodes, same.last_heartbeat) (r.timed x);
}

run_command-IsRegistry :
    (now : ℕ) (c : Command) (p : CommandPayload) (mds : MetadataServer)
    → IsRegistry mds
    → IsRegistry (run_command now c p mds).1
run_command-IsRegistry now heartbeat p mds r =
    unfold run_command in apply_heartbeat-IsRegistry p mds r now
run_command-IsRegistry now remove_data_node p mds r =
    unfold run_command in apply_remove_data_node-IsRegistry p mds r
run_command-IsRegistry now mkdir p mds r =
    same-IsRegistry _ mds (run_command-IsSameCluster now mkdir p mds refl) r
run_command-IsRegistry now create_file p mds r =
    same-IsRegistry _ mds (run_command-IsSameCluster now create_file p mds refl) r
run_command-IsRegistry now rename p mds r =
    same-IsRegistry _ mds (run_command-IsSameCluster now rename p mds refl) r
run_command-IsRegistry now delete p mds r =
    same-IsRegistry _ mds (run_command-IsSameCluster now delete p mds refl) r
run_command-IsRegistry now complete_file p mds r =
    same-IsRegistry _ mds (run_command-IsSameCluster now complete_file p mds refl) r
run_command-IsRegistry now update_size p mds r =
    same-IsRegistry _ mds (run_command-IsSameCluster now update_size p mds refl) r

dispatch-IsRegistry :
    (now : ℕ) (op : String) (c : Option Command) (p : CommandPayload) (mds : MetadataServer)
    → IsRegistry mds
    → IsRegistry (dispatch now op c p mds).1
unfolding dispatch
dispatch-IsRegistry now op none p mds r = r
dispatch-IsRegistry now op (some c) p mds r = run_command-IsRegistry now c p mds r

-- After any log from a state with a sound registry no node is registered twice, and a node is
-- registered exactly while it has a time of its last heartbeat.
pub replay-IsRegistry :
    (log : List LogEntry) (mds : MetadataServer) → IsRegistry mds → IsRegistry (replay log mds)
unfolding replay
replay-IsRegistry [] mds r = r
replay-IsRegistry (e ∷ log) mds r =
    replay-IsRegistry log (apply_entry e mds).1
      (dispatch-IsRegistry e.now e.op (command e.op) e.payload mds r)

pub new_metadata_server-IsRegistry : (now : ℕ) → IsRegistry (new_metadata_server now)
new_metadata_server-IsRegistry now = record { nodup = tt; timed = λ a. unfold get_time in refl }
