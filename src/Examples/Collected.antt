-- ===== src/Examples/Collected.antt =====
-- Theorems on the garbage collector and on uploads and overwrites, at concrete inputs.
use file_storage.Invariant.{new_metadata_server-IsTree}
use file_storage.Client.System.Collected.{put_file-keeps_data}
use file_storage.Invariant.Cluster.{new_metadata_server-IsRegistry}
use file_storage.Metadata.Raft.{no_payload}
use file_storage.Metadata.DataNodes.Registry.{apply_heartbeat-IsRegistry, IsRegistry}
use file_storage.Metadata.Gc.Asked.{run_gc-asked, IsLost}
use file_storage.Metadata.Gc.{run_gc, collect_valid_file_ids, DataNodes}
use file_storage.Metadata.Gc.Live.{asks}
use file_storage.Metadata.{new_metadata_server, CommandPayload}
use file_storage.Tree.{walk, Entry, walk_dirs}
use file_storage.Metadata.DataNodes.{set_time, apply_heartbeat}
use file_storage.Types.{create_if_not_exist, overwrite_if_exists}
use file_storage.Base.{Option, [], ◌∷◌, ◌≡◌, refl, true, false, some, none}
use file_storage.Client.Transfer.{put_file}
use file_storage.Examples.System.{
  net, storage, system, first, alone-IsQuiet, uploaded, nothing_there,
}
use file_storage.Examples.Stores.{node_at, without_files}
use file_storage.Examples.Logs.{busy, create}
use file_storage.Examples.Cluster.{direct, alone, alone-IsRaft, holding, cycle, lost_file_goes}

-- A node lists the new file, as an old one.
abbrev listing : DataNodes
listing = record {
  list_all_paths = λ addr. some ((record { path = "/data/abcd"; mod_time = 0 }) ∷ []);
  delete_data = λ addr path. true;
}

first-IsRegistry : IsRegistry first.mds
unfolding apply_heartbeat set_time
first-IsRegistry =
    apply_heartbeat-IsRegistry (record no_payload { addr = "n:1" }) (new_metadata_server 0)
      (new_metadata_server-IsRegistry 0) 0

put_file-keeps_data_example :
    asks
      (run_gc direct alone listing []
        (λ mds. mds)
        40000000000
        1000
        (put_file net "m:1" create_if_not_exist "/local" "/f" first).1.mds).0
      "/data/abcd"
    ≡ false
put_file-keeps_data_example =
    put_file-keeps_data net node_at storage direct alone system alone-IsQuiet alone-IsRaft "m:1"
      "/f" "/local" 5 (6 ∷ []) create_if_not_exist first refl nothing_there
      (λ addr names h. without_files (5 ∷ 6 ∷ []) _) uploaded (new_metadata_server-IsTree 0)
      first-IsRegistry refl listing (λ mds. mds) 40000000000 1000

run_gc-asked_example :
    IsLost holding (collect_valid_file_ids cycle.1) 40000000000 cycle.1.data_nodes "n1" "/data/lost"
run_gc-asked_example =
    run_gc-asked direct alone holding [] (λ mds. mds) 40000000000 1000 busy "n1" "/data/lost"
      lost_file_goes

abbrev renewed : CommandPayload
renewed = record (create "/a/f" "abcd") { create_mode = overwrite_if_exists }

entry_or_root : Option Entry → Entry
entry_or_root none = busy.root
entry_or_root (some e) = e

abbrev parent : Entry
parent = entry_or_root (walk_dirs ("a" ∷ []) busy.root)

abbrev old_file : Entry
old_file = entry_or_root (walk ("a" ∷ "f" ∷ []) busy.root)
