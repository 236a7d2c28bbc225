-- ===== src/Examples/Requests.antt =====
-- Theorems on requests and on the collector at concrete inputs.
use file_storage.Base.{[], arith, pos, ◌≡◌, refl, true}
use file_storage.Types.{CreateFileArgs, NodeFile, create_if_not_exist}
use file_storage.Path.{split_path}
use file_storage.Tree.{walk, walk_dirs, get_child, set_child, modify}
use file_storage.Metadata.{split_last}
use file_storage.Metadata.Mkdir.{apply_mkdir}
use file_storage.Metadata.CreateFile.{apply_create_file}
use file_storage.Metadata.DataNodes.{apply_heartbeat}
use file_storage.Metadata.Machine.{replay, dispatch, command}
use file_storage.Metadata.Gc.{run_gc, is_orphan}
use file_storage.Metadata.Gc.Live.{asks_at}
use file_storage.Metadata.Gc.Orphans.{run_gc-asks}
use file_storage.Examples.Logs.{busy}
use file_storage.Examples.Cluster.{direct, alone, holding, cycle}

abbrev new_args : CreateFileArgs
new_args = record { path = "/a/h"; size = pos 3; create_mode = create_if_not_exist }

abbrev lost_file : NodeFile
lost_file = record { path = "/data/lost"; mod_time = 0 }

run_gc-asks_example : asks_at cycle.0 "n1" "/data/lost" ≡ true
unfolding run_gc is_orphan replay command dispatch apply_mkdir apply_create_file apply_heartbeat
    split_path split_last get_child set_child walk walk_dirs modify
run_gc-asks_example =
    run_gc-asks direct alone holding [] (λ mds. mds) 40000000000 1000 busy "n1" _ 1 lost_file refl
      refl refl refl (omega arith)
