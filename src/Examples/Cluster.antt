-- ===== src/Examples/Cluster.antt =====
-- Theorems on data nodes, snapshots, requests and garbage collection at concrete inputs.
use file_storage.Base.{
  pos, String, Bool, ◌<>◌, ◌≡◌, ◌≢◌, refl, sym, ap, true, false, Option, some, none, List, [], ◌∷◌,
  inr, length, ◌++◌,
}
use mathlib.Core.Bool.{false≢true}
use file_storage.Types.{Replica, create_if_not_exist}
use file_storage.Path.{split_path}
use file_storage.Tree.{attrs, Entry, Attrs, walk, walk_dirs, get_child, set_child, modify, stat}
use file_storage.Metadata.{CommandPayload, MetadataServer, new_metadata_server, split_last}
use file_storage.Metadata.Mkdir.{apply_mkdir}
use file_storage.Metadata.CreateFile.{apply_create_file}
use file_storage.Metadata.DataNodes.{apply_heartbeat}
use file_storage.Metadata.DataNodes.Registry.{IsRegistry}
use file_storage.Metadata.Rename.{meets}
use file_storage.Metadata.Machine.{PayloadJson, replay, dispatch, command}
use file_storage.Metadata.Placement.{replica_target, select_data_nodes}
use file_storage.Metadata.Placement.Distinct.{length-select_data_nodes}
use file_storage.Metadata.Snapshot.{
  to_snapshot, MetaSnapshot, SnapshotJson, IsLossless, snapshot, restore,
}
use file_storage.Metadata.Snapshot.RoundTrip.{replay-restore}
use file_storage.Metadata.Raft.{RaftServer, IsRaft, no_payload}
use file_storage.Metadata.Service.{create_file}
use file_storage.Metadata.Service.Assignment.{IsAssigned, create_file-IsAssigned}
use file_storage.Metadata.Service.Served.{mkdir_at}
use file_storage.Metadata.Service.Promises.{IsServed}
use file_storage.Metadata.Service.Commands.{serve-IsServed}
use file_storage.Metadata.Gc.{DataNodes, DeleteCall, is_orphan, run_gc}
use file_storage.Metadata.Gc.Live.{asks_at}
use file_storage.Spec.{is_below}
use file_storage.Spec.Rename.Cycle.{meets-eq-is_below}
use file_storage.Invariant.Cluster.{replay-IsRegistry, new_metadata_server-IsRegistry}
use file_storage.Examples.Logs.{log, start, busy}

replay-IsRegistry_example : IsRegistry busy
replay-IsRegistry_example = replay-IsRegistry log start (new_metadata_server-IsRegistry 0)

abbrev three : List String
three = "n1" ∷ "n2" ∷ "n3" ∷ []

some_nodes : three ≢ []
some_nodes e = false≢true (ap has_none e)
  where
    has_none : List String → Bool
    has_none [] = true
    has_none (x ∷ xs) = false

length-select_data_nodes_example :
    (rs : List Replica) × (select_data_nodes "/a" "id" 2 three ≡ some rs)
    × (length rs ≡ replica_target 2 (length three))
length-select_data_nodes_example =
    length-select_data_nodes "/a" "id" 2 three some_nodes (refl, (refl, (refl, tt)))

-- A text that is the snapshot itself.
abbrev plain : SnapshotJson
plain = record {
  Data = MetaSnapshot;
  marshal = λ s. some s;
  unmarshal = λ s. some s;
  is_empty = λ s. false;
}

plain-IsLossless : IsLossless plain
plain-IsLossless = record { is_empty-marshal = λ s d h. refl; unmarshal-marshal = λ s d h. sym h }

-- Commands that are not encoded, and a server that applies them at once.
abbrev pub direct : PayloadJson
direct = record { Data = CommandPayload; marshal = λ p. some p; unmarshal = λ p. some p }

abbrev pub alone : RaftServer direct
alone = record {
  is_leader = true;
  get_leader = "n0";
  do_command = λ op p mds. (none, (dispatch 9 op (command op) p mds).1);
}

the_payload : Option CommandPayload → CommandPayload
the_payload none = no_payload
the_payload (some p) = p

pub alone-IsRaft : IsRaft direct alone
unfolding replay the_payload
alone-IsRaft = record {
  do_command-replay = λ op p mds. ((record { now = 9; op = op; payload = p }) ∷ [], refl);
  do_command-applied = λ p d mds h ok.
      (9, [], [], ap (λ q. (dispatch 9 p.op (command p.op) (the_payload q) mds).1) (sym h));
}

replay-restore_example :
    replay log
      (restore plain
        (record {
          root = some (to_snapshot busy.root);
          data_nodes = busy.data_nodes;
          last_heartbeat = some busy.last_heartbeat;
        })
        (new_metadata_server 5)).1
    ≡ replay (log ++ log) start
replay-restore_example =
    replay-restore plain plain-IsLossless log log 0 5 _ (unfold snapshot in refl)

create_file-IsAssigned_example :
    IsAssigned busy "id9"
      (create_file direct alone
        (record { path = "/a/h"; size = pos 3; create_mode = create_if_not_exist })
        (inr "id9")
        busy).0
create_file-IsAssigned_example =
    create_file-IsAssigned direct alone
      (record { path = "/a/h"; size = pos 3; create_mode = create_if_not_exist }) "id9" busy

serve-IsServed_example : IsServed direct alone busy (mkdir_at "/q")
serve-IsServed_example = serve-IsServed direct alone alone-IsRaft (mkdir_at "/q") busy

-- Every node holds the file of "/a/f", and a file that nothing refers to.
abbrev pub holding : DataNodes
holding = record {
  list_all_paths = λ addr. some (
      (record { path = "/data/id1"; mod_time = 0 })
      ∷ (record { path = "/data/lost"; mod_time = 0 })
      ∷ []);
  delete_data = λ addr path. true;
}

seen_of : Option Attrs → Attrs
seen_of none = (attrs start.root)
seen_of (some a) = a

abbrev pub cycle : List DeleteCall × MetadataServer
cycle = run_gc direct alone holding [] (λ mds. mds) 40000000000 1000 busy

pub lost_file_goes : asks_at cycle.0 "n1" "/data/lost" ≡ true
unfolding is_orphan run_gc replay command dispatch stat apply_mkdir apply_create_file
    apply_heartbeat split_path split_last get_child set_child walk walk_dirs modify
lost_file_goes = refl

dir_of : Option Entry → Entry
dir_of none = start.root
dir_of (some e) = e

dir_found : walk_dirs ("a" ∷ []) busy.root ≡ some (dir_of (walk_dirs ("a" ∷ []) busy.root))
unfolding dir_of replay command dispatch apply_mkdir apply_create_file apply_heartbeat split_path
    split_last get_child set_child walk walk_dirs modify
dir_found = refl

meets-eq-is_below_example :
    meets ("a" ∷ []) [] ("a" ∷ "b" ∷ []) busy.root ≡ is_below ("a" ∷ []) ("a" ∷ "b" ∷ [])
meets-eq-is_below_example =
    meets-eq-is_below ("a" ∷ []) ("a" ∷ "b" ∷ []) busy.root
      (dir_of (walk_dirs ("a" ∷ []) busy.root)) dir_found

abbrev join : String → String → String
join dir name = dir <> "/" <> name
