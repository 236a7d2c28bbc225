-- ===== src/Examples/Stores.antt =====
-- An upload and a download over two data nodes, and the theorem on them.
use file_storage.Client.Storage.Ordered.{fetch-Parallel}
use file_storage.Client.Replicas.Parallel.{Parallel, at_front, behind, finished, returned}
use file_storage.Base.{
  ℕ, String, ◌==◌, eq_iff, Bool, true, false, ◌≡◌, refl, Option, none, some, List, [], ◌∷◌, arith,
  if◌then◌else◌,
}
use file_storage.Types.{Replica, StoreArgs, CreateFileReply}
use file_storage.Path.{trim_prefix, split, is_slash}
use file_storage.Path.Render.{render}
use file_storage.Text.{contains_text, after_prefix}
use file_storage.DataNode.Disk.{
  Disk, directory, get_node, set_node, remove_node, make_directory, make_path, os_mkdir_parent,
  os_write_file, os_rename,
}
use file_storage.DataNode.Resolve.{clean_names, resolve_path}
use file_storage.DataNode.Service.{
  DataNode, Reply, failed, replied, crashed, after_rename, after_write, after_mkdir, store_at,
  store_data, get_data,
}
use file_storage.DataNode.Service.Only.{HasOnly}
use file_storage.Client.{CallError, Result, Answer, refused, received, Network}
use file_storage.Client.Replicas.{success_count}
use file_storage.Client.Transfer.{store_replica, fetch}
use file_storage.Client.Storage.{
  was_run, ReadRun, read_error, read_bytes, read_nothing, read_crash, IsStorage, no_faults,
}

abbrev pub Disks : Type 0
Disks = String → Disk

abbrev pub node_at : String → DataNode
node_at addr = record { data_dir = "/d"; mds_addr = "m:1"; addr = addr }

abbrev pub store_answer : Reply Bool → Answer Bool
store_answer (failed e) = refused "failed"
store_answer (replied true) = received true
store_answer (replied false) = refused "no reply"
store_answer crashed = refused "unexpected EOF"

abbrev pub read_answer : Reply (List ℕ) → Answer (Option (List ℕ))
read_answer (failed e) = refused "failed"
read_answer (replied []) = received none
read_answer (replied (b ∷ bytes)) = received (some (b ∷ bytes))
read_answer crashed = refused "unexpected EOF"

abbrev pub stored : String → StoreArgs → Disks → Answer Bool × Disks
stored addr args w =
    let after = store_data (node_at addr) no_faults 9 args (w addr) in
    (store_answer after.0, λ a. if addr == a then after.1 else w a)

abbrev pub refuse : {A : Type 0} → Disks → Answer A × Disks
refuse w = (refused "down", w)

abbrev pub net : Network Disks
net = record {
  on_mkdir = λ addr path. refuse;
  on_create_file = λ addr args. refuse;
  on_complete_file = λ addr path w. (received true, w);
  on_delete = λ addr path. refuse;
  on_rename = λ addr args. refuse;
  on_update_size = λ addr args. refuse;
  on_trigger_gc = λ addr. refuse;
  on_heartbeat = λ addr node. refuse;
  on_get_file_location = λ addr path. refuse;
  on_list_dir = λ addr path. refuse;
  on_stat = λ addr path. refuse;
  on_list_data_nodes = λ addr. refuse;
  on_store_data = stored;
  on_get_data = λ addr path w. (read_answer (get_data (node_at addr) no_faults 0 path (w addr)), w);
  on_delete_data = λ addr path. refuse;
  on_range_read = λ addr args. refuse;
  on_partial_write = λ addr args. refuse;
  on_truncate = λ addr args. refuse;
  on_sync = λ addr args. refuse;
  read_local = λ path w. none;
  write_local = λ path content w. (true, w);
}

pub replies : (r : Reply Bool) (a : Bool) → store_answer r ≡ received a → r ≡ replied true
replies (failed e) a h = ground arith
replies (replied true) a h = refl
replies (replied false) a h = ground arith
replies crashed a h = ground arith

pub reads : (r : Reply (List ℕ)) → ReadRun r (read_answer r)
reads (failed e) = read_error e "failed"
reads (replied []) = read_nothing (received none)
reads (replied (b ∷ bytes)) = read_bytes b bytes
reads crashed = read_crash (refused "unexpected EOF")

abbrev storage : IsStorage net node_at
storage = record {
  disk = λ w. w;
  on_store_data-run = λ addr args w. rw ((eq_iff addr addr).1 refl) (
      was_run no_faults 9 (store_answer (store_data (node_at addr) no_faults 9 args (w addr)).0)
        (λ a h. replies (store_data (node_at addr) no_faults 9 args (w addr)).0 a h));
  on_store_data-other = λ addr args w other apart. rw apart refl;
  on_get_data-run = λ addr path w. reads (get_data (node_at addr) no_faults 0 path (w addr));
  on_get_data-disk = λ addr path w other. refl;
  on_complete_file-disk = λ addr path w other. refl;
}

abbrev pub start : Disks
start addr = ("/d", directory) ∷ []

pub without_files : (content : List ℕ) (k : String) → HasOnly content k (("/d", directory) ∷ [])
unfolding get_node
without_files content k c t h = ground arith

abbrev on_two : CreateFileReply
on_two = record {
  replicas =
      record { addr = "n:1"; remote_path = "/i" }
      ∷ record { addr = "n:2"; remote_path = "/i" }
      ∷ [];
}

abbrev replica_at : String → Replica
replica_at addr = record { addr = addr; remote_path = "/i" }

abbrev call : Replica → Disks → Result CallError Bool × Disks
call = store_replica net "m:1" (5 ∷ 6 ∷ [])

abbrev after_second : Disks
after_second = (call (replica_at "n:2") start).1

-- The second replica is stored before the first.
abbrev results : List (Result CallError Bool)
results = (call (replica_at "n:2") start).0 ∷ (call (replica_at "n:1") after_second).0 ∷ []

reordered : Parallel call on_two.replicas start results (call (replica_at "n:1") after_second).1
reordered =
    returned (replica_at "n:2") on_two.replicas (replica_at "n:1" ∷ []) start _ _
      (behind (replica_at "n:1") (replica_at "n:2" ∷ []) [] (at_front []))
      (returned (replica_at "n:1") (replica_at "n:1" ∷ []) [] after_second _ _ (at_front [])
        (finished _))

both_stored : success_count results ≡ 2
unfolding success_count store_data resolve_path clean_names trim_prefix split is_slash render
    contains_text after_prefix store_at os_mkdir_parent make_path make_directory after_mkdir
    os_write_file after_write os_rename after_rename get_node set_node remove_node
both_stored = refl

fetch-Parallel_example :
    (fetch net "m:1" on_two.replicas none (call (replica_at "n:1") after_second).1).0
    ≡ some (5 ∷ 6 ∷ [])
fetch-Parallel_example =
    fetch-Parallel net "m:1" node_at storage 5 (6 ∷ []) on_two.replicas start _ results
      ((refl, tt), (tt, tt))
      (λ names h. without_files (5 ∷ 6 ∷ []) _, (λ names h. without_files (5 ∷ 6 ∷ []) _, tt))
      reordered (omega (arith, both_stored))
