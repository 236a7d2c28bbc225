-- ===== src/Examples/System.antt =====
-- An upload and a download over one metadata server and one data node, and the theorem on them.
use file_storage.Client.Options.{configure}
use file_storage.Commands.Uploads.{main-put-get}
use file_storage.Commands.Performed.{main-perform, request_of, code_of, perform, ended_as}
use file_storage.Commands.Cli.{put_flags, main_command, main, Formats, PutFlags}
use file_storage.Metadata.Placement.{select_data_nodes}
use file_storage.Client.System.Roundtrip.{get_file-put_file}
use file_storage.Path.Render.{render}
use file_storage.Examples.Cluster.{alone, direct}
use file_storage.Text.{contains_text, after_prefix}
use file_storage.Client.Replicas.{success_count, on_replicas}
use file_storage.View.{view}
use file_storage.Types.{create_if_not_exist, StoreArgs}
use file_storage.Metadata.Service.Quiet.{IsQuiet}
use file_storage.Client.Transfer.{put_stored, save, put_created, put_content, put_file, get_file}
use file_storage.Client.Storage.{was_run, no_faults, IsStorage}
use file_storage.Client.System.{
  run_panicked, run_replied, run_failed, Run, same, create_reply, IsSystem,
}
use file_storage.Text.Trim.{trim_right, trim_left, trim_space, after_first}
use file_storage.Base.{
  false, List, ap, String, ◌==◌, eq_iff, Bool, true, ◌≡◌, refl, Option, none, some, [], ◌∷◌,
  if◌then◌else◌, inr, sym,
}
use file_storage.Metadata.Service
use file_storage.Metadata.Read
use file_storage.Metadata.Service.{
  create_file, create_named, create_target, create_below, create_with, failed, replied, panicked,
}
use file_storage.Metadata.{MetadataServer, CommandPayload, new_metadata_server, split_last}
use file_storage.Metadata.Machine.{dispatch, command}
use file_storage.Metadata.Raft.{no_payload, submit_command}
use file_storage.DataNode.Disk.{
  get_node, set_node, remove_node, make_directory, make_path, os_mkdir_parent, os_write_file,
  os_rename,
}
use file_storage.DataNode.Service.{
  after_rename, after_write, after_mkdir, store_at, store_data, get_data,
}
use file_storage.Path.{split_path, trim_prefix, split, is_slash}
use file_storage.DataNode.Resolve.{clean_names, resolve_path}
use file_storage.Tree.{walk, stat, walk_dirs, get_child}
use file_storage.Base.{false}
use file_storage.Client.{extract_leader_addr, redirect, Answer, refused, received, ok, Network}
use file_storage.Examples.Stores.{
  Disks, node_at, store_answer, read_answer, start, replies, reads, without_files,
}

pub record World : Type 0 where
  pub mds : MetadataServer
  pub disks : Disks

abbrev pub answer : {A B : Type 0} → (A → B) → Service.Answer A → Answer B
answer reply (failed e) = refused "failed"
answer reply (replied a) = received (reply a)
answer reply panicked = refused "unexpected EOF"

abbrev pub to_mds :
    {A B : Type 0} → (A → B) → World → Service.Answer A × MetadataServer → Answer B × World
to_mds reply w after = (answer reply after.0, record w { mds = after.1 })

abbrev pub stored : String → StoreArgs → World → Answer Bool × World
stored addr args w =
    let after = store_data (node_at addr) no_faults 9 args (w.disks addr) in
    (store_answer after.0, record w { disks = λ a. if addr == a then after.1 else w.disks a })

abbrev pub refuse : {A : Type 0} → World → Answer A × World
refuse w = (refused "down", w)

abbrev pub net : Network World
net = record {
  on_mkdir = λ addr path. refuse;
  on_create_file = λ addr args w.
      to_mds create_reply w (Service.create_file direct alone args (inr "abcd") w.mds);
  on_complete_file = λ addr path w. to_mds same w (Service.complete_file direct alone path w.mds);
  on_delete = λ addr path. refuse;
  on_rename = λ addr args. refuse;
  on_update_size = λ addr args. refuse;
  on_trigger_gc = λ addr. refuse;
  on_heartbeat = λ addr node. refuse;
  on_get_file_location = λ addr path w. (answer same (Read.get_file_location path w.mds), w);
  on_list_dir = λ addr path. refuse;
  on_stat = λ addr path. refuse;
  on_list_data_nodes = λ addr. refuse;
  on_store_data = stored;
  on_get_data =
      λ addr path w. (read_answer (get_data (node_at addr) no_faults 0 path (w.disks addr)), w);
  on_delete_data = λ addr path. refuse;
  on_range_read = λ addr args. refuse;
  on_partial_write = λ addr args. refuse;
  on_truncate = λ addr args. refuse;
  on_sync = λ addr args. refuse;
  read_local = λ path w. some (5 ∷ 6 ∷ []);
  write_local = λ path content w. (true, w);
}

abbrev pub storage : IsStorage net node_at
storage = record {
  disk = λ w. w.disks;
  on_store_data-run = λ addr args w. rw ((eq_iff addr addr).1 refl) (
      was_run no_faults 9
        (store_answer (store_data (node_at addr) no_faults 9 args (w.disks addr)).0)
        (λ a h. replies (store_data (node_at addr) no_faults 9 args (w.disks addr)).0 a h));
  on_store_data-other = λ addr args w other apart. rw apart refl;
  on_get_data-run = λ addr path w. reads (get_data (node_at addr) no_faults 0 path (w.disks addr));
  on_get_data-disk = λ addr path w other. refl;
  on_complete_file-disk = λ addr path w other. refl;
}

pub runs : {A B : Type 0} (reply : A → B) (r : Service.Answer A) → Run reply r (answer reply r)
unfolding extract_leader_addr after_first trim_space after_prefix trim_left trim_right
runs reply (failed e) = run_failed e "failed" refl
runs reply (replied a) = run_replied a
runs reply panicked = run_panicked "unexpected EOF" refl

abbrev pub system : IsSystem net node_at storage direct alone
system = record {
  mds = λ w. w.mds;
  new_id = λ w. "abcd";
  on_create_file-run = λ addr args w. runs create_reply _;
  on_create_file-mds = λ addr args w. refl;
  on_create_file-disk = λ addr args w node. refl;
  on_complete_file-run = λ addr path w. runs same _;
  on_complete_file-mds = λ addr path w. refl;
  on_get_file_location-run = λ addr path w. runs same _;
  on_get_file_location-disk = λ addr path w node. refl;
  on_store_data-mds = λ addr args w. refl;
}

the_payload : Option CommandPayload → CommandPayload
the_payload none = no_payload
the_payload (some p) = p

pub alone-IsQuiet : IsQuiet direct alone
unfolding the_payload
alone-IsQuiet = record {
  leads = refl;
  marshals = λ p. (p, refl);
  commits = λ p d mds h.
      (9, ap (λ q. (none, (dispatch 9 p.op (command p.op) (the_payload q) mds).1)) (sym h));
}

abbrev pub first : World
first = record {
  mds = record (new_metadata_server 0) {
    data_nodes = "n:1" ∷ [];
    last_heartbeat = ("n:1", 0) ∷ [];
  };
  disks = start;
}

pub uploaded : (put_file net "m:1" create_if_not_exist "/local" "/f" first).0 ≡ ok true
unfolding put_file put_content put_created put_stored on_replicas success_count store_data
    resolve_path clean_names trim_prefix split is_slash render contains_text after_prefix store_at
    os_mkdir_parent make_path make_directory after_mkdir os_write_file after_write os_rename
    after_rename get_node set_node remove_node redirect create_file create_named create_target
    create_below create_with select_data_nodes split_path split_last submit_command walk_dirs
uploaded = refl

pub nothing_there : view first.mds (split_path "/f") ≡ none
unfolding stat walk get_child split_path
nothing_there = refl

get_file-put_file_example :
    (then_w : World) × (get_file net "m:1" "/f" "/copy"
        (put_file net "m:1" create_if_not_exist "/local" "/f" first).1
      ≡ save net "m:1" "/copy" (5 ∷ 6 ∷ []) then_w)
get_file-put_file_example =
    get_file-put_file net node_at storage direct alone system alone-IsQuiet "m:1" "/f" "/local"
      "/copy" 5 (6 ∷ []) create_if_not_exist first refl nothing_there
      (λ addr names h. without_files (5 ∷ 6 ∷ []) _) uploaded

-- The flag of `put`, as far as it is used here.
abbrev flags : List String → PutFlags
flags args = put_flags false args

abbrev plain_formats : Formats
plain_formats = record { show_int = λ i. "7"; show_count = λ n. "7"; show_time = λ t. "noon" }

put_ended : (main plain_formats net "m:1" flags ("put" ∷ "/local" ∷ "/f" ∷ []) first).code ≡ 0
unfolding main main_command configure put_file put_content put_created put_stored on_replicas
    success_count store_data resolve_path clean_names trim_prefix split is_slash render
    contains_text after_prefix store_at os_mkdir_parent make_path make_directory after_mkdir
    os_write_file after_write os_rename after_rename get_node set_node remove_node redirect
    create_file create_named create_target create_below create_with select_data_nodes split_path
    split_last submit_command walk_dirs
put_ended = refl

main-put-get_example :
    (then_w : World) × (ended_as (
        main plain_formats net "m:1" flags
          ("get" ∷ "/f" ∷ "/copy" ∷ [])
          (main plain_formats net "m:1" flags ("put" ∷ "/local" ∷ "/f" ∷ []) first).world)
      ≡ code_of (save net "m:1" "/copy" (5 ∷ 6 ∷ []) then_w))
main-put-get_example =
    main-put-get net node_at storage direct alone system alone-IsQuiet plain_formats flags "m:1"
      "/local" "/f" "/copy" 5 (6 ∷ []) false ("/local" ∷ "/f" ∷ []) [] first refl refl nothing_there
      (λ addr names h. without_files (5 ∷ 6 ∷ []) _) put_ended

main-perform_example :
    ended_as (main plain_formats net "m:1" flags ("put" ∷ "/local" ∷ []) first)
    ≡ perform net "m:1" (request_of flags ("put" ∷ "/local" ∷ [])) first
main-perform_example = main-perform plain_formats flags net "m:1" ("put" ∷ "/local" ∷ []) first
