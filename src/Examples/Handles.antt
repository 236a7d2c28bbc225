-- ===== src/Examples/Handles.antt =====
-- A write and a read over a handle with two data nodes, and the theorem on them.
use file_storage.Client.Storage.{no_faults}
use file_storage.Types.{PartialWriteArgs, RangeReadReply}
use file_storage.Client.Replicas.{success_count, on_replicas}
use file_storage.Client.Handle.{FileHandle, after_writes, write_at, read_at}
use file_storage.Client.Handle.RangeStorage.{
  range_crash, range_reply, range_error, RangeRun, IsRangeStorage, was_run,
}
use file_storage.DataNode.Resolve.{resolve_path, clean_names}
use file_storage.DataNode.Disk.{os_mkdir_parent, make_directory, get_node}
use file_storage.Text.{contains_text}
use file_storage.Path.{split, is_slash, trim_prefix}
use file_storage.Path.Render.{render}
use file_storage.Client.Handle.Stored.{read_at-write_at_same}
use file_storage.Client.Handle.{after_writes}
use file_storage.Client.{redirect}
use file_storage.Base.{
  Bool, [], ◌∷◌, ◌==◌, ◌≡◌, refl, true, false, pos, String, if◌then◌else◌, eq_iff,
}
use file_storage.DataNode.Ranges
use file_storage.Examples.Stores.{Disks, node_at, store_answer, replies, start}
use file_storage.Examples.Stores
use file_storage.Client.{redirect, Answer, Network, ok, received, refused}
use file_storage.DataNode.Service.{Reply, failed, replied, crashed}

abbrev wrote : String → PartialWriteArgs → Disks → Answer Bool × Disks
wrote addr args w =
    let after = Ranges.partial_write (node_at addr) no_faults 9 args (w addr) in
    (store_answer after.0, λ a. if addr == a then after.1 else w a)

abbrev range_answer : Reply RangeReadReply → Answer RangeReadReply
range_answer (failed e) = refused "failed"
range_answer (replied reply) = received reply
range_answer crashed = refused "unexpected EOF"

abbrev ranged : Network Disks
ranged = record Stores.net {
  on_partial_write = wrote;
  on_range_read =
      λ addr args w. (range_answer (Ranges.range_read (node_at addr) no_faults 0 args (w addr)), w);
  on_update_size = λ addr args w. (received true, w);
}

answers : (r : Reply RangeReadReply) → RangeRun r (range_answer r)
answers (failed e) = range_error e "failed"
answers (replied reply) = range_reply reply
answers crashed = range_crash (refused "unexpected EOF")

abbrev range_storage : IsRangeStorage ranged node_at
range_storage = record {
  disk = λ w. w;
  on_partial_write-run = λ addr args w. rw ((eq_iff addr addr).1 refl) (
      was_run no_faults 9
        (store_answer (Ranges.partial_write (node_at addr) no_faults 9 args (w addr)).0)
        (λ a h. replies (Ranges.partial_write (node_at addr) no_faults 9 args (w addr)).0 a h));
  on_partial_write-other = λ addr args w other apart. rw apart refl;
  on_range_read-run =
      λ addr args w. answers (Ranges.range_read (node_at addr) no_faults 0 args (w addr));
  on_update_size-disk = λ addr args w other. refl;
}

abbrev opened : FileHandle
opened = record {
  path = "/f";
  file_id = "i";
  flags = 0;
  replicas =
      record { addr = "n:1"; remote_path = "/i" }
      ∷ record { addr = "n:2"; remote_path = "/i" }
      ∷ [];
  size = pos 0;
  status = "pending";
}

both_wrote : (write_at ranged "m:1" opened (5 ∷ 6 ∷ []) (pos 3) start).0 ≡ ok 2
unfolding write_at after_writes on_replicas success_count redirect Ranges.partial_write resolve_path
    contains_text clean_names split is_slash trim_prefix render Ranges.write_below
    Ranges.after_parent os_mkdir_parent make_directory get_node Ranges.after_open
    Ranges.open_or_create Ranges.write_opened
both_wrote = refl

read_at-write_at_same_example :
    (read_at ranged "m:1"
      (write_at ranged "m:1" opened (5 ∷ 6 ∷ []) (pos 3) start).1
      2
      (pos 3)
      (write_at ranged "m:1" opened (5 ∷ 6 ∷ []) (pos 3) start).2).0
    ≡ ok (record { content = 5 ∷ 6 ∷ []; eof = false })
read_at-write_at_same_example =
    read_at-write_at_same ranged "m:1" node_at range_storage 3 5 (6 ∷ []) opened 2 start
      ((refl, tt), (tt, tt)) both_wrote
