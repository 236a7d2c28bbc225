-- ===== src/DataNode/Ranges.antt =====
-- The requests of internal/datanode/datanode.go that read and write a part of a file, change its
-- size, or bring it to the disk.
pub mod Reads
pub mod Writes
pub mod Truncated
use file_storage.Base.{
  ℕ, zero, suc, ℤ, pos, negsuc, String, Bool, true, false, ◌&&◌, Option, none, some, List, [], ◌∷◌,
  length, take, ltb, is_some, if◌then◌else◌,
}
use file_storage.Types.{RangeReadArgs, RangeReadReply, PartialWriteArgs, TruncateArgs, SyncArgs}
use file_storage.DataNode.Content.{resize, write_at, read_at}
use file_storage.DataNode.Disk.{
  Step, Node, file, directory, Disk, get_node, set_node, on_open, on_read, on_write, on_truncate,
  on_sync, Faults, extend, Found, absent, blocked, found, find, os_mkdir_parent,
}
use file_storage.DataNode.Resolve.{resolve_path}
use file_storage.DataNode.Service.{
  invalid_path, mkdir_failed, write_failed, data_not_found, open_failed, range_failed,
  truncate_failed, sync_failed, Reply, failed, replied, crashed, DataNode,
}

module _ (dn : DataNode) (faults : Faults) (now : ℕ) where
  -- The buffer and (*os.File).ReadAt. A negative length is a panic of `make`; a read into a buffer
  -- of no bytes makes no call.
  unfoldable pub read_buffer : List ℕ → ℤ → ℤ → Reply RangeReadReply
  unfolding read_at
  read_buffer content offset (negsuc _) = crashed
  read_buffer content (negsuc _) (pos count) = failed range_failed
  read_buffer content (pos offset) (pos count) =
      let got = read_at content offset count in
      if ltb 0 count && is_some (faults on_read)
      then failed range_failed
      else replied (record { content = got; eof = ltb (length got) count })

  -- A directory can be opened, and not be read.
  abbrev pub read_directory : ℤ → ℤ → Reply RangeReadReply
  read_directory offset (negsuc _) = crashed
  read_directory (negsuc _) (pos count) = failed range_failed
  read_directory (pos offset) (pos zero) = replied (record { content = []; eof = false })
  read_directory (pos offset) (pos (suc count)) = failed range_failed

  unfoldable pub range_found : RangeReadArgs → Found → Reply RangeReadReply
  unfolding read_buffer
  range_found args absent = replied (record { content = []; eof = true })
  range_found args blocked = failed open_failed
  range_found args (found directory) =
      if is_some (faults on_open)
      then failed open_failed
      else read_directory args.offset args.length
  range_found args (found (file content _)) =
      if is_some (faults on_open)
      then failed open_failed
      else read_buffer content args.offset args.length

  unfoldable pub range_read : RangeReadArgs → Disk → Reply RangeReadReply
  range_read args disk = elim (resolve_path args.path) [
    | none ↦ failed (invalid_path args.path)
    | some names ↦ range_found args (find dn.data_dir names disk)
  ]

  abbrev pub open_node : String → Option Node → Disk → Option (List ℕ) × Disk
  open_node k none disk = (some [], set_node k (file [] now) disk)
  open_node k (some directory) disk = (none, disk)
  open_node k (some (file content _)) disk = (some content, disk)

  -- os.OpenFile that creates a missing file: the content that it opens, and the disk.
  unfoldable pub open_or_create : String → Disk → Option (List ℕ) × Disk
  open_or_create k disk =
      if is_some (faults on_open) then (none, disk) else open_node k (get_node k disk) disk

  -- The bytes are written, or some of them before the call fails.
  abbrev pub write_bytes : String → List ℕ → ℕ → List ℕ → Option ℕ → Disk → Reply Bool × Disk
  write_bytes k content offset bytes none disk =
      (replied true, set_node k (file (write_at content offset bytes) now) disk)
  write_bytes k content offset bytes (some n) disk =
      (failed write_failed, set_node k (file (write_at content offset (take n bytes)) now) disk)

  -- (*os.File).WriteAt. A write of no bytes makes no call.
  unfoldable pub write_opened : String → List ℕ → ℤ → List ℕ → Disk → Reply Bool × Disk
  unfolding write_at
  write_opened k content (negsuc _) bytes disk = (failed write_failed, disk)
  write_opened k content (pos offset) [] disk = (replied true, disk)
  write_opened k content (pos offset) (b ∷ bytes) disk =
      write_bytes k content offset (b ∷ bytes) (faults on_write) disk

  -- What follows os.OpenFile.
  unfoldable pub after_open : String → ℤ → List ℕ → Option (List ℕ) × Disk → Reply Bool × Disk
  after_open k offset bytes (none, disk) = (failed open_failed, disk)
  after_open k offset bytes (some content, disk) = write_opened k content offset bytes disk

  -- What follows os.MkdirAll.
  unfoldable pub after_parent : String → ℤ → List ℕ → Step → Reply Bool × Disk
  after_parent k offset bytes (true, disk) = after_open k offset bytes (open_or_create k disk)
  after_parent k offset bytes (false, disk) = (failed mkdir_failed, disk)

  unfoldable pub write_below : List String → ℤ → List ℕ → Disk → Reply Bool × Disk
  write_below names offset bytes disk =
      after_parent (extend dn.data_dir names) offset bytes
        (os_mkdir_parent faults dn.data_dir names disk)

  unfoldable pub partial_write : PartialWriteArgs → Disk → Reply Bool × Disk
  partial_write args disk = elim (resolve_path args.path) [
    | none ↦ (failed (invalid_path args.path), disk)
    | some names ↦ write_below names args.offset args.content disk
  ]

  -- os.Truncate does not create a file.
  unfoldable pub truncate_found : String → ℤ → Found → Disk → Reply Bool × Disk
  unfolding resize
  truncate_found k (pos size) (found (file content _)) disk =
      if is_some (faults on_truncate)
      then (failed truncate_failed, disk)
      else (replied true, set_node k (file (resize content size) now) disk)
  truncate_found k _ _ disk = (failed truncate_failed, disk)

  unfoldable pub truncate : TruncateArgs → Disk → Reply Bool × Disk
  truncate args disk = elim (resolve_path args.path) [
    | none ↦ (failed (invalid_path args.path), disk)
    | some names ↦
        truncate_found (extend dn.data_dir names) args.size (find dn.data_dir names disk) disk
  ]

  unfoldable pub sync_found : String → Found → Reply Bool
  sync_found path absent = failed (data_not_found path)
  sync_found path blocked = failed open_failed
  sync_found path (found directory) = failed open_failed
  sync_found path (found (file _ _)) =
      if is_some (faults on_open)
      then failed open_failed
      else if is_some (faults on_sync)
      then failed sync_failed
      else replied true

  unfoldable pub sync : SyncArgs → Disk → Reply Bool
  unfolding sync_found
  sync args disk = elim (resolve_path args.path) [
    | none ↦ failed (invalid_path args.path)
    | some names ↦ sync_found args.path (find dn.data_dir names disk)
  ]
