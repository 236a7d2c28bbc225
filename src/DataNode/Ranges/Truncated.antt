-- ===== src/DataNode/Ranges/Truncated.antt =====
-- What `Truncate` of internal/datanode/datanode.go leaves on the disk.
use file_storage.Base.{
  false, ◌==◌, get_elem?, length, is_some, negsuc, Bool, ℤ, ℕ, pos, String, true, ◌≡◌, none, some,
  List,
}
use file_storage.Types.{TruncateArgs}
use file_storage.DataNode.Content.{byte_below}
use file_storage.DataNode.Disk.{
  get_node, directory, blocked, absent, Found, file, Disk, on_truncate, Faults, extend, found, find,
}
use file_storage.DataNode.Resolve.{resolve_path}
use file_storage.DataNode.Service.{replied, DataNode}
use file_storage.DataNode.Ranges.{truncate_failed, invalid_path, failed, Reply}

-- Why a file is not truncated: the size is negative, there is no file at the path, or the call fails.
pub data WhyNot (faults : Faults) : ℤ → Found → Type 0 where
  below_zero : (n : ℕ) (at : Found) → WhyNot faults (negsuc n) at
  no_entry : (size : ℤ) → WhyNot faults size absent
  through_file : (size : ℤ) → WhyNot faults size blocked
  at_directory : (size : ℤ) → WhyNot faults size (found directory)
  call_fails : (size : ℤ) (at : Found) → is_some (faults on_truncate) ≡ true → WhyNot faults size at

-- What a truncation comes to: its reply and the disk.
pub data WasCut (dn : DataNode) (faults : Faults) (now : ℕ) (args : TruncateArgs) (disk : Disk)
    : Reply Bool × Disk → Type 0 where
  refused_path :
      resolve_path args.path ≡ none
      → WasCut dn faults now args disk (failed (invalid_path args.path), disk)
  not_cut :
      (names : List String)
      → resolve_path args.path ≡ some names
      → WhyNot faults args.size (find dn.data_dir names disk)
      → WasCut dn faults now args disk (failed truncate_failed, disk)
  cut :
      (names : List String) (size : ℕ) (old : List ℕ) (time : ℕ) (new : List ℕ) (after : Disk)
      → resolve_path args.path ≡ some names
      → args.size ≡ pos size
      → find dn.data_dir names disk ≡ found (file old time)
      → find dn.data_dir names after ≡ found (file new now)
      → length new ≡ size
      → ((i : ℕ) → get_elem? new i ≡ byte_below size old i)
      → ((other : String)
          → extend dn.data_dir names == other ≡ false
          → get_node other after ≡ get_node other disk)
      → WasCut dn faults now args disk (replied true, after)
