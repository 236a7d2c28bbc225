-- ===== src/DataNode/Service.antt =====
-- The requests of the data service of internal/datanode/datanode.go. A request returns its error or
-- its reply, and the disk after it. The texts of the errors of package os are left out, and so is
-- the logger. `now` is the time that the disk gives to what it writes.
pub mod Stored
pub mod Roundtrip
pub mod Deleted
pub mod Only
use file_storage.Base.{
  ℕ, String, ◌<>◌, Bool, false, true, ◌||◌, Option, none, some, List, [], ◌∷◌, is_some,
  if◌then◌else◌,
}
use file_storage.Types.{NodeFile, StoreArgs}
use file_storage.Text.{after_prefix, has_suffix}
use file_storage.DataNode.Disk.{
  Node, file, directory, Disk, Step, on_open, on_read, on_walk, Faults, extend, Found, absent,
  blocked, found, find, os_mkdir_parent, os_write_file, os_rename, Removal, removed, not_exist,
  not_removed, os_remove,
}
use file_storage.DataNode.Resolve.{resolve_path}

pub data DataError : Type 0 where
  invalid_path : String → DataError
  mkdir_failed : DataError
  write_failed : DataError
  rename_failed : DataError
  data_not_found : String → DataError
  read_failed : DataError
  delete_failed : DataError
  walk_failed : DataError
  open_failed : DataError
  range_failed : DataError
  truncate_failed : DataError
  sync_failed : DataError

-- `crashed` is a run-time panic of Go.
pub data Reply {ℓ} (A : Type ℓ) : Type ℓ where
  failed : DataError → Reply A
  replied : A → Reply A
  crashed : Reply A

-- The fields of the server that the requests use.
pub record DataNode : Type 0 where
  pub data_dir : String
  pub mds_addr : String
  pub addr : String

module _ (dn : DataNode) (faults : Faults) (now : ℕ) where
  -- What follows os.Rename: the removal of the temporary file where it failed.
  unfoldable pub after_rename : String → Step → Reply Bool × Disk
  after_rename k (true, disk) = (replied true, disk)
  after_rename k (false, disk) =
      (failed rename_failed, (os_remove faults (k <> ".tmp") (find (k <> ".tmp") [] disk) disk).1)

  -- What follows os.WriteFile of the temporary file.
  unfoldable pub after_write : String → Step → Reply Bool × Disk
  after_write k (true, disk) = after_rename k (os_rename faults (k <> ".tmp") k disk)
  after_write k (false, disk) = (failed write_failed, disk)

  -- What follows os.MkdirAll.
  unfoldable pub after_mkdir : String → List ℕ → Step → Reply Bool × Disk
  after_mkdir k content (true, disk) =
      after_write k (os_write_file faults now (k <> ".tmp") content disk)
  after_mkdir k content (false, disk) = (failed mkdir_failed, disk)

  unfoldable pub store_at : List String → List ℕ → Disk → Reply Bool × Disk
  store_at names content disk =
      after_mkdir (extend dn.data_dir names) content (os_mkdir_parent faults dn.data_dir names disk)

  unfoldable pub store_data : StoreArgs → Disk → Reply Bool × Disk
  store_data args disk = elim (resolve_path args.path) [
    | none ↦ (failed (invalid_path args.path), disk)
    | some names ↦ store_at names args.content disk
  ]

  unfoldable pub get_found : String → Found → Reply (List ℕ)
  get_found path absent = failed (data_not_found path)
  get_found path blocked = failed read_failed
  get_found path (found directory) = failed read_failed
  get_found path (found (file content _)) =
      if is_some (faults on_open) || is_some (faults on_read)
      then failed read_failed
      else replied content

  unfoldable pub get_data : String → Disk → Reply (List ℕ)
  unfolding get_found
  get_data path disk = elim (resolve_path path) [
    | none ↦ failed (invalid_path path)
    | some names ↦ get_found path (find dn.data_dir names disk)
  ]

  abbrev pub deleted : Removal × Disk → Reply Bool × Disk
  deleted (removed, disk) = (replied true, disk)
  deleted (not_exist, disk) = (replied true, disk)
  deleted (not_removed, disk) = (failed delete_failed, disk)

  unfoldable pub delete_data : String → Disk → Reply Bool × Disk
  unfolding os_remove
  delete_data path disk = elim (resolve_path path) [
    | none ↦ (failed (invalid_path path), disk)
    | some names ↦
        deleted (os_remove faults (extend dn.data_dir names) (find dn.data_dir names disk) disk)
  ]

  abbrev pub health_check : Reply Bool
  health_check = replied true

  -- A file below the data directory that is not temporary.
  unfoldable pub node_file : String → Node → Option NodeFile
  node_file path directory = none
  node_file path (file content time) = elim (after_prefix (dn.data_dir <> "/") path) [
    | none ↦ none
    | some rel ↦
        if has_suffix ".tmp" path
        then none
        else some (record { path = "/" <> rel; mod_time = time })
  ]

  unfoldable pub walk_files : Disk → List NodeFile
  unfolding node_file
  walk_files [] = []
  walk_files ((path, n) ∷ disk) =
      let rest = walk_files disk in elim (node_file path n) [ none ↦ rest | some f ↦ f ∷ rest ]

  -- filepath.Walk goes in the order of the names, the model in that of the map.
  unfoldable pub list_all_paths : Disk → Reply (List NodeFile)
  unfolding walk_files
  list_all_paths disk =
      if is_some (faults on_walk) then failed walk_failed else replied (walk_files disk)
