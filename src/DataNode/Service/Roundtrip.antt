-- ===== src/DataNode/Service/Roundtrip.antt =====
-- `GetData` after `StoreData` of internal/datanode/datanode.go.
use file_storage.Base.{
  ℕ, String, Bool, true, false, ◌≡◌, ◌≢◌, refl, ap, sym, ◌∙◌, none, some, List, arith, eq_iff,
  Option-cases, inl, inr,
}
use file_storage.Types.{StoreArgs}
use file_storage.DataNode.Disk.{
  file, Disk, Step, get_node, set_node, remove_node, on_open, on_read, Faults, extend, found,
  found_of, find, os_mkdir_parent,
}
use file_storage.DataNode.Disk.Calls.{
  Written, unwritten, part, whole, os_write_file-Written, Moved, unmoved, over, os_rename-Moved,
}
use file_storage.DataNode.Disk.Laws.{get_node-set_node}
use file_storage.DataNode.Disk.Ready.{
  IsReady, find-ready, IsReady-set_node, IsReady-remove_node, os_mkdir_parent-IsReady,
}
use file_storage.DataNode.Resolve.{resolve_path}
use file_storage.DataNode.Service.{
  Reply, replied, DataNode, after_rename, after_write, after_mkdir, store_at, store_data, get_found,
  get_data,
}
use file_storage.DataNode.Service.Stored.{temp, temp-longer}

-- The file is there with the content, and so are the directories that lead to it.
abbrev pub IsStored : String → List String → List ℕ → ℕ → Disk → Type 0
IsStored at names content now disk =
    (get_node (extend at names) disk ≡ some (file content now)) × IsReady at names disk

module _ (dn : DataNode) (faults : Faults) (now : ℕ) (names : List String) (content : List ℕ) where
  after_rename-IsStored :
      (disk : Disk) {moved : Step}
      → Moved (temp (extend dn.data_dir names)) (extend dn.data_dir names) disk moved
      → IsReady dn.data_dir names disk
      → get_node (temp (extend dn.data_dir names)) disk ≡ some (file content now)
      → (after_rename dn faults now (extend dn.data_dir names) moved).0 ≡ replied true
      → IsStored dn.data_dir names content now
          (after_rename dn faults now (extend dn.data_dir names) moved).1
  unfolding after_rename
  after_rename-IsStored disk unmoved open_way held bad = ground arith
  after_rename-IsStored disk (over n there) open_way held ok =
      let k = extend dn.data_dir names in
      let freed = remove_node (temp k) disk in
      (
        get_node-set_node k k n freed ∙ rw ((eq_iff k k).1 refl) (sym there ∙ held),
        IsReady-set_node dn.data_dir names k n freed (omega arith) (
            IsReady-remove_node dn.data_dir names (temp k) disk (omega (arith, temp-longer k))
              open_way),
      )

  after_write-IsStored :
      (disk : Disk) {written : Step}
      → Written now (temp (extend dn.data_dir names)) content disk written
      → IsReady dn.data_dir names disk
      → (after_write dn faults now (extend dn.data_dir names) written).0 ≡ replied true
      → IsStored dn.data_dir names content now
          (after_write dn faults now (extend dn.data_dir names) written).1
  unfolding after_write
  after_write-IsStored disk unwritten open_way bad = ground arith
  after_write-IsStored disk (part bytes) open_way bad = ground arith
  after_write-IsStored disk whole open_way ok =
      let k = extend dn.data_dir names in
      let full = set_node (temp k) (file content now) disk in
      after_rename-IsStored full (os_rename-Moved faults (temp k) k full)
        (IsReady-set_node dn.data_dir names (temp k) (file content now) disk
          (omega (arith, temp-longer k)) open_way)
        (get_node-set_node (temp k) (temp k) (file content now) disk
          ∙ rw ((eq_iff (temp k) (temp k)).1 refl))
        ok

  after_mkdir-IsStored :
      (made : Step)
      → (made.0 ≡ true → IsReady dn.data_dir names made.1)
      → (after_mkdir dn faults now (extend dn.data_dir names) content made).0 ≡ replied true
      → IsStored dn.data_dir names content now
          (after_mkdir dn faults now (extend dn.data_dir names) content made).1
  unfolding after_mkdir
  after_mkdir-IsStored (true, disk) open_way ok =
      after_write-IsStored disk
        (os_write_file-Written faults now (temp (extend dn.data_dir names)) content disk)
        (open_way refl) ok
  after_mkdir-IsStored (false, disk) open_way bad = ground arith

  pub store_at-IsStored :
      (disk : Disk)
      → (store_at dn faults now names content disk).0 ≡ replied true
      → IsStored dn.data_dir names content now (store_at dn faults now names content disk).1
  unfolding store_at
  store_at-IsStored disk =
      after_mkdir-IsStored (os_mkdir_parent faults dn.data_dir names disk)
        (os_mkdir_parent-IsReady faults dn.data_dir names disk)

pub store_data-resolved :
    (dn : DataNode) (faults : Faults) (now : ℕ) (args : StoreArgs) (disk : Disk)
    (names : List String)
    → resolve_path args.path ≡ some names
    → store_data dn faults now args disk ≡ store_at dn faults now names args.content disk
unfolding store_data
store_data-resolved dn faults now args disk names h = rw (h, store_data) refl

pub get_data-resolved :
    (dn : DataNode) (faults : Faults) (now : ℕ) (path : String) (disk : Disk) (names : List String)
    → resolve_path path ≡ some names
    → get_data dn faults now path disk ≡ get_found dn faults now path (find dn.data_dir names disk)
unfolding get_data
get_data-resolved dn faults now path disk names h = rw (h, get_data) refl

store_data-refused :
    (dn : DataNode) (faults : Faults) (now : ℕ) (args : StoreArgs) (disk : Disk)
    → resolve_path args.path ≡ none
    → (store_data dn faults now args disk).0 ≢ replied true
unfolding store_data
store_data-refused dn faults now args disk outside ok = ground arith

pub get_found-file :
    (dn : DataNode) (faults : Faults) (now : ℕ) (path : String) (content : List ℕ) (time : ℕ)
    → faults on_open ≡ none
    → faults on_read ≡ none
    → get_found dn faults now path (found (file content time)) ≡ replied content
unfolding get_found
get_found-file dn faults now path content time opens reads = rw (opens, reads) refl

find-stored :
    (at : String) (names : List String) (content : List ℕ) (now : ℕ) (disk : Disk)
    → IsStored at names content now disk
    → find at names disk ≡ found (file content now)
find-stored at names content now disk s = find-ready at names disk s.1 ∙ ap found_of s.0

-- Where a store succeeds, a request for the data at the same path, whose calls do not fail, gets
-- the content.
pub get_data-store_data :
    (dn : DataNode) (faults later : Faults) (now then_now : ℕ) (args : StoreArgs) (disk : Disk)
    → (store_data dn faults now args disk).0 ≡ replied true
    → later on_open ≡ none
    → later on_read ≡ none
    → get_data dn later then_now args.path (store_data dn faults now args disk).1
      ≡ replied args.content
get_data-store_data dn faults later now then_now args disk ok opens reads =
    elim (Option-cases (resolve_path args.path)) [
      | inl outside ↦ absurd (store_data-refused dn faults now args disk outside ok)
      | inr (names, resolved) ↦
          let same = store_data-resolved dn faults now args disk names resolved in
          let stored =
            store_at-IsStored dn faults now names args.content disk
              (ap (λ (r : Reply Bool × Disk). r.0) (sym same) ∙ ok) in
          rw same (
            get_data-resolved dn later then_now args.path _ names resolved
            ∙ ap (get_found dn later then_now args.path)
                (find-stored dn.data_dir names args.content now _ stored)
            ∙ get_found-file dn later then_now args.path args.content now opens reads)
    ]
