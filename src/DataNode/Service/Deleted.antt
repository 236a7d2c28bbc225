-- ===== src/DataNode/Service/Deleted.antt =====
-- What `DeleteData` of internal/datanode/datanode.go leaves on the disk.
use file_storage.Base.{
  ℕ, String, Bool, true, ◌≡◌, ◌≢◌, refl, ap, sym, ◌∙◌, none, some, List, arith, Option-cases, inl,
  inr,
}
use file_storage.DataNode.Disk.{
  Disk, remove_node, Faults, extend, Found, absent, found_of, find, Removal, removed, not_exist,
  not_removed, os_remove,
}
use file_storage.DataNode.Disk.Calls.{Removed, gone, missing, kept, os_remove-Removed}
use file_storage.DataNode.Disk.Laws.{get_node-remove_self}
use file_storage.DataNode.Disk.Ready.{IsReady-find, find-ready, IsReady-remove_node}
use file_storage.DataNode.Resolve.{resolve_path}
use file_storage.DataNode.Service.{
  data_not_found, Reply, failed, replied, DataNode, get_found, get_data, deleted, delete_data,
}
use file_storage.DataNode.Service.Roundtrip.{get_data-resolved}

-- Where a removal does not fail, the walk finds nothing afterwards.
find-Removed :
    (at : String) (names : List String) (disk : Disk) {f : Found} {after : Removal × Disk}
    → Removed (extend at names) disk f after
    → find at names disk ≡ f
    → after.0 ≢ not_removed
    → find at names after.1 ≡ absent
find-Removed at names disk (gone n) there fine =
    find-ready at names (remove_node (extend at names) disk) (
      IsReady-remove_node at names (extend at names) disk (omega arith)
        (IsReady-find at names disk n there))
    ∙ ap found_of (get_node-remove_self (extend at names) disk)
find-Removed at names disk missing there fine = there
find-Removed at names disk (kept f) there fine = absurd (fine refl)

deleted-removed :
    (dn : DataNode) (faults : Faults) (now : ℕ) (r : Removal × Disk)
    → (deleted dn faults now r).0 ≡ replied true
    → (r.0 ≢ not_removed) × ((deleted dn faults now r).1 ≡ r.1)
deleted-removed dn faults now (removed, disk) ok = (λ e. ground arith, refl)
deleted-removed dn faults now (not_exist, disk) ok = (λ e. ground arith, refl)
deleted-removed dn faults now (not_removed, disk) ok = ground arith

delete_data-resolved :
    (dn : DataNode) (faults : Faults) (now : ℕ) (path : String) (disk : Disk) (names : List String)
    → resolve_path path ≡ some names
    → delete_data dn faults now path disk
      ≡ deleted dn faults now
          (os_remove faults (extend dn.data_dir names) (find dn.data_dir names disk) disk)
unfolding delete_data
delete_data-resolved dn faults now path disk names h = rw (h, delete_data) refl

delete_data-refused :
    (dn : DataNode) (faults : Faults) (now : ℕ) (path : String) (disk : Disk)
    → resolve_path path ≡ none
    → (delete_data dn faults now path disk).0 ≢ replied true
unfolding delete_data
delete_data-refused dn faults now path disk outside ok = ground arith

find-delete_data :
    (dn : DataNode) (faults : Faults) (now : ℕ) (path : String) (disk : Disk)
    → (delete_data dn faults now path disk).0 ≡ replied true
    → (names : List String) × (resolve_path path ≡ some names)
      × (find dn.data_dir names (delete_data dn faults now path disk).1 ≡ absent)
find-delete_data dn faults now path disk ok = elim (Option-cases (resolve_path path)) [
  | inl outside ↦ absurd (delete_data-refused dn faults now path disk outside ok)
  | inr (names, resolved) ↦
      let same = delete_data-resolved dn faults now path disk names resolved in
      let r = os_remove faults (extend dn.data_dir names) (find dn.data_dir names disk) disk in
      let (fine, left) =
        deleted-removed dn faults now r (ap (λ (o : Reply Bool × Disk). o.0) (sym same) ∙ ok) in
      (
        names,
        resolved,
        rw (same, left)
            (find-Removed dn.data_dir names disk
              (os_remove-Removed faults (extend dn.data_dir names) (find dn.data_dir names disk)
                disk)
              refl fine),
      )
]

-- After a deletion that succeeds the data is not found, and a second deletion, whatever calls
-- would fail, succeeds and changes nothing.
pub delete_data-gone :
    (dn : DataNode) (faults later : Faults) (now then_now : ℕ) (path : String) (disk : Disk)
    → (delete_data dn faults now path disk).0 ≡ replied true
    → (get_data dn later then_now path (delete_data dn faults now path disk).1
        ≡ failed (data_not_found path))
      × (delete_data dn later then_now path (delete_data dn faults now path disk).1
          ≡ (replied true, (delete_data dn faults now path disk).1))
delete_data-gone dn faults later now then_now path disk ok =
    let (names, resolved, nothing) = find-delete_data dn faults now path disk ok in
    let left = (delete_data dn faults now path disk).1 in
    (
      get_data-resolved dn later then_now path left names resolved
          ∙ ap (get_found dn later then_now path) nothing
          ∙ (unfold get_found in refl),
      delete_data-resolved dn later then_now path left names resolved
          ∙ ap (λ f. deleted dn later then_now (os_remove later (extend dn.data_dir names) f left))
              nothing
          ∙ (unfold os_remove in refl),
    )
