-- ===== src/DataNode/Service/Stored.antt =====
-- What `StoreData` of internal/datanode/datanode.go leaves on the disk.
use file_storage.Base.{
  ℕ, ◌<◌, String, ◌<>◌, Bool, true, false, ◌≡◌, refl, sym, ◌∙◌, some, List, [], arith, ◌==◌, eq_iff,
  Bool-cases, ◌⊎◌, inl, inr,
}
use file_storage.Text.{size, size-append, differ}
use file_storage.DataNode.Disk.{
  file, Disk, Step, Removal, get_node, set_node, remove_node, Faults, extend, Found, find,
  os_mkdir_parent,
}
use file_storage.DataNode.Disk.Calls.{
  Written, unwritten, part, whole, os_write_file-Written, Moved, unmoved, over, os_rename-Moved,
  Removed, gone, missing, kept, os_remove-Removed,
}
use file_storage.DataNode.Disk.Laws.{get_node-set_node, get_node-remove_node}
use file_storage.DataNode.Disk.Ready.{os_mkdir_parent-keeps}
use file_storage.DataNode.Service.{
  Reply, replied, DataNode, after_rename, after_write, after_mkdir, store_at,
}

abbrev pub temp : String → String
temp k = k <> ".tmp"

pub temp-longer : (k : String) → size k < size (temp k)
unfolding size
temp-longer k = omega (arith, size-append k ".tmp")

pub temp-differs : (k : String) → temp k == k ≡ false
temp-differs k =
    ground (arith, differ k (temp k) (temp-longer k), eq_iff k (temp k), eq_iff (temp k) k)

-- A file that a request may replace: it is there as before, or the request succeeded and it is the
-- one that is replaced.
abbrev pub IsKept : String → List ℕ → ℕ → Reply Bool × Disk → String → List ℕ → ℕ → Type 0
IsKept k content now after j c t =
    (get_node j after.1 ≡ some (file c t))
    ⊎ ((j ≡ k) × (after.0 ≡ replied true) × (get_node j after.1 ≡ some (file content now)))

module _ (dn : DataNode) (faults : Faults) (now : ℕ) (k : String) (content : List ℕ) where
  Removed-keeps :
      (disk : Disk) (j : String) (c : List ℕ) (t : ℕ) {f : Found} {after : Removal × Disk}
      → Removed (temp k) disk f after
      → temp k == j ≡ false
      → get_node j disk ≡ some (file c t)
      → get_node j after.1 ≡ some (file c t)
  Removed-keeps disk j c t (gone n) other there =
      get_node-remove_node (temp k) j disk ∙ rw other there
  Removed-keeps disk j c t missing other there = there
  Removed-keeps disk j c t (kept f) other there = there

  -- The temporary file, written, is moved over the file, or the move fails.
  after_rename-IsKept :
      (disk : Disk) (j : String) (c : List ℕ) (t : ℕ) {moved : Step}
      → Moved (temp k) k disk moved
      → get_node (temp k) disk ≡ some (file content now)
      → temp k == j ≡ false
      → get_node j disk ≡ some (file c t)
      → IsKept k content now (after_rename dn faults now k moved) j c t
  unfolding after_rename
  after_rename-IsKept disk j c t unmoved ready other there = inl (
      Removed-keeps disk j c t (os_remove-Removed faults (temp k) (find (temp k) [] disk) disk)
        other there)
  after_rename-IsKept disk j c t (over n held) ready other there = elim (Bool-cases (k == j)) [
    | inl same ↦ inr (
      sym ((eq_iff k j).0 same),
      refl,
      get_node-set_node k j n (remove_node (temp k) disk) ∙ rw same (sym held ∙ ready),
    )
    | inr apart ↦ inl (
        get_node-set_node k j n (remove_node (temp k) disk)
        ∙ rw apart (get_node-remove_node (temp k) j disk ∙ rw other there))
  ]

  after_write-IsKept :
      (disk : Disk) (j : String) (c : List ℕ) (t : ℕ) {written : Step}
      → Written now (temp k) content disk written
      → temp k == j ≡ false
      → get_node j disk ≡ some (file c t)
      → IsKept k content now (after_write dn faults now k written) j c t
  unfolding after_write
  after_write-IsKept disk j c t unwritten other there = inl there
  after_write-IsKept disk j c t (part bytes) other there =
      inl (get_node-set_node (temp k) j (file bytes now) disk ∙ rw other there)
  after_write-IsKept disk j c t whole other there =
      after_rename-IsKept (set_node (temp k) (file content now) disk) j c t
        (os_rename-Moved faults (temp k) k (set_node (temp k) (file content now) disk))
        (get_node-set_node (temp k) (temp k) (file content now) disk
          ∙ rw ((eq_iff (temp k) (temp k)).1 refl))
        other (get_node-set_node (temp k) j (file content now) disk ∙ rw other there)

  after_mkdir-IsKept :
      (made : Step) (j : String) (c : List ℕ) (t : ℕ)
      → temp k == j ≡ false
      → get_node j made.1 ≡ some (file c t)
      → IsKept k content now (after_mkdir dn faults now k content made) j c t
  unfolding after_mkdir
  after_mkdir-IsKept (true, disk) j c t other there =
      after_write-IsKept disk j c t (os_write_file-Written faults now (temp k) content disk) other
        there
  after_mkdir-IsKept (false, disk) j c t other there = inl there

-- A store is atomic. A file on the disk, other than the temporary one, is there as before,
-- whatever call fails and also after a part of the write, or the store succeeded and the file is
-- the one stored, with the new content.
pub store_at-IsKept :
    (dn : DataNode) (faults : Faults) (now : ℕ) (names : List String) (content : List ℕ)
    (disk : Disk) (j : String) (c : List ℕ) (t : ℕ)
    → temp (extend dn.data_dir names) == j ≡ false
    → get_node j disk ≡ some (file c t)
    → IsKept
        (extend dn.data_dir names)
        content
        now
        (store_at dn faults now names content disk)
        j
        c
        t
unfolding store_at
store_at-IsKept dn faults now names content disk j c t other there =
    after_mkdir-IsKept dn faults now (extend dn.data_dir names) content
      (os_mkdir_parent faults dn.data_dir names disk) j c t other
      (os_mkdir_parent-keeps faults dn.data_dir names disk j (file c t) there)
