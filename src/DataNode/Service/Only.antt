-- ===== src/DataNode/Service/Only.antt =====
-- What `StoreData` of internal/datanode/datanode.go leaves at its path, as `GetData` sees it.
use file_storage.Base.{
  ℕ, String, true, false, ◌≡◌, ◌==◌, refl, ap, sym, ◌∙◌, Option, none, some, List, [], arith,
  Bool-cases, Option-cases, inl, inr, ◌⊎◌,
}
use file_storage.DataNode.Disk.{
  Node, file, directory, Disk, Step, Removal, get_node, set_node, remove_node, on_open, on_read,
  Faults, extend, Found, absent, blocked, found, found_of, find, os_mkdir_parent,
}
use file_storage.DataNode.Disk.Calls.{
  Written, unwritten, part, whole, os_write_file-Written, Moved, unmoved, over, os_rename-Moved,
  Removed, gone, missing, kept, os_remove-Removed,
}
use file_storage.DataNode.Disk.Laws.{get_node-set_node, get_node-remove_node, get_node-set_self}
use file_storage.DataNode.Disk.Ready.{IsReady-find, find-ready, os_mkdir_parent-files}
use file_storage.DataNode.Resolve.{resolve_path}
use file_storage.DataNode.Service.{
  DataError, Reply, failed, replied, DataNode, after_rename, after_write, after_mkdir, store_at,
  store_data, get_found, get_data,
}
use file_storage.DataNode.Service.Stored.{temp, temp-differs}
use file_storage.DataNode.Service.Roundtrip.{get_data-resolved, store_data-resolved}

-- A file there has the content.
abbrev pub HasOnly : List ℕ → String → Disk → Type 0
HasOnly content k disk = (c : List ℕ) (t : ℕ) → get_node k disk ≡ some (file c t) → c ≡ content

bytes_of : Option Node → List ℕ
bytes_of none = []
bytes_of (some directory) = []
bytes_of (some (file content _)) = content

HasOnly-remove_node :
    (content : List ℕ) (k j : String) (disk : Disk)
    → HasOnly content k disk
    → HasOnly content k (remove_node j disk)
HasOnly-remove_node content k j disk only c t h = elim (Bool-cases (j == k)) [
  | inl same ↦ ground (arith, get_node-remove_node j k disk)
  | inr other ↦ only c t (sym (get_node-remove_node j k disk ∙ rw other refl) ∙ h)
]

HasOnly-set_node :
    (content : List ℕ) (k j : String) (n : Node) (disk : Disk)
    → j == k ≡ false
    → HasOnly content k disk
    → HasOnly content k (set_node j n disk)
HasOnly-set_node content k j n disk other only c t h =
    only c t (sym (get_node-set_node j k n disk ∙ rw other refl) ∙ h)

module _ (dn : DataNode) (faults : Faults) (now : ℕ) (k : String) (content : List ℕ) where
  Removed-HasOnly :
      (disk : Disk) {f : Found} {after : Removal × Disk}
      → Removed (temp k) disk f after
      → HasOnly content k disk
      → HasOnly content k after.1
  Removed-HasOnly disk (gone n) only = HasOnly-remove_node content k (temp k) disk only
  Removed-HasOnly disk missing only = only
  Removed-HasOnly disk (kept f) only = only

  after_rename-HasOnly :
      (disk : Disk) {moved : Step}
      → Moved (temp k) k disk moved
      → get_node (temp k) disk ≡ some (file content now)
      → HasOnly content k disk
      → HasOnly content k (after_rename dn faults now k moved).1
  unfolding after_rename bytes_of
  after_rename-HasOnly disk unmoved ready only =
      Removed-HasOnly disk (os_remove-Removed faults (temp k) (find (temp k) [] disk) disk) only
  after_rename-HasOnly disk (over n held) ready only = λ c t h.
      ap bytes_of (sym h ∙ get_node-set_self k n (remove_node (temp k) disk) ∙ sym held ∙ ready)

  after_write-HasOnly :
      (disk : Disk) {written : Step}
      → Written now (temp k) content disk written
      → HasOnly content k disk
      → HasOnly content k (after_write dn faults now k written).1
  unfolding after_write
  after_write-HasOnly disk unwritten only = only
  after_write-HasOnly disk (part bytes) only =
      HasOnly-set_node content k (temp k) (file bytes now) disk (temp-differs k) only
  after_write-HasOnly disk whole only =
      let full = set_node (temp k) (file content now) disk in
      after_rename-HasOnly full (os_rename-Moved faults (temp k) k full)
        (get_node-set_self (temp k) (file content now) disk)
        (HasOnly-set_node content k (temp k) (file content now) disk (temp-differs k) only)

  after_mkdir-HasOnly :
      (made : Step)
      → HasOnly content k made.1
      → HasOnly content k (after_mkdir dn faults now k content made).1
  unfolding after_mkdir
  after_mkdir-HasOnly (true, disk) only =
      after_write-HasOnly disk (os_write_file-Written faults now (temp k) content disk) only
  after_mkdir-HasOnly (false, disk) only = only

-- At the path there is nothing else than the content.
abbrev pub PathHasOnly : DataNode → List ℕ → String → Disk → Type 0
PathHasOnly dn content path disk =
    (names : List String)
    → resolve_path path ≡ some names
    → HasOnly content (extend dn.data_dir names) disk

pub store_data-PathHasOnly :
    (dn : DataNode) (faults : Faults) (now : ℕ) (path : String) (content : List ℕ) (disk : Disk)
    → PathHasOnly dn content path disk
    → PathHasOnly dn content path
        (store_data dn faults now (record { path = path; content = content }) disk).1
unfolding store_at
store_data-PathHasOnly dn faults now path content disk only names resolved =
    rw
      (store_data-resolved dn faults now (record { path = path; content = content }) disk names
        resolved)
      (after_mkdir-HasOnly dn faults now (extend dn.data_dir names) content
        (os_mkdir_parent faults dn.data_dir names disk)
        (λ c t h.
          only names resolved c t (os_mkdir_parent-files faults dn.data_dir names disk _ c t h)))

-- Where there is nothing else, a request whose calls do not fail gets an error or the content.
abbrev pub IsOnly : List ℕ → Reply (List ℕ) → Type 0
IsOnly content r = ((e : DataError) × (r ≡ failed e)) ⊎ (r ≡ replied content)

get_found-IsOnly :
    (dn : DataNode) (later : Faults) (now : ℕ) (path : String) (content : List ℕ) (f : Found)
    → ((c : List ℕ) (t : ℕ) → f ≡ found (file c t) → c ≡ content)
    → later on_open ≡ none
    → later on_read ≡ none
    → IsOnly content (get_found dn later now path f)
unfolding get_found
get_found-IsOnly dn later now path content absent only opens reads = inl (_, refl)
get_found-IsOnly dn later now path content blocked only opens reads = inl (_, refl)
get_found-IsOnly dn later now path content (found directory) only opens reads = inl (_, refl)
get_found-IsOnly dn later now path content (found (file c t)) only opens reads =
    rw (opens, reads) (inr (ap replied (only c t refl)))

found_of-found : (n : Option Node) (x : Node) → found_of n ≡ found x → n ≡ some x
found_of-found none x h = ground arith
found_of-found (some y) x h = ground arith

pub get_data-IsOnly :
    (dn : DataNode) (later : Faults) (now : ℕ) (path : String) (content : List ℕ) (disk : Disk)
    → PathHasOnly dn content path disk
    → later on_open ≡ none
    → later on_read ≡ none
    → IsOnly content (get_data dn later now path disk)
unfolding get_data
get_data-IsOnly dn later now path content disk only opens reads =
    elim (Option-cases (resolve_path path)) [
      | inl outside ↦ rw (outside, get_data) (inl (_, refl))
      | inr (names, resolved) ↦ rw (get_data-resolved dn later now path disk names resolved) (
          get_found-IsOnly dn later now path content (find dn.data_dir names disk)
            (λ c t there. only names resolved c t (at_end names c t there)) opens reads)
    ]
  where
    at_end :
        (names : List String) (c : List ℕ) (t : ℕ)
        → find dn.data_dir names disk ≡ found (file c t)
        → get_node (extend dn.data_dir names) disk ≡ some (file c t)
    at_end names c t there = found_of-found (get_node (extend dn.data_dir names) disk) (file c t) (
        sym
          (find-ready dn.data_dir names disk (IsReady-find dn.data_dir names disk (file c t) there))
        ∙ there)
