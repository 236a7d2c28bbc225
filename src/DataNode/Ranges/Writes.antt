-- ===== src/DataNode/Ranges/Writes.antt =====
-- What `PartialWrite` of internal/datanode/datanode.go leave on the disk.
use file_storage.Base.{
  ℕ, ℤ, pos, ◌<◌, String, Bool, true, false, ◌≡◌, ◌≢◌, refl, ap, sym, ◌∙◌, Option, none, some, List,
  [], ◌∷◌, arith, length, ltb, is_some, Bool-cases, Option-cases, inl, inr,
}
use file_storage.Types.{PartialWriteArgs, RangeReadReply}
use file_storage.DataNode.Content.{read_at, write_at, read_at-write_at}
use file_storage.DataNode.Disk.{
  Node, file, directory, Disk, get_node, set_node, on_open, on_read, on_write, Faults, extend,
  found, found_of, find, os_mkdir_parent, Step,
}
use file_storage.DataNode.Disk.Laws.{get_node-set_self}
use file_storage.DataNode.Disk.Ready.{
  os_mkdir_parent-files, IsReady, find-ready, IsReady-set_node, os_mkdir_parent-IsReady,
  os_mkdir_parent-keeps,
}
use file_storage.DataNode.Resolve.{resolve_path}
use file_storage.DataNode.Service.{Reply, replied, DataNode}
use file_storage.DataNode.Ranges.{
  open_node, open_or_create, write_bytes, write_opened, after_open, after_parent, write_below,
  partial_write, range_read, range_found,
}
use file_storage.DataNode.Ranges.Reads.{range_read-resolved, range_found-file}

-- The content of a file, and none where there is no file.
abbrev pub content_of : Option Node → List ℕ
content_of none = []
content_of (some directory) = []
content_of (some (file content _)) = content

content_of-same :
    (old new : Option Node)
    → ((x : Node) → old ≡ some x → new ≡ some x)
    → ((c : List ℕ) (t : ℕ) → new ≡ some (file c t) → old ≡ some (file c t))
    → content_of old ≡ content_of new
content_of-same (some x) new keeps files = ap content_of (sym (keeps x refl))
content_of-same none none keeps files = refl
content_of-same none (some directory) keeps files = refl
content_of-same none (some (file c t)) keeps files = ap content_of (files c t refl)

-- The directories that a write makes leave the content as it is.
content_of-made :
    (dn : DataNode) (faults : Faults) (names : List String) (disk : Disk)
    → content_of (get_node (extend dn.data_dir names) disk)
      ≡ content_of
          (get_node (extend dn.data_dir names) (os_mkdir_parent faults dn.data_dir names disk).1)
content_of-made dn faults names disk =
    content_of-same _ _
      (λ x h. os_mkdir_parent-keeps faults dn.data_dir names disk (extend dn.data_dir names) x h)
      (λ c t h.
        os_mkdir_parent-files faults dn.data_dir names disk (extend dn.data_dir names) c t h)

not_opened :
    (dn : DataNode) (faults : Faults) (now : ℕ) (k : String) (offset : ℤ) (bytes : List ℕ)
    (disk : Disk)
    → (after_open dn faults now k offset bytes (none, disk)).0 ≢ replied true
unfolding after_open
not_opened dn faults now k offset bytes disk h = ground arith

write_bytes-ok :
    (dn : DataNode) (faults : Faults) (now : ℕ) (k : String) (old : List ℕ) (offset : ℕ)
    (bytes : List ℕ) (fault : Option ℕ) (disk : Disk)
    → (write_bytes dn faults now k old offset bytes fault disk).0 ≡ replied true
    → (write_bytes dn faults now k old offset bytes fault disk).1
      ≡ set_node k (file (write_at old offset bytes) now) disk
write_bytes-ok dn faults now k old offset bytes none disk ok = refl
write_bytes-ok dn faults now k old offset bytes (some n) disk ok = ground arith

module _ (dn : DataNode) (faults : Faults) (now : ℕ) (names : List String) (offset b : ℕ)
    (bytes : List ℕ) where
  -- The file has the new content, and the directories that lead to it are there.
  abbrev IsWritten : List ℕ → Disk → Type 0
  IsWritten old disk =
      (get_node (extend dn.data_dir names) disk ≡ some (file (write_at old offset (b ∷ bytes)) now))
      × IsReady dn.data_dir names disk

  write_opened-IsWritten :
      (old : List ℕ) (disk : Disk)
      → IsReady dn.data_dir names disk
      → (write_opened dn faults now (extend dn.data_dir names) old (pos offset) (b ∷ bytes) disk).0
        ≡ replied true
      → IsWritten old
          (write_opened dn faults now
            (extend dn.data_dir names)
            old
            (pos offset)
            (b ∷ bytes)
            disk).1
  unfolding write_opened
  write_opened-IsWritten old disk r ok =
      let k = extend dn.data_dir names in
      let new = file (write_at old offset (b ∷ bytes)) now in
      rw (write_bytes-ok dn faults now k old offset (b ∷ bytes) (faults on_write) disk ok) (
        get_node-set_self k new disk,
        IsReady-set_node dn.data_dir names k new disk (omega arith) r,
      )

  open_node-IsWritten :
      (n : Option Node) (disk : Disk)
      → IsReady dn.data_dir names disk
      → (after_open dn faults now
          (extend dn.data_dir names)
          (pos offset)
          (b ∷ bytes)
          (open_node dn faults now (extend dn.data_dir names) n disk)).0
        ≡ replied true
      → IsWritten
          (content_of n)
          (after_open dn faults now
            (extend dn.data_dir names)
            (pos offset)
            (b ∷ bytes)
            (open_node dn faults now (extend dn.data_dir names) n disk)).1
  unfolding after_open
  open_node-IsWritten none disk r ok =
      write_opened-IsWritten [] (set_node (extend dn.data_dir names) (file [] now) disk)
        (IsReady-set_node dn.data_dir names (extend dn.data_dir names) (file [] now) disk
          (omega arith) r)
        ok
  open_node-IsWritten (some directory) disk r ok = ground arith
  open_node-IsWritten (some (file c t)) disk r ok = write_opened-IsWritten c disk r ok

  after_parent-IsWritten :
      (made : Step)
      → (made.0 ≡ true → IsReady dn.data_dir names made.1)
      → (after_parent dn faults now (extend dn.data_dir names) (pos offset) (b ∷ bytes) made).0
        ≡ replied true
      → IsWritten
          (content_of (get_node (extend dn.data_dir names) made.1))
          (after_parent dn faults now (extend dn.data_dir names) (pos offset) (b ∷ bytes) made).1
  unfolding after_parent open_or_create
  after_parent-IsWritten (true, disk) r ok = elim (Bool-cases (is_some (faults on_open))) [
    | inl bad ↦ absurd (
        not_opened dn faults now (extend dn.data_dir names) (pos offset) (b ∷ bytes) disk
          (rw bad at ok))
    | inr fine ↦ rw fine (
        open_node-IsWritten (get_node (extend dn.data_dir names) disk) disk (r refl)
          (rw fine at ok))
  ]
  after_parent-IsWritten (false, disk) r ok = ground arith

  write_below-IsWritten :
      (disk : Disk)
      → (write_below dn faults now names (pos offset) (b ∷ bytes) disk).0 ≡ replied true
      → IsWritten
          (content_of (get_node (extend dn.data_dir names) disk))
          (write_below dn faults now names (pos offset) (b ∷ bytes) disk).1
  unfolding write_below
  write_below-IsWritten disk ok = rw (content_of-made dn faults names disk) (
      after_parent-IsWritten (os_mkdir_parent faults dn.data_dir names disk)
        (os_mkdir_parent-IsReady faults dn.data_dir names disk) ok)

partial_write-resolved :
    (dn : DataNode) (faults : Faults) (now : ℕ) (args : PartialWriteArgs) (disk : Disk)
    (names : List String)
    → resolve_path args.path ≡ some names
    → partial_write dn faults now args disk
      ≡ write_below dn faults now names args.offset args.content disk
unfolding partial_write
partial_write-resolved dn faults now args disk names h = rw (h, partial_write) refl

partial_write-refused :
    (dn : DataNode) (faults : Faults) (now : ℕ) (args : PartialWriteArgs) (disk : Disk)
    → resolve_path args.path ≡ none
    → (partial_write dn faults now args disk).0 ≢ replied true
unfolding partial_write
partial_write-refused dn faults now args disk outside ok = ground arith

range_of_written :
    (old bytes : List ℕ) (offset : ℕ)
    → 0 < length bytes
    → ◌≡◌ {A = RangeReadReply}
        (record {
          content = read_at (write_at old offset bytes) offset (length bytes);
          eof =
              ltb
                (length (read_at (write_at old offset bytes) offset (length bytes)))
                (length bytes);
        })
        (record { content = bytes; eof = false })
range_of_written old bytes offset h = rw (read_at-write_at old offset bytes h) (ground arith)

-- A write of a part that succeeds leaves the file with its old content, or none if there was no
-- file, as changed by the write.
pub find-partial_write :
    (dn : DataNode) (faults : Faults) (now : ℕ) (args : PartialWriteArgs) (disk : Disk)
    (names : List String) (offset b : ℕ) (bytes : List ℕ)
    → resolve_path args.path ≡ some names
    → args.offset ≡ pos offset
    → args.content ≡ b ∷ bytes
    → (partial_write dn faults now args disk).0 ≡ replied true
    → find dn.data_dir names (partial_write dn faults now args disk).1
      ≡ found (
          file
            (write_at (content_of (get_node (extend dn.data_dir names) disk)) offset (b ∷ bytes))
            now)
find-partial_write dn faults now args disk names offset b bytes resolved o c ok =
    let same =
      partial_write-resolved dn faults now args disk names resolved
      ∙ ap (λ x. write_below dn faults now names x args.content disk) o
      ∙ ap (λ x. write_below dn faults now names (pos offset) x disk) c in
    let written =
      write_below-IsWritten dn faults now names offset b bytes disk
        (ap (λ (r : Reply Bool × Disk). r.0) (sym same) ∙ ok) in
    rw same (find-ready dn.data_dir names _ written.1 ∙ ap found_of written.0)

-- A read of the range that a write covered, where its calls do not fail, gives the bytes.
pub range_read-partial_write :
    (dn : DataNode) (faults later : Faults) (now then_now : ℕ) (path : String) (disk : Disk)
    (offset b : ℕ) (bytes : List ℕ)
    → (partial_write dn faults now
        (record { path = path; offset = pos offset; content = b ∷ bytes })
        disk).0
      ≡ replied true
    → later on_open ≡ none
    → later on_read ≡ none
    → range_read dn later then_now
        (record { path = path; offset = pos offset; length = pos (length (b ∷ bytes)) })
        (partial_write dn faults now
          (record { path = path; offset = pos offset; content = b ∷ bytes })
          disk).1
      ≡ replied (record { content = b ∷ bytes; eof = false })
range_read-partial_write dn faults later now then_now path disk offset b bytes ok opens reads =
    elim (Option-cases (resolve_path path)) [
      | inl outside ↦ absurd (partial_write-refused dn faults now _ disk outside ok)
      | inr (names, resolved) ↦
          range_read-resolved dn later then_now _ _ names resolved
          ∙ ap (range_found dn later then_now _)
              (find-partial_write dn faults now _ disk names offset b bytes resolved refl refl ok)
          ∙ range_found-file dn later then_now _ _ now offset (length (b ∷ bytes)) opens reads refl
              refl
          ∙ ap replied (
              range_of_written (content_of (get_node (extend dn.data_dir names) disk)) (b ∷ bytes)
                offset (omega arith))
    ]
