-- ===== src/DataNode/Disk/Calls.antt =====
-- What each call of package os can do to the disk of internal/datanode/datanode.go.
use file_storage.Base.{
  ℕ, String, true, false, ◌||◌, ◌≡◌, refl, Option, none, some, List, is_some, take, Bool-cases, inl,
  inr,
}
use file_storage.DataNode.Disk.{
  Node, file, directory, Disk, get_node, set_node, remove_node, on_open, on_write, on_rename,
  on_remove, Faults, Step, Found, absent, blocked, found, is_directory, fill, moved, os_write_file,
  os_rename, Removal, removed, not_exist, not_removed, has_below, os_remove,
}

-- A write fails and changes nothing or writes a part, or it succeeds.
pub data Written (now : ℕ) (k : String) (bytes : List ℕ) (disk : Disk) : Step → Type 0 where
  unwritten : Written now k bytes disk (false, disk)
  part :
      (some_bytes : List ℕ)
      → Written now k bytes disk (false, set_node k (file some_bytes now) disk)
  whole : Written now k bytes disk (true, set_node k (file bytes now) disk)

fill-Written :
    (now : ℕ) (k : String) (bytes : List ℕ) (fault : Option ℕ) (disk : Disk)
    → Written now k bytes disk (fill now k bytes fault disk)
fill-Written now k bytes none disk = whole
fill-Written now k bytes (some n) disk = part (take n bytes)

pub os_write_file-Written :
    (faults : Faults) (now : ℕ) (k : String) (bytes : List ℕ) (disk : Disk)
    → Written now k bytes disk (os_write_file faults now k bytes disk)
unfolding os_write_file
os_write_file-Written faults now k bytes disk =
    elim (Bool-cases (is_directory (get_node k disk) || is_some (faults on_open))) [
      | inl bad ↦ rw bad unwritten
      | inr fine ↦ rw fine (fill-Written now k bytes (faults on_write) disk)
    ]

-- A rename fails and changes nothing, or it moves what is there over no directory.
pub data Moved (from to : String) (disk : Disk) : Step → Type 0 where
  unmoved : Moved from to disk (false, disk)
  over :
      (n : Node)
      → get_node from disk ≡ some n
      → Moved from to disk (true, set_node to n (remove_node from disk))

moved-Moved :
    (from to : String) (n : Option Node) (disk : Disk)
    → get_node from disk ≡ n
    → Moved from to disk (moved from to n disk)
moved-Moved from to none disk h = unmoved
moved-Moved from to (some n) disk h = over n h

pub os_rename-Moved :
    (faults : Faults) (from to : String) (disk : Disk)
    → Moved from to disk (os_rename faults from to disk)
unfolding os_rename
os_rename-Moved faults from to disk =
    elim (Bool-cases (is_some (faults on_rename) || is_directory (get_node to disk))) [
      | inl bad ↦ rw bad unmoved
      | inr fine ↦ rw fine (moved-Moved from to (get_node from disk) disk refl)
    ]

-- A removal removes what is there, and nothing where it fails or finds nothing.
pub data Removed (k : String) (disk : Disk) : Found → Removal × Disk → Type 0 where
  gone : (n : Node) → Removed k disk (found n) (removed, remove_node k disk)
  missing : Removed k disk absent (not_exist, disk)
  kept : (f : Found) → Removed k disk f (not_removed, disk)

pub os_remove-Removed :
    (faults : Faults) (k : String) (f : Found) (disk : Disk)
    → Removed k disk f (os_remove faults k f disk)
unfolding os_remove
os_remove-Removed faults k absent disk = missing
os_remove-Removed faults k blocked disk = kept blocked
os_remove-Removed faults k (found (file c t)) disk =
    elim (Bool-cases (is_some (faults on_remove))) [
      | inl bad ↦ rw bad (kept (found (file c t)))
      | inr fine ↦ rw fine (gone (file c t))
    ]
os_remove-Removed faults k (found directory) disk =
    elim (Bool-cases (is_some (faults on_remove) || has_below k disk)) [
      | inl bad ↦ rw bad (kept (found directory))
      | inr fine ↦ rw fine (gone directory)
    ]
