-- ===== src/DataNode/Disk.antt =====
-- The disk of a data node, as the calls of package os in internal/datanode/datanode.go see it: a
-- map from real paths to files and directories. Any call may fail for a reason of its own, such as
-- a full disk: `Faults` says which.
pub mod Laws
pub mod Ready
pub mod Calls
use Prim.Native.String
use file_storage.Base.{
  ℕ, String, ◌<>◌, Bool, true, false, ◌||◌, not, Option, none, some, List, [], ◌∷◌, ◌==◌, take,
  if◌then◌else◌, is_some,
}
use file_storage.Text.{after_prefix}

-- A file has its content and the time of its last modification.
pub data Node : Type 0 where
  file : List ℕ → ℕ → Node
  directory : Node

abbrev pub Disk : Type 0
Disk = List (String × Node)

unfoldable pub get_node : String → Disk → Option Node
get_node k [] = none
get_node k ((j, n) ∷ disk) = if j == k then some n else get_node k disk

unfoldable pub set_node : String → Node → Disk → Disk
set_node k n [] = (k, n) ∷ []
set_node k n ((j, m) ∷ disk) = if j == k then (k, n) ∷ disk else (j, m) ∷ set_node k n disk

unfoldable pub remove_node : String → Disk → Disk
remove_node k [] = []
remove_node k ((j, m) ∷ disk) =
    let rest = remove_node k disk in if j == k then rest else (j, m) ∷ rest

-- The calls that may fail. A write that fails has written some bytes before.
pub data OsCall : Type 0 where
  on_mkdir on_open on_read on_write on_rename on_remove on_truncate on_sync on_walk : OsCall

-- For a request: the calls that fail, with the number of bytes that a write gets to.
abbrev pub Faults : Type 0
Faults = OsCall → Option ℕ

-- The path of a name in a directory, and of names one below the other.
abbrev pub extend : String → List String → String
extend at [] = at
extend at (n ∷ names) = extend (at <> ("/" <> n)) names

-- What a path leads to. A file on the way is an error of its own.
pub data Found : Type 0 where
  absent : Found
  blocked : Found
  found : Node → Found

abbrev pub found_of : Option Node → Found
found_of none = absent
found_of (some n) = found n

unfoldable pub find : String → List String → Disk → Found
find at [] disk = found_of (get_node at disk)
find at (n ∷ names) disk =
    let rest = find (at <> ("/" <> n)) names disk in
    elim (get_node at disk) [ none ↦ absent | some (file _ _) ↦ blocked | some directory ↦ rest ]

-- Whether a call succeeds, and the disk after it.
abbrev pub Step : Type 0
Step = Bool × Disk

-- One directory of os.MkdirAll.
unfoldable pub make_directory : String → Disk → Step
make_directory k disk = elim (get_node k disk) [
  | none ↦ (true, set_node k directory disk)
  | some (file _ _) ↦ (false, disk)
  | some directory ↦ (true, disk)
]

unfoldable pub make_path : String → List String → Disk → Step
make_path at [] disk = make_directory at disk
make_path at (n ∷ names) disk =
    let here = make_directory at disk in
    let rest = make_path (at <> ("/" <> n)) names here.1 in if here.0 then rest else here

-- The names of the directory of the last one.
abbrev pub but_last : String → List String → List String
but_last m [] = []
but_last m (k ∷ ks) = m ∷ but_last k ks

-- os.MkdirAll of the directory of a real path. That of the data directory itself is there.
unfoldable pub os_mkdir_parent : Faults → String → List String → Disk → Step
unfolding make_path
os_mkdir_parent faults at [] disk = (true, disk)
os_mkdir_parent faults at (n ∷ names) disk =
    if is_some (faults on_mkdir) then (false, disk) else make_path at (but_last n names) disk

abbrev pub is_directory : Option Node → Bool
is_directory none = false
is_directory (some (file _ _)) = false
is_directory (some directory) = true

-- The write of os.WriteFile to the file that it opened.
abbrev pub fill : ℕ → String → List ℕ → Option ℕ → Disk → Step
fill now k bytes none disk = (true, set_node k (file bytes now) disk)
fill now k bytes (some n) disk = (false, set_node k (file (take n bytes) now) disk)

-- os.WriteFile in a directory that is there.
unfoldable pub os_write_file : Faults → ℕ → String → List ℕ → Disk → Step
os_write_file faults now k bytes disk =
    if is_directory (get_node k disk) || is_some (faults on_open)
    then (false, disk)
    else fill now k bytes (faults on_write) disk

abbrev pub moved : String → String → Option Node → Disk → Step
moved from to none disk = (false, disk)
moved from to (some n) disk = (true, set_node to n (remove_node from disk))

-- os.Rename of a file: it replaces a file, and not a directory.
unfoldable pub os_rename : Faults → String → String → Disk → Step
os_rename faults from to disk =
    if is_some (faults on_rename) || is_directory (get_node to disk)
    then (false, disk)
    else moved from to (get_node from disk) disk

-- Whether a directory has anything in it.
unfoldable pub has_below : String → Disk → Bool
has_below k [] = false
has_below k ((j, n) ∷ disk) = is_some (after_prefix (k <> "/") j) || has_below k disk

-- os.Remove: a file, or an empty directory.
pub data Removal : Type 0 where
  removed : Removal
  not_exist : Removal
  not_removed : Removal

unfoldable pub os_remove : Faults → String → Found → Disk → Removal × Disk
unfolding has_below
os_remove faults k absent disk = (not_exist, disk)
os_remove faults k blocked disk = (not_removed, disk)
os_remove faults k (found (file _ _)) disk =
    if is_some (faults on_remove) then (not_removed, disk) else (removed, remove_node k disk)
os_remove faults k (found directory) disk =
    if is_some (faults on_remove) || has_below k disk
    then (not_removed, disk)
    else (removed, remove_node k disk)
