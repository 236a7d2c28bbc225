-- ===== src/DataNode/Disk/Ready.antt =====
-- Paths of a disk whose directories are all there, as os.MkdirAll leaves them for
-- internal/datanode/datanode.go.
use file_storage.Base.{
  ℕ, ◌≤◌, ◌<◌, String, ◌<>◌, true, ◌≡◌, refl, some, List, [], ◌∷◌, arith, eq_iff, is_some,
  Bool-cases, Option-cases, inl, inr,
}
use mathlib.Core.Bool.{false≢true}
use file_storage.Text.{size, size-append, differ}
use file_storage.DataNode.Disk.{
  Node, file, directory, Disk, get_node, set_node, remove_node, on_mkdir, Faults, extend, found,
  found_of, find, make_directory, make_path, but_last, os_mkdir_parent,
}
use file_storage.DataNode.Disk.Laws.{get_node-set_node, get_node-remove_node}

-- Every directory on the way to the last name is there.
abbrev pub IsReady : String → List String → Disk → Type 0
IsReady at [] disk = Unit {0}
IsReady at (n ∷ names) disk =
    (get_node at disk ≡ some directory) × IsReady (at <> ("/" <> n)) names disk

pub size-extend : (at : String) (names : List String) → size at ≤ size (extend at names)
size-extend at [] = omega arith
size-extend at (n ∷ names) =
    omega (arith, size-extend (at <> ("/" <> n)) names, size-append at ("/" <> n))

size-step : (at n : String) → size at < size (at <> ("/" <> n))
unfolding size
size-step at n = omega (arith, size-append at ("/" <> n), size-append "/" n, slash)
  where
    slash : size "/" ≡ 1
    slash = refl

pub size-extend_cons :
    (at n : String) (names : List String) → size at < size (extend at (n ∷ names))
size-extend_cons at n names = omega (arith, size-step at n, size-extend (at <> ("/" <> n)) names)

pub find-ready :
    (at : String) (names : List String) (disk : Disk)
    → IsReady at names disk
    → find at names disk ≡ found_of (get_node (extend at names) disk)
unfolding find
find-ready at [] disk r = refl
find-ready at (n ∷ names) disk r = ground (arith, find-ready (at <> ("/" <> n)) names disk r.1)

-- What the walk finds, it finds through directories.
pub IsReady-find :
    (at : String) (names : List String) (disk : Disk) (x : Node)
    → find at names disk ≡ found x
    → IsReady at names disk
unfolding find
IsReady-find at [] disk x h = tt
IsReady-find at (n ∷ names) disk x h = elim (Option-cases (get_node at disk)) [
  | inl missing ↦ ground arith
  | inr (file c t, there) ↦ ground arith
  | inr (directory, there) ↦ (there, IsReady-find (at <> ("/" <> n)) names disk x (ground arith))
]

-- Two disks with the same directories below a size.
pub IsReady-same :
    (at : String) (names : List String) (old new : Disk)
    → ((j : String)
        → size j < size (extend at names)
        → get_node j old ≡ some directory
        → get_node j new ≡ some directory)
    → IsReady at names old
    → IsReady at names new
IsReady-same at [] old new same r = tt
IsReady-same at (n ∷ names) old new same r = (
  same at (size-extend_cons at n names) r.0,
  IsReady-same (at <> ("/" <> n)) names old new same r.1,
)

pub IsReady-set_node :
    (at : String) (names : List String) (k : String) (x : Node) (disk : Disk)
    → size (extend at names) ≤ size k
    → IsReady at names disk
    → IsReady at names (set_node k x disk)
IsReady-set_node at names k x disk h = IsReady-same at names disk (set_node k x disk) (λ j lt d.
    rw (get_node-set_node k j x disk) (ground (arith, differ j k, eq_iff k j, eq_iff j k)))

pub IsReady-remove_node :
    (at : String) (names : List String) (k : String) (disk : Disk)
    → size (extend at names) ≤ size k
    → IsReady at names disk
    → IsReady at names (remove_node k disk)
IsReady-remove_node at names k disk h = IsReady-same at names disk (remove_node k disk) (λ j lt d.
    rw (get_node-remove_node k j disk) (ground (arith, differ j k, eq_iff k j, eq_iff j k)))

-- What stands on the disk stays where directories are made.
pub make_path-keeps :
    (at : String) (names : List String) (disk : Disk) (j : String) (x : Node)
    → get_node j disk ≡ some x
    → get_node j (make_path at names disk).1 ≡ some x
unfolding make_path make_directory
make_path-keeps at [] disk j x h = elim (Option-cases (get_node at disk)) [
  | inl missing ↦ ground (arith, get_node-set_node at j directory disk, eq_iff at j)
  | inr (file c t, there) ↦ ground arith
  | inr (directory, there) ↦ ground arith
]
make_path-keeps at (n ∷ names) disk j x h = elim (Option-cases (get_node at disk)) [
  | inl missing ↦ ground (
    arith,
    get_node-set_node at j directory disk,
    eq_iff at j,
    make_path-keeps (at <> ("/" <> n)) names (set_node at directory disk) j x,
  )
  | inr (file c t, there) ↦ ground arith
  | inr (directory, there) ↦ ground (arith, make_path-keeps (at <> ("/" <> n)) names disk j x)
]

-- The directories that are made are no files.
make_path-files :
    (at : String) (names : List String) (disk : Disk) (j : String) (c : List ℕ) (t : ℕ)
    → get_node j (make_path at names disk).1 ≡ some (file c t)
    → get_node j disk ≡ some (file c t)
unfolding make_path make_directory
make_path-files at [] disk j c t h = elim (Option-cases (get_node at disk)) [
  | inl missing ↦ ground (arith, get_node-set_node at j directory disk, eq_iff at j)
  | inr (file b s, there) ↦ ground arith
  | inr (directory, there) ↦ ground arith
]
make_path-files at (n ∷ names) disk j c t h = elim (Option-cases (get_node at disk)) [
  | inl missing ↦ ground (
    arith,
    get_node-set_node at j directory disk,
    eq_iff at j,
    make_path-files (at <> ("/" <> n)) names (set_node at directory disk) j c t,
  )
  | inr (file b s, there) ↦ ground arith
  | inr (directory, there) ↦ ground (arith, make_path-files (at <> ("/" <> n)) names disk j c t)
]

pub os_mkdir_parent-files :
    (faults : Faults) (at : String) (names : List String) (disk : Disk) (j : String) (c : List ℕ)
    (t : ℕ)
    → get_node j (os_mkdir_parent faults at names disk).1 ≡ some (file c t)
    → get_node j disk ≡ some (file c t)
unfolding os_mkdir_parent
os_mkdir_parent-files faults at [] disk j c t h = h
os_mkdir_parent-files faults at (n ∷ names) disk j c t h =
    ground (arith, make_path-files at (but_last n names) disk j c t)

pub os_mkdir_parent-keeps :
    (faults : Faults) (at : String) (names : List String) (disk : Disk) (j : String) (x : Node)
    → get_node j disk ≡ some x
    → get_node j (os_mkdir_parent faults at names disk).1 ≡ some x
unfolding os_mkdir_parent
os_mkdir_parent-keeps faults at [] disk j x h = h
os_mkdir_parent-keeps faults at (n ∷ names) disk j x h =
    ground (arith, make_path-keeps at (but_last n names) disk j x)

make_directory-there :
    (at : String) (disk : Disk)
    → (make_directory at disk).0 ≡ true
    → get_node at (make_directory at disk).1 ≡ some directory
unfolding make_directory
make_directory-there at disk h = elim (Option-cases (get_node at disk)) [
  | inl missing ↦ ground (arith, get_node-set_node at at directory disk, eq_iff at at)
  | inr (file c t, there) ↦ ground arith
  | inr (directory, there) ↦ ground arith
]

make_path-IsReady :
    (at n : String) (names : List String) (disk : Disk)
    → (make_path at (but_last n names) disk).0 ≡ true
    → IsReady at (n ∷ names) (make_path at (but_last n names) disk).1
unfolding make_path
make_path-IsReady at n [] disk h = (make_directory-there at disk h, tt)
make_path-IsReady at n (k ∷ names) disk h = elim (Bool-cases (make_directory at disk).0) [
  | inl made ↦ rw made (
    make_path-keeps (at <> ("/" <> n)) (but_last k names) (make_directory at disk).1 at directory
        (make_directory-there at disk made),
    make_path-IsReady (at <> ("/" <> n)) k names (make_directory at disk).1 (rw made at h),
  )
  | inr failed ↦ absurd (false≢true (rw failed at h))
]

-- os.MkdirAll of the directory of a path, where it succeeds, leaves the way to the path open.
pub os_mkdir_parent-IsReady :
    (faults : Faults) (at : String) (names : List String) (disk : Disk)
    → (os_mkdir_parent faults at names disk).0 ≡ true
    → IsReady at names (os_mkdir_parent faults at names disk).1
unfolding os_mkdir_parent
os_mkdir_parent-IsReady faults at [] disk h = tt
os_mkdir_parent-IsReady faults at (n ∷ names) disk h =
    elim (Bool-cases (is_some (faults on_mkdir))) [
      | inl fault ↦ absurd (false≢true (rw fault at h))
      | inr fine ↦ rw fine (make_path-IsReady at n names disk (rw fine at h))
    ]
