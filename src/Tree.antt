-- ===== src/Tree.antt =====
-- The directory tree of the metadata server: `entry` of internal/metadata/mds.go. Every entry is
-- held by one `children` map, so a pointer to an entry is the path of names that leads to it, and a
-- write through a pointer is `modify` at that path.
pub mod Laws
pub mod Sound
use file_storage.Base.{
  ℕ, ℤ, String, Bool, true, false, Option, none, some, List, [], ◌∷◌, ◌==◌, if◌then◌else◌,
}
use file_storage.Types.{Replica}

-- The fields of an entry, all but `children`.
pub record Attrs : Type 0 where
  pub name : String
  pub is_dir : Bool
  pub size : ℤ
  pub mode : ℕ
  pub created_at : ℕ
  pub mod_time : ℕ
  pub status : String
  pub file_id : String
  pub replicas : List Replica

mutual
  pub data Entry : Type 0 where
    node : Attrs → Children → Entry

  -- The map from names to entries. The nil map of a file is the empty one.
  pub data Children : Type 0 where
    nil : Children
    child : String → Entry → Children → Children

abbrev pub attrs : Entry → Attrs
attrs (node a cs) = a

abbrev pub children : Entry → Children
children (node a cs) = cs

-- A write to fields of an entry, not to its map of children.
abbrev pub on_attrs : (Attrs → Attrs) → Entry → Entry
on_attrs f (node a cs) = node (f a) cs

unfoldable pub get_child : String → Children → Option Entry
get_child k nil = none
get_child k (child j e cs) = if j == k then some e else get_child k cs

unfoldable pub set_child : String → Entry → Children → Children
set_child k v nil = child k v nil
set_child k v (child j e cs) = if j == k then child j v cs else child j e (set_child k v cs)

unfoldable pub remove_child : String → Children → Children
remove_child k nil = nil
remove_child k (child j e cs) =
    let rest = remove_child k cs in if j == k then rest else child j e rest

-- `lookup` behind `splitPath`: it does not ask whether what it passes is a directory.
unfoldable pub walk : List String → Entry → Option Entry
walk [] e = some e
walk (n ∷ p) e = elim (get_child n (children e)) [ none ↦ none | some c ↦ walk p c ]

-- The walks of the handlers that create, delete and rename: a missing child or a file ends them.
unfoldable pub walk_dirs : List String → Entry → Option Entry
walk_dirs [] e = some e
walk_dirs (n ∷ p) e = elim (get_child n (children e)) [
  | none ↦ none
  | some c ↦ let rest = walk_dirs p c in if (attrs c).is_dir then rest else none
]

-- A write through a pointer to the entry at a path.
unfoldable pub modify : List String → (Entry → Entry) → Entry → Entry
modify [] f e = f e
modify (n ∷ p) f (node a cs) = elim (get_child n cs) [
  | none ↦ node a cs
  | some c ↦ node a (set_child n (modify p f c) cs)
]

-- What can be seen of the entry at a path.
unfoldable pub stat : List String → Entry → Option Attrs
stat p e = elim (walk p e) [ none ↦ none | some x ↦ some (attrs x) ]
