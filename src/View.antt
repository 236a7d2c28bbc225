-- ===== src/View.antt =====
-- The abstract view of the directory tree: a map from paths to the attributes of the entries, and
-- what the handlers of internal/metadata/apply.go mean for it.
pub mod Links
pub mod Writes
use file_storage.Base.{
  ℕ, String, Option, none, some, List, [], ◌∷◌, ◌++◌, ◌==◌, if◌then◌else◌, strip, list_eq,
}
use file_storage.Tree.{Attrs, Entry, stat}
use file_storage.Metadata.{MetadataServer}

abbrev pub View : Type 0
View = List String → Option Attrs

abbrev pub view : MetadataServer → View
view mds q = stat q mds.root

-- The entry gets a new time of modification.
abbrev pub touched : ℕ → Option Attrs → Option Attrs
touched now none = none
touched now (some a) = some (record a { mod_time = now })

-- What stands at a place behind a directory whose child `n` becomes `sub`, from what stood there.
abbrev pub behind : ℕ → String → View → Option Attrs → Option (List String) → Option Attrs
behind now n sub old none = old
behind now n sub old (some []) = touched now old
behind now n sub old (some (k ∷ r)) = if n == k then sub r else old

-- In the directory `dir` the name `n` and all below it becomes `sub`; the directory gets the time.
abbrev pub replaced : ℕ → List String → String → View → View → View
replaced now dir n sub v q = behind now n sub (v q) (strip dir q)

-- A file: nothing stands below it.
abbrev pub leaf : Attrs → View
leaf a [] = some a
leaf a (k ∷ r) = none

abbrev pub nothing : View
nothing r = none

-- The attributes of the entry at one path change.
abbrev pub changed : (Attrs → Attrs) → List String → View → View
changed f at v q = if list_eq at q then elim (v q) [ none ↦ none | some a ↦ some (f a) ] else v q
