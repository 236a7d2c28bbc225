-- ===== src/DataNode/Resolve.antt =====
-- `resolvePath` of internal/datanode/datanode.go. A real path is the list of names that lead to it
-- from the data directory, whose own path is taken to be clean.
pub mod Dots
pub mod Safe
use Prim.Native.String
use file_storage.Base.{String, ◌<>◌, ◌||◌, ◌==◌, Option, none, some, List, [], ◌∷◌, if◌then◌else◌}
use mathlib.Core.List.{reverse}
use file_storage.Text.{contains_text}
use file_storage.Path.{trim_prefix, split}
use file_storage.Path.Render.{render}

-- Without the last name, of which the first in the list is the last that was read.
abbrev pub parent : List String → List String
parent [] = []
parent (n ∷ names) = names

-- The names of filepath.Clean of a path that begins with a slash; `stack` holds those so far.
unfoldable pub clean_names : List String → List String → List String
clean_names stack [] = reverse stack
clean_names stack (part ∷ parts) =
    clean_names
      (if part == "" || part == "."
        then stack
        else if part == ".."
        then parent stack
        else part ∷ stack)
      parts

abbrev pub clean_text : List String → String
clean_text [] = "/"
clean_text (n ∷ names) = render (n ∷ names)

unfoldable pub resolve_path : String → Option (List String)
resolve_path remote_path =
    let names = clean_names [] (split (String.◌∷◌ "/" (trim_prefix remote_path))) in
    if contains_text ".." (clean_text names) then none else some names
