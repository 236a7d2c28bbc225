-- ===== src/Path.antt =====
-- Paths as lists of names: `splitPath` of internal/metadata/mds.go, and of Go's package strings what
-- it calls. A path is a text of Unicode characters; Go's strings that are no UTF-8 are left out.
pub mod Split
pub mod Names
pub mod Render
use Prim.Native.Char.{Char, code}
use Prim.Native.String
use file_storage.Base.{String, Bool, true, false, List, [], ◌∷◌, eqb, if◌then◌else◌}

unfoldable pub is_slash : Char → Bool
is_slash c = eqb (code c) b'/'

-- strings.TrimPrefix(path, "/")
unfoldable pub trim_prefix : String → String
trim_prefix String.[] = ""
trim_prefix (String.◌∷◌ c s) = if is_slash c then s else String.◌∷◌ c s

-- strings.TrimSuffix(path, "/")
unfoldable pub trim_suffix : String → String
trim_suffix String.[] = ""
trim_suffix (String.◌∷◌ c String.[]) = if is_slash c then "" else String.◌∷◌ c String.[]
trim_suffix (String.◌∷◌ c (String.◌∷◌ d s)) = String.◌∷◌ c (trim_suffix (String.◌∷◌ d s))

-- A character in front of the first part.
abbrev pub put_front : Char → List String → List String
put_front c [] = String.◌∷◌ c String.[] ∷ []
put_front c (w ∷ ws) = String.◌∷◌ c w ∷ ws

-- strings.Split(path, "/")
unfoldable pub split : String → List String
split String.[] = "" ∷ []
split (String.◌∷◌ c s) = let rest = split s in if is_slash c then "" ∷ rest else put_front c rest

abbrev pub is_empty : String → Bool
is_empty String.[] = true
is_empty (String.◌∷◌ c s) = false

-- The loop that keeps the parts that are not empty.
unfoldable pub keep_names : List String → List String
keep_names [] = []
keep_names (w ∷ ws) = let rest = keep_names ws in if is_empty w then rest else w ∷ rest

unfoldable pub split_path : String → List String
unfolding is_slash trim_prefix trim_suffix split keep_names
split_path path =
    let trimmed = trim_suffix (trim_prefix path) in
    if is_empty trimmed then [] else keep_names (split trimmed)
