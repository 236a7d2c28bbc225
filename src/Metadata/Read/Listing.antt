-- ===== src/Metadata/Read/Listing.antt =====
-- What `ListDir` of internal/metadata/mds.go lists.
use Prim.Native.Char.{Char, code}
use file_storage.Base.{◌<◌, String, Bool, true, false, ◌||◌, ◌≡◌, List, [], ◌∷◌, ◌==◌}
use file_storage.Types.{FileInfo}

-- A text comes before another: it ends where the other goes on, or at the first place where they
-- differ its character has the smaller code.
pub data IsBefore : String → String → Type 0 where
  ends : (d : Char) (t : String) → IsBefore String.[] (String.◌∷◌ d t)
  smaller :
      (c d : Char) (s t : String) → code c < code d → IsBefore (String.◌∷◌ c s) (String.◌∷◌ d t)
  later : (c : Char) (s t : String) → IsBefore s t → IsBefore (String.◌∷◌ c s) (String.◌∷◌ c t)

-- An entry may stand above another: it is a directory and the other is not, or both are of one kind
-- and its name comes before that of the other or is the same.
pub data StandsAbove (i j : FileInfo) : Type 0 where
  directory_first : i.is_dir ≡ true → j.is_dir ≡ false → StandsAbove i j
  by_name : i.is_dir ≡ j.is_dir → IsBefore i.name j.name → StandsAbove i j
  same_name : i.is_dir ≡ j.is_dir → i.name ≡ j.name → StandsAbove i j

-- The first stands above the next one.
abbrev IsAbove : FileInfo → List FileInfo → Type 0
IsAbove i [] = Unit {0}
IsAbove i (j ∷ js) = StandsAbove i j

abbrev pub IsSorted : List FileInfo → Type 0
IsSorted [] = Unit {0}
IsSorted (i ∷ is) = IsAbove i is × IsSorted is

abbrev pub lists : List FileInfo → String → Bool
lists [] n = false
lists (i ∷ is) n = i.name == n || lists is n
