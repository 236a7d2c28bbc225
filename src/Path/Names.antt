-- ===== src/Path/Names.antt =====
-- The names that `splitPath` of internal/metadata/mds.go hands to the tree walks.
use Prim.Native.Char.{Char}
use file_storage.Base.{
  String, ◌≡◌, refl, Bool, true, false, not, ◌&&◌, List, [], ◌∷◌, Bool-cases, inl, inr,
  if◌then◌else◌,
}
use file_storage.Path.{is_slash, put_front, split, is_empty, keep_names, split_path}
use file_storage.Path.Split.{split-slash, split-other, split_path_lem}

-- A name that a path can hold: it is not empty and has no slash.
abbrev pub has_no_slash : String → Bool
has_no_slash String.[] = true
has_no_slash (String.◌∷◌ c s) = if is_slash c then false else has_no_slash s

abbrev pub is_name : String → Bool
is_name w = not (is_empty w) && has_no_slash w

abbrev pub AreNames : List String → Type 0
AreNames [] = Unit {0}
AreNames (w ∷ ws) = (is_name w ≡ true) × AreNames ws

abbrev AllFree : List String → Type 0
AllFree [] = Unit {0}
AllFree (w ∷ ws) = (has_no_slash w ≡ true) × AllFree ws

put_front-AllFree :
    (c : Char) (ws : List String) → is_slash c ≡ false → AllFree ws → AllFree (put_front c ws)
put_front-AllFree c [] h a = (rw h, tt)
put_front-AllFree c (w ∷ ws) h a = (rw h a.0, a.1)

split-AllFree : (s : String) → AllFree (split s)
split-AllFree String.[] = unfold split in (refl, tt)
split-AllFree (String.◌∷◌ c s) = elim (Bool-cases (is_slash c)) [
  | inl slash ↦ rw (split-slash c s slash) (refl, split-AllFree s)
  | inr other ↦ rw (split-other c s other) (put_front-AllFree c (split s) other (split-AllFree s))
]

keep_names-AreNames : (ws : List String) → AllFree ws → AreNames (keep_names ws)
unfolding keep_names
keep_names-AreNames [] a = tt
keep_names-AreNames (String.[] ∷ ws) a = keep_names-AreNames ws a.1
keep_names-AreNames (String.◌∷◌ c w ∷ ws) a = (a.0, keep_names-AreNames ws a.1)

-- Every part of a path is a name.
pub split_path-AreNames : (s : String) → AreNames (split_path s)
split_path-AreNames s = rw (split_path_lem s) (keep_names-AreNames (split s) (split-AllFree s))
