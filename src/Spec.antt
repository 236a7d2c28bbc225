-- ===== src/Spec.antt =====
-- The flat file system, the specification of the handlers of internal/metadata/apply.go: what each
-- reads and writes is a map from paths to attributes, and there is no tree.
pub mod Dirs
pub mod CreateFile
pub mod Delete
pub mod UpdateFile
pub mod Rename
pub mod Mkdir
pub mod Machine
use file_storage.Base.{
  ℕ, ◌+◌, ℤ, String, Bool, true, false, ◌&&◌, ◌||◌, Option, none, some, List, [], ◌∷◌, ◌++◌, ◌==◌,
  ◌≡◌, ap, if◌then◌else◌, strip, list_eq,
}
use mathlib.Core.Path.{fun_ext}
use file_storage.Types.{CreateMode, create_if_not_exist, overwrite_if_exists}
use file_storage.Path.{split_path}
use file_storage.Tree.{Attrs, attrs}
use file_storage.Metadata.{
  CommandPayload, Error, not_a_directory, invalid_path, parent_not_found, is_a_directory,
  already_exists, path_not_found, cannot_complete, cannot_update_size, cannot_delete_root,
  invalid_rename, source_not_found, own_subtree, dst_parent_not_found, dst_is_directory,
  status_complete, Outcome, Target, no_target, target, split_last,
}
use file_storage.Metadata.CreateFile.{new_file}
use file_storage.Metadata.Mkdir.{new_dir}
use file_storage.View.{View, view, changed, touched, replaced, leaf, nothing}

-- An error, if there is one, and the map after the handler.
abbrev pub Effect : Type 0
Effect = Option Error × View

-- What can be seen of an outcome.
abbrev pub effect : Outcome → Effect
effect (e, mds) = (e, view mds)

pub effect_ext :
    {d e : Option Error} {v w : View}
    → d ≡ e
    → ((q : List String) → v q ≡ w q)
    → ◌≡◌ {A = Effect} (d, v) (e, w)
effect_ext p h i = (p i, fun_ext h i)

-- Every name of the path leads to a directory.
abbrev pub are_dirs : View → List String → Bool
are_dirs v [] = true
are_dirs v (n ∷ p) = elim (v (n ∷ [])) [
  | none ↦ false
  | some a ↦ a.is_dir && are_dirs (λ q. v (n ∷ q)) p
]

abbrev pub at_name : List String → String → List String
at_name dir name = dir ++ (name ∷ [])

module _ (now : ℕ) (p : CommandPayload) where
  abbrev spec_overwrite : List String → String → Attrs → CreateMode → View → Effect
  spec_overwrite dir name old create_if_not_exist v = (some (already_exists p.path), v)
  spec_overwrite dir name old overwrite_if_exists v =
      let file = new_file now p name old.created_at old.file_id in
      (none, replaced now dir name (leaf (attrs file)) v)

  abbrev spec_put : List String → String → Option Attrs → View → Effect
  spec_put dir name none v =
      let file = new_file now p name now p.file_id in
      (none, replaced now dir name (leaf (attrs file)) v)
  spec_put dir name (some old) v =
      if old.is_dir
      then (some (is_a_directory p.path), v)
      else spec_overwrite dir name old p.create_mode v

  abbrev spec_create_at : Target → View → Effect
  spec_create_at no_target v = (some (invalid_path p.path), v)
  spec_create_at (target dir name) v =
      if are_dirs v dir
      then spec_put dir name (v (at_name dir name)) v
      else (some (parent_not_found p.path), v)

  abbrev pub spec_create_file : View → Effect
  spec_create_file v = spec_create_at (split_last (split_path p.path)) v

  abbrev spec_delete_entry : List String → String → Option Attrs → View → Effect
  spec_delete_entry dir name none v = (some (path_not_found p.path), v)
  spec_delete_entry dir name (some a) v = (none, replaced now dir name nothing v)

  abbrev pub spec_delete_at : Target → View → Effect
  spec_delete_at no_target v = (some cannot_delete_root, v)
  spec_delete_at (target dir name) v =
      if are_dirs v dir
      then spec_delete_entry dir name (v (at_name dir name)) v
      else (some (path_not_found p.path), v)

  abbrev pub spec_delete : View → Effect
  spec_delete v = spec_delete_at (split_last (split_path p.path)) v

-- The entry that is moved has a new name and a new time; what is below it stays as it was.
abbrev pub renamed_at : ℕ → String → List String → Option Attrs → Option Attrs
renamed_at now name [] none = none
renamed_at now name [] (some a) = some (record a { name = name; mod_time = now })
renamed_at now name (k ∷ r) old = old

-- What stands at a path that is not below the destination.
abbrev pub left_behind :
    ℕ → List String → List String → List String → Option Attrs → Option (List String) → Option Attrs
left_behind now src_dir dst_dir q old none =
    if list_eq src_dir q || list_eq dst_dir q then touched now old else old
left_behind now src_dir dst_dir q old (some r) = none

-- All that was at the source and below it stands at the destination, and nothing is left at the
-- source. The two directories get the time.
abbrev pub moved_at :
    ℕ
    → List String
    → String
    → List String
    → String
    → View
    → List String
    → Option (List String)
    → Option Attrs
moved_at now src_dir src_name dst_dir dst_name v q none =
    left_behind now src_dir dst_dir q (v q) (strip (at_name src_dir src_name) q)
moved_at now src_dir src_name dst_dir dst_name v q (some r) =
    renamed_at now dst_name r (v (at_name src_dir src_name ++ r))

abbrev pub moved : ℕ → List String → String → List String → String → View → View
moved now src_dir src_name dst_dir dst_name v q =
    moved_at now src_dir src_name dst_dir dst_name v q (strip (at_name dst_dir dst_name) q)

abbrev pub is_below : List String → List String → Bool
is_below p q = elim (strip p q) [ none ↦ false | some r ↦ true ]

module _ (now : ℕ) (p : CommandPayload) where
  abbrev pub spec_rename_onto :
      List String → String → List String → String → Option Attrs → View → Effect
  spec_rename_onto src_dir src_name dst_dir dst_name none v =
      (none, moved now src_dir src_name dst_dir dst_name v)
  spec_rename_onto src_dir src_name dst_dir dst_name (some old) v =
      if old.is_dir
      then (some (dst_is_directory p.dst_path), v)
      else (none, moved now src_dir src_name dst_dir dst_name v)

  abbrev pub spec_rename_into : List String → String → List String → String → View → Effect
  spec_rename_into src_dir src_name dst_dir dst_name v =
      if are_dirs v dst_dir
      then spec_rename_onto src_dir src_name dst_dir dst_name (v (at_name dst_dir dst_name)) v
      else (some (dst_parent_not_found p.dst_path), v)

  abbrev pub spec_rename_found :
      List String → String → Option Attrs → List String → String → View → Effect
  spec_rename_found src_dir src_name none dst_dir dst_name v = (some (source_not_found p.path), v)
  spec_rename_found src_dir src_name (some a) dst_dir dst_name v =
      if a.is_dir && is_below (at_name src_dir src_name) dst_dir
      then (some (own_subtree p.path p.dst_path), v)
      else spec_rename_into src_dir src_name dst_dir dst_name v

  abbrev pub spec_rename_at : Target → Target → View → Effect
  spec_rename_at no_target _ v = (some (invalid_rename p.path p.dst_path), v)
  spec_rename_at (target src_dir src_name) no_target v =
      (some (invalid_rename p.path p.dst_path), v)
  spec_rename_at (target src_dir src_name) (target dst_dir dst_name) v =
      if are_dirs v src_dir
      then spec_rename_found src_dir src_name (v (at_name src_dir src_name)) dst_dir dst_name v
      else (some (source_not_found p.path), v)

  abbrev pub spec_rename : View → Effect
  spec_rename v =
      spec_rename_at (split_last (split_path p.path)) (split_last (split_path p.dst_path)) v

-- The first name of the path that is there and no directory.
abbrev pub mkdir_error : String → ℕ → List String → View → Option Error
mkdir_error path i [] v = none
mkdir_error path i (n ∷ parts) v = elim (v (n ∷ [])) [
  | none ↦ none
  | some a ↦
      if a.is_dir
      then mkdir_error path (i + 1) parts (λ q. v (n ∷ q))
      else some (not_a_directory path i n)
]

abbrev pub last_name : List String → String
last_name [] = ""
last_name (n ∷ []) = n
last_name (n ∷ (m ∷ q)) = last_name (m ∷ q)

-- A directory on the path, from what it held at the next name.
abbrev pub parent_of : ℕ → Attrs → Option Attrs → Option Attrs
parent_of now a none = touched now (some a)
parent_of now a (some b) = some a

-- What stands at `q`, from what stood there and what is left of the path behind it.
abbrev pub made_at : ℕ → View → List String → Option Attrs → Option (List String) → Option Attrs
made_at now v q none none = none
made_at now v q none (some r) = some (attrs (new_dir now (last_name q)))
made_at now v q (some a) none = some a
made_at now v q (some a) (some []) = some a
made_at now v q (some a) (some (m ∷ r)) = parent_of now a (v (q ++ (m ∷ [])))

-- Every missing directory on the path is there, and the one that got a new child has the time.
abbrev pub made : ℕ → List String → View → View
made now parts v q = made_at now v q (v q) (strip q parts)

abbrev pub spec_made : ℕ → List String → Option Error → View → Effect
spec_made now parts none v = (none, made now parts v)
spec_made now parts (some e) v = (some e, v)

abbrev pub spec_mkdir : ℕ → CommandPayload → View → Effect
spec_mkdir now p v =
    let parts = split_path p.path in spec_made now parts (mkdir_error p.path 0 parts v) v

abbrev spec_update : (Attrs → Attrs) → Error → CommandPayload → Option Attrs → View → Effect
spec_update f refused p none v = (some (path_not_found p.path), v)
spec_update f refused p (some a) v =
    if a.is_dir then (some refused, v) else (none, changed f (split_path p.path) v)

abbrev pub spec_complete_file : ℕ → CommandPayload → View → Effect
spec_complete_file now p v =
    spec_update (λ a. record a { status = status_complete; mod_time = now })
      (cannot_complete p.path) p (v (split_path p.path)) v

abbrev pub spec_update_size : ℕ → CommandPayload → View → Effect
spec_update_size now p v =
    spec_update (λ a. record a { size = p.new_size; mod_time = now }) (cannot_update_size p.path) p
      (v (split_path p.path)) v
