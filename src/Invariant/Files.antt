-- ===== src/Invariant/Files.antt =====
-- Creating, deleting and updating (internal/metadata/apply.go) and the shape of the tree.
use file_storage.Base.{ℕ, String, ◌≡◌, refl, Option, none, some, List, Bool-cases, inl, inr}
use file_storage.Types.{CreateMode, create_if_not_exist, overwrite_if_exists}
use file_storage.Path.{split_path}
use file_storage.Tree.{
  Attrs, Entry, node, nil, attrs, on_attrs, children, get_child, walk_dirs, modify,
}
use file_storage.Tree.Sound.{IsTree, modify-IsTree, file-is_sound}
use file_storage.Metadata.{
  CommandPayload, MetadataServer, Target, no_target, target, split_last, put_in, drop_in,
}
use file_storage.Metadata.CreateFile.{
  link, overwrite, put_file, create_in, create_at, apply_create_file,
}
use file_storage.Metadata.Delete.{delete_entry, delete_in, delete_at, apply_delete}
use file_storage.Metadata.UpdateFile.{
  lookup, complete, apply_complete_file, update_size, apply_update_size,
}
use file_storage.Invariant.Writes.{modify_dir-IsTree, put_in-Keeps, drop_in-Keeps, on_attrs-Keeps}

module _ (now : ℕ) (p : CommandPayload) (mds : MetadataServer) (t : IsTree mds.root) where
  link-IsTree :
      (dir : List String) (name : String) (a : Attrs) (d : Entry)
      → walk_dirs dir mds.root ≡ some d
      → a.name ≡ name
      → IsTree (link now dir name (node a nil) mds).1.root
  link-IsTree dir name a d walked named =
      modify_dir-IsTree dir (put_in now name (node a nil)) mds.root d walked
        (put_in-Keeps now name (node a nil) (named, file-is_sound a)) t

  overwrite-IsTree :
      (dir : List String) (name : String) (old : Attrs) (d : Entry) (mode : CreateMode)
      → walk_dirs dir mds.root ≡ some d
      → IsTree (overwrite now p dir name old mode mds).1.root
  unfolding overwrite
  overwrite-IsTree dir name old d create_if_not_exist walked = t
  overwrite-IsTree dir name old d overwrite_if_exists walked = link-IsTree dir name _ d walked refl

  put_file-IsTree :
      (dir : List String) (name : String) (d : Entry) (found : Option Entry)
      → walk_dirs dir mds.root ≡ some d
      → IsTree (put_file now p dir name found mds).1.root
  unfolding put_file
  put_file-IsTree dir name d none walked = link-IsTree dir name _ d walked refl
  put_file-IsTree dir name d (some old) walked = elim (Bool-cases (attrs old).is_dir) [
    | inl is ↦ simp is t
    | inr file ↦ simp file (overwrite-IsTree dir name (attrs old) d p.create_mode walked)
  ]

  create_in-IsTree :
      (dir : List String) (name : String) (found : Option Entry)
      → walk_dirs dir mds.root ≡ found
      → IsTree (create_in now p dir name found mds).1.root
  unfolding create_in
  create_in-IsTree dir name none walked = t
  create_in-IsTree dir name (some d) walked =
      put_file-IsTree dir name d (get_child name (children d)) walked

  create_at-IsTree : (s : Target) → IsTree (create_at now p s mds).1.root
  unfolding create_at
  create_at-IsTree no_target = t
  create_at-IsTree (target dir name) = create_in-IsTree dir name (walk_dirs dir mds.root) refl

  pub apply_create_file-IsTree : IsTree (apply_create_file now p mds).1.root
  unfolding apply_create_file
  apply_create_file-IsTree = create_at-IsTree (split_last (split_path p.path))

  delete_entry-IsTree :
      (dir : List String) (name : String) (d : Entry) (found : Option Entry)
      → walk_dirs dir mds.root ≡ some d
      → IsTree (delete_entry now p dir name found mds).1.root
  unfolding delete_entry
  delete_entry-IsTree dir name d none walked = t
  delete_entry-IsTree dir name d (some x) walked =
      modify_dir-IsTree dir (drop_in now name) mds.root d walked (drop_in-Keeps now name) t

  delete_in-IsTree :
      (dir : List String) (name : String) (found : Option Entry)
      → walk_dirs dir mds.root ≡ found
      → IsTree (delete_in now p dir name found mds).1.root
  unfolding delete_in
  delete_in-IsTree dir name none walked = t
  delete_in-IsTree dir name (some d) walked =
      delete_entry-IsTree dir name d (get_child name (children d)) walked

  delete_at-IsTree : (s : Target) → IsTree (delete_at now p s mds).1.root
  unfolding delete_at
  delete_at-IsTree no_target = t
  delete_at-IsTree (target dir name) = delete_in-IsTree dir name (walk_dirs dir mds.root) refl

  pub apply_delete-IsTree : IsTree (apply_delete now p mds).1.root
  unfolding apply_delete
  apply_delete-IsTree = delete_at-IsTree (split_last (split_path p.path))

  update-IsTree :
      (f : Attrs → Attrs)
      → ((a : Attrs) → (f a).name ≡ a.name)
      → ((a : Attrs) → (f a).is_dir ≡ a.is_dir)
      → IsTree (modify (split_path p.path) (on_attrs f) mds.root)
  update-IsTree f name kind =
      modify-IsTree (split_path p.path) (on_attrs f) mds.root
        (λ x h. on_attrs-Keeps f x (name (attrs x)) (kind (attrs x))) t

  complete-IsTree : (found : Option Entry) → IsTree (complete now p found mds).1.root
  unfolding complete
  complete-IsTree none = t
  complete-IsTree (some e) = elim (Bool-cases (attrs e).is_dir) [
    | inl is ↦ simp is t
    | inr file ↦ simp file (update-IsTree _ (λ a. refl) (λ a. refl))
  ]

  pub apply_complete_file-IsTree : IsTree (apply_complete_file now p mds).1.root
  unfolding apply_complete_file
  apply_complete_file-IsTree = complete-IsTree (lookup p.path mds)

  update_size-IsTree : (found : Option Entry) → IsTree (update_size now p found mds).1.root
  unfolding update_size
  update_size-IsTree none = t
  update_size-IsTree (some e) = elim (Bool-cases (attrs e).is_dir) [
    | inl is ↦ simp is t
    | inr file ↦ simp file (update-IsTree _ (λ a. refl) (λ a. refl))
  ]

  pub apply_update_size-IsTree : IsTree (apply_update_size now p mds).1.root
  unfolding apply_update_size
  apply_update_size-IsTree = update_size-IsTree (lookup p.path mds)
