-- ===== src/Spec/CreateFile.antt =====
-- `applyCreateFile` and `applyDelete` of internal/metadata/apply.go against the flat file system.
use file_storage.Base.{
  ℕ, String, ◌≡◌, refl, ap, ◌∙◌, Option, none, some, List, [], Bool-cases, inl, inr,
}
use mathlib.Core.Path.{fun_ext}
use file_storage.Types.{CreateMode, create_if_not_exist, overwrite_if_exists}
use file_storage.Path.{split_path}
use file_storage.Tree.{Attrs, Entry, node, nil, children, get_child, walk_dirs}
use file_storage.Tree.Laws.{stat-nil, stat_of, walk-walk_dirs}
use file_storage.Metadata.{CommandPayload, MetadataServer, Target, no_target, target, split_last}
use file_storage.Metadata.CreateFile.{
  link, overwrite, put_file, create_in, create_at, apply_create_file,
}
use file_storage.Metadata.Delete.{delete_entry, delete_in, delete_at, apply_delete}
use file_storage.View.Links.{stat-leaf}
use file_storage.View.{view, leaf, replaced}
use file_storage.View.Links.{stat-modify-put_in, stat-modify-drop_in}
use file_storage.Spec.{
  effect, effect_ext, spec_put, spec_overwrite, spec_create_at, spec_create_file, spec_delete_at,
  spec_delete_entry, spec_delete,
}
use file_storage.Spec.Dirs.{stat-at_name, are_dirs_of_walk_dirs, are_dirs_of_none}

module _ (now : ℕ) (p : CommandPayload) (mds : MetadataServer) where
  effect-link :
      (dir : List String) (name : String) (a : Attrs) (d : Entry)
      → walk_dirs dir mds.root ≡ some d
      → effect (link now dir name (node a nil) mds)
        ≡ (none, replaced now dir name (leaf a) (view mds))
  effect-link dir name a d walked = effect_ext refl λ q.
      stat-modify-put_in now name dir mds.root d (walk-walk_dirs dir mds.root d walked) (node a nil)
        q
      ∙ ap (λ sub. replaced now dir name sub (view mds) q) (fun_ext (stat-leaf a))

  effect-overwrite :
      (dir : List String) (name : String) (old : Attrs) (d : Entry) (mode : CreateMode)
      → walk_dirs dir mds.root ≡ some d
      → effect (overwrite now p dir name old mode mds)
        ≡ spec_overwrite now p dir name old mode (view mds)
  unfolding overwrite
  effect-overwrite dir name old d create_if_not_exist walked = refl
  effect-overwrite dir name old d overwrite_if_exists walked = effect-link dir name _ d walked

  effect-put_file :
      (dir : List String) (name : String) (d : Entry) (found : Option Entry)
      → walk_dirs dir mds.root ≡ some d
      → effect (put_file now p dir name found mds)
        ≡ spec_put now p dir name (stat_of [] found) (view mds)
  unfolding put_file
  effect-put_file dir name d none walked = effect-link dir name _ d walked
  effect-put_file dir name d (some (node a cs)) walked =
      rw (stat-nil (node a cs)) (elim (Bool-cases a.is_dir) [
        | inl is ↦ simp is refl
        | inr file ↦ simp file (effect-overwrite dir name a d p.create_mode walked)
      ])

  effect-create_in :
      (dir : List String) (name : String) (found : Option Entry)
      → walk_dirs dir mds.root ≡ found
      → effect (create_in now p dir name found mds)
        ≡ spec_create_at now p (target dir name) (view mds)
  unfolding create_in
  effect-create_in dir name none walked = rw (are_dirs_of_none dir mds.root walked)
  effect-create_in dir name (some d) walked =
      rw (are_dirs_of_walk_dirs dir mds.root d walked, stat-at_name dir mds.root d walked name)
        (effect-put_file dir name d (get_child name (children d)) walked)

  effect-create_at :
      (t : Target) → effect (create_at now p t mds) ≡ spec_create_at now p t (view mds)
  unfolding create_at
  effect-create_at no_target = refl
  effect-create_at (target dir name) = effect-create_in dir name (walk_dirs dir mds.root) refl

  pub effect-create_file : effect (apply_create_file now p mds) ≡ spec_create_file now p (view mds)
  unfolding apply_create_file
  effect-create_file = effect-create_at (split_last (split_path p.path))

  effect-delete_entry :
      (dir : List String) (name : String) (d : Entry) (found : Option Entry)
      → walk_dirs dir mds.root ≡ some d
      → effect (delete_entry now p dir name found mds)
        ≡ spec_delete_entry now p dir name (stat_of [] found) (view mds)
  unfolding delete_entry
  effect-delete_entry dir name d none walked = refl
  effect-delete_entry dir name d (some x) walked = rw (stat-nil x) (
      effect_ext refl
        (stat-modify-drop_in now name dir mds.root d (walk-walk_dirs dir mds.root d walked)))

  effect-delete_in :
      (dir : List String) (name : String) (found : Option Entry)
      → walk_dirs dir mds.root ≡ found
      → effect (delete_in now p dir name found mds)
        ≡ spec_delete_at now p (target dir name) (view mds)
  unfolding delete_in
  effect-delete_in dir name none walked = rw (are_dirs_of_none dir mds.root walked)
  effect-delete_in dir name (some d) walked =
      rw (are_dirs_of_walk_dirs dir mds.root d walked, stat-at_name dir mds.root d walked name)
        (effect-delete_entry dir name d (get_child name (children d)) walked)

  effect-delete_at :
      (t : Target) → effect (delete_at now p t mds) ≡ spec_delete_at now p t (view mds)
  unfolding delete_at
  effect-delete_at no_target = refl
  effect-delete_at (target dir name) = effect-delete_in dir name (walk_dirs dir mds.root) refl

  -- Deleting does to the view of the tree what the flat file system says, on every branch.
  pub effect-delete : effect (apply_delete now p mds) ≡ spec_delete now p (view mds)
  unfolding apply_delete
  effect-delete = effect-delete_at (split_last (split_path p.path))
