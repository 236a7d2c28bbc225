-- ===== src/Spec/UpdateFile.antt =====
-- `applyCompleteFile` and `applyUpdateSize` of internal/metadata/apply.go against the flat file
-- system.
use file_storage.Base.{ℕ, ◌≡◌, refl, ap, ◌∙◌, [], Option, none, some, Bool-cases, inl, inr}
use file_storage.Path.{split_path}
use file_storage.Tree.{Entry, node}
use file_storage.Tree.Laws.{stat-nil, stat-walk, stat_of}
use file_storage.Metadata.{CommandPayload, MetadataServer}
use file_storage.Metadata.UpdateFile.{
  lookup, complete, apply_complete_file, update_size, apply_update_size,
}
use file_storage.View.{view}
use file_storage.View.Writes.{stat-modify-on_attrs}
use file_storage.Spec.{effect, effect_ext, spec_complete_file, spec_update_size}

module _ (now : ℕ) (p : CommandPayload) (mds : MetadataServer) where
  stat-lookup :
      (found : Option Entry)
      → lookup p.path mds ≡ found
      → view mds (split_path p.path) ≡ stat_of [] found
  unfolding lookup
  stat-lookup found h = stat-walk (split_path p.path) mds.root ∙ ap (stat_of []) h

  effect-complete :
      (found : Option Entry)
      → lookup p.path mds ≡ found
      → effect (complete now p found mds) ≡ spec_complete_file now p (view mds)
  unfolding complete
  effect-complete none h = rw (stat-lookup none h)
  effect-complete (some (node a cs)) h =
      rw (stat-lookup (some (node a cs)) h, stat-nil (node a cs))
        (elim (Bool-cases a.is_dir) [
          | inl is ↦ simp is refl
          | inr file ↦
              simp file (effect_ext refl (stat-modify-on_attrs _ (split_path p.path) mds.root))
        ])

  -- Completing a file does to the view of the tree what the flat file system says, on every branch.
  pub effect-complete_file :
      effect (apply_complete_file now p mds) ≡ spec_complete_file now p (view mds)
  unfolding apply_complete_file
  effect-complete_file = effect-complete (lookup p.path mds) refl

  effect-update :
      (found : Option Entry)
      → lookup p.path mds ≡ found
      → effect (update_size now p found mds) ≡ spec_update_size now p (view mds)
  unfolding update_size
  effect-update none h = rw (stat-lookup none h)
  effect-update (some (node a cs)) h =
      rw (stat-lookup (some (node a cs)) h, stat-nil (node a cs))
        (elim (Bool-cases a.is_dir) [
          | inl is ↦ simp is refl
          | inr file ↦
              simp file (effect_ext refl (stat-modify-on_attrs _ (split_path p.path) mds.root))
        ])

  -- A new size does to the view of the tree what the flat file system says, on every branch.
  pub effect-update_size : effect (apply_update_size now p mds) ≡ spec_update_size now p (view mds)
  unfolding apply_update_size
  effect-update_size = effect-update (lookup p.path mds) refl
