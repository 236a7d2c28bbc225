-- ===== src/Spec/Rename.antt =====
-- `applyRename` of internal/metadata/apply.go against the flat file system.
pub mod Cycle
pub mod Move
use file_storage.Base.{
  ℕ, String, Bool, true, false, ◌&&◌, ◌≡◌, refl, ap, sym, ◌∙◌, Option, none, some, List, [], ◌∷◌,
  ◌++◌, arith, append_assoc, strip, strip-eq_some, if◌then◌else◌, Option-cases, Bool-cases, inl,
  inr, ◌⊎◌,
}
use file_storage.Path.{split_path}
use file_storage.Tree.{Attrs, Entry, node, attrs, children, get_child, walk, walk_dirs, stat}
use file_storage.Tree.Laws.{
  stat-nil, stat_of, walk-walk_dirs, walk-append_name, walk_dirs-append_name,
}
use file_storage.Metadata.{CommandPayload, MetadataServer, Target, no_target, target, split_last}
use file_storage.Metadata.Rename.{
  meets, rename_onto, rename_into, rename_found, rename_from, rename_at, apply_rename,
}
use file_storage.View.{View, view}
use file_storage.Spec.{
  effect, effect_ext, at_name, are_dirs, is_below, spec_rename_onto, spec_rename_into,
  spec_rename_found, spec_rename_at, spec_rename,
}
use file_storage.Spec.Dirs.{
  seen, stat-at_name, are_dirs_of_walk_dirs, are_dirs_of_none, is_dir_at, are_dirs-append,
}
use Cycle.{meets-eq-is_below}
use Move.{seen-move}

-- A path of directories does not lead through a name that is a file or not there.
strip_of_not_dir :
    (dir : List String) (n : String) (p : List String) (v : View)
    → are_dirs v p ≡ true
    → is_dir_at (v (at_name dir n)) ≡ false
    → strip (at_name dir n) p ≡ none
strip_of_not_dir dir n p v dirs file = elim (Option-cases (strip (at_name dir n) p)) [
  | inl apart ↦ apart
  | inr (r, above) ↦ ground (
    arith,
    strip-eq_some (at_name dir n) p r,
    append_assoc dir (n ∷ []) r,
    are_dirs-append dir n r v,
  )
]

module _ (now : ℕ) (p : CommandPayload) (mds : MetadataServer) where
  module _ (src_dir : List String) (src_name : String) (dst_dir : List String)
      (dst_name : String) where
    abbrev from : List String
    from = at_name src_dir src_name

    effect-rename_onto :
        (x parent : Entry) (found : Option Entry)
        → walk from mds.root ≡ some x
        → walk_dirs dst_dir mds.root ≡ some parent
        → get_child dst_name (children parent) ≡ found
        → are_dirs (view mds) src_dir ≡ true
        → strip from dst_dir ≡ none
        → effect (rename_onto now p src_dir src_name x dst_dir dst_name found mds)
          ≡ spec_rename_onto now p src_dir src_name dst_dir dst_name (stat_of [] found) (view mds)
    unfolding rename_onto
    effect-rename_onto x parent none source directory free dirs apart = effect_ext refl (
        seen-move now false src_dir src_name dst_dir dst_name mds.root x parent source directory
          apart
          (strip_of_not_dir dst_dir dst_name src_dir (view mds) dirs
            (ground (arith, stat-at_name dst_dir mds.root parent directory dst_name))))
    effect-rename_onto x parent (some (node a cs)) source directory found dirs apart =
        rw (stat-nil (node a cs)) (elim (Bool-cases a.is_dir) [
          | inl is ↦ simp is refl
          | inr file ↦ simp file (
              effect_ext refl (
                seen-move now true src_dir src_name dst_dir dst_name mds.root x parent source
                  directory apart
                  (strip_of_not_dir dst_dir dst_name src_dir (view mds) dirs (
                    ground (
                      arith,
                      stat-at_name dst_dir mds.root parent directory dst_name,
                      stat-nil (node a cs),
                    )))))
        ])

    effect-rename_into :
        (x : Entry) (found : Option Entry)
        → walk from mds.root ≡ some x
        → walk_dirs dst_dir mds.root ≡ found
        → are_dirs (view mds) src_dir ≡ true
        → strip from dst_dir ≡ none ⊎ (are_dirs (view mds) dst_dir ≡ false)
        → effect (rename_into now p src_dir src_name x dst_dir dst_name found mds)
          ≡ spec_rename_into now p src_dir src_name dst_dir dst_name (view mds)
    unfolding rename_into
    effect-rename_into x none source directory dirs apart =
        rw (are_dirs_of_none dst_dir mds.root directory)
    effect-rename_into x (some parent) source directory dirs (inl apart) =
        rw
          (
            are_dirs_of_walk_dirs dst_dir mds.root parent directory,
            stat-at_name dst_dir mds.root parent directory dst_name,
          )
          (effect-rename_onto x parent (get_child dst_name (children parent)) source directory refl
            dirs apart)
    effect-rename_into x (some parent) source directory dirs (inr not_dirs) =
        cc (are_dirs_of_walk_dirs dst_dir mds.root parent directory)

    module _ (holder : Entry) (reached : walk_dirs src_dir mds.root ≡ some holder) where
      source_at :
          (x : Entry) → get_child src_name (children holder) ≡ some x → walk from mds.root ≡ some x
      source_at x found =
          walk-append_name src_name x src_dir mds.root holder
            (walk-walk_dirs src_dir mds.root holder reached) found

      -- The check against cycles is the test whether the destination lies below the source.
      meets-checks :
          (x : Entry)
          → get_child src_name (children holder) ≡ some x
          → ((attrs x).is_dir && meets from [] dst_dir mds.root)
            ≡ ((attrs x).is_dir && is_below from dst_dir)
      meets-checks x found = elim (Bool-cases (attrs x).is_dir) [
        | inl is ↦
            ap (λ b. (attrs x).is_dir && b)
              (meets-eq-is_below from dst_dir mds.root x
                (walk_dirs-append_name src_name x src_dir mds.root holder reached found is))
        | inr file ↦ rw file refl
      ]

      -- A source that is no directory does not lie above a path of directories.
      apart_or_not_dirs :
          (x : Entry)
          → get_child src_name (children holder) ≡ some x
          → ((attrs x).is_dir && is_below from dst_dir) ≡ false
          → strip from dst_dir ≡ none ⊎ (are_dirs (view mds) dst_dir ≡ false)
      apart_or_not_dirs x found passed = elim (Option-cases (strip from dst_dir)) [
        | inl apart ↦ inl apart
        | inr (r, above) ↦ elim (Bool-cases (are_dirs (view mds) dst_dir)) [
          | inl dirs ↦ inl (
              strip_of_not_dir src_dir src_name dst_dir (view mds) dirs
                (ground (arith, stat-at_name src_dir mds.root holder reached src_name, stat-nil x)))
          | inr no_dirs ↦ inr no_dirs
        ]
      ]

      effect-rename_found :
          (found : Option Entry)
          → get_child src_name (children holder) ≡ found
          → effect (rename_found now p src_dir src_name found dst_dir dst_name mds)
            ≡ spec_rename_found now p src_dir src_name
                (stat_of [] found)
                dst_dir
                dst_name
                (view mds)
      unfolding rename_found
      effect-rename_found none found = refl
      effect-rename_found (some x) found =
          rw (stat-nil x, meets-checks x found)
            (elim (Bool-cases ((attrs x).is_dir && is_below from dst_dir)) [
              | inl cycle ↦ rw cycle refl
              | inr passed ↦ rw passed (
                  effect-rename_into x (walk_dirs dst_dir mds.root) (source_at x found) refl
                    (are_dirs_of_walk_dirs src_dir mds.root holder reached)
                    (apart_or_not_dirs x found passed))
            ])

    effect-rename_from :
        (reached : Option Entry)
        → walk_dirs src_dir mds.root ≡ reached
        → effect (rename_from now p src_dir src_name reached dst_dir dst_name mds)
          ≡ spec_rename_at now p (target src_dir src_name) (target dst_dir dst_name) (view mds)
    unfolding rename_from
    effect-rename_from none reached = rw (are_dirs_of_none src_dir mds.root reached)
    effect-rename_from (some holder) reached =
        rw
          (
            are_dirs_of_walk_dirs src_dir mds.root holder reached,
            stat-at_name src_dir mds.root holder reached src_name,
          )
          (effect-rename_found holder reached (get_child src_name (children holder)) refl)

  effect-rename_at :
      (s t : Target) → effect (rename_at now p s t mds) ≡ spec_rename_at now p s t (view mds)
  unfolding rename_at
  effect-rename_at no_target t = refl
  effect-rename_at (target src_dir src_name) no_target = refl
  effect-rename_at (target src_dir src_name) (target dst_dir dst_name) =
      effect-rename_from src_dir src_name dst_dir dst_name (walk_dirs src_dir mds.root) refl

  -- Renaming does to the view of the tree what the flat file system says, on every branch.
  pub effect-rename : effect (apply_rename now p mds) ≡ spec_rename now p (view mds)
  unfolding apply_rename
  effect-rename =
      effect-rename_at (split_last (split_path p.path)) (split_last (split_path p.dst_path))
