-- ===== src/Invariant/Rename.antt =====
-- Renaming (internal/metadata/apply.go) and the shape of the tree.
use file_storage.Base.{
  ℕ, String, Bool, true, false, ◌≡◌, refl, ap, ◌∙◌, Option, none, some, List, [], ◌∷◌, ◌++◌, ◌&&◌,
  arith, strip, Bool-cases, inl, inr, if◌then◌else◌,
}
use file_storage.Path.{split_path}
use file_storage.Tree.{
  Attrs, Entry, node, attrs, children, get_child, walk, walk_dirs, modify, stat,
}
use file_storage.Tree.Laws.{stat_of, stat-walk, stat-nil, walk-walk_dirs, walk-append_name}
use file_storage.Tree.Sound.{
  is_sound, Fits, IsTree, modify-IsTree, walk-is_sound, on_attrs-is_sound,
}
use file_storage.Metadata.{
  CommandPayload, MetadataServer, Target, no_target, target, split_last, touch,
}
use file_storage.Metadata.Rename.{
  meets, unlink, renamed, move, rename_onto, rename_into, rename_found, rename_from, rename_at,
  apply_rename,
}
use file_storage.View.Writes.{stat-modify-unlink}
use file_storage.Invariant.Writes.{unlink-Keeps, attach-Keeps, on_attrs-Keeps, walk_dirs-is_dir}

-- What shows in a tree that lost a child showed before.
unlink-shown :
    (n : String) (dir q : List String) (e : Entry) (b : Attrs)
    → stat q (modify dir (unlink n) e) ≡ some b
    → stat q e ≡ some b
unlink-shown n dir q e b h = go (strip (dir ++ (n ∷ [])) q) refl
  where
    go : (o : Option (List String)) → strip (dir ++ (n ∷ [])) q ≡ o → stat q e ≡ some b
    go none s = ground (arith, stat-modify-unlink n dir e q)
    go (some r) s = ground (arith, stat-modify-unlink n dir e q)

module _ (now : ℕ) (src_dir : List String) (src_name : String) (x : Entry) (dst_dir : List String)
    (dst_name : String) (root parent : Entry) (walked : walk_dirs dst_dir root ≡ some parent)
    (sound : is_sound x ≡ true) (t : IsTree root) where
  freed-IsTree :
      (over : Bool) → IsTree (if over then modify dst_dir (unlink dst_name) root else root)
  freed-IsTree true =
      modify-IsTree dst_dir (unlink dst_name) root (λ y h. unlink-Keeps dst_name y) t
  freed-IsTree false = t

  freed-shown :
      (over : Bool) (b : Attrs)
      → stat dst_dir (if over then modify dst_dir (unlink dst_name) root else root) ≡ some b
      → stat dst_dir root ≡ some b
  freed-shown true b h = unlink-shown dst_name dst_dir dst_dir root b h
  freed-shown false b h = h

  -- The destination's directory is one when the source enters it.
  still_directory :
      (over : Bool) (y : Entry)
      → walk dst_dir (
          modify src_dir
            (unlink src_name)
            (if over then modify dst_dir (unlink dst_name) root else root))
        ≡ some y
      → (attrs y).is_dir ≡ true
  still_directory over y h =
      let shown = freed-shown over (attrs y) (
        unlink-shown src_name src_dir dst_dir _ (attrs y)
          (stat-walk dst_dir _ ∙ ap (stat_of []) h ∙ stat-nil y)) in
      ground (
        arith,
        shown,
        stat-walk dst_dir root,
        walk-walk_dirs dst_dir root parent walked,
        stat-nil parent,
        walk_dirs-is_dir dst_dir root parent t.directory walked,
      )

  move-IsTree : (over : Bool) → IsTree (move now src_dir src_name x dst_dir dst_name over root)
  unfolding move
  move-IsTree over = stamped dst_dir _ (
      stamped src_dir _ (
        modify-IsTree dst_dir _ _
          (λ y h.
            attach-Keeps dst_name (renamed now dst_name x) (renamed-Fits x sound) y
              (still_directory over y h))
          (modify-IsTree src_dir (unlink src_name) _ (λ y h. unlink-Keeps src_name y)
            (freed-IsTree over))))
    where
      stamped : (dir : List String) (e : Entry) → IsTree e → IsTree (modify dir (touch now) e)
      stamped dir e s =
          modify-IsTree dir (touch now) e
            (λ y h. on_attrs-Keeps (λ b. record b { mod_time = now }) y refl refl) s

      renamed-Fits : (e : Entry) → is_sound e ≡ true → Fits dst_name (renamed now dst_name e)
      renamed-Fits (node a cs) s = (
        refl,
        on_attrs-is_sound (λ b. record b { name = dst_name; mod_time = now }) (node a cs) refl ∙ s,
      )

module _ (now : ℕ) (p : CommandPayload) (mds : MetadataServer) (t : IsTree mds.root) where
  module _ (src_dir : List String) (src_name : String) (dst_dir : List String)
      (dst_name : String) where
    rename_onto-IsTree :
        (x parent : Entry) (found : Option Entry)
        → is_sound x ≡ true
        → walk_dirs dst_dir mds.root ≡ some parent
        → IsTree (rename_onto now p src_dir src_name x dst_dir dst_name found mds).1.root
    unfolding rename_onto
    rename_onto-IsTree x parent none sound walked =
        move-IsTree now src_dir src_name x dst_dir dst_name mds.root parent walked sound t false
    rename_onto-IsTree x parent (some old) sound walked = elim (Bool-cases (attrs old).is_dir) [
      | inl is ↦ simp is t
      | inr file ↦
          simp file (
            move-IsTree now src_dir src_name x dst_dir dst_name mds.root parent walked sound t true)
    ]

    rename_into-IsTree :
        (x : Entry) (found : Option Entry)
        → is_sound x ≡ true
        → walk_dirs dst_dir mds.root ≡ found
        → IsTree (rename_into now p src_dir src_name x dst_dir dst_name found mds).1.root
    unfolding rename_into
    rename_into-IsTree x none sound walked = t
    rename_into-IsTree x (some parent) sound walked =
        rename_onto-IsTree x parent (get_child dst_name (children parent)) sound walked

    rename_found-IsTree :
        (holder : Entry) (found : Option Entry)
        → walk_dirs src_dir mds.root ≡ some holder
        → get_child src_name (children holder) ≡ found
        → IsTree (rename_found now p src_dir src_name found dst_dir dst_name mds).1.root
    unfolding rename_found
    rename_found-IsTree holder none walked found = t
    rename_found-IsTree holder (some x) walked found =
        elim (Bool-cases
          ((attrs x).is_dir && meets (src_dir ++ (src_name ∷ [])) [] dst_dir mds.root)) [
            | inl cycle ↦ simp cycle t
            | inr passed ↦ simp passed (
                rename_into-IsTree x (walk_dirs dst_dir mds.root)
                  (walk-is_sound (src_dir ++ (src_name ∷ [])) mds.root x t.sound (
                    walk-append_name src_name x src_dir mds.root holder
                      (walk-walk_dirs src_dir mds.root holder walked) found))
                  refl)
          ]

    rename_from-IsTree :
        (found : Option Entry)
        → walk_dirs src_dir mds.root ≡ found
        → IsTree (rename_from now p src_dir src_name found dst_dir dst_name mds).1.root
    unfolding rename_from
    rename_from-IsTree none walked = t
    rename_from-IsTree (some holder) walked =
        rename_found-IsTree holder (get_child src_name (children holder)) walked refl

  rename_at-IsTree : (s d : Target) → IsTree (rename_at now p s d mds).1.root
  unfolding rename_at
  rename_at-IsTree no_target d = t
  rename_at-IsTree (target src_dir src_name) no_target = t
  rename_at-IsTree (target src_dir src_name) (target dst_dir dst_name) =
      rename_from-IsTree src_dir src_name dst_dir dst_name (walk_dirs src_dir mds.root) refl

  pub apply_rename-IsTree : IsTree (apply_rename now p mds).1.root
  unfolding apply_rename
  apply_rename-IsTree =
      rename_at-IsTree (split_last (split_path p.path)) (split_last (split_path p.dst_path))
