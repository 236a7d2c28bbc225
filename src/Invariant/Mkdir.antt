-- ===== src/Invariant/Mkdir.antt =====
-- Making directories (internal/metadata/apply.go) and the shape of the tree.
use file_storage.Base.{
  ℕ, ◌+◌, String, true, ◌≡◌, refl, ◌∙◌, List, [], ◌∷◌, arith, Option-cases, Bool-cases, inl, inr,
}
use file_storage.Path.{split_path}
use file_storage.Tree.{Entry, node, attrs, get_child, set_child}
use file_storage.Tree.Sound.{
  Keeps, IsTree, file-is_sound, get_child-Fits, children-are_sound, exchange-is_sound,
  are_sound-set_child, dir-is_sound,
}
use file_storage.Metadata.{CommandPayload, MetadataServer}
use file_storage.Metadata.Mkdir.{new_dir, make_dirs, apply_mkdir}

module _ (now : ℕ) (path : String) where
  make_dirs-Keeps :
      (i : ℕ) (parts : List String) (e : Entry)
      → (attrs e).is_dir ≡ true
      → Keeps (λ x. (make_dirs now path i parts x).1) e
  unfolding make_dirs
  make_dirs-Keeps i [] e is s = (refl, refl, s)
  make_dirs-Keeps i (n ∷ parts) (node a cs) is s = elim (Option-cases (get_child n cs)) [
    | inl missing ↦
        let (same, kind, sound) =
          make_dirs-Keeps (i + 1) parts (new_dir now n) refl
            (file-is_sound (attrs (new_dir now n))) in
        let made = (make_dirs now path (i + 1) parts (new_dir now n)).1 in
        ground (
          arith,
          missing,
          dir-is_sound (record a { mod_time = now }) (set_child n made cs) is
              (are_sound-set_child n made cs (children-are_sound a cs s is) (same, sound)),
        )
    | inr (c, found) ↦ elim (Bool-cases (attrs c).is_dir) [
      | inl dir ↦
          let fits = get_child-Fits n cs c (children-are_sound a cs s is) found in
          let (same, kind, sound) = make_dirs-Keeps (i + 1) parts c dir fits.1 in
          ground (
            arith,
            found,
            exchange-is_sound n a cs c (make_dirs now path (i + 1) parts c).1 s found same sound,
          )
      | inr file ↦ ground (arith, found, s)
    ]
  ]

pub apply_mkdir-IsTree :
    (now : ℕ) (p : CommandPayload) (mds : MetadataServer)
    → IsTree mds.root
    → IsTree (apply_mkdir now p mds).1.root
unfolding apply_mkdir
apply_mkdir-IsTree now p mds t =
    let (same, kind, sound) =
      make_dirs-Keeps now p.path 0 (split_path p.path) mds.root t.directory t.sound in
    record { directory = kind ∙ t.directory; sound = sound }
