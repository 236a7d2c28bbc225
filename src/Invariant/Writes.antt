-- ===== src/Invariant/Writes.antt =====
-- The writes of the handlers of internal/metadata/apply.go and the shape of the entry that they reach.
use file_storage.Base.{
  ℕ, String, true, ◌≡◌, refl, ◌∙◌, some, List, [], ◌∷◌, arith, Option-cases, inl, inr,
}
use file_storage.Tree.{
  Attrs, Entry, node, attrs, on_attrs, get_child, set_child, remove_child, walk_dirs, modify,
}
use file_storage.Tree.Laws.{walk-walk_dirs}
use file_storage.Tree.Sound.{
  IsTree, modify-IsTree, Fits, Keeps, are_sound-set_child, are_sound-remove_child, dir-is_sound,
  children-are_sound, remove_child-is_sound, on_attrs-is_sound,
}
use file_storage.Metadata.{put_in, drop_in}
use file_storage.Metadata.Rename.{unlink, attach}

module _ (now : ℕ) (n : String) where
  pub put_in-Keeps :
      (y : Entry) → Fits n y → (x : Entry) → (attrs x).is_dir ≡ true → Keeps (put_in now n y) x
  put_in-Keeps y fits (node a cs) is s = (
    refl,
    refl,
    dir-is_sound (record a { mod_time = now }) (set_child n y cs) is
        (are_sound-set_child n y cs (children-are_sound a cs s is) fits),
  )

  pub drop_in-Keeps : (x : Entry) → (attrs x).is_dir ≡ true → Keeps (drop_in now n) x
  drop_in-Keeps (node a cs) is s = (
    refl,
    refl,
    dir-is_sound (record a { mod_time = now }) (remove_child n cs) is
        (are_sound-remove_child n cs (children-are_sound a cs s is)),
  )

pub unlink-Keeps : (n : String) (x : Entry) → Keeps (unlink n) x
unlink-Keeps n (node a cs) s = (refl, refl, remove_child-is_sound n a cs s)

pub attach-Keeps :
    (n : String) (y : Entry)
    → Fits n y
    → (x : Entry) → (attrs x).is_dir ≡ true
    → Keeps (attach n y) x
attach-Keeps n y fits (node a cs) is s = (
  refl,
  refl,
  dir-is_sound a (set_child n y cs) is
      (are_sound-set_child n y cs (children-are_sound a cs s is) fits),
)

pub on_attrs-Keeps :
    (f : Attrs → Attrs) (x : Entry)
    → (f (attrs x)).name ≡ (attrs x).name
    → (f (attrs x)).is_dir ≡ (attrs x).is_dir
    → Keeps (on_attrs f) x
on_attrs-Keeps f (node a cs) name kind s = (name, kind, on_attrs-is_sound f (node a cs) kind ∙ s)

-- What a walk through directories reaches is a directory, if it starts at one.
pub walk_dirs-is_dir :
    (p : List String) (e d : Entry)
    → (attrs e).is_dir ≡ true
    → walk_dirs p e ≡ some d
    → (attrs d).is_dir ≡ true
unfolding walk_dirs
walk_dirs-is_dir [] e d is h = ground arith
walk_dirs-is_dir (n ∷ p) (node a cs) d is h = elim (Option-cases (get_child n cs)) [
  | inl missing ↦ ground arith
  | inr (c, found) ↦ ground (arith, walk_dirs-is_dir p c d)
]

-- A write in the directory that a walk reached.
pub modify_dir-IsTree :
    (dir : List String) (f : Entry → Entry) (root d : Entry)
    → walk_dirs dir root ≡ some d
    → ((x : Entry) → (attrs x).is_dir ≡ true → Keeps f x)
    → IsTree root
    → IsTree (modify dir f root)
modify_dir-IsTree dir f root d walked k t =
    modify-IsTree dir f root
      (λ x h. k x (
        ground (
          arith,
          walk-walk_dirs dir root d walked,
          walk_dirs-is_dir dir root d t.directory walked,
        )))
      t
