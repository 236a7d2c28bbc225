-- ===== src/Spec/Dirs.antt =====
-- The tree walks of internal/metadata/apply.go against the flat view.
use file_storage.Base.{
  is_some, String, Bool, true, false, ◌&&◌, ◌≡◌, refl, ap, ◌∙◌, Option, none, some, List, [], ◌∷◌,
  ◌++◌, arith, Option-cases, inl, inr,
}
use mathlib.Core.Path.{fun_ext}
use file_storage.Tree.{Attrs, Entry, node, attrs, children, get_child, walk_dirs, stat}
use file_storage.Tree.Laws.{stat-cons, stat-nil, stat-append, stat_of, walk-walk_dirs}
use file_storage.View.{View}
use file_storage.Spec.{are_dirs}

abbrev pub seen : Entry → View
seen e q = stat q e

are_dirs-cons :
    (n : String) (p : List String) (v w : View) (b : Attrs)
    → v (n ∷ []) ≡ some b
    → (λ q. v (n ∷ q)) ≡ w
    → are_dirs v (n ∷ p) ≡ (b.is_dir && are_dirs w p)
are_dirs-cons n p v w b here below = rw (here, are_dirs) (ap (λ u. b.is_dir && are_dirs u p) below)

-- The walk of a handler reaches its end exactly when the view has a directory at every name.
pub are_dirs-seen : (p : List String) (e : Entry) → are_dirs (seen e) p ≡ is_some (walk_dirs p e)
unfolding walk_dirs
are_dirs-seen [] e = refl
are_dirs-seen (n ∷ p) (node a cs) = elim (Option-cases (get_child n cs)) [
  | inl missing ↦ ground (arith, missing, stat-cons n [] a cs)
  | inr (c, found) ↦
      let below = λ (q : List String). stat-cons n q a cs ∙ ap (stat_of q) found in
      are_dirs-cons n p (seen (node a cs)) (seen c) (attrs c) (below [] ∙ stat-nil c)
        (fun_ext below)
      ∙ ground (arith, found, are_dirs-seen p c)
]

module _ (dir : List String) (e d : Entry) (walked : walk_dirs dir e ≡ some d) where
  -- What is seen of a name in the directory that a walk reached.
  pub stat-at_name :
      (name : String) → stat (dir ++ (name ∷ [])) e ≡ stat_of [] (get_child name (children d))
  stat-at_name name =
      stat-append dir (name ∷ []) e
      ∙ ap (stat_of (name ∷ [])) (walk-walk_dirs dir e d walked)
      ∙ named d
    where
      named : (x : Entry) → stat (name ∷ []) x ≡ stat_of [] (get_child name (children x))
      named (node a cs) = stat-cons name [] a cs

  pub are_dirs_of_walk_dirs : are_dirs (seen e) dir ≡ true
  are_dirs_of_walk_dirs = are_dirs-seen dir e ∙ ap is_some walked

pub are_dirs_of_none :
    (dir : List String) (e : Entry) → walk_dirs dir e ≡ none → are_dirs (seen e) dir ≡ false
are_dirs_of_none dir e missing = are_dirs-seen dir e ∙ ap is_some missing

abbrev pub is_dir_at : Option Attrs → Bool
is_dir_at none = false
is_dir_at (some a) = a.is_dir

-- Every name on a path of directories is one.
pub are_dirs-append :
    (p : List String) (n : String) (r : List String) (v : View)
    → are_dirs v (p ++ (n ∷ r)) ≡ true
    → is_dir_at (v (p ++ (n ∷ []))) ≡ true
are_dirs-append [] n r v h = ground arith
are_dirs-append (k ∷ p) n r v h = are_dirs-append p n r (λ q. v (k ∷ q)) (ground arith)
