-- ===== src/Spec/Mkdir.antt =====
-- `applyMkdir` of internal/metadata/apply.go against the flat file system.
pub mod Made
use file_storage.Base.{
  ℕ, ◌+◌, String, false, ◌≡◌, refl, ap, sym, ◌∙◌, Option, none, some, List, [], ◌∷◌, ◌++◌, arith,
  ◌==◌, eq_iff, strip, if◌then◌else◌, Option-cases, Bool-cases, inl, inr,
}
use mathlib.Core.Path.{fun_ext, subst}
use file_storage.Path.{split_path}
use file_storage.Tree.{Attrs, Entry, node, Children, attrs, get_child, set_child, stat}
use file_storage.Tree.Laws.{stat-cons, stat-nil, stat_of, get_child-set_child}
use file_storage.Metadata.{CommandPayload, MetadataServer, Error, not_a_directory}
use file_storage.Metadata.Mkdir.{new_dir, make_dirs, apply_mkdir}
use file_storage.View.{View, view, leaf}
use file_storage.View.Links.{stat-leaf}
use file_storage.Spec.{
  effect, effect_ext, mkdir_error, made_at, made, parent_of, spec_made, spec_mkdir,
}
use file_storage.Spec.Dirs.{seen}
use file_storage.Spec.Mkdir.Made.{made-leaf, made-there, mkdir_error-cons}

module _ (now : ℕ) (path : String) where
  -- Inside a new directory nothing is in the way.
  make_dirs-new_dir :
      (i : ℕ) (parts : List String) (n : String)
      → (make_dirs now path i parts (new_dir now n)).0 ≡ none
  unfolding make_dirs get_child
  make_dirs-new_dir i [] n = refl
  make_dirs-new_dir i (m ∷ parts) n = make_dirs-new_dir (i + 1) parts m

  -- A walk that fails has changed nothing.
  stat-make_dirs_failed :
      (i : ℕ) (parts : List String) (e : Entry) (err : Error) (q : List String)
      → (make_dirs now path i parts e).0 ≡ some err
      → stat q (make_dirs now path i parts e).1 ≡ stat q e
  unfolding make_dirs
  stat-make_dirs_failed i [] e err q h = refl
  stat-make_dirs_failed i (n ∷ parts) (node a cs) err [] h = ground (
    arith,
    stat-nil (make_dirs now path i (n ∷ parts) (node a cs)).1,
    stat-nil (node a cs),
    make_dirs-new_dir (i + 1) parts n,
  )
  stat-make_dirs_failed i (n ∷ parts) (node a cs) err (k ∷ q) h =
      elim (Option-cases (get_child n cs)) [
        | inl missing ↦ ground (arith, make_dirs-new_dir (i + 1) parts n)
        | inr (c, found) ↦ ground (
          arith,
          stat-cons k q a cs,
          stat-cons k q a (set_child n (make_dirs now path (i + 1) parts c).1 cs),
          get_child-set_child k n (make_dirs now path (i + 1) parts c).1 cs,
          eq_iff n k,
          stat-make_dirs_failed (i + 1) parts c err q,
        )
      ]

  make_dirs_error :
      (i : ℕ) (parts : List String) (e : Entry)
      → (make_dirs now path i parts e).0 ≡ mkdir_error path i parts (seen e)
  unfolding make_dirs
  make_dirs_error i [] e = refl
  make_dirs_error i (n ∷ parts) (node a cs) = elim (Option-cases (get_child n cs)) [
    | inl missing ↦ ground (arith, make_dirs-new_dir (i + 1) parts n, stat-cons n [] a cs)
    | inr (c, found) ↦
        let below = λ (q : List String). stat-cons n q a cs ∙ ap (stat_of q) found in
        ground (arith, found, make_dirs_error (i + 1) parts c)
        ∙ sym (
            mkdir_error-cons path i n parts (seen (node a cs)) (seen c) (attrs c)
              (below [] ∙ stat-nil c) (fun_ext below))
  ]

  -- The directory that the walk is at gets the time if its next child is new.
  stat-make_dirs_here :
      (i : ℕ) (n : String) (parts : List String) (a : Attrs) (cs : Children)
      → (make_dirs now path i (n ∷ parts) (node a cs)).0 ≡ none
      → stat [] (make_dirs now path i (n ∷ parts) (node a cs)).1
        ≡ made now (n ∷ parts) (seen (node a cs)) []
  unfolding make_dirs
  stat-make_dirs_here i n parts a cs h = elim (Option-cases (get_child n cs)) [
    | inl missing ↦ ground (
      arith,
      stat-nil (make_dirs now path i (n ∷ parts) (node a cs)).1,
      stat-nil (node a cs),
      stat-cons n [] a cs,
    )
    | inr (c, found) ↦ ground (
      arith,
      stat-nil (make_dirs now path i (n ∷ parts) (node a cs)).1,
      stat-nil (node a cs),
      stat-cons n [] a cs,
      stat-nil c,
    )
  ]

  -- Beside the path nothing changes.
  stat-make_dirs_beside :
      (i : ℕ) (n k : String) (parts q : List String) (a : Attrs) (cs : Children)
      → (n == k) ≡ false
      → stat (k ∷ q) (make_dirs now path i (n ∷ parts) (node a cs)).1 ≡ stat (k ∷ q) (node a cs)
  unfolding make_dirs
  stat-make_dirs_beside i n k parts q a cs other = elim (Option-cases (get_child n cs)) [
    | inl missing ↦
        let new = (make_dirs now path (i + 1) parts (new_dir now n)).1 in
        ground (
          arith,
          stat-cons k q a cs,
          stat-cons k q (record a { mod_time = now }) (set_child n new cs),
          get_child-set_child k n new cs,
          eq_iff n k,
        )
    | inr (c, found) ↦
        let new = (make_dirs now path (i + 1) parts c).1 in
        ground (
          arith,
          stat-cons k q a cs,
          stat-cons k q a (set_child n new cs),
          get_child-set_child k n new cs,
          eq_iff n k,
        )
  ]

  made-beside :
      (n k : String) (parts q : List String) (v : View)
      → (n == k) ≡ false
      → made now (n ∷ parts) v (k ∷ q) ≡ v (k ∷ q)
  made-beside n k parts q v other =
      go (v (k ∷ q)) (strip (k ∷ q) (n ∷ parts)) (ground (arith, eq_iff n k, eq_iff k n))
    where
      go :
          (o : Option Attrs) (rest : Option (List String))
          → rest ≡ none
          → made_at now v (k ∷ q) o rest ≡ o
      go none rest h = ground arith
      go (some b) rest h = ground arith

  stat-set_child :
      (n : String) (x : Entry) (a : Attrs) (cs : Children) (q : List String)
      → stat (n ∷ q) (node a (set_child n x cs)) ≡ stat q x
  stat-set_child n x a cs q =
      ground (arith, stat-cons n q a (set_child n x cs), get_child-set_child n n x cs, eq_iff n n)

  -- A walk that succeeds leaves every directory of the path.
  stat-make_dirs :
      (i : ℕ) (parts : List String) (e : Entry) (q : List String)
      → (make_dirs now path i parts e).0 ≡ none
      → stat q (make_dirs now path i parts e).1 ≡ made now parts (seen e) q
  unfolding make_dirs
  stat-make_dirs i [] e [] h = ground (arith, stat-nil e)
  stat-make_dirs i [] e (k ∷ q) h = ground arith
  stat-make_dirs i (n ∷ parts) (node a cs) [] h = stat-make_dirs_here i n parts a cs h
  stat-make_dirs i (n ∷ parts) (node a cs) (k ∷ q) h = elim (Bool-cases (n == k)) [
    | inl same ↦
        subst
          (λ j.
            stat (j ∷ q) (make_dirs now path i (n ∷ parts) (node a cs)).1
            ≡ made now (n ∷ parts) (seen (node a cs)) (j ∷ q))
          ((eq_iff n k).0 same)
          (elim (Option-cases (get_child n cs)) [
            | inl missing ↦
                let new = (make_dirs now path (i + 1) parts (new_dir now n)).1 in
                ground (arith, missing, stat-set_child n new (record a { mod_time = now }) cs q)
                ∙ stat-make_dirs (i + 1) parts (new_dir now n) q (make_dirs-new_dir (i + 1) parts n)
                ∙ ap (λ w. made now parts w q) (fun_ext (stat-leaf (attrs (new_dir now n))))
                ∙ made-leaf now n parts q (seen (node a cs))
                    (λ r. stat-cons n r a cs ∙ ap (stat_of r) missing)
            | inr (c, found) ↦
                let new = (make_dirs now path (i + 1) parts c).1 in
                ground (arith, found, stat-set_child n new a cs q)
                ∙ stat-make_dirs (i + 1) parts c q (ground arith)
                ∙ made-there now n parts q (seen (node a cs)) (seen c) (attrs c)
                    (λ r. stat-cons n r a cs ∙ ap (stat_of r) found) (stat-nil c)
          ])
    | inr other ↦
        stat-make_dirs_beside i n k parts q a cs other
        ∙ sym (made-beside n k parts q (seen (node a cs)) other)
  ]

module _ (now : ℕ) (p : CommandPayload) (mds : MetadataServer) where
  effect-make_dirs :
      (o : Option Error)
      → (make_dirs now p.path 0 (split_path p.path) mds.root).0 ≡ o
      → effect (apply_mkdir now p mds) ≡ spec_made now (split_path p.path) o (view mds)
  unfolding apply_mkdir
  effect-make_dirs none h =
      effect_ext h (λ q. stat-make_dirs now p.path 0 (split_path p.path) mds.root q h)
  effect-make_dirs (some e) h =
      effect_ext h (λ q. stat-make_dirs_failed now p.path 0 (split_path p.path) mds.root e q h)

  pub effect-mkdir : effect (apply_mkdir now p mds) ≡ spec_mkdir now p (view mds)
  effect-mkdir =
      effect-make_dirs (mkdir_error p.path 0 (split_path p.path) (view mds))
        (make_dirs_error now p.path 0 (split_path p.path) mds.root)
