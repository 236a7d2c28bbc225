-- ===== src/View/Links.antt =====
-- A write of one name in a directory, in the abstract view.
use file_storage.Base.{
  ℕ, String, ◌≡◌, some, List, [], ◌∷◌, arith, eq_iff, strip, strip-eq_some, Option-cases, inl, inr,
}
use file_storage.Tree.{
  Attrs, nil, get_child, Entry, node, set_child, remove_child, walk, modify, stat,
}
use file_storage.Tree.Laws.{
  get_child-set_child, get_child-remove_child, stat-cons, stat-nil, stat-append, stat-modify,
}
use file_storage.Metadata.{put_in, drop_in}
use file_storage.View.{behind, replaced, leaf, nothing}

-- Seen from the directory itself.
stat-put_in :
    (now : ℕ) (n : String) (x d : Entry) (r : List String)
    → stat r (put_in now n x d) ≡ behind now n (λ s. stat s x) (stat r d) (some r)
stat-put_in now n x (node a cs) [] =
    ground (arith, stat-nil (node a cs), stat-nil (put_in now n x (node a cs)))
stat-put_in now n x (node a cs) (k ∷ r) = ground (
  arith,
  stat-cons k r a cs,
  stat-cons k r (record a { mod_time = now }) (set_child n x cs),
  get_child-set_child k n x cs,
  eq_iff n k,
)

stat-drop_in :
    (now : ℕ) (n : String) (d : Entry) (r : List String)
    → stat r (drop_in now n d) ≡ behind now n nothing (stat r d) (some r)
stat-drop_in now n (node a cs) [] =
    ground (arith, stat-nil (node a cs), stat-nil (drop_in now n (node a cs)))
stat-drop_in now n (node a cs) (k ∷ r) = ground (
  arith,
  stat-cons k r a cs,
  stat-cons k r (record a { mod_time = now }) (remove_child n cs),
  get_child-remove_child k n cs,
  eq_iff n k,
)

module _ (now : ℕ) (n : String) (dir : List String) (root d : Entry)
    (found : walk dir root ≡ some d) where
  -- What is seen behind a directory is what the directory shows.
  stat-behind : (q r : List String) → strip dir q ≡ some r → stat q root ≡ stat r d
  stat-behind q r h = ground (arith, strip-eq_some dir q r h, stat-append dir r root)

  pub stat-modify-put_in :
      (x : Entry) (q : List String)
      → stat q (modify dir (put_in now n x) root)
        ≡ replaced now dir n (λ s. stat s x) (λ p. stat p root) q
  stat-modify-put_in x q = elim (Option-cases (strip dir q)) [
    | inl other ↦ ground (arith, stat-modify dir q (put_in now n x) root)
    | inr (r, below) ↦ ground (
      arith,
      stat-modify dir q (put_in now n x) root,
      stat-behind q r below,
      stat-put_in now n x d r,
    )
  ]

  pub stat-modify-drop_in :
      (q : List String)
      → stat q (modify dir (drop_in now n) root) ≡ replaced now dir n nothing (λ p. stat p root) q
  stat-modify-drop_in q = elim (Option-cases (strip dir q)) [
    | inl other ↦ ground (arith, stat-modify dir q (drop_in now n) root)
    | inr (r, below) ↦ ground (
      arith,
      stat-modify dir q (drop_in now n) root,
      stat-behind q r below,
      stat-drop_in now n d r,
    )
  ]

pub stat-leaf : (a : Attrs) (q : List String) → stat q (node a nil) ≡ leaf a q
unfolding get_child
stat-leaf a [] = stat-nil (node a nil)
stat-leaf a (k ∷ q) = stat-cons k q a nil
