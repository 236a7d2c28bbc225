-- ===== src/View/Writes.antt =====
-- Writes at one place of the tree, in the abstract view.
use file_storage.Base.{
  String, ◌≡◌, refl, sym, ◌∙◌, Option, none, some, List, [], ◌∷◌, ◌++◌, arith, eq_iff, strip,
  strip-append_left, list_eq-strip, Option-cases, inl, inr,
}
use file_storage.Tree.{
  Attrs, Entry, node, attrs, on_attrs, set_child, remove_child, walk, modify, stat,
}
use file_storage.Tree.Laws.{
  get_child-set_child, get_child-remove_child, stat-cons, stat-nil, stat-strip, or_same,
  stat-modify,
}
use file_storage.Metadata.Rename.{unlink, attach}
use file_storage.View.{changed, nothing}

-- Seen from an entry whose fields change.
stat-on_attrs_self : (f : Attrs → Attrs) (e : Entry) → stat [] (on_attrs f e) ≡ some (f (attrs e))
stat-on_attrs_self f (node a cs) = stat-nil (node (f a) cs)

stat-on_attrs_below :
    (f : Attrs → Attrs) (e : Entry) (k : String) (r : List String)
    → stat (k ∷ r) (on_attrs f e) ≡ stat (k ∷ r) e
stat-on_attrs_below f (node a cs) k r = stat-cons k r (f a) cs ∙ sym (stat-cons k r a cs)

stat-on_attrs_at :
    (f : Attrs → Attrs) (at : List String) (e : Entry) (q : List String)
    (rest : Option (List String))
    → strip at q ≡ rest
    → stat q (modify at (on_attrs f) e) ≡ changed f at (λ p. stat p e) q
stat-on_attrs_at f at e q none h =
    ground (arith, stat-modify at q (on_attrs f) e, list_eq-strip at q)
stat-on_attrs_at f at e q (some []) h = elim (Option-cases (walk at e)) [
  | inl missing ↦
      ground (arith, stat-modify at q (on_attrs f) e, list_eq-strip at q, stat-strip at q [] e)
  | inr (x, found) ↦ ground (
    arith,
    stat-modify at q (on_attrs f) e,
    list_eq-strip at q,
    stat-strip at q [] e,
    stat-on_attrs_self f x,
    stat-nil x,
  )
]
stat-on_attrs_at f at e q (some (k ∷ r)) h = elim (Option-cases (walk at e)) [
  | inl missing ↦
      ground (arith, stat-modify at q (on_attrs f) e, list_eq-strip at q, stat-strip at q (k ∷ r) e)
  | inr (x, found) ↦ ground (
    arith,
    stat-modify at q (on_attrs f) e,
    list_eq-strip at q,
    stat-strip at q (k ∷ r) e,
    stat-on_attrs_below f x k r,
  )
]

-- New fields show at their entry and nowhere else.
pub stat-modify-on_attrs :
    (f : Attrs → Attrs) (at : List String) (e : Entry) (q : List String)
    → stat q (modify at (on_attrs f) e) ≡ changed f at (λ p. stat p e) q
stat-modify-on_attrs f at e q = stat-on_attrs_at f at e q (strip at q) refl

-- What is seen behind a directory that lost its child `n`.
stat-unlink :
    (n : String) (d : Entry) (r : List String)
    → stat r (unlink n d) ≡ or_same nothing (stat r d) (strip (n ∷ []) r)
stat-unlink n (node a cs) [] = ground (arith, stat-nil (node a cs), stat-nil (unlink n (node a cs)))
stat-unlink n (node a cs) (k ∷ r) = ground (
  arith,
  stat-cons k r a cs,
  stat-cons k r a (remove_child n cs),
  get_child-remove_child k n cs,
  eq_iff n k,
)

stat-attach :
    (n : String) (x d : Entry) (r : List String)
    → stat r (attach n x d) ≡ or_same (λ s. stat s x) (stat r d) (strip (n ∷ []) r)
stat-attach n x (node a cs) [] =
    ground (arith, stat-nil (node a cs), stat-nil (attach n x (node a cs)))
stat-attach n x (node a cs) (k ∷ r) = ground (
  arith,
  stat-cons k r a cs,
  stat-cons k r a (set_child n x cs),
  get_child-set_child k n x cs,
  eq_iff n k,
)

module _ (n : String) (dir : List String) (root : Entry) (q : List String) where
  stat-unlink_at :
      (rest : Option (List String))
      → strip dir q ≡ rest
      → stat q (modify dir (unlink n) root)
        ≡ or_same nothing (stat q root) (strip (dir ++ (n ∷ [])) q)
  stat-unlink_at none h =
      ground (arith, stat-modify dir q (unlink n) root, strip-append_left dir (n ∷ []) q)
  stat-unlink_at (some r) h = elim (Option-cases (walk dir root)) [
    | inl missing ↦ ground (
      arith,
      stat-modify dir q (unlink n) root,
      strip-append_left dir (n ∷ []) q,
      stat-strip dir q r root,
    )
    | inr (d, found) ↦ ground (
      arith,
      stat-modify dir q (unlink n) root,
      strip-append_left dir (n ∷ []) q,
      stat-strip dir q r root,
      stat-unlink n d r,
    )
  ]

  -- A child that leaves takes with it all that is below it, and nothing else.
  pub stat-modify-unlink :
      stat q (modify dir (unlink n) root)
      ≡ or_same nothing (stat q root) (strip (dir ++ (n ∷ [])) q)
  stat-modify-unlink = stat-unlink_at (strip dir q) refl

  stat-attach_at :
      (x d : Entry) (rest : Option (List String))
      → walk dir root ≡ some d
      → strip dir q ≡ rest
      → stat q (modify dir (attach n x) root)
        ≡ or_same (λ s. stat s x) (stat q root) (strip (dir ++ (n ∷ [])) q)
  stat-attach_at x d none found h =
      ground (arith, stat-modify dir q (attach n x) root, strip-append_left dir (n ∷ []) q)
  stat-attach_at x d (some r) found h = ground (
    arith,
    stat-modify dir q (attach n x) root,
    strip-append_left dir (n ∷ []) q,
    stat-strip dir q r root,
    stat-attach n x d r,
  )

  -- A child that enters an existing directory shows with all that is below it.
  pub stat-modify-attach :
      (x d : Entry)
      → walk dir root ≡ some d
      → stat q (modify dir (attach n x) root)
        ≡ or_same (λ s. stat s x) (stat q root) (strip (dir ++ (n ∷ [])) q)
  stat-modify-attach x d found = stat-attach_at x d (strip dir q) found refl
