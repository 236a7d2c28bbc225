-- ===== src/Tree/Laws.antt =====
-- Laws of the directory tree: what is seen at one path after a write at another.
use file_storage.Base.{
  String, true, ◌≡◌, refl, Option, none, some, List, [], ◌∷◌, ◌++◌, arith, ◌==◌, eq_iff,
  if◌then◌else◌, strip, strip-eq_some, ap, sym, ◌∙◌, append-nil, Option-cases, inl, inr,
}
use file_storage.Tree.{
  Attrs, Entry, node, Children, nil, child, attrs, children, get_child, set_child, remove_child,
  walk, walk_dirs, modify, stat,
}

pub get_child-set_child :
    (k j : String) (v : Entry) (cs : Children)
    → get_child k (set_child j v cs) ≡ (if j == k then some v else get_child k cs)
unfolding get_child set_child
get_child-set_child k j v nil = refl
get_child-set_child k j v (child i e cs) =
    ground (arith, get_child-set_child k j v cs, eq_iff i j, eq_iff i k, eq_iff j k)

pub get_child-remove_child :
    (k j : String) (cs : Children)
    → get_child k (remove_child j cs) ≡ (if j == k then none else get_child k cs)
unfolding get_child remove_child
get_child-remove_child k j nil = ground arith
get_child-remove_child k j (child i e cs) =
    ground (arith, get_child-remove_child k j cs, eq_iff i j, eq_iff i k, eq_iff j k)

-- What `stat r` shows of an entry that may be missing.
abbrev pub stat_of : List String → Option Entry → Option Attrs
stat_of r none = none
stat_of r (some x) = stat r x

pub stat-cons :
    (n : String) (q : List String) (a : Attrs) (cs : Children)
    → stat (n ∷ q) (node a cs) ≡ stat_of q (get_child n cs)
unfolding stat walk
stat-cons n q a cs = ground arith

-- What `f` leaves of the entry at `p`, seen from behind it.
abbrev pub after : (Entry → Entry) → List String → Option Entry → Option Attrs
after f r none = none
after f r (some x) = stat r (f x)

abbrev pub or_same :
    (List String → Option Attrs) → Option Attrs → Option (List String) → Option Attrs
or_same here else_ none = else_
or_same here else_ (some r) = here r

pub stat-nil : (e : Entry) → stat [] e ≡ some (attrs e)
unfolding stat walk
stat-nil e = refl

pub attrs-modify :
    (n : String) (p : List String) (f : Entry → Entry) (e : Entry)
    → attrs (modify (n ∷ p) f e) ≡ attrs e
unfolding modify
attrs-modify n p f (node a cs) = ground arith

-- A write at `p` shows at `p` and below it, and nowhere else.
pub stat-modify :
    (p q : List String) (f : Entry → Entry) (e : Entry)
    → stat q (modify p f e) ≡ or_same (λ r. after f r (walk p e)) (stat q e) (strip p q)
unfolding modify walk
stat-modify [] q f e = refl
stat-modify (n ∷ p) [] f e =
    ground (arith, stat-nil e, stat-nil (modify (n ∷ p) f e), attrs-modify n p f e)
stat-modify (n ∷ p) (k ∷ q) f (node a cs) = elim (Option-cases (get_child n cs)) [
  | inl missing ↦ ground (arith, missing, stat-cons k q a cs, eq_iff n k)
  | inr (c, found) ↦ ground (
    arith,
    found,
    stat-cons k q a cs,
    stat-cons k q a (set_child n (modify p f c) cs),
    get_child-set_child k n (modify p f c) cs,
    stat-modify p q f c,
    eq_iff n k,
  )
]

pub stat-append : (p r : List String) (e : Entry) → stat (p ++ r) e ≡ stat_of r (walk p e)
unfolding walk
stat-append [] r e = refl
stat-append (n ∷ p) r (node a cs) = elim (Option-cases (get_child n cs)) [
  | inl missing ↦ ground (arith, stat-cons n (p ++ r) a cs, missing)
  | inr (c, found) ↦ ground (arith, stat-cons n (p ++ r) a cs, found, stat-append p r c)
]

pub stat-walk : (p : List String) (e : Entry) → stat p e ≡ stat_of [] (walk p e)
stat-walk p e = ap (λ s. stat s e) (sym (append-nil p)) ∙ stat-append p [] e

pub stat-strip :
    (p q r : List String) (e : Entry) → strip p q ≡ some r → stat q e ≡ stat_of r (walk p e)
stat-strip p q r e h = ap (λ s. stat s e) (strip-eq_some p q r h) ∙ stat-append p r e

-- A walk that asks for directories finds what a walk finds.
pub walk-walk_dirs : (p : List String) (e d : Entry) → walk_dirs p e ≡ some d → walk p e ≡ some d
unfolding walk walk_dirs
walk-walk_dirs [] e d h = h
walk-walk_dirs (n ∷ p) (node a cs) d h = elim (Option-cases (get_child n cs)) [
  | inl missing ↦ ground (arith, missing)
  | inr (c, found) ↦ ground (arith, found, walk-walk_dirs p c d)
]

module _ (n : String) (x : Entry) where
  pub walk-append_name :
      (p : List String) (e d : Entry)
      → walk p e ≡ some d
      → get_child n (children d) ≡ some x
      → walk (p ++ (n ∷ [])) e ≡ some x
  unfolding walk
  walk-append_name [] (node a cs) d h g = ground arith
  walk-append_name (k ∷ p) (node a cs) d h g = elim (Option-cases (get_child k cs)) [
    | inl missing ↦ ground arith
    | inr (c, found) ↦ ground (arith, walk-append_name p c d)
  ]

  pub walk_dirs-append_name :
      (p : List String) (e d : Entry)
      → walk_dirs p e ≡ some d
      → get_child n (children d) ≡ some x
      → (attrs x).is_dir ≡ true
      → walk_dirs (p ++ (n ∷ [])) e ≡ some x
  unfolding walk_dirs
  walk_dirs-append_name [] (node a cs) d h g is = ground arith
  walk_dirs-append_name (k ∷ p) (node a cs) d h g is = elim (Option-cases (get_child k cs)) [
    | inl missing ↦ ground arith
    | inr (c, found) ↦ ground (arith, walk_dirs-append_name p c d)
  ]
