-- ===== src/Spec/Rename/Cycle.antt =====
-- The check of `applyRename` of internal/metadata/apply.go against cycles: the walk along the
-- destination's directories.
use file_storage.Base.{
  String, false, ◌≡◌, refl, none, some, List, [], ◌∷◌, ◌++◌, arith, append_assoc, append-nil, ◌==◌,
  eq_iff, strip, strip-append, strip-append_left, list_eq, list_eq-strip, list_eq_refl,
  Option-cases, Bool-cases, inl, inr,
}
use file_storage.Tree.{Entry, node, get_child, walk_dirs}
use file_storage.Metadata.Rename.{meets}
use file_storage.Spec.{is_below}

-- A walk that has left the way to the source does not come back to it.
meets_apart :
    (src at parts : List String) (e : Entry) → strip at src ≡ none → meets src at parts e ≡ false
unfolding meets
meets_apart src at [] e h = ground (arith, list_eq-strip at src)
meets_apart src at (k ∷ parts) (node a cs) h = elim (Option-cases (get_child k cs)) [
  | inl missing ↦ ground (arith, list_eq-strip at src)
  | inr (c, found) ↦ ground (
    arith,
    list_eq-strip at src,
    strip-append_left at (k ∷ []) src,
    meets_apart src (at ++ (k ∷ [])) parts c,
  )
]

list_eq-append_cons :
    (p : List String) (n : String) (q : List String) → list_eq p (p ++ (n ∷ q)) ≡ false
list_eq-append_cons [] n q = refl
list_eq-append_cons (k ∷ p) n q = ground (arith, list_eq-append_cons p n q)

-- On the way to the source, `rest` still to go: the walk meets it if `rest` begins what it walks.
meets_on_way :
    (at rest parts : List String) (e d : Entry)
    → walk_dirs rest e ≡ some d
    → meets (at ++ rest) at parts e ≡ is_below rest parts
unfolding meets walk_dirs
meets_on_way at [] [] e d h = rw append-nil (list_eq_refl at)
meets_on_way at [] (k ∷ parts) e d h = rw append-nil (ground (arith, list_eq_refl at))
meets_on_way at (n ∷ rest) [] e d h = list_eq-append_cons at n rest
meets_on_way at (n ∷ rest) (k ∷ parts) (node a cs) d h = elim (Option-cases (get_child n cs)) [
  | inl missing ↦ ground arith
  | inr (c, found) ↦ elim (Bool-cases (n == k)) [
    | inl same ↦ ground (
      arith,
      list_eq-append_cons at n rest,
      eq_iff n k,
      append_assoc at (n ∷ []) rest,
      meets_on_way (at ++ (n ∷ [])) rest parts c d,
    )
    | inr other ↦ elim (Option-cases (get_child k cs)) [
      | inl gone ↦ ground (arith, list_eq-append_cons at n rest)
      | inr (b, there) ↦ ground (
        arith,
        list_eq-append_cons at n rest,
        strip-append_left at (k ∷ []) (at ++ (n ∷ rest)),
        strip-append at (n ∷ rest),
        eq_iff n k,
        eq_iff k n,
        meets_apart (at ++ (n ∷ rest)) (at ++ (k ∷ [])) parts b,
      )
    ]
  ]
]

-- For a source whose path leads through directories only, itself included, the walk meets the
-- source exactly when the path of the source begins the path that is walked.
pub meets-eq-is_below :
    (src parts : List String) (root d : Entry)
    → walk_dirs src root ≡ some d
    → meets src [] parts root ≡ is_below src parts
meets-eq-is_below src parts root d h = meets_on_way [] src parts root d h
