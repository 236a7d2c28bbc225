-- ===== src/Spec/Delete.antt =====
-- `applyDelete` of internal/metadata/apply.go on a file or an empty directory: what
-- docs/filesystem-semantics.md says of a deletion.
use mathlib.Core.Path.{subst}
use file_storage.Base.{
  ℕ, String, ◌≡◌, refl, sym, ap, ◌∙◌, none, some, List, [], ◌∷◌, ◌++◌, ◌==◌, eq_iff, arith, list_eq,
  Bool-cases, Option-cases, inl, inr, if◌then◌else◌,
}
use file_storage.Path.{split_path}
use file_storage.Metadata.{CommandPayload, MetadataServer, target, split_last}
use file_storage.Metadata.{path_not_found}
use file_storage.Metadata.Delete.{apply_delete}
use file_storage.View.{View, view, touched, replaced, nothing}
use file_storage.Spec.{Effect, effect, effect_ext, at_name, are_dirs, spec_delete_at}
use file_storage.Spec.CreateFile.{effect-delete}

-- Of a map from paths: one path is taken away, and the directory gets a new time.
abbrev pub without : ℕ → List String → List String → View → View
without now path dir v q =
    if list_eq path q then none else if list_eq dir q then touched now (v q) else v q

-- Nothing stands below the path.
abbrev pub IsAlone : List String → View → Type 0
IsAlone path v = (k : String) (r : List String) → v (path ++ (k ∷ r)) ≡ none

replaced-without :
    (now : ℕ) (dir : List String) (n : String) (v : View)
    → IsAlone (at_name dir n) v
    → (q : List String) → replaced now dir n nothing v q ≡ without now (at_name dir n) dir v q
replaced-without now [] n v alone [] = refl
replaced-without now [] n v alone (k ∷ []) = ground arith
replaced-without now [] n v alone (k ∷ j ∷ r) = elim (Bool-cases (n == k)) [
  | inl same ↦ rw same (sym (subst (λ x. v (x ∷ j ∷ r) ≡ none) ((eq_iff n k).0 same) (alone j r)))
  | inr other ↦ rw other refl
]
replaced-without now (m ∷ dir) n v alone [] = refl
replaced-without now (m ∷ dir) n v alone (k ∷ q) = elim (Bool-cases (m == k)) [
  | inl same ↦
      subst
        (λ x.
          replaced now (m ∷ dir) n nothing v (x ∷ q)
          ≡ without now (m ∷ at_name dir n) (m ∷ dir) v (x ∷ q))
        ((eq_iff m k).0 same)
        (rw ((eq_iff m m).1 refl) (replaced-without now dir n (λ r. v (m ∷ r)) alone q))
  | inr other ↦ rw other refl
]

-- What a deletion of a path with nothing below it is to do.
abbrev pub spec_remove : ℕ → CommandPayload → List String → String → View → Effect
spec_remove now p dir name v =
    if are_dirs v dir
    then elim (v (at_name dir name)) [
      | none ↦ (some (path_not_found p.path), v)
      | some a ↦ (none, without now (at_name dir name) dir v)
    ]
    else (some (path_not_found p.path), v)

-- A deletion at a path below which nothing is seen: where the path or a directory on the way to it is
-- missing it gives the error that the path is not found, and changes nothing. Otherwise there is no
-- error, this path alone is gone, its directory gets the time of the command, and everything else
-- stays.
pub effect-delete_alone :
    (now : ℕ) (p : CommandPayload) (mds : MetadataServer) (dir : List String) (name : String)
    → split_last (split_path p.path) ≡ target dir name
    → IsAlone (at_name dir name) (view mds)
    → effect (apply_delete now p mds) ≡ spec_remove now p dir name (view mds)
effect-delete_alone now p mds dir name split alone =
    let v = view mds in
    effect-delete now p mds
    ∙ ap (λ t. spec_delete_at now p t v) split
    ∙ elim (Bool-cases (are_dirs v dir)) [
      | inl dirs ↦ elim (Option-cases (v (at_name dir name))) [
        | inl missing ↦ rw (dirs, missing) refl
        | inr (a, there) ↦
            rw (dirs, there) (effect_ext refl (λ q. replaced-without now dir name v alone q))
      ]
      | inr broken ↦ rw broken refl
    ]
