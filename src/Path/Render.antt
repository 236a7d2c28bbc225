-- ===== src/Path/Render.antt =====
-- Paths written from names, and read back by `splitPath` of internal/metadata/mds.go.
use Prim.Native.String.append
use mathlib.Core.Bool.{false≢true}
use mathlib.Core.Path.{◌≡⟨◌⟩◌, ◌∎}
use file_storage.Base.{
  String, ◌<>◌, ◌≡◌, refl, sym, ◌∙◌, ap, true, List, [], ◌∷◌, Bool-cases, inl, inr,
}
use file_storage.Path.{is_slash, split, keep_names, split_path}
use file_storage.Path.Split.{
  first, others, keep_names-others, split-slash, split-other, first-put_front, others-put_front,
  split_path_lem,
}
use file_storage.Path.Names.{has_no_slash, is_name, AreNames}

-- The path of a list of names: a slash in front of each.
unfoldable pub render : List String → String
render [] = ""
render (w ∷ ws) = String.◌∷◌ "/" (w <> render ws)

append-empty : (w : String) → w <> "" ≡ w
append-empty String.[] = append.nil ""
append-empty (String.◌∷◌ c w) = append.cons c w "" ∙ ap (λ v. String.◌∷◌ c v) (append-empty w)

-- A text without a slash in front stands at the beginning of the first part.
split-append :
    (w t : String)
    → has_no_slash w ≡ true
    → (first (split (w <> t)) ≡ w <> first (split t)) × (others (split (w <> t)) ≡ others (split t))
split-append String.[] t h = simp append.nil (refl, refl)
split-append (String.◌∷◌ c w) t h = elim (Bool-cases (is_slash c)) [
  | inl slash ↦ absurd (false≢true (rw slash at h))
  | inr other ↦
      let (f, o) = split-append w t (rw other at h) in
      simp (append.cons, split-other c (w <> t) other, first-put_front, others-put_front)
        (ap (λ v. String.◌∷◌ c v) f, o)
]

split-render :
    (w : String) (ws : List String) → split (render (w ∷ ws)) ≡ "" ∷ split (w <> render ws)
unfolding render
split-render w ws = split-slash "/" (w <> render ws) (unfold is_slash in refl)

first-split-render : (ws : List String) → first (split (render ws)) ≡ ""
first-split-render [] = unfold render split in refl
first-split-render (w ∷ ws) = rw split-render

keep_names-skip : (ws : List String) → keep_names ("" ∷ ws) ≡ keep_names ws
unfolding keep_names
keep_names-skip ws = refl

keep_names-others-empty :
    (ws : List String) → first ws ≡ "" → keep_names ws ≡ keep_names (others ws)
keep_names-others-empty ws h = keep_names-others ws ∙ rw h

name-has_no_slash : (w : String) → is_name w ≡ true → has_no_slash w ≡ true
name-has_no_slash String.[] h = refl
name-has_no_slash (String.◌∷◌ c w) h = h

keep_names-first :
    (w : String) (ws : List String)
    → is_name w ≡ true
    → first ws ≡ w
    → keep_names ws ≡ w ∷ keep_names (others ws)
keep_names-first String.[] ws n h = absurd (false≢true n)
keep_names-first (String.◌∷◌ c w) ws n h = keep_names-others ws ∙ rw h

keep_names-split-render : (ws : List String) → AreNames ws → keep_names (split (render ws)) ≡ ws
keep_names-split-render [] a = unfold render split keep_names in refl
keep_names-split-render (w ∷ ws) a =
    let (f, o) = split-append w (render ws) (name-has_no_slash w a.0) in
    keep_names (split (render (w ∷ ws)))
    ≡⟨ ap keep_names (split-render w ws) ∙ keep_names-skip (split (w <> render ws)) ⟩
      keep_names (split (w <> render ws))
    ≡⟨ keep_names-first w _ a.0 (f ∙ ap (λ v. w <> v) (first-split-render ws) ∙ append-empty w) ⟩
      w ∷ keep_names (others (split (w <> render ws)))
    ≡⟨ ap (λ v. w ∷ keep_names v) o ⟩ w ∷ keep_names (others (split (render ws)))
    ≡⟨ ap (λ v. w ∷ v) (sym (keep_names-others-empty _ (first-split-render ws))) ⟩
      w ∷ keep_names (split (render ws))
    ≡⟨ ap (λ v. w ∷ v) (keep_names-split-render ws a.1) ⟩ w ∷ ws ∎

-- A list of names is read back from its path.
pub split_path-render : (ws : List String) → AreNames ws → split_path (render ws) ≡ ws
split_path-render ws a = split_path_lem (render ws) ∙ keep_names-split-render ws a
