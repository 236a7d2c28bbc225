-- ===== src/Path/Split.antt =====
-- `splitPath` of internal/metadata/mds.go against its plain reading.
use Prim.Native.Char.{Char}
use file_storage.Base.{
  String, ◌≡◌, refl, true, false, List, [], ◌∷◌, arith, sym, ◌∙◌, ap, Bool-cases, inl, inr,
  if◌then◌else◌,
}
use file_storage.Path.{
  is_slash, trim_prefix, trim_suffix, put_front, split, is_empty, keep_names, split_path,
}

pub keep_names-trim_prefix :
    (s : String) → keep_names (split (trim_prefix s)) ≡ keep_names (split s)
unfolding trim_prefix split keep_names
keep_names-trim_prefix String.[] = refl
keep_names-trim_prefix (String.◌∷◌ c s) = ground arith

abbrev pub first : List String → String
first [] = ""
first (w ∷ ws) = w

abbrev pub others : List String → List String
others [] = []
others (w ∷ ws) = ws

keep_names-put_front :
    (c : Char) (ws : List String)
    → keep_names (put_front c ws) ≡ String.◌∷◌ c (first ws) ∷ keep_names (others ws)
unfolding keep_names
keep_names-put_front c [] = refl
keep_names-put_front c (w ∷ ws) = refl

pub keep_names-others :
    (ws : List String)
    → keep_names ws
      ≡ (if is_empty (first ws) then keep_names (others ws) else first ws ∷ keep_names (others ws))
unfolding keep_names
keep_names-others [] = refl
keep_names-others (w ∷ ws) = refl

module _ (c : Char) (s : String) where
  pub split-slash : is_slash c ≡ true → split (String.◌∷◌ c s) ≡ "" ∷ split s
  unfolding split
  split-slash h = rw h

  pub split-other : is_slash c ≡ false → split (String.◌∷◌ c s) ≡ put_front c (split s)
  unfolding split
  split-other h = rw h

pub first-put_front :
    (c : Char) (ws : List String) → first (put_front c ws) ≡ String.◌∷◌ c (first ws)
first-put_front c [] = refl
first-put_front c (w ∷ ws) = refl

pub others-put_front : (c : Char) (ws : List String) → others (put_front c ws) ≡ others ws
others-put_front c [] = refl
others-put_front c (w ∷ ws) = refl

-- Two texts whose parts agree but for empty ones behind the first.
abbrev Agree : String → String → Type 0
Agree s t =
    (first (split s) ≡ first (split t))
    × (keep_names (others (split s)) ≡ keep_names (others (split t)))

Agree-names : (s t : String) → Agree s t → keep_names (split s) ≡ keep_names (split t)
Agree-names s t (h, k) = rw (keep_names-others (split s), keep_names-others (split t), h, k)

Agree-cons : (c : Char) (s t : String) → Agree s t → Agree (String.◌∷◌ c s) (String.◌∷◌ c t)
Agree-cons c s t h = elim (Bool-cases (is_slash c)) [
  | inl slash ↦ rw (split-slash c s slash, split-slash c t slash) (refl, Agree-names s t h)
  | inr other ↦
      simp (split-other c s other, split-other c t other, first-put_front, others-put_front)
        (ap (λ w. String.◌∷◌ c w) h.0, h.1)
]

-- A slash at the end adds an empty part at most.
Agree-trim_suffix : (s : String) → Agree (trim_suffix s) s
unfolding trim_suffix
Agree-trim_suffix String.[] = (refl, refl)
Agree-trim_suffix (String.◌∷◌ c String.[]) = elim (Bool-cases (is_slash c)) [
  | inl slash ↦ rw slash (rw (split-slash c "" slash) (unfold split keep_names in (refl, refl)))
  | inr other ↦ rw other (refl, refl)
]
Agree-trim_suffix (String.◌∷◌ c (String.◌∷◌ d s)) =
    Agree-cons c _ _ (Agree-trim_suffix (String.◌∷◌ d s))

keep_names-is_empty : (s : String) → is_empty s ≡ true → keep_names (split s) ≡ []
unfolding split keep_names
keep_names-is_empty String.[] h = refl
keep_names-is_empty (String.◌∷◌ c s) h = cc

-- `split_path` keeps the parts between slashes that are not empty: trimming the path first
-- changes nothing, whatever slashes it begins and ends with.
pub split_path_lem : (s : String) → split_path s ≡ keep_names (split s)
unfolding split_path
split_path_lem s = elim (Bool-cases (is_empty (trim_suffix (trim_prefix s)))) [
  | inl empty ↦ rw empty (sym (keep_names-is_empty _ empty) ∙ trimmed)
  | inr full ↦ rw full trimmed
]
  where
    trimmed : keep_names (split (trim_suffix (trim_prefix s))) ≡ keep_names (split s)
    trimmed =
        Agree-names (trim_suffix (trim_prefix s)) (trim_prefix s)
          (Agree-trim_suffix (trim_prefix s))
        ∙ keep_names-trim_prefix s
