-- ===== src/DataNode/Resolve/Safe.antt =====
-- The real paths that `resolvePath` of internal/datanode/datanode.go gives.
use mathlib.Core.Bool.{false≢true}
use mathlib.Core.List.{reverse, reverse_aux, reverse-cons}
use file_storage.Base.{
  String, ◌<>◌, Bool, true, false, not, ◌&&◌, ◌||◌, ◌≡◌, refl, ap, sym, ◌∙◌, Option, none, some,
  List, [], ◌∷◌, ◌++◌, append_assoc, append-nil, arith, ◌==◌, eq_iff, if◌then◌else◌, Bool-cases,
  inl, inr,
}
use file_storage.Text.{contains_text, contains_text-append_false, contains_text-cons_false}
use file_storage.Path.{is_slash, trim_prefix, split, split_path, keep_names}
use file_storage.Path.Split.{split_path_lem, split-slash, keep_names-trim_prefix}
use file_storage.Path.Names.{is_name, AreNames, split_path-AreNames}
use file_storage.Path.Render.{render, split_path-render}
use file_storage.DataNode.Resolve.Dots.{render-cons, contains_text-slash, no_dots-append}
use file_storage.DataNode.Resolve.{parent, clean_names, clean_text, resolve_path}

-- A name of a file below the data directory: no slash, not ".", and nowhere two dots.
abbrev pub is_plain : String → Bool
is_plain n = is_name n && not (n == ".") && not (contains_text ".." n)

abbrev pub ArePlain : List String → Type 0
ArePlain [] = Unit {0}
ArePlain (n ∷ names) = (is_plain n ≡ true) × ArePlain names

-- The empty parts do not count.
clean_names-keep_names :
    (stack parts : List String) → clean_names stack (keep_names parts) ≡ clean_names stack parts
unfolding clean_names keep_names
clean_names-keep_names stack [] = refl
clean_names-keep_names stack (String.[] ∷ parts) = clean_names-keep_names stack parts
clean_names-keep_names stack (String.◌∷◌ c w ∷ parts) =
    clean_names-keep_names
      (if (String.◌∷◌ c w) == "" || (String.◌∷◌ c w) == "."
        then stack
        else if (String.◌∷◌ c w) == ".."
        then parent stack
        else (String.◌∷◌ c w) ∷ stack)
      parts

clean_names-split :
    (path : String)
    → clean_names [] (split (String.◌∷◌ "/" (trim_prefix path))) ≡ clean_names [] (split_path path)
clean_names-split path =
    sym (clean_names-keep_names [] (split (String.◌∷◌ "/" (trim_prefix path))))
    ∙ ap (λ ws. clean_names [] (keep_names ws))
        (split-slash "/" (trim_prefix path) (unfold is_slash in refl))
    ∙ ap (clean_names []) (skip (split (trim_prefix path)) ∙ keep_names-trim_prefix path)
    ∙ ap (clean_names []) (sym (split_path_lem path))
  where
    skip : (ws : List String) → keep_names ("" ∷ ws) ≡ keep_names ws
    skip ws = unfold keep_names in refl

-- Names that are no dots.
abbrev AreClean : List String → Type 0
AreClean [] = Unit {0}
AreClean (n ∷ names) = (is_name n ≡ true) × (n == "." ≡ false) × AreClean names

AreClean-reverse_aux :
    (xs ys : List String) → AreClean xs → AreClean ys → AreClean (reverse_aux xs ys)
AreClean-reverse_aux [] ys a b = b
AreClean-reverse_aux (x ∷ xs) ys a b = AreClean-reverse_aux xs (x ∷ ys) a.2 (a.0, a.1, b)

AreClean-parent : (names : List String) → AreClean names → AreClean (parent names)
AreClean-parent [] a = tt
AreClean-parent (n ∷ names) a = a.2

clean_names-AreClean :
    (stack parts : List String)
    → AreClean stack
    → AreNames parts
    → AreClean (clean_names stack parts)
unfolding clean_names
clean_names-AreClean stack [] a n = AreClean-reverse_aux stack [] a tt
clean_names-AreClean stack (part ∷ parts) a n = elim (Bool-cases (part == "" || part == ".")) [
  | inl skipped ↦ rw skipped (clean_names-AreClean stack parts a n.1)
  | inr kept ↦ elim (Bool-cases (part == "..")) [
    | inl up ↦
        rw (kept, up) (clean_names-AreClean (parent stack) parts (AreClean-parent stack a) n.1)
    | inr down ↦
        rw (kept, down) (clean_names-AreClean (part ∷ stack) parts (n.0, ground arith, a) n.1)
  ]
]

-- A part of the text without two dots is without them.
contains_text-render :
    (names : List String)
    → AreClean names
    → contains_text ".." (render names) ≡ false
    → ArePlain names
unfolding render
contains_text-render [] a h = tt
contains_text-render (n ∷ names) a h =
    let (here, rest) =
      contains_text-append_false ".." n (render names)
        (contains_text-cons_false ".." (n <> render names) "/" h) in
    (ground arith, contains_text-render names a.2 rest)

clean_text-ArePlain :
    (names : List String)
    → AreClean names
    → contains_text ".." (clean_text names) ≡ false
    → ArePlain names
clean_text-ArePlain [] a h = tt
clean_text-ArePlain (n ∷ names) a h = contains_text-render (n ∷ names) a h

-- What the check lets through.
guarded : List String → Option (List String)
guarded names = if contains_text ".." (clean_text names) then none else some names

guarded-some :
    (clean names : List String)
    → guarded clean ≡ some names
    → (clean ≡ names) × (contains_text ".." (clean_text clean) ≡ false)
unfolding guarded
guarded-some clean names h = ground arith

-- A path that is accepted leads to names below the data directory, none of which has a slash or
-- two dots in it.
pub resolve_path-ArePlain :
    (path : String) (names : List String) → resolve_path path ≡ some names → ArePlain names
unfolding resolve_path guarded
resolve_path-ArePlain path names h =
    let clean = clean_names [] (split (String.◌∷◌ "/" (trim_prefix path))) in
    let (same, free) = guarded-some clean names h in
    rw (← same) (
      clean_text-ArePlain clean
        (rw (clean_names-split path)
          (clean_names-AreClean [] (split_path path) tt (split_path-AreNames path)))
        free)

two_dots : contains_text ".." ".." ≡ true
unfolding contains_text
two_dots = refl

plain-not_empty : (m : String) → is_plain m ≡ true → m == "" ≡ false
plain-not_empty m h = elim (Bool-cases (m == "")) [
  | inl same ↦ absurd (false≢true (sym (no_plain m ((eq_iff m "").0 same)) ∙ h))
  | inr other ↦ other
]
  where
    no_plain : (w : String) → w ≡ "" → is_plain w ≡ false
    no_plain w e = rw e refl

clean_names-plain :
    (stack names : List String) → ArePlain names → clean_names stack names ≡ reverse stack ++ names
unfolding clean_names
clean_names-plain stack [] a = sym (append-nil (reverse stack))
clean_names-plain stack (n ∷ names) a = rw (plain_test n a.0) (
    clean_names-plain (n ∷ stack) names a.1
    ∙ ap (λ xs. xs ++ names) (reverse-cons n stack)
    ∙ append_assoc (reverse stack) (n ∷ []) names)
  where
    plain_test :
        (m : String)
        → is_plain m ≡ true
        → (if m == "" || m == "." then stack else if m == ".." then parent stack else m ∷ stack)
          ≡ m ∷ stack
    plain_test m h = ground (arith, plain-not_empty m h, eq_iff m "..", two_dots)

render-no_dots : (names : List String) → ArePlain names → contains_text ".." (render names) ≡ false
render-no_dots [] a = unfold render contains_text in refl
render-no_dots (n ∷ names) a =
    ap (contains_text "..") (render-cons n names)
    ∙ contains_text-slash (n <> render names)
    ∙ no_dots-append n names (ground arith) (render-no_dots names a.1)

plain-AreNames : (names : List String) → ArePlain names → AreNames names
plain-AreNames [] a = tt
plain-AreNames (n ∷ names) a = (ground arith, plain-AreNames names a.1)

clean_text-no_dots :
    (names : List String) → ArePlain names → contains_text ".." (clean_text names) ≡ false
clean_text-no_dots [] a = unfold contains_text in refl
clean_text-no_dots (n ∷ names) a = render-no_dots (n ∷ names) a

guarded-plain : (names : List String) → ArePlain names → guarded names ≡ some names
unfolding guarded
guarded-plain names a = rw (clean_text-no_dots names a) refl

-- The path that is written from such names is accepted, and leads to them.
pub resolve_path-render :
    (names : List String) → ArePlain names → resolve_path (render names) ≡ some names
unfolding resolve_path guarded
resolve_path-render names a =
    ap guarded (
      clean_names-split (render names)
      ∙ ap (clean_names []) (split_path-render names (plain-AreNames names a))
      ∙ clean_names-plain [] names a)
    ∙ guarded-plain names a
