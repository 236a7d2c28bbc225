-- ===== src/Text.antt =====
-- What internal/metadata, internal/datanode and internal/client use of package strings.
pub mod Trim
use Prim.Native.Char.{Char, code}
use Prim.Native.String.append
use file_storage.Base.{
  Option-cases, ℕ, suc, ◌+◌, ◌<◌, ap, false, eq_iff, Bool-cases, inl, inr, true, String, ◌<>◌, Bool,
  ◌||◌, ◌==◌, is_some, ◌≡◌, refl, Option, none, some, eqb, arith, if◌then◌else◌,
}

-- What follows a prefix, if the text has it.
unfoldable pub after_prefix : String → String → Option String
after_prefix String.[] s = some s
after_prefix (String.◌∷◌ c p) String.[] = none
after_prefix (String.◌∷◌ c p) (String.◌∷◌ d s) =
    let rest = after_prefix p s in if eqb (code c) (code d) then rest else none

pub after_prefix-append : (p s : String) → after_prefix p (p <> s) ≡ some s
unfolding after_prefix
after_prefix-append String.[] s = rw append.nil refl
after_prefix-append (String.◌∷◌ c p) s = rw append.cons (ground (arith, after_prefix-append p s))

-- strings.Contains(s, p)
unfoldable pub contains_text : String → String → Bool
unfolding after_prefix
contains_text p String.[] = is_some (after_prefix p String.[])
contains_text p (String.◌∷◌ c s) = is_some (after_prefix p (String.◌∷◌ c s)) || contains_text p s

-- strings.HasSuffix(s, p)
unfoldable pub has_suffix : String → String → Bool
has_suffix p String.[] = p == ""
has_suffix p (String.◌∷◌ c s) = p == String.◌∷◌ c s || has_suffix p s

-- The number of characters.
unfoldable pub size : String → ℕ
size String.[] = 0
size (String.◌∷◌ c s) = suc (size s)

pub size-append : (s t : String) → size (s <> t) ≡ size s + size t
unfolding size
size-append String.[] t = rw append.nil (omega arith)
size-append (String.◌∷◌ c s) t = rw append.cons (omega (arith, size-append s t))

-- Texts of different sizes differ.
pub differ : (s t : String) → size s < size t → s == t ≡ false
differ s t h = elim (Bool-cases (s == t)) [
  | inl same ↦ absurd (omega (arith, ap size ((eq_iff s t).0 same)))
  | inr other ↦ other
]

after_prefix-append_right :
    (p s t r : String) → after_prefix p s ≡ some r → after_prefix p (s <> t) ≡ some (r <> t)
unfolding after_prefix
after_prefix-append_right String.[] s t r h = ground arith
after_prefix-append_right (String.◌∷◌ c p) String.[] t r h = ground arith
after_prefix-append_right (String.◌∷◌ c p) (String.◌∷◌ d s) t r h =
    rw append.cons (ground (arith, after_prefix-append_right p s t r))

-- A text contains what its parts contain.
pub contains_text-append_right :
    (p s t : String) → contains_text p t ≡ true → contains_text p (s <> t) ≡ true
unfolding contains_text
contains_text-append_right p String.[] t h = rw append.nil h
contains_text-append_right p (String.◌∷◌ c s) t h =
    rw append.cons (ground (arith, contains_text-append_right p s t h))

prefix-append :
    (p s t : String) → is_some (after_prefix p s) ≡ true → is_some (after_prefix p (s <> t)) ≡ true
prefix-append p s t h = elim (Option-cases (after_prefix p s)) [
  | inl missing ↦ ground arith
  | inr (r, found) ↦ rw (after_prefix-append_right p s t r found) refl
]

contains_text-prefix : (p s : String) → is_some (after_prefix p s) ≡ true → contains_text p s ≡ true
unfolding contains_text
contains_text-prefix p String.[] h = h
contains_text-prefix p (String.◌∷◌ c s) h = ground arith

pub contains_text-append_left :
    (p s t : String) → contains_text p s ≡ true → contains_text p (s <> t) ≡ true
unfolding contains_text
contains_text-append_left p String.[] t h =
    contains_text-prefix p ("" <> t) (prefix-append p "" t h)
contains_text-append_left p (String.◌∷◌ c s) t h =
    elim (Bool-cases (is_some (after_prefix p (String.◌∷◌ c s)))) [
      | inl here ↦
          contains_text-prefix p (String.◌∷◌ c s <> t) (prefix-append p (String.◌∷◌ c s) t here)
      | inr not_here ↦ rw append.cons (ground (arith, contains_text-append_left p s t))
    ]

pub contains_text-append_false :
    (p s t : String)
    → contains_text p (s <> t) ≡ false
    → (contains_text p s ≡ false) × (contains_text p t ≡ false)
contains_text-append_false p s t h =
    ground (arith, contains_text-append_left p s t, contains_text-append_right p s t)

pub contains_text-cons_false :
    (p s : String) (c : Char) → contains_text p (String.◌∷◌ c s) ≡ false → contains_text p s ≡ false
unfolding contains_text
contains_text-cons_false p s c h = ground arith
