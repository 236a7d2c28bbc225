-- ===== src/Text/Trim.antt =====
-- What internal/client uses of package strings to read the address out of an error.
use Prim.Native.Char.{Char, code}
use file_storage.Base.{
  String, ◌<>◌, Bool, true, false, ◌&&◌, ◌||◌, ◌==◌, ◌≡◌, refl, ap, ◌∙◌, Option, none, some, eqb,
  leb, arith, if◌then◌else◌,
}
use file_storage.Text.{after_prefix, after_prefix-append}

-- s[strings.Index(s, p) + len(p):], if the text is there.
unfoldable pub after_first : String → String → Option String
unfolding after_prefix
after_first p String.[] = after_prefix p String.[]
after_first p (String.◌∷◌ c s) =
    let later = after_first p s in
    elim (after_prefix p (String.◌∷◌ c s)) [ none ↦ later | some r ↦ some r ]

-- unicode.IsSpace
unfoldable pub is_space : Char → Bool
is_space c =
    (leb 9 (code c) && leb (code c) 13)
    || eqb (code c) 32
    || eqb (code c) 133
    || eqb (code c) 160
    || eqb (code c) 5760
    || (leb 8192 (code c) && leb (code c) 8202)
    || eqb (code c) 8232
    || eqb (code c) 8233
    || eqb (code c) 8239
    || eqb (code c) 8287
    || eqb (code c) 12288

unfoldable pub trim_left : String → String
trim_left String.[] = ""
trim_left (String.◌∷◌ c s) = let rest = trim_left s in if is_space c then rest else String.◌∷◌ c s

unfoldable pub trim_right : String → String
trim_right String.[] = ""
trim_right (String.◌∷◌ c s) =
    let rest = trim_right s in if is_space c && rest == "" then "" else String.◌∷◌ c rest

-- strings.TrimSpace
unfoldable pub trim_space : String → String
trim_space s = trim_right (trim_left s)

-- A text without spaces, as an address is.
abbrev pub has_no_space : String → Bool
has_no_space String.[] = true
has_no_space (String.◌∷◌ c s) = if is_space c then false else has_no_space s

trim_left-has_no_space : (s : String) → has_no_space s ≡ true → trim_left s ≡ s
unfolding trim_left
trim_left-has_no_space String.[] h = refl
trim_left-has_no_space (String.◌∷◌ c s) h = ground arith

trim_right-has_no_space : (s : String) → has_no_space s ≡ true → trim_right s ≡ s
unfolding trim_right
trim_right-has_no_space String.[] h = refl
trim_right-has_no_space (String.◌∷◌ c s) h = ground (arith, trim_right-has_no_space s)

pub trim_space-has_no_space : (s : String) → has_no_space s ≡ true → trim_space s ≡ s
unfolding trim_space
trim_space-has_no_space s h =
    ap trim_right (trim_left-has_no_space s h) ∙ trim_right-has_no_space s h

-- A text that begins with the one that is looked for.
pub after_first-append : (p s : String) → after_first p (p <> s) ≡ some s
unfolding after_first
after_first-append p s = after_first-some p (p <> s) s (after_prefix-append p s)
  where
    after_first-some : (p t r : String) → after_prefix p t ≡ some r → after_first p t ≡ some r
    after_first-some p String.[] r h = h
    after_first-some p (String.◌∷◌ c t) r h = ground arith
