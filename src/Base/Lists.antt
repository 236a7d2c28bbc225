-- ===== src/Base/Lists.antt =====
-- Lists measured and indexed by native numbers, under the library's names, and lists of names.
use Prim.Native.Nat.{ℕ, zero, suc, ◌+◌}
use Prim.Native.String.{String}
use mathlib.Core.Path.{◌≡◌, refl}
use mathlib.Core.Bool.{Bool, true, false, ◌&&◌, ◌||◌}
use mathlib.Core.List.{List, [], ◌∷◌, ◌++◌}
use mathlib.Core.Option.{Option, none, some}
use native.Mathlib.Omega.{arith}
use text.Mathlib.Text.{◌==◌}
use text.Mathlib.TextEquality.{eq_iff}
use file_storage.Base.Tests.{if◌then◌else◌}

module _ {ℓ} {A : Type ℓ} where
  abbrev pub length : List A → ℕ
  length [] = 0
  length (x ∷ xs) = suc (length xs)

  abbrev pub get_elem? : List A → ℕ → Option A
  get_elem? [] i = none
  get_elem? (x ∷ xs) zero = some x
  get_elem? (x ∷ xs) (suc i) = get_elem? xs i

  pub length-append : (xs ys : List A) → length (xs ++ ys) ≡ length xs + length ys
  length-append [] ys = omega arith
  length-append (x ∷ xs) ys = omega (arith, length-append xs ys)

abbrev pub contains : List String → String → Bool
contains [] a = false
contains (x ∷ xs) a = x == a || contains xs a

abbrev pub IsNodup : List String → Type 0
IsNodup [] = Unit {0}
IsNodup (x ∷ xs) = (contains xs x ≡ false) × IsNodup xs

-- What is left of the second list behind the first, if it begins with it.
abbrev pub strip : List String → List String → Option (List String)
strip [] q = some q
strip (n ∷ p) [] = none
strip (n ∷ p) (k ∷ q) = let rest = strip p q in if n == k then rest else none

abbrev pub list_eq : List String → List String → Bool
list_eq [] [] = true
list_eq (n ∷ p) (k ∷ q) = n == k && list_eq p q
list_eq _ _ = false

pub strip-append : (p r : List String) → strip p (p ++ r) ≡ some r
strip-append [] r = refl
strip-append (n ∷ p) r = ground (arith, eq_iff n n, strip-append p r)

pub strip-eq_some : (p q r : List String) → strip p q ≡ some r → q ≡ p ++ r
strip-eq_some [] q r h = ground arith
strip-eq_some (n ∷ p) [] r h = ground arith
strip-eq_some (n ∷ p) (k ∷ q) r h = ground (arith, eq_iff n k, strip-eq_some p q r)

abbrev pub strip_from : List String → Option (List String) → Option (List String)
strip_from s none = none
strip_from s (some r) = strip s r

pub strip-append_left : (p s q : List String) → strip (p ++ s) q ≡ strip_from s (strip p q)
strip-append_left [] s q = refl
strip-append_left (n ∷ p) s [] = refl
strip-append_left (n ∷ p) s (k ∷ q) = ground (arith, strip-append_left p s q)

abbrev pub is_whole : Option (List String) → Bool
is_whole none = false
is_whole (some []) = true
is_whole (some (k ∷ r)) = false

pub list_eq-strip : (p q : List String) → list_eq p q ≡ is_whole (strip p q)
list_eq-strip [] [] = refl
list_eq-strip [] (k ∷ q) = refl
list_eq-strip (n ∷ p) [] = refl
list_eq-strip (n ∷ p) (k ∷ q) = ground (arith, list_eq-strip p q)

pub list_eq→≡ : (p q : List String) → list_eq p q ≡ true → p ≡ q
list_eq→≡ [] [] h = refl
list_eq→≡ [] (k ∷ q) h = ground arith
list_eq→≡ (n ∷ p) [] h = ground arith
list_eq→≡ (n ∷ p) (k ∷ q) h = ground (arith, eq_iff n k, list_eq→≡ p q)

pub list_eq_refl : (p : List String) → list_eq p p ≡ true
list_eq_refl [] = refl
list_eq_refl (n ∷ p) = ground (arith, eq_iff n n, list_eq_refl p)

-- A longer path is not at the beginning of a shorter one.
pub strip-append_self : (p : List String) (n : String) → strip (p ++ (n ∷ [])) p ≡ none
strip-append_self [] n = refl
strip-append_self (k ∷ p) n = ground (arith, strip-append_self p n)
