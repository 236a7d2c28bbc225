-- ===== src/Spec/Mkdir/Made.antt =====
-- What the flat file system says of making directories, one name at a time, for `applyMkdir` of
-- internal/metadata/apply.go.
use file_storage.Base.{
  ℕ, ◌+◌, String, ◌≡◌, refl, ap, sym, ◌∙◌, Option, none, some, List, [], ◌∷◌, ◌++◌, arith, eq_iff,
  strip, if◌then◌else◌,
}
use file_storage.Tree.{Attrs, attrs}
use file_storage.Metadata.{not_a_directory}
use file_storage.Metadata.Mkdir.{new_dir}
use file_storage.View.{View, leaf}
use file_storage.Spec.{mkdir_error, made_at, made, parent_of}

-- Below a directory that was not there before.
pub made-leaf :
    (now : ℕ) (n : String) (parts q : List String) (v : View)
    → ((r : List String) → v (n ∷ r) ≡ none)
    → made now parts (leaf (attrs (new_dir now n))) q ≡ made now (n ∷ parts) v (n ∷ q)
made-leaf now n [] [] v h = ground (arith, h [], eq_iff n n)
made-leaf now n (m ∷ parts) [] v h = ground (arith, h [], eq_iff n n)
made-leaf now n parts (k ∷ q) v h = ground (arith, h (k ∷ q), eq_iff n n)

-- Below a directory that was there.
made_at-there :
    (now : ℕ) (n k : String) (q : List String) (v w : View) (old : Option Attrs)
    (rest : Option (List String))
    → ((r : List String) → v (n ∷ r) ≡ w r)
    → made_at now w (k ∷ q) old rest ≡ made_at now v (n ∷ (k ∷ q)) old rest
made_at-there now n k q v w none none h = refl
made_at-there now n k q v w none (some r) h = refl
made_at-there now n k q v w (some a) none h = refl
made_at-there now n k q v w (some a) (some []) h = refl
made_at-there now n k q v w (some a) (some (m ∷ r)) h =
    ap (parent_of now a) (sym (h ((k ∷ q) ++ (m ∷ []))))

pub made-there :
    (now : ℕ) (n : String) (parts q : List String) (v w : View) (a : Attrs)
    → ((r : List String) → v (n ∷ r) ≡ w r)
    → w [] ≡ some a
    → made now parts w q ≡ made now (n ∷ parts) v (n ∷ q)
made-there now n [] [] v w a h here = ground (arith, h [], eq_iff n n)
made-there now n (m ∷ parts) [] v w a h here = ground (arith, h [], h (m ∷ []), eq_iff n n)
made-there now n parts (k ∷ q) v w a h here =
    made_at-there now n k q v w (w (k ∷ q)) (strip (k ∷ q) parts) h
    ∙ ground (arith, h (k ∷ q), eq_iff n n)

pub mkdir_error-cons :
    (path : String) (i : ℕ) (n : String) (parts : List String) (v w : View) (b : Attrs)
    → v (n ∷ []) ≡ some b
    → (λ q. v (n ∷ q)) ≡ w
    → mkdir_error path i (n ∷ parts) v
      ≡ (if b.is_dir then mkdir_error path (i + 1) parts w else some (not_a_directory path i n))
mkdir_error-cons path i n parts v w b here below =
    rw (here, mkdir_error)
      (ap
        (λ u.
          if b.is_dir then mkdir_error path (i + 1) parts u else some (not_a_directory path i n))
        below)
