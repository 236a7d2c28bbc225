-- ===== src/DataNode/Resolve/Dots.antt =====
-- Two dots in a path that is written from names, which `resolvePath` of
-- internal/datanode/datanode.go refuses.
use Prim.Native.Char.{Char, code}
use Prim.Native.String.append
use file_storage.Base.{
  String, ◌<>◌, Bool, false, ◌&&◌, ◌||◌, ◌≡◌, refl, ap, ◌∙◌, List, [], ◌∷◌, arith, eqb,
}
use file_storage.Text.{contains_text}
use file_storage.Path.Render.{render}

abbrev are_dots : Char → Char → Bool
are_dots c d = eqb b'.' (code c) && eqb b'.' (code d)

contains_text-two :
    (c d : Char) (s : String)
    → contains_text ".." (String.◌∷◌ c (String.◌∷◌ d s))
      ≡ (are_dots c d || contains_text ".." (String.◌∷◌ d s))
unfolding contains_text
contains_text-two c d s = ground arith

render-nil : render [] ≡ ""
unfolding render
render-nil = refl

pub render-cons :
    (n : String) (names : List String) → render (n ∷ names) ≡ String.◌∷◌ "/" (n <> render names)
unfolding render
render-cons n names = refl

-- A slash in front adds no dots.
pub contains_text-slash :
    (s : String) → contains_text ".." (String.◌∷◌ "/" s) ≡ contains_text ".." s
unfolding contains_text
contains_text-slash s = ground arith

append-one : (c : Char) (t : String) → String.◌∷◌ c String.[] <> t ≡ String.◌∷◌ c t
append-one c t = append.cons c "" t ∙ ap (λ s. String.◌∷◌ c s) (append.nil t)

append-two :
    (c d : Char) (s t : String)
    → String.◌∷◌ c (String.◌∷◌ d s) <> t ≡ String.◌∷◌ c (String.◌∷◌ d (s <> t))
append-two c d s t = append.cons c (String.◌∷◌ d s) t ∙ ap (λ r. String.◌∷◌ c r) (append.cons d s t)

-- Two dots in a name and the names behind it stand in the name, or behind it.
pub no_dots-append :
    (n : String) (names : List String)
    → contains_text ".." n ≡ false
    → contains_text ".." (render names) ≡ false
    → contains_text ".." (n <> render names) ≡ false
no_dots-append String.[] names h r = rw append.nil r
no_dots-append (String.◌∷◌ c String.[]) [] h r =
    ap (contains_text "..") (append-one c (render []) ∙ ap (λ t. String.◌∷◌ c t) render-nil) ∙ h
no_dots-append (String.◌∷◌ c String.[]) (k ∷ names) h r =
    ap (contains_text "..")
      (append-one c (render (k ∷ names)) ∙ ap (λ t. String.◌∷◌ c t) (render-cons k names))
    ∙ contains_text-two c "/" (k <> render names)
    ∙ ground (arith, rendered)
  where
    rendered : contains_text ".." (String.◌∷◌ "/" (k <> render names)) ≡ false
    rendered = unfold render in r
no_dots-append (String.◌∷◌ c (String.◌∷◌ d n)) names h r =
    ap (contains_text "..") (append-two c d n (render names))
    ∙ contains_text-two c d (n <> render names)
    ∙ ground (
      arith,
      contains_text-two c d n,
      ap (contains_text "..") (append.cons d n (render names)),
      no_dots-append (String.◌∷◌ d n) names (ground (arith, contains_text-two c d n)) r,
    )
