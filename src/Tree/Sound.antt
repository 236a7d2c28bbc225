-- ===== src/Tree/Sound.antt =====
-- Trees as the metadata server builds them: a file has no children, an entry carries the name under
-- which its directory holds it, and a directory holds a name once.
use file_storage.Base.{
  String, Bool, true, false, ◌&&◌, ◌≡◌, refl, ◌∙◌, Option, none, some, List, [], ◌∷◌, arith, ◌==◌,
  eq_iff, if◌then◌else◌, Option-cases, inl, inr,
}
use file_storage.Tree.{
  Attrs, Entry, node, Children, nil, child, attrs, on_attrs, get_child, set_child, remove_child,
  walk, modify,
}
use file_storage.Tree.Laws.{get_child-set_child, get_child-remove_child}

abbrev pub is_nil : Children → Bool
is_nil nil = true
is_nil (child n e cs) = false

abbrev pub is_absent : Option Entry → Bool
is_absent none = true
is_absent (some e) = false

unfoldable mutual
  pub is_sound : Entry → Bool
  is_sound (node a cs) = if a.is_dir then are_sound cs else is_nil cs

  pub are_sound : Children → Bool
  are_sound nil = true
  are_sound (child n e cs) =
      (attrs e).name == n && is_absent (get_child n cs) && is_sound e && are_sound cs

-- An entry that may stand under a name.
abbrev pub Fits : String → Entry → Type 0
Fits n e = ((attrs e).name ≡ n) × (is_sound e ≡ true)

pub get_child-Fits :
    (n : String) (cs : Children) (e : Entry)
    → are_sound cs ≡ true
    → get_child n cs ≡ some e
    → Fits n e
unfolding is_sound get_child
get_child-Fits n nil e s h = ground arith
get_child-Fits n (child k x cs) e s h =
    ground (arith, eq_iff k n, eq_iff (attrs x).name k, get_child-Fits n cs e)

pub are_sound-set_child :
    (n : String) (x : Entry) (cs : Children)
    → are_sound cs ≡ true
    → Fits n x
    → are_sound (set_child n x cs) ≡ true
unfolding is_sound set_child get_child
are_sound-set_child n x nil s f = ground (arith, eq_iff (attrs x).name n)
are_sound-set_child n x (child k e cs) s f = ground (
  arith,
  eq_iff k n,
  eq_iff n k,
  eq_iff (attrs x).name k,
  are_sound-set_child n x cs,
  get_child-set_child k n x cs,
)

pub are_sound-remove_child :
    (n : String) (cs : Children) → are_sound cs ≡ true → are_sound (remove_child n cs) ≡ true
unfolding is_sound remove_child get_child
are_sound-remove_child n nil s = refl
are_sound-remove_child n (child k e cs) s =
    ground
      (arith, eq_iff k n, eq_iff n k, are_sound-remove_child n cs, get_child-remove_child k n cs)

-- An entry with a child is a directory, and its children are sound.
pub children_are_sound :
    (n : String) (a : Attrs) (cs : Children) (c : Entry)
    → is_sound (node a cs) ≡ true
    → get_child n cs ≡ some c
    → (a.is_dir ≡ true) × (are_sound cs ≡ true)
unfolding is_sound get_child
children_are_sound n a nil c s h = ground arith
children_are_sound n a (child k e cs) c s h = ground arith

pub dir-is_sound :
    (a : Attrs) (cs : Children)
    → a.is_dir ≡ true
    → are_sound cs ≡ true
    → is_sound (node a cs) ≡ true
unfolding is_sound
dir-is_sound a cs is s = ground arith

pub children-are_sound :
    (a : Attrs) (cs : Children)
    → is_sound (node a cs) ≡ true
    → a.is_dir ≡ true
    → are_sound cs ≡ true
unfolding is_sound
children-are_sound a cs s is = ground arith

get_child_self : (n : String) (e : Entry) (cs : Children) → get_child n (child n e cs) ≡ some e
unfolding get_child
get_child_self n e cs = ground (arith, eq_iff n n)

-- A child less, of a directory or of a file that has none.
pub remove_child-is_sound :
    (n : String) (a : Attrs) (cs : Children)
    → is_sound (node a cs) ≡ true
    → is_sound (node a (remove_child n cs)) ≡ true
remove_child-is_sound n a nil s = unfold remove_child in s
remove_child-is_sound n a (child k e cs) s =
    let (is, all) = children_are_sound k a (child k e cs) e s (get_child_self k e cs) in
    dir-is_sound a (remove_child n (child k e cs)) is (are_sound-remove_child n (child k e cs) all)

pub file-is_sound : (a : Attrs) → is_sound (node a nil) ≡ true
unfolding is_sound
file-is_sound a = ground arith

pub on_attrs-is_sound :
    (f : Attrs → Attrs) (e : Entry)
    → (f (attrs e)).is_dir ≡ (attrs e).is_dir
    → is_sound (on_attrs f e) ≡ is_sound e
unfolding is_sound
on_attrs-is_sound f (node a cs) h = rw h

pub walk-is_sound :
    (p : List String) (e x : Entry) → is_sound e ≡ true → walk p e ≡ some x → is_sound x ≡ true
unfolding walk
walk-is_sound [] e x s h = ground arith
walk-is_sound (n ∷ p) (node a cs) x s h = elim (Option-cases (get_child n cs)) [
  | inl missing ↦ ground arith
  | inr (c, found) ↦
      walk-is_sound p c x (get_child-Fits n cs c (children_are_sound n a cs c s found).1 found).1
        (ground arith)
]

-- What a write through a pointer must keep of the entry that it reaches.
abbrev pub Keeps : (Entry → Entry) → Entry → Type 0
Keeps f e =
    is_sound e ≡ true
    → ((attrs (f e)).name ≡ (attrs e).name)
      × ((attrs (f e)).is_dir ≡ (attrs e).is_dir)
      × (is_sound (f e) ≡ true)

-- A sound child is exchanged for another of its name.
pub exchange-is_sound :
    (n : String) (a : Attrs) (cs : Children) (c new : Entry)
    → is_sound (node a cs) ≡ true
    → get_child n cs ≡ some c
    → ((attrs new).name ≡ (attrs c).name)
    → is_sound new ≡ true
    → is_sound (node a (set_child n new cs)) ≡ true
exchange-is_sound n a cs c new s found same sound =
    let (is, all) = children_are_sound n a cs c s found in
    let fits = get_child-Fits n cs c all found in
    dir-is_sound a (set_child n new cs) is (are_sound-set_child n new cs all (same ∙ fits.0, sound))

pub modify-Keeps :
    (p : List String) (f : Entry → Entry) (e : Entry)
    → ((x : Entry) → walk p e ≡ some x → Keeps f x)
    → Keeps (modify p f) e
unfolding modify walk
modify-Keeps [] f e k s = k e refl s
modify-Keeps (n ∷ p) f (node a cs) k s = elim (Option-cases (get_child n cs)) [
  | inl missing ↦ ground arith
  | inr (c, found) ↦
      let (is, all) = children_are_sound n a cs c s found in
      let fits = get_child-Fits n cs c all found in
      let (same, kind, sound) = modify-Keeps p f c (λ x h. k x (ground arith)) fits.1 in
      ground (arith, exchange-is_sound n a cs c (modify p f c) s found same sound)
]

-- A sound tree under a directory.
pub record IsTree (root : Entry) : Type 0 where
  pub directory : (attrs root).is_dir ≡ true
  pub sound : is_sound root ≡ true

pub modify-IsTree :
    (p : List String) (f : Entry → Entry) (e : Entry)
    → ((x : Entry) → walk p e ≡ some x → Keeps f x)
    → IsTree e
    → IsTree (modify p f e)
modify-IsTree p f e k t =
    let (same, kind, sound) = modify-Keeps p f e k t.sound in
    record { directory = kind ∙ t.directory; sound = sound }
