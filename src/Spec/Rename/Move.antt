-- ===== src/Spec/Rename/Move.antt =====
-- The five writes of `applyRename` of internal/metadata/apply.go, seen together.
use file_storage.Base.{
  ℕ, String, Bool, false, ◌≡◌, refl, ap, sym, ◌∙◌, Option, none, some, List, [], ◌∷◌, arith, strip,
  strip-append_self, list_eq, list_eq→≡, if◌then◌else◌, Bool-cases, inl, inr,
}
use mathlib.Core.Path.{fun_ext}
use file_storage.Tree.{Attrs, Entry, node, attrs, on_attrs, walk, walk_dirs, modify, stat}
use file_storage.Tree.Laws.{stat-cons, stat-nil, stat-append, stat-walk, or_same, walk-walk_dirs}
use file_storage.Metadata.Rename.{unlink, attach, renamed, move}
use file_storage.View.{View, changed, nothing}
use file_storage.View.Writes.{stat-modify-on_attrs, stat-modify-unlink, stat-modify-attach}
use file_storage.Spec.{at_name, renamed_at, moved_at, moved}
use file_storage.Spec.Dirs.{seen}

-- The view while the entry moves: the file at the destination has left, then the source.
abbrev freed : Bool → List String → View → View
freed over dst v q = if over then or_same nothing (v q) (strip dst q) else v q

abbrev detached : Bool → List String → List String → View → View
detached over src dst v q = or_same nothing (freed over dst v q) (strip src q)

walk_of_stat :
    (p : List String) (e : Entry) (a : Attrs)
    → stat p e ≡ some a
    → (x : Entry) × (walk p e ≡ some x)
walk_of_stat p e a h = go (walk p e) refl
  where
    go : (o : Option Entry) → walk p e ≡ o → (x : Entry) × (walk p e ≡ some x)
    go none w = ground (arith, stat-walk p e)
    go (some x) w = (x, w)

stat-renamed :
    (now : ℕ) (name : String) (r : List String) (x : Entry)
    → stat r (renamed now name x) ≡ renamed_at now name r (stat r x)
stat-renamed now name [] (node a cs) =
    ground (arith, stat-nil (node a cs), stat-nil (renamed now name (node a cs)))
stat-renamed now name (k ∷ r) (node a cs) =
    stat-cons k r (record a { name = name; mod_time = now }) cs ∙ sym (stat-cons k r a cs)

module _ (over : Bool) (src_dir : List String) (src_name : String) (dst_dir : List String)
    (dst_name : String) (root : Entry) where
  abbrev src : List String
  src = at_name src_dir src_name

  abbrev dst : List String
  dst = at_name dst_dir dst_name

  abbrev freed_root : Entry
  freed_root = if over then modify dst_dir (unlink dst_name) root else root

  abbrev detached_root : Entry
  detached_root = modify src_dir (unlink src_name) freed_root

  stat-freed : (q : List String) → stat q freed_root ≡ freed over dst (seen root) q
  stat-freed q = ground (arith, stat-modify-unlink dst_name dst_dir root q)

  stat-detached : (q : List String) → stat q detached_root ≡ detached over src dst (seen root) q
  stat-detached q = ground (arith, stat-modify-unlink src_name src_dir freed_root q, stat-freed q)

module _ (now : ℕ) (over : Bool) (src_dir : List String) (src_name : String) (dst_dir : List String)
    (dst_name : String) (root x parent : Entry)
    (source : walk (at_name src_dir src_name) root ≡ some x)
    (directory : walk_dirs dst_dir root ≡ some parent)
    (apart : strip (at_name src_dir src_name) dst_dir ≡ none)
    (clear : strip (at_name dst_dir dst_name) src_dir ≡ none) where
  abbrev before : Entry
  before = detached_root over src_dir src_name dst_dir dst_name root

  abbrev from : List String
  from = at_name src_dir src_name

  abbrev to : List String
  to = at_name dst_dir dst_name

  -- The destination's directory is still there when the source has left.
  directory_stays : (d : Entry) × (walk dst_dir before ≡ some d)
  directory_stays = walk_of_stat dst_dir before (attrs parent) (
      ground (
        arith,
        stat-detached over src_dir src_name dst_dir dst_name root dst_dir,
        strip-append_self dst_dir dst_name,
        stat-walk dst_dir root,
        walk-walk_dirs dst_dir root parent,
        stat-nil parent,
      ))

  abbrev attached : View
  attached q =
      or_same (λ r. stat r (renamed now dst_name x)) (detached over from to (seen root) q)
        (strip to q)

  seen-attached :
      (q : List String)
      → stat q (modify dst_dir (attach dst_name (renamed now dst_name x)) before) ≡ attached q
  seen-attached q =
      stat-modify-attach dst_name dst_dir before q (renamed now dst_name x) directory_stays.0
        directory_stays.1
      ∙ ap (λ o. or_same (λ r. stat r (renamed now dst_name x)) o (strip to q))
          (stat-detached over src_dir src_name dst_dir dst_name root q)

  -- The writes of the two times.
  timed :
      (f : Attrs → Attrs) (e : Entry) (q : List String)
      → stat q (modify dst_dir (on_attrs f) (modify src_dir (on_attrs f) e))
        ≡ changed f dst_dir (changed f src_dir (seen e)) q
  timed f e q =
      stat-modify-on_attrs f dst_dir (modify src_dir (on_attrs f) e) q
      ∙ ap (λ v. changed f dst_dir v q) (fun_ext (stat-modify-on_attrs f src_dir e))

  apart_from_dirs :
      (q r : List String)
      → strip to q ≡ some r
      → (list_eq src_dir q ≡ false) × (list_eq dst_dir q ≡ false)
  apart_from_dirs q r h = (other src_dir clear, other dst_dir (strip-append_self dst_dir dst_name))
    where
      other : (p : List String) → strip to p ≡ none → list_eq p q ≡ false
      other p gone = elim (Bool-cases (list_eq p q)) [
        | inl same ↦ ground (arith, list_eq→≡ p q)
        | inr differs ↦ differs
      ]

  abbrev stamp : Attrs → Attrs
  stamp a = record a { mod_time = now }

  moved_lem :
      (q : List String) (rest : Option (List String))
      → strip to q ≡ rest
      → changed stamp dst_dir (changed stamp src_dir attached) q
        ≡ moved_at now src_dir src_name dst_dir dst_name (seen root) q rest
  moved_lem q none h = ground arith
  moved_lem q (some r) h =
      ground
        (arith, apart_from_dirs q r, stat-renamed now dst_name r x, stat-append from r root, source)

  -- The five writes move the source, with all that is below it, and stamp the two directories.
  pub seen-move :
      (q : List String)
      → stat q (move now src_dir src_name x dst_dir dst_name over root)
        ≡ moved now src_dir src_name dst_dir dst_name (seen root) q
  unfolding move
  seen-move q =
      timed stamp (modify dst_dir (attach dst_name (renamed now dst_name x)) before) q
      ∙ ap (λ v. changed stamp dst_dir (changed stamp src_dir v) q) (fun_ext seen-attached)
      ∙ moved_lem q (strip to q) refl
