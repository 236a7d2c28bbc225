-- ===== src/Metadata/Service/Seen.antt =====
-- What can be read of a file behind `CreateFile` and `CompleteFile` of internal/metadata/mds.go.
use file_storage.Base.{
  ℕ, String, true, false, ◌≡◌, refl, sym, ap, ◌∙◌, Option, none, some, List, [], ◌∷◌, arith,
  strip-append, list_eq_refl, eq_iff,
}
use file_storage.Types.{Replica}
use file_storage.Path.{split_path}
use file_storage.Tree.{Attrs, Entry, attrs, node}
use file_storage.Metadata.{
  CommandPayload, MetadataServer, Target, no_target, target, below, split_last, status_complete,
}
use file_storage.Metadata.CreateFile.{new_file}
use file_storage.Metadata.UpdateFile.{lookup}
use file_storage.Metadata.Service.{replied}
use file_storage.Metadata.Read.{location, get_file_location}
use file_storage.Tree.Laws.{stat-nil, stat-walk, stat_of}
use file_storage.View.{View, view, leaf, replaced}
use file_storage.Spec.{at_name, are_dirs, spec_create_file, spec_complete_file}

-- What is seen at a path is a file with the id and the replicas.
abbrev pub IsFileAt : View → List String → String → List Replica → Type 0
IsFileAt v q id replicas =
    (a : Attrs) × (v q ≡ some a) × (a.is_dir ≡ false) × (a.file_id ≡ id) × (a.replicas ≡ replicas)

-- The same, and it is complete.
abbrev pub IsCompleteAt : View → List String → String → List Replica → Type 0
IsCompleteAt v q id replicas =
    (a : Attrs) × (v q ≡ some a)
    × (a.is_dir ≡ false)
    × (a.file_id ≡ id)
    × (a.replicas ≡ replicas)
    × (a.status ≡ status_complete)

below-at_name :
    (n : String) (t : Target) (parts : List String)
    → ((dir : List String) (name : String) → t ≡ target dir name → parts ≡ at_name dir name)
    → (dir : List String) (name : String) → below n t ≡ target dir name
    → n ∷ parts ≡ at_name dir name
below-at_name n no_target parts ih dir name h = ground arith
below-at_name n (target d k) parts ih dir name h = ap (λ ps. n ∷ ps) (ih d k refl) ∙ ap parts_of h
  where
    parts_of : Target → List String
    parts_of no_target = []
    parts_of (target d k) = at_name d k

split_last-target :
    (parts dir : List String) (name : String)
    → split_last parts ≡ target dir name
    → parts ≡ at_name dir name
unfolding split_last
split_last-target [] dir name h = ground arith
split_last-target (n ∷ []) dir name h = ap parts_of h
  where
    parts_of : Target → List String
    parts_of no_target = []
    parts_of (target d k) = at_name d k
split_last-target (n ∷ (m ∷ p)) dir name h =
    below-at_name n (split_last (m ∷ p)) (m ∷ p) (split_last-target (m ∷ p)) dir name h

replaced-leaf :
    (now : ℕ) (dir : List String) (name : String) (a : Attrs) (v : View)
    → replaced now dir name (leaf a) v (at_name dir name) ≡ some a
replaced-leaf now dir name a v = rw (strip-append dir (name ∷ []), (eq_iff name name).1 refl) refl

-- The flat file system has a file that it created.
pub spec_create_file-IsFileAt :
    (now : ℕ) (p : CommandPayload) (v : View) (dir : List String) (name : String)
    → split_last (split_path p.path) ≡ target dir name
    → are_dirs v dir ≡ true
    → v (split_path p.path) ≡ none
    → IsFileAt (spec_create_file now p v).1 (split_path p.path) p.file_id p.replicas
spec_create_file-IsFileAt now p v dir name split dirs new =
    let e = split_last-target (split_path p.path) dir name split in
    let file = attrs (new_file now p name now p.file_id) in
    (
      file,
      rw (split, dirs, ap v (sym e) ∙ new)
          (ap (replaced now dir name (leaf file) v) e ∙ replaced-leaf now dir name file v),
      refl,
      refl,
      refl,
    )

pub spec_complete_file-IsCompleteAt :
    (now : ℕ) (p : CommandPayload) (v : View) (id : String) (replicas : List Replica)
    → IsFileAt v (split_path p.path) id replicas
    → IsCompleteAt (spec_complete_file now p v).1 (split_path p.path) id replicas
spec_complete_file-IsCompleteAt now p v id replicas (a, there, file, same_id, same) = (
  record a { status = status_complete; mod_time = now },
  ground (arith, list_eq_refl (split_path p.path)),
  file,
  same_id,
  same,
  refl,
)

-- `GetFileLocation` reads what is seen.
pub get_file_location-IsCompleteAt :
    (path : String) (mds : MetadataServer) (id : String) (replicas : List Replica)
    → IsCompleteAt (view mds) (split_path path) id replicas
    → get_file_location path mds
      ≡ replied (record { file_id = id; replicas = replicas; status = status_complete })
unfolding get_file_location lookup
get_file_location-IsCompleteAt path mds id replicas (a, there, file, same_id, same, complete) =
    found (lookup path mds) (sym (stat-walk (split_path path) mds.root) ∙ there)
  where
    found :
        (e : Option Entry)
        → stat_of [] e ≡ some a
        → location path e
          ≡ replied (record { file_id = id; replicas = replicas; status = status_complete })
    found none h = ground arith
    found (some (node b cs)) h = ground (arith, stat-nil (node b cs))
