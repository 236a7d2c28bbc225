-- ===== src/Metadata/Rename.antt =====
-- `applyRename` of internal/metadata/apply.go.
use file_storage.Base.{
  ℕ, String, Bool, true, false, ◌&&◌, Option, none, some, List, [], ◌∷◌, ◌++◌, list_eq,
  if◌then◌else◌,
}
use file_storage.Path.{split_path}
use file_storage.Tree.{
  Entry, node, on_attrs, attrs, children, get_child, set_child, remove_child, walk_dirs, modify,
}
use file_storage.Metadata.{
  CommandPayload, MetadataServer, invalid_rename, source_not_found, own_subtree,
  dst_parent_not_found, dst_is_directory, Outcome, fail, touch, Target, no_target, target,
  split_last,
}

-- The walk along the destination's directories that looks for the source: whether it was met, and
-- where the walk ended. `at` is the path of `ancestor`, and `ancestor == srcEntry` compares it with
-- the path of the source.
unfoldable pub meets : List String → List String → List String → Entry → Bool
meets src at [] ancestor = list_eq at src
meets src at (part ∷ parts) ancestor = elim (list_eq at src) [
  | true ↦ true
  | false ↦ elim (get_child part (children ancestor)) [
    | none ↦ false
    | some c ↦
        let rest = meets src (at ++ (part ∷ [])) parts c in if (attrs c).is_dir then rest else false
  ]
]

-- `srcEntry.name = dstFileName`, and its time.
abbrev pub renamed : ℕ → String → Entry → Entry
renamed now name = on_attrs (λ a. record a { name = name; mod_time = now })

abbrev pub unlink : String → Entry → Entry
unlink n (node a cs) = node a (remove_child n cs)

abbrev pub attach : String → Entry → Entry → Entry
attach n x (node a cs) = node a (set_child n x cs)

-- An overwritten file leaves, then the source leaves its parent and enters the other under its new
-- name; then the two parents get the time.
unfoldable pub move : ℕ → List String → String → Entry → List String → String → Bool → Entry → Entry
move now src_dir src_name src dst_dir dst_name overwritten root =
    let freed = if overwritten then modify dst_dir (unlink dst_name) root else root in
    let detached = modify src_dir (unlink src_name) freed in
    let attached = modify dst_dir (attach dst_name (renamed now dst_name src)) detached in
    modify dst_dir (touch now) (modify src_dir (touch now) attached)

-- The check of the destination's entry, and the move.
unfoldable pub rename_onto :
    ℕ
    → CommandPayload
    → List String
    → String
    → Entry
    → List String
    → String
    → Option Entry
    → MetadataServer
    → Outcome
rename_onto now p src_dir src_name src dst_dir dst_name none mds =
    (none, record mds { root = move now src_dir src_name src dst_dir dst_name false mds.root })
rename_onto now p src_dir src_name src dst_dir dst_name (some old) mds =
    if (attrs old).is_dir
    then fail (dst_is_directory p.dst_path) mds
    else (none, record mds { root = move now src_dir src_name src dst_dir dst_name true mds.root })

-- The destination's directory that the walk reached.
unfoldable pub rename_into :
    ℕ
    → CommandPayload
    → List String
    → String
    → Entry
    → List String
    → String
    → Option Entry
    → MetadataServer
    → Outcome
rename_into now p src_dir src_name src dst_dir dst_name none mds =
    fail (dst_parent_not_found p.dst_path) mds
rename_into now p src_dir src_name src dst_dir dst_name (some parent) mds =
    rename_onto now p src_dir src_name src dst_dir dst_name (get_child dst_name (children parent))
      mds

-- The check against cycles, for a source that is there.
unfoldable pub rename_found :
    ℕ
    → CommandPayload
    → List String
    → String
    → Option Entry
    → List String
    → String
    → MetadataServer
    → Outcome
rename_found now p src_dir src_name none dst_dir dst_name mds = fail (source_not_found p.path) mds
rename_found now p src_dir src_name (some src) dst_dir dst_name mds =
    if (attrs src).is_dir && meets (src_dir ++ (src_name ∷ [])) [] dst_dir mds.root
    then fail (own_subtree p.path p.dst_path) mds
    else rename_into now p src_dir src_name src dst_dir dst_name (walk_dirs dst_dir mds.root) mds

-- The source's directory that the walk reached.
unfoldable pub rename_from :
    ℕ
    → CommandPayload
    → List String
    → String
    → Option Entry
    → List String
    → String
    → MetadataServer
    → Outcome
rename_from now p src_dir src_name none dst_dir dst_name mds = fail (source_not_found p.path) mds
rename_from now p src_dir src_name (some parent) dst_dir dst_name mds =
    rename_found now p src_dir src_name (get_child src_name (children parent)) dst_dir dst_name mds

unfoldable pub rename_at : ℕ → CommandPayload → Target → Target → MetadataServer → Outcome
rename_at now p no_target _ mds = fail (invalid_rename p.path p.dst_path) mds
rename_at now p (target src_dir src_name) no_target mds =
    fail (invalid_rename p.path p.dst_path) mds
rename_at now p (target src_dir src_name) (target dst_dir dst_name) mds =
    rename_from now p src_dir src_name (walk_dirs src_dir mds.root) dst_dir dst_name mds

unfoldable pub apply_rename : ℕ → CommandPayload → MetadataServer → Outcome
unfolding meets move rename_onto rename_into rename_found rename_from rename_at
apply_rename now p mds =
    rename_at now p (split_last (split_path p.path)) (split_last (split_path p.dst_path)) mds
