-- ===== src/Metadata/Mkdir.antt =====
-- `applyMkdir` of internal/metadata/apply.go.
use file_storage.Base.{ℕ, ◌+◌, pos, String, true, Option, none, some, List, [], ◌∷◌, if◌then◌else◌}
use file_storage.Path.{split_path}
use file_storage.Tree.{Entry, node, nil, attrs, get_child, set_child}
use file_storage.Metadata.{CommandPayload, MetadataServer, Error, not_a_directory, Outcome}

abbrev pub new_dir : ℕ → String → Entry
new_dir now part =
    node
      (record {
        name = part;
        is_dir = true;
        size = pos 0;
        mode = 0o755;
        created_at = now;
        mod_time = now;
        status = "";
        file_id = "";
        replicas = [];
      })
      nil

-- The loop over `parts[i:]` at the entry that it has reached. A new child is linked first, and the
-- loop goes on inside it.
unfoldable pub make_dirs : ℕ → String → ℕ → List String → Entry → Option Error × Entry
make_dirs now path i [] current = (none, current)
make_dirs now path i (part ∷ parts) (node a cs) = elim (get_child part cs) [
  | none ↦
      let (e, made) = make_dirs now path (i + 1) parts (new_dir now part) in
      (e, node (record a { mod_time = now }) (set_child part made cs))
  | some c ↦
      let (e, made) = make_dirs now path (i + 1) parts c in
      if (attrs c).is_dir
      then (e, node a (set_child part made cs))
      else (some (not_a_directory path i part), node a cs)
]

unfoldable pub apply_mkdir : ℕ → CommandPayload → MetadataServer → Outcome
unfolding make_dirs
apply_mkdir now p mds =
    let (e, root) = make_dirs now p.path 0 (split_path p.path) mds.root in
    (e, record mds { root = root })
