-- ===== src/Metadata/CreateFile.antt =====
-- `applyCreateFile` of internal/metadata/apply.go.
use file_storage.Base.{ℕ, String, false, Option, none, some, List, if◌then◌else◌}
use file_storage.Types.{CreateMode, create_if_not_exist, overwrite_if_exists}
use file_storage.Path.{split_path}
use file_storage.Tree.{Attrs, Entry, node, nil, attrs, children, get_child, walk_dirs, modify}
use file_storage.Metadata.{
  CommandPayload, MetadataServer, status_pending, invalid_path, parent_not_found, is_a_directory,
  already_exists, Outcome, fail, put_in, Target, no_target, target, split_last,
}

abbrev pub new_file : ℕ → CommandPayload → String → ℕ → String → Entry
new_file now p name created_at file_id =
    node
      (record {
        name = name;
        is_dir = false;
        size = p.size;
        mode = 0o644;
        created_at = created_at;
        mod_time = now;
        status = status_pending;
        file_id = file_id;
        replicas = p.replicas;
      })
      nil

-- The file is put into its directory.
abbrev pub link : ℕ → List String → String → Entry → MetadataServer → Outcome
link now dir name x mds = (none, record mds { root = modify dir (put_in now name x) mds.root })

-- The existing file is replaced: it keeps the time of its creation and its identity.
unfoldable pub overwrite :
    ℕ → CommandPayload → List String → String → Attrs → CreateMode → MetadataServer → Outcome
overwrite now p dir name old create_if_not_exist mds = fail (already_exists p.path) mds
overwrite now p dir name old overwrite_if_exists mds =
    link now dir name (new_file now p name old.created_at old.file_id) mds

-- The check for an existing entry, and what follows it.
unfoldable pub put_file :
    ℕ → CommandPayload → List String → String → Option Entry → MetadataServer → Outcome
put_file now p dir name none mds = link now dir name (new_file now p name now p.file_id) mds
put_file now p dir name (some old) mds =
    if (attrs old).is_dir
    then fail (is_a_directory p.path) mds
    else overwrite now p dir name (attrs old) p.create_mode mds

-- The directory that the walk reached.
unfoldable pub create_in :
    ℕ → CommandPayload → List String → String → Option Entry → MetadataServer → Outcome
create_in now p dir name none mds = fail (parent_not_found p.path) mds
create_in now p dir name (some current) mds =
    put_file now p dir name (get_child name (children current)) mds

unfoldable pub create_at : ℕ → CommandPayload → Target → MetadataServer → Outcome
create_at now p no_target mds = fail (invalid_path p.path) mds
create_at now p (target dir name) mds = create_in now p dir name (walk_dirs dir mds.root) mds

unfoldable pub apply_create_file : ℕ → CommandPayload → MetadataServer → Outcome
unfolding overwrite put_file create_in create_at
apply_create_file now p mds = create_at now p (split_last (split_path p.path)) mds
