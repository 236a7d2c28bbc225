-- ===== src/Metadata/UpdateFile.antt =====
-- `applyCompleteFile` and `applyUpdateSize` of internal/metadata/apply.go.
use file_storage.Base.{ℕ, ℤ, String, Option, none, some, if◌then◌else◌}
use file_storage.Path.{split_path}
use file_storage.Tree.{Entry, on_attrs, attrs, walk, modify}
use file_storage.Metadata.{
  CommandPayload, MetadataServer, status_complete, path_not_found, cannot_complete,
  cannot_update_size, Outcome, fail,
}

-- `mds.lookup(path)`
unfoldable pub lookup : String → MetadataServer → Option Entry
lookup path mds = walk (split_path path) mds.root

abbrev pub set_complete : ℕ → Entry → Entry
set_complete now = on_attrs (λ a. record a { status = status_complete; mod_time = now })

abbrev pub set_size : ℕ → ℤ → Entry → Entry
set_size now size = on_attrs (λ a. record a { size = size; mod_time = now })

unfoldable pub complete : ℕ → CommandPayload → Option Entry → MetadataServer → Outcome
complete now p none mds = fail (path_not_found p.path) mds
complete now p (some e) mds =
    if (attrs e).is_dir
    then fail (cannot_complete p.path) mds
    else (none, record mds { root = modify (split_path p.path) (set_complete now) mds.root })

unfoldable pub apply_complete_file : ℕ → CommandPayload → MetadataServer → Outcome
unfolding lookup complete
apply_complete_file now p mds = complete now p (lookup p.path mds) mds

unfoldable pub update_size : ℕ → CommandPayload → Option Entry → MetadataServer → Outcome
update_size now p none mds = fail (path_not_found p.path) mds
update_size now p (some e) mds =
    if (attrs e).is_dir
    then fail (cannot_update_size p.path) mds
    else (none, record mds { root = modify (split_path p.path) (set_size now p.new_size) mds.root })

unfoldable pub apply_update_size : ℕ → CommandPayload → MetadataServer → Outcome
unfolding lookup update_size
apply_update_size now p mds = update_size now p (lookup p.path mds) mds
