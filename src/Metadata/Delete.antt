-- ===== src/Metadata/Delete.antt =====
-- `applyDelete` of internal/metadata/apply.go.
use file_storage.Base.{ℕ, String, Option, none, some, List}
use file_storage.Path.{split_path}
use file_storage.Tree.{Entry, children, get_child, walk_dirs, modify}
use file_storage.Metadata.{
  CommandPayload, MetadataServer, path_not_found, cannot_delete_root, Outcome, fail, drop_in,
  Target, no_target, target, split_last,
}

unfoldable pub delete_entry :
    ℕ → CommandPayload → List String → String → Option Entry → MetadataServer → Outcome
delete_entry now p dir name none mds = fail (path_not_found p.path) mds
delete_entry now p dir name (some x) mds =
    (none, record mds { root = modify dir (drop_in now name) mds.root })

-- The directory that the walk reached.
unfoldable pub delete_in :
    ℕ → CommandPayload → List String → String → Option Entry → MetadataServer → Outcome
delete_in now p dir name none mds = fail (path_not_found p.path) mds
delete_in now p dir name (some current) mds =
    delete_entry now p dir name (get_child name (children current)) mds

unfoldable pub delete_at : ℕ → CommandPayload → Target → MetadataServer → Outcome
delete_at now p no_target mds = fail cannot_delete_root mds
delete_at now p (target dir name) mds = delete_in now p dir name (walk_dirs dir mds.root) mds

unfoldable pub apply_delete : ℕ → CommandPayload → MetadataServer → Outcome
unfolding delete_entry delete_in delete_at
apply_delete now p mds = delete_at now p (split_last (split_path p.path)) mds
