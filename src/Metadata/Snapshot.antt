-- ===== src/Metadata/Snapshot.antt =====
-- `Snapshot` and `Restore` of internal/metadata/state_machine.go, with the serialised form of the
-- tree from internal/metadata/mds.go.
pub mod RoundTrip
use file_storage.Base.{
  ℕ, pos, String, Bool, true, false, Option, none, some, List, [], ◌∷◌, ◌≡◌, if◌then◌else◌,
}
use file_storage.Tree.{Attrs, Entry, node, Children, nil, child}
use file_storage.Metadata.{MetadataServer}

-- `entrySnapshot`: the fields of an entry and, of a directory, the snapshots of its children.
mutual
  pub data EntrySnapshot : Type 0 where
    snap : Attrs → SnapshotChildren → EntrySnapshot

  pub data SnapshotChildren : Type 0 where
    snap_nil : SnapshotChildren
    snap_child : String → EntrySnapshot → SnapshotChildren → SnapshotChildren

pub record MetaSnapshot : Type 0 where
  pub root : Option EntrySnapshot
  pub data_nodes : List String
  pub last_heartbeat : Option (List (String × ℕ))

unfoldable mutual
  pub to_snapshot : Entry → EntrySnapshot
  to_snapshot (node a cs) = let all = to_snapshots cs in snap a (if a.is_dir then all else snap_nil)

  to_snapshots : Children → SnapshotChildren
  to_snapshots nil = snap_nil
  to_snapshots (child n e cs) = snap_child n (to_snapshot e) (to_snapshots cs)

unfoldable mutual
  pub to_entry : EntrySnapshot → Entry
  to_entry (snap a ss) = let all = to_entries ss in node a (if a.is_dir then all else nil)

  to_entries : SnapshotChildren → Children
  to_entries snap_nil = nil
  to_entries (snap_child n s ss) = child n (to_entry s) (to_entries ss)

-- The root of a snapshot that has none: the times are zero.
abbrev empty_root : Entry
empty_root =
    node
      (record {
        name = "/";
        is_dir = true;
        size = pos 0;
        mode = 0o755;
        created_at = 0;
        mod_time = 0;
        status = "";
        file_id = "";
        replicas = [];
      })
      nil

unfoldable pub root_entry : Option EntrySnapshot → Entry
unfolding to_entry
root_entry none = empty_root
root_entry (some s) = to_entry s

-- What encoding/json does for a snapshot. `is_empty` is the test of the length.
pub record SnapshotJson : Type 1 where
  pub Data : Type 0
  pub marshal : MetaSnapshot → Option Data
  pub unmarshal : Data → Option MetaSnapshot
  pub is_empty : Data → Bool

-- What it documents: what it writes is not empty, and is read back.
pub record IsLossless (json : SnapshotJson) : Type 0 where
  pub is_empty-marshal :
      (s : MetaSnapshot) (d : json.Data) → json.marshal s ≡ some d → json.is_empty d ≡ false
  pub unmarshal-marshal :
      (s : MetaSnapshot) (d : json.Data) → json.marshal s ≡ some d → json.unmarshal d ≡ some s

abbrev or_empty : Option (List (String × ℕ)) → List (String × ℕ)
or_empty none = []
or_empty (some m) = m

-- Whether `Restore` succeeds, and the state that it leaves.
abbrev restore_from : Option MetaSnapshot → MetadataServer → Bool × MetadataServer
restore_from none mds = (false, mds)
restore_from (some s) mds = (
  true,
  record mds {
    root = root_entry s.root;
    data_nodes = s.data_nodes;
    last_heartbeat = or_empty s.last_heartbeat;
  },
)

module _ (json : SnapshotJson) where
  unfoldable pub snapshot : MetadataServer → Option json.Data
  unfolding to_snapshot
  snapshot mds = json.marshal (record {
    root = some (to_snapshot mds.root);
    data_nodes = mds.data_nodes;
    last_heartbeat = some mds.last_heartbeat;
  })

  unfoldable pub restore : json.Data → MetadataServer → Bool × MetadataServer
  unfolding root_entry
  restore bytes mds =
      if json.is_empty bytes then (true, mds) else restore_from (json.unmarshal bytes) mds
