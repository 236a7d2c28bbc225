-- ===== src/Metadata/Snapshot/RoundTrip.antt =====
-- A snapshot of internal/metadata/state_machine.go, restored, and the log that follows.
use file_storage.Base.{ℕ, Bool, true, ◌≡◌, refl, ap, sym, ◌∙◌, some, List, [], ◌∷◌, ◌++◌, arith}
use file_storage.Tree.{Entry, node, Children, nil, child}
use file_storage.Tree.Sound.{is_sound, are_sound, IsTree}
use file_storage.Metadata.{MetadataServer, new_metadata_server}
use file_storage.Metadata.Machine.{LogEntry, apply_entry, replay}
use file_storage.Metadata.Machine.Constant.{replica_count-replay}
use file_storage.Invariant.{replay-IsTree, new_metadata_server-IsTree}
use file_storage.Metadata.Snapshot.{
  to_snapshot, to_snapshots, to_entry, to_entries, SnapshotJson, IsLossless, snapshot, restore,
}

mutual
  unfolding to_snapshot to_entry is_sound

  to_entry-to_snapshot : (e : Entry) → is_sound e ≡ true → to_entry (to_snapshot e) ≡ e
  to_entry-to_snapshot (node a cs) s = ground (arith, to_entries-to_snapshots cs)

  to_entries-to_snapshots :
      (cs : Children) → are_sound cs ≡ true → to_entries (to_snapshots cs) ≡ cs
  to_entries-to_snapshots nil s = refl
  to_entries-to_snapshots (child n e cs) s =
      ground (arith, to_entry-to_snapshot e, to_entries-to_snapshots cs)

replay-append :
    (log rest : List LogEntry) (mds : MetadataServer)
    → replay (log ++ rest) mds ≡ replay rest (replay log mds)
unfolding replay
replay-append [] rest mds = refl
replay-append (e ∷ log) rest mds = replay-append log rest (apply_entry e mds).1

module _ (json : SnapshotJson) (lossless : IsLossless json) where
  -- A server that restores the snapshot of another has its tree, its data nodes and its heartbeats;
  -- its own number of replicas stays.
  pub restore-snapshot :
      (mds other : MetadataServer) (bytes : json.Data)
      → IsTree mds.root
      → snapshot json mds ≡ some bytes
      → restore json bytes other ≡ (
        true,
        record other {
          root = mds.root;
          data_nodes = mds.data_nodes;
          last_heartbeat = mds.last_heartbeat;
        },
      )
  unfolding snapshot restore
  restore-snapshot mds other bytes t h =
      rw (lossless.is_empty-marshal _ bytes h, lossless.unmarshal-marshal _ bytes h)
        (rw (to_entry-to_snapshot mds.root t.sound) refl)

  -- Restoring a snapshot and applying the rest of the log gives the state that the whole log gives:
  -- for a server that is new at any time, and a log of any entries before and after the snapshot.
  pub replay-restore :
      (log rest : List LogEntry) (now later : ℕ) (bytes : json.Data)
      → snapshot json (replay log (new_metadata_server now)) ≡ some bytes
      → replay rest (restore json bytes (new_metadata_server later)).1
        ≡ replay (log ++ rest) (new_metadata_server now)
  replay-restore log rest now later bytes h =
      ap (replay rest) (
        ap (λ (o : Bool × MetadataServer). o.1)
          (restore-snapshot (replay log (new_metadata_server now)) (new_metadata_server later) bytes
            (replay-IsTree log (new_metadata_server now) (new_metadata_server-IsTree now)) h)
        ∙ same_count log)
      ∙ sym (replay-append log rest (new_metadata_server now))
    where
      same_count :
          (l : List LogEntry)
          → ◌≡◌ {A = MetadataServer}
              (record (new_metadata_server later) {
                root = (replay l (new_metadata_server now)).root;
                data_nodes = (replay l (new_metadata_server now)).data_nodes;
                last_heartbeat = (replay l (new_metadata_server now)).last_heartbeat;
              })
              (replay l (new_metadata_server now))
      same_count l = ground (arith, replica_count-replay l (new_metadata_server now))
