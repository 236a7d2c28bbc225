-- ===== src/Metadata/Service/Quiet.antt =====
-- A Raft server of internal/metadata/mds.go that leads, fails no command, and has no command of
-- another request to apply.
use file_storage.Base.{ℕ, true, ◌≡◌, refl, none, some}
use file_storage.Metadata.{CommandPayload, MetadataServer}
use file_storage.Metadata.Machine.{PayloadJson, apply_entry}
use file_storage.Metadata.Raft.{RaftServer, submit_command}

pub record IsQuiet (json : PayloadJson) (raft : RaftServer json) : Type 0 where
  pub leads : raft.is_leader ≡ true
  pub marshals : (p : CommandPayload) → (d : json.Data) × (json.marshal p ≡ some d)
  pub commits :
      (p : CommandPayload) (d : json.Data) (mds : MetadataServer)
      → json.marshal p ≡ some d
      → (now : ℕ) × (raft.do_command p.op d mds
          ≡ (none, (apply_entry (record { now = now; op = p.op; payload = p }) mds).1))

-- A command is applied, once and alone.
pub submit_command-quiet :
    (json : PayloadJson) (raft : RaftServer json) (quiet : IsQuiet json raft) (p : CommandPayload)
    (mds : MetadataServer)
    → (now : ℕ) × (submit_command json raft p mds
        ≡ (none, (apply_entry (record { now = now; op = p.op; payload = p }) mds).1))
unfolding submit_command
submit_command-quiet json raft quiet p mds =
    let (d, marshalled) = quiet.marshals p in
    let (now, done) = quiet.commits p d mds marshalled in (now, rw (marshalled, done) refl)
