-- ===== src/Metadata/Service/Applied.antt =====
-- The requests of internal/metadata/mds.go that write, and the log.
use file_storage.Base.{
  ℕ, String, ◌||◌, ◌==◌, Bool, true, false, ◌≡◌, refl, Bool-cases, Option, none, some, List, ◌∷◌,
  ◌++◌, inl, inr, Option-cases,
}
use file_storage.Types.{Replica, CreateFileArgs, RenameArgs}
use file_storage.Metadata.{CommandPayload, MetadataServer}
use file_storage.Metadata.Machine.{PayloadJson, LogEntry, replay, op_create_file, op_rename}
use file_storage.Metadata.Raft.{
  RpcError, RaftServer, IsRaft, no_payload, check_leader, submit_data, submit_command,
}
use file_storage.Metadata.Service.{
  Answer, failed, replied, panicked, reply_with, unless_failed, rename_checked, rename,
}

-- The second state comes from the first by a log that has the command.
abbrev pub IsApplied : CommandPayload → MetadataServer → MetadataServer → Type 0
IsApplied p mds left =
    (now : ℕ) × (before : List LogEntry) × (after : List LogEntry) × (left
      ≡ replay (before ++ (record { now = now; op = p.op; payload = p } ∷ after)) mds)

-- Of an answer: where it is a reply, the command for that reply is applied.
abbrev pub IsDone :
    {A : Type 0} → (A → CommandPayload) → MetadataServer → Answer A × MetadataServer → Type 0
IsDone command_for mds (failed e, left) = Unit {0}
IsDone command_for mds (panicked, left) = Unit {0}
IsDone command_for mds (replied a, left) = IsApplied (command_for a) mds left

-- The command of a creation that replies with these replicas.
abbrev pub create_payload : CreateFileArgs → String → List Replica → CommandPayload
create_payload args file_id replicas = record no_payload {
  op = op_create_file;
  path = args.path;
  size = args.size;
  replicas = replicas;
  create_mode = args.create_mode;
  file_id = file_id;
}

abbrev pub rename_payload : RenameArgs → CommandPayload
rename_payload args = record no_payload {
  op = op_rename;
  path = args.src_path;
  dst_path = args.dst_path;
}

unless_failed-IsDone :
    {A : Type 0} (f : A → CommandPayload) (mds : MetadataServer) (e : Option RpcError)
    (rest : Answer A × MetadataServer)
    → IsDone f mds rest
    → IsDone f mds (unless_failed e mds rest)
unless_failed-IsDone f mds none rest done = done
unless_failed-IsDone f mds (some e) rest done = tt

module _ (json : PayloadJson) (raft : RaftServer json) (good : IsRaft json raft)
    (mds : MetadataServer) where
  submit_data-IsDone :
      {A : Type 0} (f : A → CommandPayload) (a : A) (d : Option json.Data)
      → json.marshal (f a) ≡ d
      → IsDone f mds (reply_with a (submit_data json raft (f a).op d mds))
  submit_data-IsDone f a none m = tt
  submit_data-IsDone f a (some d) m = elim (Option-cases (raft.do_command (f a).op d mds).0) [
    | inl ok ↦ rw ok (good.do_command-applied (f a) d mds m ok)
    | inr (e, bad) ↦ rw bad tt
  ]

  commanded-IsDone :
      {A : Type 0} (f : A → CommandPayload) (a : A)
      → IsDone f mds (reply_with a (submit_command json raft (f a) mds))
  unfolding submit_command
  commanded-IsDone f a = submit_data-IsDone f a (json.marshal (f a)) refl

  rename_checked-IsDone :
      (args : RenameArgs)
      → args.src_path == args.dst_path ≡ false
      → IsDone (λ b. rename_payload args) mds (rename_checked json raft args mds)
  unfolding rename_checked
  rename_checked-IsDone args differ =
      elim (Bool-cases (args.src_path == "" || args.dst_path == "")) [
        | inl empty ↦ rw empty tt
        | inr full ↦ elim (Bool-cases (args.src_path == "/" || args.dst_path == "/")) [
          | inl root ↦ rw (full, root) tt
          | inr other ↦
              rw (full, other, differ) (commanded-IsDone (λ (b : Bool). rename_payload args) true)
        ]
      ]

-- Over a Raft server that keeps its promises, a rename between different paths that succeeds has
-- its one command in the log.
pub rename-IsDone :
    (json : PayloadJson) (raft : RaftServer json) (good : IsRaft json raft) (args : RenameArgs)
    (mds : MetadataServer)
    → args.src_path == args.dst_path ≡ false
    → IsDone (λ b. rename_payload args) mds (rename json raft args mds)
unfolding rename
rename-IsDone json raft good args mds differ =
    unless_failed-IsDone _ mds (check_leader json raft) _
      (rename_checked-IsDone json raft good mds args differ)
