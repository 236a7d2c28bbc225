-- ===== src/Metadata/Service/Promises.antt =====
-- What the answers to the requests of internal/metadata/mds.go that write stand for.
use file_storage.Base.{◌⊎◌, String, Bool, true, false, ◌≡◌, ◌==◌, List, inl, inr, if◌then◌else◌}
use file_storage.Types.{Replica, CreateFileArgs, RenameArgs, UpdateSizeArgs, DeleteReply}
use file_storage.Metadata.{CommandPayload, MetadataServer}
use file_storage.Metadata.Machine.{
  PayloadJson, op_heartbeat, op_mkdir, op_complete_file, op_delete, op_update_size,
}
use file_storage.Metadata.Raft.{RpcError, not_leader, RaftServer, no_payload}
use file_storage.Metadata.Service.{
  Answer, failed, replied, reply_with, unless_failed, is_no_node, create_with, create_below,
  create_target, create_named, delete_found, rename_checked, update_checked,
}
use file_storage.Metadata.Service as Service
use file_storage.Metadata.Service.Served.{
  Request, heartbeat_of, mkdir_at, create_of, complete_at, delete_at, rename_by, update_by,
  IsLogged,
}
use file_storage.Metadata.Service.Applied.{IsApplied, create_payload, rename_payload}

-- What a reply promises of the log: one command, nothing, or that there is no such reply.
pub data Promise : Type 0 where
  runs : CommandPayload → Promise
  keeps_state : Promise
  never : Promise

-- An error that names the leader.
abbrev pub names_leader : RpcError → Bool
names_leader (not_leader addr) = true
names_leader e = false

-- What a request comes to: its answer and the state that it leaves.
pub data Answered {A : Type 0} (leads : Bool) (leader : String) (promise : A → Promise)
    (mds : MetadataServer) : Answer A × MetadataServer → Type 0 where
  sent_on : leads ≡ false → Answered leads leader promise mds (failed (not_leader leader), mds)
  refused :
      (e : RpcError) (left : MetadataServer)
      → leads ≡ true
      → names_leader e ≡ false
      → IsLogged mds left
      → Answered leads leader promise mds (failed e, left)
  kept :
      (a : A)
      → leads ≡ true
      → promise a ≡ keeps_state
      → Answered leads leader promise mds (replied a, mds)
  applied :
      (a : A) (p : CommandPayload) (left : MetadataServer)
      → leads ≡ true
      → promise a ≡ runs p
      → IsApplied p mds left
      → Answered leads leader promise mds (replied a, left)

abbrev pub create_promise : CreateFileArgs → String ⊎ String → List Replica → Promise
create_promise args (inl error) replicas = never
create_promise args (inr id) replicas = runs (create_payload args id replicas)

abbrev pub delete_payload : String → DeleteReply → CommandPayload
delete_payload path reply = record no_payload {
  op = op_delete;
  path = path;
  is_dir = reply.is_dir;
  replicas = reply.replicas;
}

abbrev pub delete_promise : String → DeleteReply → Promise
delete_promise path reply = runs (delete_payload path reply)

abbrev pub update_promise : UpdateSizeArgs → Bool → Promise
update_promise args done =
    runs (record no_payload { op = op_update_size; path = args.path; new_size = args.size })

abbrev pub rename_promise : RenameArgs → Bool → Promise
rename_promise args done =
    if args.src_path == args.dst_path then keeps_state else runs (rename_payload args)

module _ (json : PayloadJson) (raft : RaftServer json) (mds : MetadataServer) where
  abbrev pub IsAnswered : {A : Type 0} → (A → Promise) → Answer A × MetadataServer → Type 0
  IsAnswered promise x = Answered raft.is_leader raft.get_leader promise mds x

  -- What each request promises.
  abbrev pub IsServed : Request → Type 0
  IsServed (heartbeat_of addr) =
      IsAnswered (λ reply. runs (record no_payload { op = op_heartbeat; addr = addr }))
        (Service.heartbeat json raft addr mds)
  IsServed (mkdir_at path) =
      IsAnswered (λ reply. runs (record no_payload { op = op_mkdir; path = path }))
        (Service.mkdir json raft path mds)
  IsServed (create_of args new_id) =
      IsAnswered (create_promise args new_id) (Service.create_file json raft args new_id mds)
  IsServed (complete_at path) =
      IsAnswered (λ reply. runs (record no_payload { op = op_complete_file; path = path }))
        (Service.complete_file json raft path mds)
  IsServed (delete_at path) = IsAnswered (delete_promise path) (Service.delete json raft path mds)
  IsServed (rename_by args) = IsAnswered (rename_promise args) (Service.rename json raft args mds)
  IsServed (update_by args) =
      IsAnswered (update_promise args) (Service.update_size json raft args mds)
