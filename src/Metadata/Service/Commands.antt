-- ===== src/Metadata/Service/Commands.antt =====
-- The requests of internal/metadata/mds.go that write, and the commands that they run.
use mathlib.Core.Path.{subst}
use file_storage.Base.{
  ◌⊎◌, sym, ◌≢◌, [], String, Bool, true, false, ◌≡◌, refl, Option, none, some, ◌||◌, ◌==◌,
  Bool-cases, Option-cases, List, inl, inr, is_negative, if◌then◌else◌,
}
use file_storage.Types.{Replica, CreateFileArgs, RenameArgs, UpdateSizeArgs, DeleteReply}
use file_storage.Tree.{Entry, attrs}
use file_storage.Metadata.{CommandPayload, MetadataServer, Target, no_target, target}
use file_storage.Metadata.Machine.{PayloadJson}
use file_storage.Metadata.Raft.{
  RpcError, not_leader, marshal_failed, raft_failed, file_id_failed, no_data_nodes, bad_path,
  no_parent, no_path, empty_path, root_rename, negative_size, RaftServer, IsRaft, submit_data,
  submit_command,
}
use file_storage.Metadata.Service.{
  Answer, failed, replied, reply_with, unless_failed, is_no_node, create_with, create_below,
  create_target, create_named, delete_found, rename_checked, update_checked,
}
use file_storage.Metadata.Service as Service
use file_storage.Metadata.Service.Served.{
  Request, heartbeat_of, mkdir_at, create_of, complete_at, delete_at, rename_by, update_by,
  unchanged,
}
use file_storage.Metadata.Service.Assignment.{some_node}
use file_storage.Metadata.Placement.Distinct.{select_data_nodes-IsAssignment}
use file_storage.Metadata.Service.Applied.{create_payload, rename_payload}
use file_storage.Metadata.Service.Promises.{
  Promise, runs, keeps_state, names_leader, Answered, sent_on, refused, kept, applied,
  create_promise, rename_promise, delete_promise, update_promise, delete_payload, IsAnswered,
  IsServed,
}

-- The check at the start of a request.
unless_failed-Answered :
    {A : Type 0} (leads : Bool) (leader : String) (promise : A → Promise) (mds : MetadataServer)
    (rest : Answer A × MetadataServer)
    → (leads ≡ true → Answered leads leader promise mds rest)
    → Answered leads leader promise mds
        (unless_failed (if leads then none else some (not_leader leader)) mds rest)
unless_failed-Answered true leader promise mds rest then_rest = then_rest refl
unless_failed-Answered false leader promise mds rest then_rest = sent_on refl

module _ (json : PayloadJson) (raft : RaftServer json) (good : IsRaft json raft)
    (mds : MetadataServer) (leads : raft.is_leader ≡ true) where
  refused_unchanged :
      {A : Type 0} (promise : A → Promise) (e : RpcError)
      → names_leader e ≡ false
      → IsAnswered json raft mds promise (failed e, mds)
  refused_unchanged promise e h = refused e mds leads h (unchanged mds)

  submit_data-IsAnswered :
      {A : Type 0} (promise : A → Promise) (a : A) (p : CommandPayload) (d : Option json.Data)
      → promise a ≡ runs p
      → json.marshal p ≡ d
      → IsAnswered json raft mds promise (reply_with a (submit_data json raft p.op d mds))
  submit_data-IsAnswered promise a p none is m = refused_unchanged promise marshal_failed refl
  submit_data-IsAnswered promise a p (some d) is m =
      elim (Option-cases (raft.do_command p.op d mds).0) [
        | inl ok ↦ rw ok (applied a p _ leads is (good.do_command-applied p d mds m ok))
        | inr (e, bad) ↦
            rw bad (refused (raft_failed e) _ leads refl (good.do_command-replay p.op d mds))
      ]

  commanded-IsAnswered :
      {A : Type 0} (promise : A → Promise) (a : A) (p : CommandPayload)
      → promise a ≡ runs p
      → IsAnswered json raft mds promise (reply_with a (submit_command json raft p mds))
  unfolding submit_command
  commanded-IsAnswered promise a p is = submit_data-IsAnswered promise a p (json.marshal p) is refl

  create_with-IsAnswered :
      (args : CreateFileArgs) (id : String) (rs : List Replica)
      → IsAnswered json raft mds
          (create_promise args (inr id))
          (create_with json raft args id (some rs) mds)
  unfolding create_with
  create_with-IsAnswered args id rs =
      commanded-IsAnswered (create_promise args (inr id)) rs (create_payload args id rs) refl

  create_below-IsAnswered :
      (args : CreateFileArgs) (id : String) (dir : Option Entry)
      → mds.data_nodes ≢ []
      → IsAnswered json raft mds
          (create_promise args (inr id))
          (create_below json raft args id dir mds)
  unfolding create_below
  create_below-IsAnswered args id none has_node = refused_unchanged _ (no_parent args.path) refl
  create_below-IsAnswered args id (some dir) has_node =
      let (rs, same, distinct) =
        select_data_nodes-IsAssignment args.path id mds.replica_count mds.data_nodes has_node in
      subst
        (λ x.
          IsAnswered json raft mds (create_promise args (inr id))
            (create_with json raft args id x mds))
        (sym same) (create_with-IsAnswered args id rs)

  create_target-IsAnswered :
      (args : CreateFileArgs) (id : String) (t : Target)
      → mds.data_nodes ≢ []
      → IsAnswered json raft mds
          (create_promise args (inr id))
          (create_target json raft args id t mds)
  unfolding create_target
  create_target-IsAnswered args id no_target has_node =
      refused_unchanged _ (bad_path args.path) refl
  create_target-IsAnswered args id (target dir name) has_node =
      create_below-IsAnswered args id _ has_node

  create_named-IsAnswered :
      (args : CreateFileArgs) (new_id : String ⊎ String)
      → IsAnswered json raft mds
          (create_promise args new_id)
          (create_named json raft args new_id mds)
  unfolding create_named
  create_named-IsAnswered args (inl error) = refused_unchanged _ (file_id_failed error) refl
  create_named-IsAnswered args (inr id) = elim (Bool-cases (is_no_node mds.data_nodes)) [
    | inl no_node ↦ rw no_node (refused_unchanged (create_promise args (inr id)) no_data_nodes refl)
    | inr has_node ↦
        rw has_node (create_target-IsAnswered args id _ (some_node mds.data_nodes has_node))
  ]

  delete_found-IsAnswered :
      (path : String) (x : Option Entry)
      → IsAnswered json raft mds (delete_promise path) (delete_found json raft path x mds)
  unfolding delete_found
  delete_found-IsAnswered path none = refused_unchanged _ (no_path path) refl
  delete_found-IsAnswered path (some x) =
      let a : DeleteReply = record { replicas = (attrs x).replicas; is_dir = (attrs x).is_dir } in
      commanded-IsAnswered (delete_promise path) a (delete_payload path a) refl

  rename_same :
      (args : RenameArgs)
      → args.src_path == args.dst_path ≡ true
      → rename_promise args true ≡ keeps_state
  rename_same args same = rw same refl

  rename_other :
      (args : RenameArgs)
      → args.src_path == args.dst_path ≡ false
      → rename_promise args true ≡ runs (rename_payload args)
  rename_other args other = rw other refl

  rename_checked-IsAnswered :
      (args : RenameArgs)
      → IsAnswered json raft mds (rename_promise args) (rename_checked json raft args mds)
  unfolding rename_checked
  rename_checked-IsAnswered args = elim (Bool-cases (args.src_path == "" || args.dst_path == "")) [
    | inl empty ↦ rw (rename_checked, empty) (refused_unchanged _ empty_path refl)
    | inr full ↦ elim (Bool-cases (args.src_path == "/" || args.dst_path == "/")) [
      | inl root ↦ rw (rename_checked, full, root) (refused_unchanged _ root_rename refl)
      | inr other ↦ elim (Bool-cases (args.src_path == args.dst_path)) [
        | inl same ↦
            subst (λ x. IsAnswered json raft mds (rename_promise args) x)
              (sym (rw (rename_checked, full, other, same) refl))
              (kept true leads (rename_same args same))
        | inr differ ↦
            subst (λ x. IsAnswered json raft mds (rename_promise args) x)
              (sym (rw (rename_checked, full, other, differ) refl))
              (commanded-IsAnswered (rename_promise args) true (rename_payload args)
                (rename_other args differ))
      ]
    ]
  ]

  update_checked-IsAnswered :
      (args : UpdateSizeArgs)
      → IsAnswered json raft mds (update_promise args) (update_checked json raft args mds)
  unfolding update_checked
  update_checked-IsAnswered args = elim (Bool-cases (args.path == "")) [
    | inl empty ↦ rw empty (refused_unchanged _ empty_path refl)
    | inr full ↦ elim (Bool-cases (is_negative args.size)) [
      | inl below ↦ rw (full, below) (refused_unchanged _ negative_size refl)
      | inr there ↦ rw (full, there) (commanded-IsAnswered (update_promise args) true _ refl)
    ]
  ]

-- Over a Raft server that keeps its promises, a request that writes is refused with the address of
-- the leader, and the state as it was, by a server that does not lead, and only by such a server. Where
-- this server leads, a reply means that the log has the request's one command with the request's
-- arguments in it (that of a deletion also with what the reply tells, that of a creation with the new
-- id and the replicas of the reply; a rename of a path to itself has none), a creation without an id
-- gets no reply, and after an error the state comes by a log. No request panics.
pub serve-IsServed :
    (json : PayloadJson) (raft : RaftServer json) (good : IsRaft json raft) (r : Request)
    (mds : MetadataServer)
    → IsServed json raft mds r
unfolding Service.heartbeat Service.mkdir Service.create_file Service.complete_file Service.delete
    Service.rename Service.update_size
serve-IsServed json raft good (heartbeat_of addr) mds =
    unless_failed-Answered _ _ _ mds _
      (λ leads. commanded-IsAnswered json raft good mds leads _ _ _ refl)
serve-IsServed json raft good (mkdir_at path) mds =
    unless_failed-Answered _ _ _ mds _
      (λ leads. commanded-IsAnswered json raft good mds leads _ _ _ refl)
serve-IsServed json raft good (create_of args new_id) mds =
    unless_failed-Answered _ _ _ mds _
      (λ leads. create_named-IsAnswered json raft good mds leads args new_id)
serve-IsServed json raft good (complete_at path) mds =
    unless_failed-Answered _ _ _ mds _
      (λ leads. commanded-IsAnswered json raft good mds leads _ _ _ refl)
serve-IsServed json raft good (delete_at path) mds =
    unless_failed-Answered _ _ _ mds _
      (λ leads. delete_found-IsAnswered json raft good mds leads path _)
serve-IsServed json raft good (rename_by args) mds =
    unless_failed-Answered _ _ _ mds _
      (λ leads. rename_checked-IsAnswered json raft good mds leads args)
serve-IsServed json raft good (update_by args) mds =
    unless_failed-Answered _ _ _ mds _
      (λ leads. update_checked-IsAnswered json raft good mds leads args)
