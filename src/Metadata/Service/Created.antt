-- ===== src/Metadata/Service/Created.antt =====
-- What `CreateFile` and `CompleteFile` of internal/metadata/mds.go leave on a server that leads.
use file_storage.Base.{
  ℕ, String, Bool, true, ◌≡◌, refl, sym, ap, ◌∙◌, Option, none, some, List, [], inl, inr, arith,
  Bool-cases,
}
use file_storage.Types.{Replica, CreateFileArgs}
use file_storage.Path.{split_path}
use file_storage.Tree.{Entry, walk_dirs}
use file_storage.Metadata.{CommandPayload, MetadataServer, Target, no_target, target, split_last}
use file_storage.Metadata.Machine.{
  PayloadJson, command, apply_entry, op_create_file, op_complete_file,
}
use file_storage.Metadata.Raft.{RaftServer, no_payload, check_leader}
use file_storage.Metadata.Service.{
  Answer, failed, replied, panicked, reply_with, unless_failed, is_no_node, create_with,
  create_below, create_target, create_named, create_file, complete_file,
}
use file_storage.Metadata.Service.Applied.{create_payload}
use file_storage.Metadata.Service.Quiet.{IsQuiet, submit_command-quiet}
use file_storage.View.{View, view}
use file_storage.Spec.{Effect, spec_create_file, spec_complete_file}
use mathlib.Core.Path.{subst}
use file_storage.Metadata.Raft.{RpcError}
use file_storage.Metadata.Machine.{LogEntry}
use file_storage.Spec.Machine.{spec_entry}
use file_storage.Spec.Dirs.{are_dirs_of_walk_dirs}
use file_storage.Spec.Machine.{effect-apply_entry}
use file_storage.Metadata.Service.Seen.{
  IsFileAt, IsCompleteAt, spec_create_file-IsFileAt, spec_complete_file-IsCompleteAt,
}

-- Of the answer to a creation: where it is a reply, and nothing was at the path, there is a file.
abbrev IsMade :
    CreateFileArgs → String → MetadataServer → Answer (List Replica) × MetadataServer → Type 0
IsMade args id mds (failed e, left) = Unit {0}
IsMade args id mds (panicked, left) = Unit {0}
IsMade args id mds (replied replicas, left) =
    IsFileAt (view left) (split_path args.path) id replicas

IsMade-replied :
    (args : CreateFileArgs) (id : String) (mds : MetadataServer)
    (x : Answer (List Replica) × MetadataServer) (replicas : List Replica)
    → IsMade args id mds x
    → x.0 ≡ replied replicas
    → IsFileAt (view x.1) (split_path args.path) id replicas
IsMade-replied args id mds (failed e, left) replicas made h = ground arith
IsMade-replied args id mds (panicked, left) replicas made h = ground arith
IsMade-replied args id mds (replied others, left) replicas made h =
    subst (IsFileAt (view left) (split_path args.path) id) (replied_inj h) made
  where
    content_of : Answer (List Replica) → List Replica
    content_of (failed e) = []
    content_of panicked = []
    content_of (replied rs) = rs

    replied_inj : replied others ≡ replied replicas → others ≡ replicas
    replied_inj h = ap content_of h

unless_failed-none :
    {A : Type 0} (e : Option RpcError) (mds : MetadataServer) (rest : Answer A × MetadataServer)
    → e ≡ none
    → unless_failed e mds rest ≡ rest
unless_failed-none none mds rest h = refl
unless_failed-none (some e) mds rest h = ground arith

leads-check_leader :
    (json : PayloadJson) (raft : RaftServer json)
    → raft.is_leader ≡ true
    → check_leader json raft ≡ none
leads-check_leader json raft leads = rw leads refl

view-apply_entry :
    (e : LogEntry) (mds : MetadataServer) → view (apply_entry e mds).1 ≡ (spec_entry e (view mds)).1
view-apply_entry e mds = ap (λ (x : Effect). x.1) (effect-apply_entry e mds)

spec_entry-create_file :
    (now : ℕ) (p : CommandPayload) (v : View)
    → spec_entry (record { now = now; op = op_create_file; payload = p }) v
      ≡ spec_create_file now p v
unfolding command
spec_entry-create_file now p v = refl

spec_entry-complete_file :
    (now : ℕ) (p : CommandPayload) (v : View)
    → spec_entry (record { now = now; op = op_complete_file; payload = p }) v
      ≡ spec_complete_file now p v
unfolding command
spec_entry-complete_file now p v = refl

module _ (json : PayloadJson) (raft : RaftServer json) (quiet : IsQuiet json raft)
    (args : CreateFileArgs) (id : String) (mds : MetadataServer)
    (new : view mds (split_path args.path) ≡ none) where
  create_with-IsMade :
      (dir : List String) (name : String) (d : Entry) (replicas : Option (List Replica))
      → split_last (split_path args.path) ≡ target dir name
      → walk_dirs dir mds.root ≡ some d
      → IsMade args id mds (create_with json raft args id replicas mds)
  unfolding create_with
  create_with-IsMade dir name d none split walked = tt
  create_with-IsMade dir name d (some replicas) split walked =
      let p = create_payload args id replicas in
      let (now, done) = submit_command-quiet json raft quiet p mds in
      let entry : LogEntry = record { now = now; op = op_create_file; payload = p } in
      let seen =
        view-apply_entry entry mds
        ∙ ap (λ (x : Effect). x.1) (spec_entry-create_file now p (view mds)) in
      subst (λ o. IsMade args id mds (reply_with replicas o)) (sym done)
        (subst (λ v. IsFileAt v (split_path args.path) id replicas) (sym seen)
          (spec_create_file-IsFileAt now p (view mds) dir name split
            (are_dirs_of_walk_dirs dir mds.root d walked) new))

  create_below-IsMade :
      (dir : List String) (name : String) (d : Option Entry)
      → split_last (split_path args.path) ≡ target dir name
      → walk_dirs dir mds.root ≡ d
      → IsMade args id mds (create_below json raft args id d mds)
  unfolding create_below
  create_below-IsMade dir name none split walked = tt
  create_below-IsMade dir name (some d) split walked = create_with-IsMade dir name d _ split walked

  create_target-IsMade :
      (t : Target)
      → split_last (split_path args.path) ≡ t
      → IsMade args id mds (create_target json raft args id t mds)
  unfolding create_target
  create_target-IsMade no_target split = tt
  create_target-IsMade (target dir name) split = create_below-IsMade dir name _ split refl

  create_named-IsMade : IsMade args id mds (create_named json raft args (inr id) mds)
  unfolding create_named
  create_named-IsMade = elim (Bool-cases (is_no_node mds.data_nodes)) [
    | inl no_node ↦ rw no_node tt
    | inr has_node ↦ rw has_node (create_target-IsMade (split_last (split_path args.path)) refl)
  ]

  create_file-IsMade : IsMade args id mds (create_file json raft args (inr id) mds)
  unfolding create_file
  create_file-IsMade =
      subst (IsMade args id mds)
        (sym (
          unless_failed-none (check_leader json raft) mds _
            (leads-check_leader json raft quiet.leads)))
        create_named-IsMade

  -- Where a creation replies, and nothing was at the path, there is a file then.
  pub create_file-IsFileAt :
      (replicas : List Replica)
      → (create_file json raft args (inr id) mds).0 ≡ replied replicas
      → IsFileAt
          (view (create_file json raft args (inr id) mds).1)
          (split_path args.path)
          id
          replicas
  create_file-IsFileAt replicas h = IsMade-replied args id mds _ replicas create_file-IsMade h

-- The reply, and what is seen then.
abbrev pub IsCompleted : String → String → List Replica → Answer Bool × MetadataServer → Type 0
IsCompleted path id replicas after =
    (after.0 ≡ replied true) × IsCompleteAt (view after.1) (split_path path) id replicas

-- Marking a file as complete succeeds, and changes nothing else of it.
pub complete_file-IsCompleted :
    (json : PayloadJson) (raft : RaftServer json) (quiet : IsQuiet json raft) (path : String)
    (mds : MetadataServer) (id : String) (replicas : List Replica)
    → IsFileAt (view mds) (split_path path) id replicas
    → IsCompleted path id replicas (complete_file json raft path mds)
unfolding complete_file
complete_file-IsCompleted json raft quiet path mds id replicas there =
    let p : CommandPayload = record no_payload { op = op_complete_file; path = path } in
    let (now, done) = submit_command-quiet json raft quiet p mds in
    let entry : LogEntry = record { now = now; op = op_complete_file; payload = p } in
    let seen =
      view-apply_entry entry mds
      ∙ ap (λ (x : Effect). x.1) (spec_entry-complete_file now p (view mds)) in
    subst (IsCompleted path id replicas)
      (sym (
        unless_failed-none (check_leader json raft) mds _ (leads-check_leader json raft quiet.leads)
        ∙ ap (reply_with true) done))
      (
        refl,
        subst (λ v. IsCompleteAt v (split_path path) id replicas) (sym seen)
            (spec_complete_file-IsCompleteAt now p (view mds) id replicas there),
      )
