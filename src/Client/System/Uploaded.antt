-- ===== src/Client/System/Uploaded.antt =====
-- What an upload of internal/client/client.go leaves on the servers.
use file_storage.Metadata.Service
use file_storage.Metadata.Service.Assignment.{create_file-IsAssigned, IsAssigned}
use file_storage.Metadata.Placement.{remote_path_of}
use file_storage.Types.{CreateMode}
use file_storage.Client.Storage.Downloaded.{put_created-IsUploaded}
use file_storage.Client.Storage.Fetched.{HasOne, AllOnly}
use file_storage.Path.{split_path}
use file_storage.DataNode.Service.Only.{PathHasOnly}
use file_storage.View.{view}
use file_storage.Metadata.Service.Seen.{IsFileAt, IsCompleteAt}
use file_storage.Metadata.Service.Created.{create_file-IsFileAt, complete_file-IsCompleted}
use file_storage.Metadata.Placement.Distinct.{AreDistinct}
use file_storage.Client.Replicas.{on_replicas}
use file_storage.Client.Transfer.{put_created, put_content, store_replica}
use file_storage.Metadata.Service.Quiet.{IsQuiet}
use file_storage.Client.System.{MetadataServer, create_reply, redirect-Run, IsSystem}
use mathlib.Core.Path.{subst}
use file_storage.Base.{
  arith, ◌≢◌, length, pos, true, sym, [], none, inr, ap, inl, ◌∙◌, ◌∷◌, ℕ, List, String, ◌≡◌,
}
use file_storage.DataNode.Service.{DataNode}
use file_storage.Metadata.Machine.{PayloadJson}
use file_storage.Metadata.Raft.{RaftServer}
use file_storage.Client.Storage.{IsStorage}
use file_storage.Client.{
  CallError, CreateFileReply, CreateFileArgs, Replica, Answer, Result, err, ok, Network, redirect,
}
use file_storage.Client.System.Stored.{stores-mds, placed-AllOnly, completed-mds}

module _ {W : Type 0} (net : Network W) (nodes : String → DataNode) (storage : IsStorage net nodes)
    (json : PayloadJson) (raft : RaftServer json)
    (system : IsSystem net nodes storage json raft) where
  -- The file is complete, and it is on the disks; the metadata is that of its creation with the mark
  -- of a complete file.
  abbrev pub IsStored : MetadataServer → String → String → List ℕ → W → Type 0
  IsStored created remote_path id content w =
      (replicas : List Replica) × (system.mds w
        ≡ (Service.complete_file json raft remote_path created).1)
      × IsCompleteAt (view (system.mds w)) (split_path remote_path) id replicas
      × AllOnly nodes content (storage.disk w) replicas
      × HasOne nodes content (storage.disk w) replicas

  module _ (quiet : IsQuiet json raft) (mds_addr remote_path : String) (b : ℕ)
      (bytes : List ℕ) where
    not_created :
        (e : CallError) (w : W)
        → (put_created net mds_addr (b ∷ bytes) remote_path (err e, w)).0 ≢ ok true
    unfolding put_created
    not_created e w h = ground arith

    put_created-IsStored :
        (id : String) (replicas : List Replica) (w : W)
        → IsFileAt (view (system.mds w)) (split_path remote_path) id replicas
        → AreDistinct [] replicas
        → AllOnly nodes (b ∷ bytes) (storage.disk w) replicas
        → (put_created net mds_addr (b ∷ bytes) remote_path (ok (create_reply replicas), w)).0
          ≡ ok true
        → IsStored
            (system.mds w)
            remote_path
            id
            (b ∷ bytes)
            (put_created net mds_addr (b ∷ bytes) remote_path (ok (create_reply replicas), w)).1
    put_created-IsStored id replicas w made distinct only done =
        let up =
          put_created-IsUploaded net mds_addr nodes storage b bytes remote_path
            (create_reply replicas) w distinct only done in
        let stored = (on_replicas (store_replica net mds_addr (b ∷ bytes)) replicas w).1 in
        let left =
          ap system.mds up.told
          ∙ completed-mds net nodes storage json raft system mds_addr remote_path stored
          ∙ ap (λ m. (Service.complete_file json raft remote_path m).1)
              (stores-mds net nodes storage json raft system mds_addr (b ∷ bytes) replicas w) in
        (
          replicas,
          left,
          subst (λ m. IsCompleteAt (view m) (split_path remote_path) id replicas) (sym left)
              (complete_file-IsCompleted json raft quiet remote_path (system.mds w) id replicas
                made).1,
          up.only,
          up.has_one,
        )

    -- The metadata after the creation.
    abbrev pub created_mds : CreateMode → W → MetadataServer
    created_mds mode w =
        (Service.create_file json raft
          (record { path = remote_path; size = pos (length (b ∷ bytes)); create_mode = mode })
          (inr (system.new_id w)) (system.mds w)).1

    pub put_content-IsStored :
        (mode : CreateMode) (w : W)
        → view (system.mds w) (split_path remote_path) ≡ none
        → ((addr : String)
            → PathHasOnly
                (nodes addr)
                (b ∷ bytes)
                (remote_path_of (system.new_id w))
                (storage.disk w addr))
        → (put_content net mds_addr mode (b ∷ bytes) remote_path w).0 ≡ ok true
        → IsStored
            (created_mds mode w)
            remote_path
            (system.new_id w)
            (b ∷ bytes)
            (put_content net mds_addr mode (b ∷ bytes) remote_path w).1
    unfolding put_content
    put_content-IsStored mode w new fresh done =
        let args : CreateFileArgs = record {
          path = remote_path;
          size = pos (length (b ∷ bytes));
          create_mode = mode;
        } in
        let call : String → W → Answer CreateFileReply × W = λ at. net.on_create_file at args in
        let created = redirect 3 "MetadataService.CreateFile" call mds_addr w in
        let uploaded = λ (x : Result CallError CreateFileReply × W).
          put_created net mds_addr (b ∷ bytes) remote_path x in
        let w1 = (call mds_addr w).1 in
        elim (redirect-Run 2 "MetadataService.CreateFile" call mds_addr w
          (system.on_create_file-run mds_addr args w)) [
            | inl (text, h) ↦ absurd (not_created _ _ (ap (λ x. (uploaded x).0) (sym h) ∙ done))
            | inr (replicas, r_is, h) ↦
                let good =
                  subst (IsAssigned (system.mds w) (system.new_id w)) r_is
                    (create_file-IsAssigned json raft args (system.new_id w) (system.mds w)) in
                let made =
                  subst (λ m. IsFileAt (view m) (split_path remote_path) (system.new_id w) replicas)
                    (sym (system.on_create_file-mds mds_addr args w))
                    (create_file-IsFileAt json raft quiet args (system.new_id w) (system.mds w) new
                      replicas r_is) in
                let only =
                  placed-AllOnly net nodes storage json raft system (b ∷ bytes)
                    (remote_path_of (system.new_id w)) (storage.disk w1) (system.mds w).data_nodes
                    replicas good.1
                    (λ addr.
                      subst
                        (PathHasOnly (nodes addr) (b ∷ bytes) (remote_path_of (system.new_id w)))
                        (sym (system.on_create_file-disk mds_addr args w addr)) (fresh addr)) in
                subst
                  (λ x.
                    IsStored (created_mds mode w) remote_path (system.new_id w) (b ∷ bytes)
                      (uploaded x).1)
                  (sym h)
                  (subst
                    (λ m.
                      IsStored m remote_path (system.new_id w) (b ∷ bytes)
                        (put_created net mds_addr (b ∷ bytes) remote_path
                          (ok (create_reply replicas), w1)).1)
                    (system.on_create_file-mds mds_addr args w)
                    (put_created-IsStored (system.new_id w) replicas w1 made good.0 only
                      (ap (λ x. (uploaded x).0) (sym h) ∙ done)))
          ]
