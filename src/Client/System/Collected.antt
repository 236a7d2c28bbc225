-- ===== src/Client/System/Collected.antt =====
-- The garbage collector of internal/metadata/gc.go after an upload of internal/client/client.go.
use file_storage.Client.System.Uploaded.{put_content-IsStored}
use file_storage.Client.System.Roundtrip.{put_file-content}
use file_storage.Client.Transfer.{put_content, put_file}
use file_storage.DataNode.Service.Only.{PathHasOnly}
use file_storage.Client.System.{IsSystem}
use file_storage.Client.Storage.{IsStorage}
use file_storage.DataNode.Service.{DataNode}
use file_storage.Client.{ok, Network}
use file_storage.Tree.{stat}
use file_storage.Metadata.Placement.{remote_path_of}
use file_storage.Metadata.Gc.Live.{run_gc-keeps_live, asks}
use file_storage.Metadata.DataNodes.Registry.{IsRegistry}
use file_storage.View.{view}
use file_storage.Tree.Sound.{IsTree}
use file_storage.Metadata.Gc.{run_gc, DataNodes}
use file_storage.Metadata.{MetadataServer}
use file_storage.Types.{CreateMode, Replica, CreateFileArgs}
use file_storage.Metadata.Service.Quiet.{IsQuiet}
use file_storage.Metadata.Raft.{IsRaft, RaftServer}
use file_storage.Metadata.Service.Served.{complete_at, create_of, serve-IsSound, serve}
use file_storage.Metadata.Machine.{PayloadJson}
use mathlib.Core.Path.{subst}
use file_storage.Base.{
  [], ℕ, String, false, true, ◌≡◌, sym, ap, ◌∙◌, none, some, List, ◌∷◌, inr, pos, length,
}
use file_storage.Metadata.Service
use file_storage.Metadata.Gc.Undisturbed.{run_gc-root}
use file_storage.Path.{split_path, is_empty}
use file_storage.Metadata.Service.Seen.{IsCompleteAt}

module _ (json : PayloadJson) (raft : RaftServer json) (quiet : IsQuiet json raft) where
  -- A cycle keeps the data of a complete file.
  keeps_complete :
      (good : IsRaft json raft) (nodes : DataNodes) (meanwhile : MetadataServer → MetadataServer)
      (gc_start now : ℕ) (mds : MetadataServer) (q : List String) (id : String)
      (replicas : List Replica)
      → IsTree mds.root
      → IsCompleteAt (view mds) q id replicas
      → is_empty id ≡ false
      → asks (run_gc json raft nodes [] meanwhile gc_start now mds).0 (remote_path_of id) ≡ false
  keeps_complete good nodes meanwhile gc_start now mds q id replicas tree
        (a, seen, file, id_is, same, done) named =
      subst
        (λ i.
          asks (run_gc json raft nodes [] meanwhile gc_start now mds).0 (remote_path_of i) ≡ false)
        id_is
        (run_gc-keeps_live json raft good nodes [] meanwhile gc_start now mds tree q a
          (ap (λ root. stat q root) (run_gc-root json raft quiet nodes meanwhile gc_start now mds)
            ∙ seen)
          file (ap is_empty id_is ∙ named))

served-IsTree :
    (json : PayloadJson) (raft : RaftServer json) (good : IsRaft json raft) (args : CreateFileArgs)
    (id : String) (mds : MetadataServer)
    → IsTree mds.root
    → IsRegistry mds
    → IsTree
        (Service.complete_file json raft args.path
          (Service.create_file json raft args (inr id) mds).1).1.root
unfolding serve
served-IsTree json raft good args id mds tree registry =
    let created = serve-IsSound json raft good (create_of args (inr id)) mds tree registry in
    (serve-IsSound json raft good (complete_at args.path) _ created.0 created.1).0

-- After an upload that succeeded, over servers as for a download of it and a Raft server that keeps
-- its promises and is quiet, a cycle of the garbage collector that starts in the state that the
-- upload left, with no other command before it collects the ids, asks at no node for the deletion of
-- the data at the path of the file's new id, which is not empty, if the server's tree and registry
-- were sound before the upload: whatever the nodes list, at any time, and whatever other requests do
-- to the state after the ids are collected.
pub put_file-keeps_data :
    {W : Type 0} (net : Network W) (nodes : String → DataNode) (storage : IsStorage net nodes)
    (json : PayloadJson) (raft : RaftServer json) (system : IsSystem net nodes storage json raft)
    (quiet : IsQuiet json raft) (good : IsRaft json raft) (mds_addr remote_path local_path : String)
    (b : ℕ) (bytes : List ℕ) (mode : CreateMode) (w : W)
    → net.read_local local_path w ≡ some (b ∷ bytes)
    → view (system.mds w) (split_path remote_path) ≡ none
    → ((addr : String)
        → PathHasOnly
            (nodes addr)
            (b ∷ bytes)
            (remote_path_of (system.new_id w))
            (storage.disk w addr))
    → (put_file net mds_addr mode local_path remote_path w).0 ≡ ok true
    → IsTree (system.mds w).root
    → IsRegistry (system.mds w)
    → is_empty (system.new_id w) ≡ false
    → (answers : DataNodes) (meanwhile : MetadataServer → MetadataServer) (gc_start now : ℕ)
    → asks
        (run_gc json raft answers [] meanwhile gc_start now
          (system.mds (put_file net mds_addr mode local_path remote_path w).1)).0
        (remote_path_of (system.new_id w))
      ≡ false
put_file-keeps_data net nodes storage json raft system quiet good mds_addr remote_path local_path b
      bytes mode w read new fresh done tree registry named answers meanwhile gc_start now =
    let put = put_file-content net mds_addr mode local_path remote_path (b ∷ bytes) w read in
    let (replicas, left, there, only, has_one) =
      put_content-IsStored net nodes storage json raft system quiet mds_addr remote_path b bytes
        mode w new fresh (ap (λ x. x.0) (sym put) ∙ done) in
    let args : CreateFileArgs = record {
      path = remote_path;
      size = pos (length (b ∷ bytes));
      create_mode = mode;
    } in
    let last = (put_content net mds_addr mode (b ∷ bytes) remote_path w).1 in
    let kept : asks (run_gc json raft answers [] meanwhile gc_start now (system.mds last)).0
          (remote_path_of (system.new_id w))
        ≡ false =
      keeps_complete json raft quiet good answers meanwhile gc_start now (system.mds last)
        (split_path remote_path) (system.new_id w) replicas
        (subst (λ (m : MetadataServer). IsTree m.root) (sym left)
          (served-IsTree json raft good args (system.new_id w) (system.mds w) tree registry))
        there named in
    subst
      (λ x.
        asks (run_gc json raft answers [] meanwhile gc_start now (system.mds x)).0
          (remote_path_of (system.new_id w))
        ≡ false)
      (sym (ap (λ x. x.1) put)) kept
