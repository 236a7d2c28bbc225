-- ===== src/Client/System/Roundtrip.antt =====
-- `GetFile` after `PutFile` of internal/client/client.go, over the servers.
use file_storage.Metadata.Placement.{remote_path_of}
use file_storage.Types.{CreateMode}
use file_storage.Path.{split_path}
use file_storage.DataNode.Service.Only.{PathHasOnly}
use file_storage.View.{view}
use file_storage.Client.Transfer.{put_file, put_content, save, get_file}
use file_storage.Metadata.Service.Quiet.{IsQuiet}
use file_storage.Client.System.{IsSystem}
use file_storage.Base.{some, true, sym, none, ap, ◌∙◌, ◌∷◌, ℕ, List, String, ◌≡◌, refl}
use file_storage.DataNode.Service.{DataNode}
use file_storage.Metadata.Machine.{PayloadJson}
use file_storage.Metadata.Raft.{RaftServer}
use file_storage.Client.Storage.{IsStorage}
use file_storage.Client.{ok, Network}
use file_storage.Client.System.Stored.{downloaded}
use file_storage.Client.System.Uploaded.{put_content-IsStored}

pub put_file-content :
    {W : Type 0} (net : Network W) (mds_addr : String) (mode : CreateMode)
    (local_path remote_path : String) (content : List ℕ) (w : W)
    → net.read_local local_path w ≡ some content
    → put_file net mds_addr mode local_path remote_path w
      ≡ put_content net mds_addr mode content remote_path w
unfolding put_file
put_file-content net mds_addr mode local_path remote_path content w read = rw (put_file, read) refl

-- A download gives back what an upload stored: over a metadata server that leads and fails no
-- command, and whose errors name no leader, and over data nodes that have no file with other
-- content at the path of the new id. The local file is not empty, nothing was at the path before, and
-- the upload succeeded: its stores may have failed on all but one replica.
pub get_file-put_file :
    {W : Type 0} (net : Network W) (nodes : String → DataNode) (storage : IsStorage net nodes)
    (json : PayloadJson) (raft : RaftServer json) (system : IsSystem net nodes storage json raft)
    (quiet : IsQuiet json raft) (mds_addr remote_path local_path other_path : String) (b : ℕ)
    (bytes : List ℕ) (mode : CreateMode) (w : W)
    → net.read_local local_path w ≡ some (b ∷ bytes)
    → view (system.mds w) (split_path remote_path) ≡ none
    → ((addr : String)
        → PathHasOnly
            (nodes addr)
            (b ∷ bytes)
            (remote_path_of (system.new_id w))
            (storage.disk w addr))
    → (put_file net mds_addr mode local_path remote_path w).0 ≡ ok true
    → (then_w : W) × (get_file net mds_addr remote_path other_path
          (put_file net mds_addr mode local_path remote_path w).1
        ≡ save net mds_addr other_path (b ∷ bytes) then_w)
get_file-put_file net nodes storage json raft system quiet mds_addr remote_path local_path
      other_path b bytes mode w read new fresh =
    let content = b ∷ bytes in
    let put = put_file-content net mds_addr mode local_path remote_path content w read in
    λ done.
      let (replicas, left, there, only, has_one) =
        put_content-IsStored net nodes storage json raft system quiet mds_addr remote_path b bytes
          mode w new fresh (ap (λ x. x.0) (sym put) ∙ done) in
      let (then_w, got) =
        downloaded net nodes storage json raft system mds_addr remote_path other_path
          (system.new_id w) b bytes replicas _ there only has_one in
      (then_w, ap (λ x. get_file net mds_addr remote_path other_path x.1) put ∙ got)
