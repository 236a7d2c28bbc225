-- ===== src/Client/System/Stored.antt =====
-- What an upload of internal/client/client.go leaves on the servers, and what a download
-- finds there.
use file_storage.Metadata.Service
use file_storage.Client.Storage.Downloaded.{get_located-fetched}
use file_storage.Client.Requests.{call_mds_with_redirect}
use file_storage.Metadata.{status_complete}
use file_storage.Client.Storage.Fetched.{HasOne-same, AllOnly-same, fetch-HasOne, HasOne, AllOnly}
use file_storage.Path.{split_path}
use file_storage.DataNode.Service.Only.{PathHasOnly}
use file_storage.View.{view}
use file_storage.Metadata.Service.Seen.{IsCompleteAt, get_file_location-IsCompleteAt}
use file_storage.Metadata.Placement.Distinct.{ArePlaced}
use file_storage.Client.Replicas.{on_replicas}
use file_storage.Client.Transfer.{get_located, save, store_replica, get_file}
use file_storage.DataNode.Disk.{Disk}
use file_storage.Client.System.{redirect-Run, Run-replied, IsSystem}
use mathlib.Core.Path.{subst}
use file_storage.Base.{Bool, sym, [], none, inr, ap, inl, ◌∙◌, ◌∷◌, ℕ, List, String, ◌≡◌, refl}
use file_storage.DataNode.Service.{DataNode}
use file_storage.Metadata.Machine.{PayloadJson}
use file_storage.Metadata.Raft.{RaftServer}
use file_storage.Client.Storage.{IsStorage}
use file_storage.Client.{mds_result_in, FileLocation, Replica, Answer, Network, redirect}

module _ {W : Type 0} (net : Network W) (nodes : String → DataNode) (storage : IsStorage net nodes)
    (json : PayloadJson) (raft : RaftServer json)
    (system : IsSystem net nodes storage json raft) where
  -- A store changes no metadata, on any number of replicas.
  pub stores-mds :
      (mds_addr : String) (content : List ℕ) (replicas : List Replica) (w : W)
      → system.mds (on_replicas (store_replica net mds_addr content) replicas w).1 ≡ system.mds w
  unfolding on_replicas
  stores-mds mds_addr content [] w = refl
  stores-mds mds_addr content (r ∷ replicas) w =
      stores-mds mds_addr content replicas _ ∙ system.on_store_data-mds r.addr _ w

  pub placed-AllOnly :
      (content : List ℕ) (path : String) (disks : String → Disk) (addrs : List String)
      (replicas : List Replica)
      → ArePlaced addrs path replicas
      → ((addr : String) → PathHasOnly (nodes addr) content path (disks addr))
      → AllOnly nodes content disks replicas
  placed-AllOnly content path disks addrs [] placed fresh = tt
  placed-AllOnly content path disks addrs (r ∷ replicas) placed fresh = (
    subst (λ p. PathHasOnly (nodes r.addr) content p (disks r.addr)) (sym placed.1) (fresh r.addr),
    placed-AllOnly content path disks addrs replicas placed.2 fresh,
  )

  -- What the loop of redirects leaves of the metadata is what the one request does.
  pub completed-mds :
      (mds_addr path : String) (w : W)
      → system.mds
          (call_mds_with_redirect net mds_addr "MetadataService.CompleteFile"
            (λ at. net.on_complete_file at path)
            w).1
        ≡ (Service.complete_file json raft path (system.mds w)).1
  completed-mds mds_addr path w =
      let call : String → W → Answer Bool × W = λ at. net.on_complete_file at path in
      let world : (redirect 3 "MetadataService.CompleteFile" call mds_addr w).1
          ≡ (call mds_addr w).1 =
        elim (redirect-Run 2 "MetadataService.CompleteFile" call mds_addr w
          (system.on_complete_file-run mds_addr path w)) [
            | inl (text, h) ↦ ap (λ x. x.1) h
            | inr (a, r_is, h) ↦ ap (λ x. x.1) h
          ] in
      ap system.mds world ∙ system.on_complete_file-mds mds_addr path w

  pub downloaded :
      (mds_addr remote_path local_path id : String) (b : ℕ) (bytes : List ℕ)
      (replicas : List Replica) (w : W)
      → IsCompleteAt (view (system.mds w)) (split_path remote_path) id replicas
      → AllOnly nodes (b ∷ bytes) (storage.disk w) replicas
      → HasOne nodes (b ∷ bytes) (storage.disk w) replicas
      → (then_w : W) × (get_file net mds_addr remote_path local_path w
          ≡ save net mds_addr local_path (b ∷ bytes) then_w)
  unfolding get_file
  downloaded mds_addr remote_path local_path id b bytes replicas w there only has_one =
      let loc : FileLocation = record {
        file_id = id;
        replicas = replicas;
        status = status_complete;
      } in
      let after = net.on_get_file_location mds_addr remote_path w in
      let answered =
        Run-replied loc (system.on_get_file_location-run mds_addr remote_path w)
          (get_file_location-IsCompleteAt remote_path (system.mds w) id replicas there) in
      let disks = system.on_get_file_location-disk mds_addr remote_path w in
      let got =
        fetch-HasOne net mds_addr nodes storage b bytes replicas none after.1
          (AllOnly-same net mds_addr nodes storage b bytes (storage.disk w) (storage.disk after.1)
            replicas disks only)
          (HasOne-same net mds_addr nodes storage b bytes (storage.disk w) (storage.disk after.1)
            replicas disks has_one) in
      (
        _,
        ap
              (λ r.
                get_located net mds_addr local_path
                  (mds_result_in "get file location failed" mds_addr r, after.1))
              answered
            ∙ get_located-fetched net mds_addr remote_path local_path loc (b ∷ bytes) after.1 refl
                got,
      )
