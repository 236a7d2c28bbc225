-- ===== src/Client/Transfer.antt =====
-- Upload, download and deletion of a file by internal/client/client.go.
use file_storage.Base.{
  pos, ℕ, String, Bool, true, ◌==◌, Option, none, some, List, [], ◌∷◌, length, eqb, if◌then◌else◌,
}
use file_storage.Types.{Replica, CreateMode, CreateFileReply, DeleteReply, FileLocation}
use file_storage.Client.{
  unreachable, refused, received, Result, err, ok, Network, CallError, no_data_node, remote, within,
  ClientError, calling, read_local_failed, write_local_failed, stores_failed, replicas_failed,
  node_result,
}
use file_storage.Client.Requests.{call_mds_with_redirect, call_mds_in}
use file_storage.Client.Replicas.{on_replicas, success_count, first_error}

module _ {W : Type 0} (net : Network W) (mds_addr : String) where
  -- The data of one replica is removed, as far as its node can be reached.
  unfoldable pub clean_replicas : List Replica → W → W
  clean_replicas [] w = w
  clean_replicas (r ∷ replicas) w =
      clean_replicas replicas (net.on_delete_data r.addr r.remote_path w).1

  abbrev pub after_delete : Result CallError DeleteReply × W → Result CallError Bool × W
  after_delete (err e, w) = (err (within "delete metadata failed" e), w)
  after_delete (ok reply, w) =
      (ok true, if reply.is_dir then w else clean_replicas reply.replicas w)

  unfoldable pub delete : String → W → Result CallError Bool × W
  unfolding clean_replicas
  delete path w =
      after_delete (
        call_mds_with_redirect net mds_addr "MetadataService.Delete" (λ at. net.on_delete at path)
          w)

  abbrev pub store_replica : List ℕ → Replica → W → Result CallError Bool × W
  store_replica content r w =
      let after = net.on_store_data r.addr (record { path = r.remote_path; content = content }) w in
      (node_result "store data failed" r.addr after.0, after.1)

  -- With the results of the stores: the metadata is deleted again, or the file is marked complete.
  unfoldable pub put_stored :
      String → List (Result CallError Bool) × W → Result ClientError Bool × W
  unfolding delete
  put_stored remote_path (results, w) =
      let undone = (delete remote_path w).1 in
      let completed =
        (call_mds_with_redirect net mds_addr "MetadataService.CompleteFile"
          (λ at. net.on_complete_file at remote_path) w).1 in
      if eqb (success_count results) 0
      then (err (stores_failed (length results) (first_error results)), undone)
      else (ok true, completed)

  unfoldable pub put_created :
      List ℕ → String → Result CallError CreateFileReply × W → Result ClientError Bool × W
  unfolding on_replicas
  put_created content remote_path (err e, w) =
      (err (calling (within "create metadata failed" e)), w)
  put_created content remote_path (ok reply, w) =
      put_stored remote_path (on_replicas (store_replica content) reply.replicas w)

  -- `PutFile` with the content of the local file.
  unfoldable pub put_content : CreateMode → List ℕ → String → W → Result ClientError Bool × W
  put_content mode content remote_path w = put_created content remote_path (
      call_mds_with_redirect net mds_addr "MetadataService.CreateFile"
        (λ at.
          net.on_create_file at
            (record { path = remote_path; size = pos (length content); create_mode = mode }))
        w)

  unfoldable pub put_file : CreateMode → String → String → W → Result ClientError Bool × W
  put_file mode local_path remote_path w = elim (net.read_local local_path w) [
    | none ↦ (err read_local_failed, w)
    | some content ↦ put_content mode content remote_path w
  ]

  -- The first replica that answers: its content, the last error before it, and what is outside
  -- then.
  unfoldable pub fetch :
      List Replica → Option CallError → W → Option (List ℕ) × Option CallError × W
  fetch [] last w = (none, last, w)
  fetch (r ∷ replicas) last w =
      let after = net.on_get_data r.addr r.remote_path w in
      elim after.0 [
        | unreachable e ↦ fetch replicas (some (no_data_node r.addr e)) after.1
        | refused e ↦ fetch replicas (some (remote e)) after.1
        | received content ↦ (content, last, after.1)
      ]

  -- os.WriteFile of the local file.
  abbrev pub save : String → List ℕ → W → Result ClientError Bool × W
  save local_path content w =
      let after = net.write_local local_path content w in
      (if after.0 then ok true else err write_local_failed, after.1)

  abbrev pub get_fetched :
      String → ℕ → Option (List ℕ) × Option CallError × W → Result ClientError Bool × W
  get_fetched local_path n (none, last, w) = (err (replicas_failed n last), w)
  get_fetched local_path n (some content, last, w) = save local_path content w

  unfoldable pub get_located :
      String → Result CallError FileLocation × W → Result ClientError Bool × W
  unfolding fetch
  get_located local_path (err e, w) = (err (calling e), w)
  get_located local_path (ok loc, w) =
      let fetched = get_fetched local_path (length loc.replicas) (fetch loc.replicas none w) in
      if loc.status == "pending" then save local_path [] w else fetched

  unfoldable pub get_file : String → String → W → Result ClientError Bool × W
  get_file remote_path local_path w = get_located local_path (
      call_mds_in net mds_addr "get file location failed"
        (λ at. net.on_get_file_location at remote_path) w)
