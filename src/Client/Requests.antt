-- ===== src/Client/Requests.antt =====
-- The requests of internal/client/client.go that the client only passes on, and the heartbeat of
-- internal/datanode/datanode.go.
use file_storage.Base.{ℤ, String, Bool, List}
use file_storage.Types.{Replica, FileInfo, FileLocation}
use file_storage.Client.{
  Network, Answer, Result, err, ok, CallError, redirect, send_heartbeats, mds_result, mds_result_in,
  in_context,
}

module _ {W : Type 0} (net : Network W) (mds_addr : String) where
  abbrev pub call_mds_with_redirect :
      {A : Type 0} → String → (String → W → Answer A × W) → W → Result CallError A × W
  call_mds_with_redirect method call w = redirect 3 method call mds_addr w

  -- `sendHeartbeat` of a data node at an address.
  abbrev pub send_heartbeat : String → W → W
  send_heartbeat addr w = send_heartbeats 3 (λ at. net.on_heartbeat at addr) mds_addr w

  abbrev pub call_mds : {A : Type 0} → (String → W → Answer A × W) → W → Result CallError A × W
  call_mds call w = let after = call mds_addr w in (mds_result mds_addr after.0, after.1)

  abbrev pub mkdir : String → W → Result CallError Bool × W
  mkdir path w =
      let after = call_mds_with_redirect "MetadataService.Mkdir" (λ at. net.on_mkdir at path) w in
      (in_context "mkdir failed" after.0, after.1)

  abbrev pub complete_file : String → W → Result CallError Bool × W
  complete_file path w =
      let after =
        call_mds_with_redirect "MetadataService.CompleteFile" (λ at. net.on_complete_file at path)
          w in
      (in_context "complete file failed" after.0, after.1)

  abbrev pub rename : String → String → W → Result CallError Bool × W
  rename src dst w =
      let after =
        call_mds_with_redirect "MetadataService.Rename"
          (λ at. net.on_rename at (record { src_path = src; dst_path = dst })) w in
      (in_context "rename failed" after.0, after.1)

  abbrev pub trigger_gc : W → Result CallError Bool × W
  trigger_gc w =
      let after =
        call_mds_with_redirect "MetadataService.TriggerGC" (λ at. net.on_trigger_gc at) w in
      (in_context "trigger GC failed" after.0, after.1)

  abbrev pub update_size : String → ℤ → W → Result CallError Bool × W
  update_size path size w =
      call_mds_with_redirect "MetadataService.UpdateSize"
        (λ at. net.on_update_size at (record { path = path; size = size })) w

  abbrev pub get_file_location : String → W → Result CallError FileLocation × W
  get_file_location path w = call_mds (λ at. net.on_get_file_location at path) w

  abbrev pub call_mds_in :
      {A : Type 0} → String → (String → W → Answer A × W) → W → Result CallError A × W
  call_mds_in context call w =
      let after = call mds_addr w in (mds_result_in context mds_addr after.0, after.1)

  abbrev pub list_dir : String → W → Result CallError (List FileInfo) × W
  list_dir path w = call_mds_in "list dir failed" (λ at. net.on_list_dir at path) w

  abbrev pub stat : String → W → Result CallError FileInfo × W
  stat path w = call_mds_in "stat failed" (λ at. net.on_stat at path) w

  abbrev pub list_data_nodes : W → Result CallError (List String) × W
  list_data_nodes w = call_mds_in "list data nodes failed" (λ at. net.on_list_data_nodes at) w

  abbrev pub replicas_of : Result CallError FileLocation → Result CallError (List Replica)
  replicas_of (err e) = err e
  replicas_of (ok loc) = ok loc.replicas

  abbrev pub get_replicas : String → W → Result CallError (List Replica) × W
  get_replicas path w =
      let after =
        call_mds_in "get file location failed" (λ at. net.on_get_file_location at path) w in
      (replicas_of after.0, after.1)
