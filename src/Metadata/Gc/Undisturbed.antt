-- ===== src/Metadata/Gc/Undisturbed.antt =====
-- A cycle of the garbage collector of internal/metadata/gc.go over a quiet Raft server.
use file_storage.Metadata.Gc.{
  replay, dead_nodes, check_data_node_health, run_gc, remove_dead, DataNodes,
}
use file_storage.Metadata.{MetadataServer, CommandPayload}
use file_storage.Metadata.Service.Quiet.{submit_command-quiet, IsQuiet}
use file_storage.Metadata.Raft.{RpcError, submit_command, no_payload, RaftServer}
use file_storage.Metadata.DataNodes.{apply_remove_data_node}
use file_storage.Metadata.Machine.{
  replay, op_remove_data_node, apply_entry, dispatch, command, PayloadJson,
}
use file_storage.Base.{Option, ℕ, String, ◌≡◌, refl, ap, ◌∙◌, List, [], ◌∷◌}

apply_entry-root :
    (now : ℕ) (p : CommandPayload) (mds : MetadataServer)
    → (apply_entry (record { now = now; op = op_remove_data_node; payload = p }) mds).1.root
      ≡ mds.root
unfolding command dispatch apply_remove_data_node
apply_entry-root now p mds = refl

module _ (json : PayloadJson) (raft : RaftServer json) (quiet : IsQuiet json raft) where
  remove_dead-root :
      (dead : List String) (mds : MetadataServer) → (remove_dead json raft dead mds).root ≡ mds.root
  unfolding remove_dead
  remove_dead-root [] mds = refl
  remove_dead-root (addr ∷ dead) mds =
      let p : CommandPayload = record no_payload { op = op_remove_data_node; addr = addr } in
      let (now, done) = submit_command-quiet json raft quiet p mds in
      remove_dead-root dead (submit_command json raft p mds).1
      ∙ ap (λ (o : Option RpcError × MetadataServer). o.1.root) done
      ∙ apply_entry-root now p mds

  -- The removal of dead nodes changes nothing of the tree. No other request is served before the ids
  -- are collected.
  pub run_gc-root :
      (nodes : DataNodes) (meanwhile : MetadataServer → MetadataServer) (gc_start now : ℕ)
      (mds : MetadataServer)
      → (run_gc json raft nodes [] meanwhile gc_start now mds).1.root ≡ mds.root
  unfolding run_gc check_data_node_health replay
  run_gc-root nodes meanwhile gc_start now mds =
      remove_dead-root (dead_nodes now mds.last_heartbeat) mds
