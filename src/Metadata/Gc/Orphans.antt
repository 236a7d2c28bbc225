-- ===== src/Metadata/Gc/Orphans.antt =====
-- The garbage collector of internal/metadata/gc.go and the data that nothing refers to.
use file_storage.Base.{
  ℕ, zero, suc, ◌+◌, ◌≤◌, String, true, false, ◌≡◌, some, List, [], ◌∷◌, arith, ◌==◌, eq_iff,
  contains, get_elem?, Bool-cases, inl, inr,
}
use file_storage.Types.{NodeFile}
use file_storage.Metadata.{MetadataServer}
use file_storage.Metadata.Machine.{LogEntry, PayloadJson}
use file_storage.Metadata.Raft.{RaftServer}
use file_storage.Metadata.Gc.{
  DataNodes, gc_safety_window, collect_valid_file_ids, file_id_of, is_orphan, delete_orphans,
  garbage_collect_node, collect_nodes, run_gc,
}
use file_storage.Metadata.Gc.Live.{asks_at, asks_at-append}

module _ (nodes : DataNodes) (valid : List String) (gc_start : ℕ) (f : NodeFile)
    (lost : contains valid (file_id_of f.path) ≡ false)
    (old : f.mod_time + gc_safety_window ≤ gc_start) where
  is_orphan-lost : is_orphan valid gc_start f ≡ true
  unfolding is_orphan
  is_orphan-lost = ground arith

  delete_orphans-asks :
      (addr : String) (files : List NodeFile) (i : ℕ)
      → get_elem? files i ≡ some f
      → asks_at (delete_orphans nodes addr valid gc_start files) addr f.path ≡ true
  unfolding delete_orphans
  delete_orphans-asks addr [] i h = ground arith
  delete_orphans-asks addr (g ∷ files) zero h =
      ground (arith, is_orphan-lost, eq_iff f.path f.path, eq_iff addr addr)
  delete_orphans-asks addr (g ∷ files) (suc i) h =
      ground (arith, delete_orphans-asks addr files i h)

  garbage_collect_node-asks :
      (addr : String) (files : List NodeFile) (i : ℕ)
      → nodes.list_all_paths addr ≡ some files
      → get_elem? files i ≡ some f
      → asks_at (garbage_collect_node nodes addr valid gc_start) addr f.path ≡ true
  unfolding garbage_collect_node
  garbage_collect_node-asks addr files i l h = ground (arith, l, delete_orphans-asks addr files i h)

  collect_nodes-asks :
      (addrs : List String) (addr : String) (files : List NodeFile) (i : ℕ)
      → contains addrs addr ≡ true
      → nodes.list_all_paths addr ≡ some files
      → get_elem? files i ≡ some f
      → asks_at (collect_nodes nodes addrs valid gc_start) addr f.path ≡ true
  unfolding collect_nodes
  collect_nodes-asks [] addr files i r l h = ground arith
  collect_nodes-asks (a ∷ addrs) addr files i r l h = elim (Bool-cases (a == addr)) [
    | inl same ↦ ground (
      arith,
      eq_iff a addr,
      asks_at-append (garbage_collect_node nodes a valid gc_start)
          (collect_nodes nodes addrs valid gc_start) addr f.path,
      garbage_collect_node-asks addr files i l h,
    )
    | inr other ↦ ground (
      arith,
      asks_at-append (garbage_collect_node nodes a valid gc_start)
          (collect_nodes nodes addrs valid gc_start) addr f.path,
      collect_nodes-asks addrs addr files i,
    )
  ]

-- A cycle asks a registered node for the deletion of every file that this node lists, whose id is not
-- among those collected, and that was modified at least the safety window before the cycle.
pub run_gc-asks :
    (json : PayloadJson) (raft : RaftServer json) (nodes : DataNodes) (before : List LogEntry)
    (meanwhile : MetadataServer → MetadataServer) (gc_start now : ℕ) (mds : MetadataServer)
    (addr : String) (files : List NodeFile) (i : ℕ) (f : NodeFile)
    → contains
        (meanwhile (run_gc json raft nodes before meanwhile gc_start now mds).1).data_nodes
        addr
      ≡ true
    → nodes.list_all_paths addr ≡ some files
    → get_elem? files i ≡ some f
    → contains
        (collect_valid_file_ids (run_gc json raft nodes before meanwhile gc_start now mds).1)
        (file_id_of f.path)
      ≡ false
    → f.mod_time + gc_safety_window ≤ gc_start
    → asks_at (run_gc json raft nodes before meanwhile gc_start now mds).0 addr f.path ≡ true
unfolding run_gc
run_gc-asks json raft nodes before meanwhile gc_start now mds addr files i f r l h lost old =
    collect_nodes-asks nodes _ gc_start f lost old _ addr files i r l h
