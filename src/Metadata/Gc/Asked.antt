-- ===== src/Metadata/Gc/Asked.antt =====
-- What the garbage collector of internal/metadata/gc.go asks to delete.
use file_storage.Metadata.Gc.{
  LogEntry, collect_valid_file_ids, MetadataServer, RaftServer, PayloadJson, run_gc,
  gc_safety_window, file_id_of, is_empty, is_orphan, garbage_collect_node, delete_orphans, NodeFile,
  collect_nodes, DataNodes,
}
use mathlib.Core.Path.{subst}
use file_storage.Base.{
  ◌&&◌, ℕ, suc, ◌+◌, ◌≤◌, ◌⊎◌, String, true, false, ◌≡◌, refl, some, List, [], ◌∷◌, arith, ◌==◌,
  eq_iff, contains, get_elem?, Bool-cases, Option-cases, inl, inr,
}
use file_storage.Metadata.Gc.Live.{asks_at, asks_at-append}

-- A file that the registered node lists at the path: its id is empty or not among the valid ones, and
-- it was modified at least the safety window before the cycle.
pub record IsLost (nodes : DataNodes) (valid : List String) (gc_start : ℕ) (addrs : List String)
    (addr path : String) : Type 0 where
  pub files : List NodeFile
  pub place : ℕ
  pub file : NodeFile
  pub registered : contains addrs addr ≡ true
  pub listed : nodes.list_all_paths addr ≡ some files
  pub there : get_elem? files place ≡ some file
  pub at_path : file.path ≡ path
  pub unused :
      (is_empty (file_id_of file.path) ≡ true) ⊎ (contains valid (file_id_of file.path) ≡ false)
  pub old : file.mod_time + gc_safety_window ≤ gc_start

module _ (nodes : DataNodes) (valid : List String) (gc_start : ℕ) (path : String) where
  is_orphan-unused :
      (f : NodeFile)
      → is_orphan valid gc_start f ≡ true
      → ((is_empty (file_id_of f.path) ≡ true) ⊎ (contains valid (file_id_of f.path) ≡ false))
        × (f.mod_time + gc_safety_window ≤ gc_start)
  unfolding is_orphan
  is_orphan-unused f h = elim (Bool-cases (is_empty (file_id_of f.path))) [
    | inl empty ↦ (inl empty, ground arith)
    | inr named ↦ elim (Bool-cases (contains valid (file_id_of f.path))) [
      | inl used ↦ absurd (ground arith)
      | inr unused ↦ (inr unused, ground arith)
    ]
  ]

  delete_orphans-asked :
      (addr at : String) (files : List NodeFile)
      → asks_at (delete_orphans nodes addr valid gc_start files) at path ≡ true
      → (addr ≡ at)
        × (i : ℕ) × (f : NodeFile) × (get_elem? files i ≡ some f)
        × (is_orphan valid gc_start f ≡ true)
        × (f.path == path ≡ true)
  unfolding delete_orphans
  delete_orphans-asked addr at [] h = ground arith
  delete_orphans-asked addr at (f ∷ files) h = elim (Bool-cases (is_orphan valid gc_start f)) [
    | inl orphan ↦ elim (Bool-cases (addr == at && f.path == path)) [
      | inl same ↦ (ground (arith, eq_iff addr at), 0, f, refl, orphan, ground arith)
      | inr other ↦
          let (here, i, g, there, orphan, same) =
            delete_orphans-asked addr at files (ground arith) in
          (here, suc i, g, there, orphan, same)
    ]
    | inr kept ↦
        let (here, i, g, there, orphan, same) = delete_orphans-asked addr at files (ground arith) in
        (here, suc i, g, there, orphan, same)
  ]

  garbage_collect_node-asked :
      (addrs : List String) (addr at : String)
      → contains addrs addr ≡ true
      → asks_at (garbage_collect_node nodes addr valid gc_start) at path ≡ true
      → IsLost nodes valid gc_start addrs at path
  unfolding garbage_collect_node
  garbage_collect_node-asked addrs addr at registered h =
      elim (Option-cases (nodes.list_all_paths addr)) [
        | inl failed ↦ absurd (ground arith)
        | inr (files, listed) ↦
            let (here, i, f, there, orphan, same) =
              delete_orphans-asked addr at files (ground arith) in
            let (unused, old) = is_orphan-unused f orphan in
            subst (λ a. IsLost nodes valid gc_start addrs a path) here
              (record {
                files = files;
                place = i;
                file = f;
                registered = registered;
                listed = listed;
                there = there;
                at_path = (eq_iff f.path path).0 same;
                unused = unused;
                old = old;
              })
      ]

  collect_nodes-asked :
      (all addrs : List String) (at : String)
      → ((a : String) → contains addrs a ≡ true → contains all a ≡ true)
      → asks_at (collect_nodes nodes addrs valid gc_start) at path ≡ true
      → IsLost nodes valid gc_start all at path
  unfolding collect_nodes
  collect_nodes-asked all [] at within h = ground arith
  collect_nodes-asked all (a ∷ addrs) at within h =
      elim (Bool-cases (asks_at (garbage_collect_node nodes a valid gc_start) at path)) [
        | inl here ↦
            garbage_collect_node-asked all a at (within a (ground (arith, (eq_iff a a).1 refl)))
              here
        | inr not_here ↦
            collect_nodes-asked all addrs at (λ x there. within x (ground arith))
              (ground (
                arith,
                asks_at-append (garbage_collect_node nodes a valid gc_start)
                    (collect_nodes nodes addrs valid gc_start) at path,
              ))
      ]

-- A cycle asks a node only for the deletion of files that this node, a registered one, lists, whose id
-- is empty or not among those collected, and that were modified at least the safety window before the
-- cycle.
pub run_gc-asked :
    (json : PayloadJson) (raft : RaftServer json) (nodes : DataNodes) (before : List LogEntry)
    (meanwhile : MetadataServer → MetadataServer) (gc_start now : ℕ) (mds : MetadataServer)
    (addr path : String)
    → asks_at (run_gc json raft nodes before meanwhile gc_start now mds).0 addr path ≡ true
    → IsLost nodes
        (collect_valid_file_ids (run_gc json raft nodes before meanwhile gc_start now mds).1)
        gc_start
        (meanwhile (run_gc json raft nodes before meanwhile gc_start now mds).1).data_nodes
        addr
        path
unfolding run_gc
run_gc-asked json raft nodes before meanwhile gc_start now mds addr path h =
    collect_nodes-asked nodes _ gc_start path _ _ addr (λ a there. there) h
