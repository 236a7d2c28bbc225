-- ===== src/Metadata/Gc/Live.antt =====
-- The garbage collector of internal/metadata/gc.go and the data that the tree refers to.
use mathlib.Core.Path.{subst}
use file_storage.Base.{
  ℕ, String, Bool, true, false, ◌||◌, ◌&&◌, ◌≡◌, refl, sym, Option, none, some, List, [], ◌∷◌, ◌++◌,
  ◌<>◌, arith, ◌==◌, eq_iff, contains, Bool-cases, Option-cases, inl, inr,
}
use file_storage.Text.{after_prefix-append}
use file_storage.Types.{NodeFile}
use file_storage.Path.{is_empty}
use file_storage.Tree.{Attrs, Entry, node, Children, nil, child, get_child, walk, stat}
use file_storage.Tree.Sound.{is_sound, are_sound, get_child-Fits, IsTree}
use file_storage.Metadata.{MetadataServer}
use file_storage.Metadata.Machine.{LogEntry, PayloadJson, op_remove_data_node, replay}
use file_storage.Metadata.Raft.{RaftServer, no_payload, IsRaft, submit_command-replay}
use file_storage.Metadata.Gc.{
  DataNodes, DeleteCall, dead_nodes, remove_dead, check_data_node_health,
  collect_file_ids_recursive, collect_children, collect_valid_file_ids, file_id_of, is_orphan,
  delete_orphans, garbage_collect_node, collect_nodes, run_gc,
}
use file_storage.View.{view}
use file_storage.Invariant.{replay-IsTree}

-- What is in the set stays in it.
mutual
  unfolding collect_file_ids_recursive

  collect_file_ids_recursive-keeps :
      (e : Entry) (ids : List String) (x : String)
      → contains ids x ≡ true
      → contains (collect_file_ids_recursive e ids) x ≡ true
  collect_file_ids_recursive-keeps (node a cs) ids x h =
      ground (arith, collect_children-keeps cs ids x)

  collect_children-keeps :
      (cs : Children) (ids : List String) (x : String)
      → contains ids x ≡ true
      → contains (collect_children cs ids) x ≡ true
  collect_children-keeps nil ids x h = h
  collect_children-keeps (child n e cs) ids x h =
      collect_children-keeps cs (collect_file_ids_recursive e ids) x
        (collect_file_ids_recursive-keeps e ids x h)

collect_children-get_child :
    (n : String) (cs : Children) (c : Entry) (x : String)
    → get_child n cs ≡ some c
    → ((ids : List String) → contains (collect_file_ids_recursive c ids) x ≡ true)
    → (ids : List String) → contains (collect_children cs ids) x ≡ true
unfolding collect_file_ids_recursive get_child
collect_children-get_child n nil c x h found ids = ground arith
collect_children-get_child n (child k e cs) c x h found ids = elim (Bool-cases (k == n)) [
  | inl same ↦
      collect_children-keeps cs (collect_file_ids_recursive e ids) x (ground (arith, found ids))
  | inr other ↦
      collect_children-get_child n cs c x (ground arith) found (collect_file_ids_recursive e ids)
]

-- Only a directory holds an entry, and the entry is sound like the directory.
holds_child :
    (b : Attrs) (cs : Children) (n : String) (c : Entry)
    → is_sound (node b cs) ≡ true
    → get_child n cs ≡ some c
    → (b.is_dir ≡ true) × (are_sound cs ≡ true)
unfolding is_sound get_child
holds_child b nil n c s h = ground arith
holds_child b (child k e cs) n c s h = ground arith

-- The id of every file is collected.
collect_file_ids_recursive-stat :
    (q : List String) (e : Entry) (a : Attrs)
    → is_sound e ≡ true
    → stat q e ≡ some a
    → a.is_dir ≡ false
    → is_empty a.file_id ≡ false
    → (ids : List String) → contains (collect_file_ids_recursive e ids) a.file_id ≡ true
unfolding collect_file_ids_recursive is_sound stat walk
collect_file_ids_recursive-stat [] (node b cs) a s h file id ids =
    ground (arith, eq_iff a.file_id a.file_id)
collect_file_ids_recursive-stat (n ∷ q) (node b cs) a s h file id ids =
    elim (Option-cases (get_child n cs)) [
      | inl missing ↦ ground arith
      | inr (c, found) ↦
          let (dir, all) = holds_child b cs n c s found in
          let fits = get_child-Fits n cs c all found in
          let rest =
            collect_children-get_child n cs c a.file_id found
              (collect_file_ids_recursive-stat q c a fits.1 (ground arith) file id) ids in
          ground arith
    ]

pub file_id_of-append : (id : String) → file_id_of ("/data/" <> id) ≡ id
unfolding file_id_of
file_id_of-append id = rw (file_id_of, after_prefix-append "/data/" id) refl

-- Whether a deletion of the path is asked for, at some node.
abbrev pub asks : List DeleteCall → String → Bool
asks [] path = false
asks (d ∷ ds) path = d.path == path || asks ds path

-- Whether a deletion of the path is asked for at the node with the address.
abbrev pub asks_at : List DeleteCall → String → String → Bool
asks_at [] addr path = false
asks_at (d ∷ ds) addr path = (d.addr == addr && d.path == path) || asks_at ds addr path

pub asks_at-append :
    (xs ys : List DeleteCall) (addr path : String)
    → asks_at (xs ++ ys) addr path ≡ (asks_at xs addr path || asks_at ys addr path)
asks_at-append [] ys addr path = refl
asks_at-append (x ∷ xs) ys addr path = ground (arith, asks_at-append xs ys addr path)

pub asks-append :
    (xs ys : List DeleteCall) (path : String)
    → asks (xs ++ ys) path ≡ (asks xs path || asks ys path)
asks-append [] ys path = refl
asks-append (x ∷ xs) ys path = ground (arith, asks-append xs ys path)

module _ (nodes : DataNodes) (valid : List String) (gc_start : ℕ) (id : String)
    (named : is_empty id ≡ false) (live : contains valid id ≡ true) where
  is_orphan-live : (f : NodeFile) → f.path ≡ "/data/" <> id → is_orphan valid gc_start f ≡ false
  unfolding is_orphan
  is_orphan-live f h = rw (h, file_id_of-append id) (ground arith)

  delete_orphans-live :
      (addr : String) (fs : List NodeFile)
      → asks (delete_orphans nodes addr valid gc_start fs) ("/data/" <> id) ≡ false
  unfolding delete_orphans
  delete_orphans-live addr [] = refl
  delete_orphans-live addr (f ∷ fs) = elim (Bool-cases (f.path == ("/data/" <> id))) [
    | inl same ↦
        ground
          (arith, delete_orphans-live addr fs, is_orphan-live f, eq_iff f.path ("/data/" <> id))
    | inr other ↦ ground (arith, delete_orphans-live addr fs)
  ]

  listed-live :
      (addr : String) (files : Option (List NodeFile))
      → asks
          (elim files [ none ↦ [] | some fs ↦ delete_orphans nodes addr valid gc_start fs ])
          ("/data/" <> id)
        ≡ false
  listed-live addr none = refl
  listed-live addr (some fs) = delete_orphans-live addr fs

  collect_nodes-live :
      (addrs : List String)
      → asks (collect_nodes nodes addrs valid gc_start) ("/data/" <> id) ≡ false
  unfolding collect_nodes garbage_collect_node
  collect_nodes-live [] = refl
  collect_nodes-live (addr ∷ addrs) = ground (
    arith,
    asks-append (garbage_collect_node nodes addr valid gc_start)
        (collect_nodes nodes addrs valid gc_start) ("/data/" <> id),
    listed-live addr (nodes.list_all_paths addr),
    collect_nodes-live addrs,
  )

remove_dead-IsTree :
    (json : PayloadJson) (raft : RaftServer json) (good : IsRaft json raft) (dead : List String)
    (mds : MetadataServer)
    → IsTree mds.root
    → IsTree (remove_dead json raft dead mds).root
unfolding remove_dead
remove_dead-IsTree json raft good [] mds t = t
remove_dead-IsTree json raft good (addr ∷ dead) mds t =
    let (log, same) =
      submit_command-replay json raft good
        (record no_payload { op = op_remove_data_node; addr = addr }) mds in
    remove_dead-IsTree json raft good dead _
      (subst (λ m. IsTree m.root) (sym same) (replay-IsTree log mds t))

pub run_gc-keeps_live :
    (json : PayloadJson) (raft : RaftServer json) (good : IsRaft json raft) (nodes : DataNodes)
    (before : List LogEntry) (meanwhile : MetadataServer → MetadataServer) (gc_start now : ℕ)
    (mds : MetadataServer)
    → IsTree mds.root
    → (q : List String) (a : Attrs)
    → view (run_gc json raft nodes before meanwhile gc_start now mds).1 q ≡ some a
    → a.is_dir ≡ false
    → is_empty a.file_id ≡ false
    → asks (run_gc json raft nodes before meanwhile gc_start now mds).0 ("/data/" <> a.file_id)
      ≡ false
unfolding run_gc check_data_node_health collect_valid_file_ids
run_gc-keeps_live json raft good nodes before meanwhile gc_start now mds t q a seen file named =
    let healthy = check_data_node_health json raft now mds in
    let live = replay before healthy in
    collect_nodes-live nodes (collect_valid_file_ids live) gc_start a.file_id named
      (collect_file_ids_recursive-stat q live.root a
        (replay-IsTree before healthy
          (remove_dead-IsTree json raft good (dead_nodes now mds.last_heartbeat) mds t)).sound
        seen file named [])
      (meanwhile live).data_nodes
