-- ===== src/Client/Storage/Kept.antt =====
-- What an upload by internal/client/client.go leaves on the disks of the data nodes.
use file_storage.Base.{
  ◌<◌, eq_iff, ℕ, String, Bool, false, ◌≡◌, ◌==◌, inl, inr, refl, ap, ◌∙◌, List, [], ◌∷◌, arith,
}
use file_storage.Types.{Replica, StoreArgs}
use file_storage.DataNode.Disk.{Disk}
use file_storage.DataNode.Service.{replied, DataNode, get_data}
use file_storage.DataNode.Service.Roundtrip.{get_data-store_data}
use file_storage.DataNode.Service.Only.{PathHasOnly, store_data-PathHasOnly}
use file_storage.Client.{
  Answer, unreachable, refused, received, Network, Result, CallError, Answer-cases,
}
use file_storage.Client.Replicas.{on_replicas, success_count}
use file_storage.Client.Transfer.{store_replica}
use file_storage.Client.Storage.{StoreRun, not_run, was_run, IsStorage, no_faults}
use file_storage.Client.Storage.Fetched.{AllOnly, HasOne}

-- No two replicas are on one node.
abbrev pub AreApart : String → List Replica → Type 0
AreApart addr [] = Unit {0}
AreApart addr (r ∷ replicas) = (addr == r.addr ≡ false) × AreApart addr replicas

abbrev pub AllApart : List Replica → Type 0
AllApart [] = Unit {0}
AllApart (r ∷ replicas) = AreApart r.addr replicas × AllApart replicas

pub flip : (x y : String) → x == y ≡ false → y == x ≡ false
flip x y h = ground (arith, eq_iff x y, eq_iff y x)

-- The run of a store leaves no other content at its path, and where it is answered the content is
-- there.
StoreRun-PathHasOnly :
    (dn : DataNode) (path : String) (content : List ℕ) {disk after : Disk} {answer : Answer Bool}
    → StoreRun dn (record { path = path; content = content }) disk answer after
    → PathHasOnly dn content path disk
    → PathHasOnly dn content path after
StoreRun-PathHasOnly dn path content (not_run answer no_reply) only = only
StoreRun-PathHasOnly dn path content {disk = disk} (was_run faults now answer replies) only =
    store_data-PathHasOnly dn faults now path content disk only

StoreRun-replied :
    (dn : DataNode) (path : String) (content : List ℕ) {disk after : Disk} {answer : Answer Bool}
    (a : Bool)
    → StoreRun dn (record { path = path; content = content }) disk answer after
    → answer ≡ received a
    → get_data dn no_faults 0 path after ≡ replied content
StoreRun-replied dn path content a (not_run answer no_reply) h = absurd (no_reply a h)
StoreRun-replied dn path content {disk = disk} a (was_run faults now answer replies) h =
    get_data-store_data dn faults no_faults now 0 (record { path = path; content = content }) disk
      (replies a h) refl refl

module _ {W : Type 0} (net : Network W) (mds_addr : String) (nodes : String → DataNode)
    (storage : IsStorage net nodes) (b : ℕ) (bytes : List ℕ) where
  abbrev args_of : Replica → StoreArgs
  args_of r = record { path = r.remote_path; content = b ∷ bytes }

  abbrev pub stores : List Replica → W → List (Result CallError Bool) × W
  stores replicas w = on_replicas (store_replica net mds_addr (b ∷ bytes)) replicas w

  -- The stores on other nodes leave a disk as it is.
  stores_apart :
      (addr : String) (replicas : List Replica) (w : W)
      → AreApart addr replicas
      → storage.disk (stores replicas w).1 addr ≡ storage.disk w addr
  unfolding on_replicas
  stores_apart addr [] w apart = refl
  stores_apart addr (r ∷ replicas) w apart =
      stores_apart addr replicas (net.on_store_data r.addr (args_of r) w).1 apart.1
      ∙ storage.on_store_data-other r.addr (args_of r) w addr (flip addr r.addr apart.0)

  AllOnly-stored :
      (r : Replica) (replicas : List Replica) (w : W)
      → AreApart r.addr replicas
      → AllOnly nodes (b ∷ bytes) (storage.disk w) replicas
      → AllOnly nodes (b ∷ bytes) (storage.disk (net.on_store_data r.addr (args_of r) w).1) replicas
  AllOnly-stored r [] w apart only = tt
  AllOnly-stored r (s ∷ replicas) w apart only = (
    rw (storage.on_store_data-other r.addr (args_of r) w s.addr apart.0) only.0,
    AllOnly-stored r replicas w apart.1 only.1,
  )

  pub stores-AllOnly :
      (replicas : List Replica) (w : W)
      → AllApart replicas
      → AllOnly nodes (b ∷ bytes) (storage.disk w) replicas
      → AllOnly nodes (b ∷ bytes) (storage.disk (stores replicas w).1) replicas
  unfolding on_replicas
  stores-AllOnly [] w apart only = tt
  stores-AllOnly (r ∷ replicas) w apart only =
      let then_w = (net.on_store_data r.addr (args_of r) w).1 in
      (
        rw (stores_apart r.addr replicas then_w apart.0) (
            StoreRun-PathHasOnly (nodes r.addr) r.remote_path (b ∷ bytes)
              (storage.on_store_data-run r.addr (args_of r) w) only.0),
        stores-AllOnly replicas then_w apart.1 (AllOnly-stored r replicas w apart.0 only.1),
      )

  pub stores-HasOne :
      (replicas : List Replica) (w : W)
      → AllApart replicas
      → 0 < success_count (stores replicas w).0
      → HasOne nodes (b ∷ bytes) (storage.disk (stores replicas w).1) replicas
  unfolding on_replicas success_count
  stores-HasOne [] w apart some_ok = absurd (omega arith)
  stores-HasOne (r ∷ replicas) w apart some_ok =
      let then_w = (net.on_store_data r.addr (args_of r) w).1 in
      elim (Answer-cases (net.on_store_data r.addr (args_of r) w)) [
        | inl (e, w1, h) ↦ inr (
            stores-HasOne replicas then_w apart.1
              (rw (reached r w (unreachable e) w1 h) at some_ok))
        | inr (inl (e, w1, h)) ↦
            inr
              (stores-HasOne replicas then_w apart.1 (rw (reached r w (refused e) w1 h) at some_ok))
        | inr (inr (a, w1, h)) ↦ inl (
            rw (stores_apart r.addr replicas then_w apart.0) (
              StoreRun-replied (nodes r.addr) r.remote_path (b ∷ bytes) a
                (storage.on_store_data-run r.addr (args_of r) w) (reached r w (received a) w1 h)))
      ]
    where
      reached :
          (r : Replica) (w : W) (answer : Answer Bool) (w1 : W)
          → net.on_store_data r.addr (args_of r) w ≡ (answer, w1)
          → (net.on_store_data r.addr (args_of r) w).0 ≡ answer
      reached r w answer w1 h = ap (λ x. x.0) h
