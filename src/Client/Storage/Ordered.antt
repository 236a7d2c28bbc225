-- ===== src/Client/Storage/Ordered.antt =====
-- The stores of an upload by internal/client/client.go in any order.
use file_storage.DataNode.Service.Only.{PathHasOnly}
use file_storage.Client.Storage.Fetched.{fetch-HasOne, HasOne, AllOnly}
use file_storage.DataNode.Disk.{Disk}
use file_storage.Client.Storage.{replied, no_faults, get_data, IsStorage}
use file_storage.DataNode.Service.{DataNode}
use file_storage.Client.{CallError, Result, Network}
use file_storage.Client.Storage.Kept.{stores-HasOne, stores-AllOnly, AreApart, AllApart}
use file_storage.Client.Replicas.Parallel.{
  Parallel-on_replicas, Parallel, IsRemoved, behind, at_front, IsOrder,
}
use file_storage.Types.{Replica}
use file_storage.Client.Replicas.Parallel.{no_replica, next, at_front, behind}
use file_storage.Client.Storage.Kept.{flip}
use file_storage.Base.{
  ◌<◌, Bool, false, ◌==◌, String, ℕ, List, ◌∷◌, ◌≡◌, ◌⊎◌, inl, inr, ap, sym, some, none,
}
use mathlib.Core.Path.{subst}
use file_storage.Client.Replicas.{next, success_count}
use file_storage.Client.Transfer.{fetch, store_replica}

AreApart-Removed :
    (addr : String) {r : Replica} {replicas rest : List Replica}
    → IsRemoved r replicas rest
    → AreApart addr replicas
    → (addr == r.addr ≡ false) × AreApart addr rest
AreApart-Removed addr (at_front replicas) apart = apart
AreApart-Removed addr (behind s replicas rest removed) apart =
    let later = AreApart-Removed addr removed apart.1 in (later.0, (apart.0, later.1))

AllApart-Removed :
    {r : Replica} {replicas rest : List Replica}
    → IsRemoved r replicas rest
    → AllApart replicas
    → AreApart r.addr rest × AllApart rest
AllApart-Removed (at_front replicas) apart = apart
AllApart-Removed {r = r} (behind s replicas rest removed) apart =
    let here = AreApart-Removed s.addr removed apart.0 in
    let later = AllApart-Removed removed apart.1 in
    ((flip s.addr r.addr here.0, later.0), (here.1, later.1))

AreApart-IsOrder :
    (addr : String) {replicas order : List Replica}
    → IsOrder replicas order
    → AreApart addr replicas
    → AreApart addr order
AreApart-IsOrder addr no_replica apart = tt
AreApart-IsOrder addr (next r replicas rest order removed is_order) apart =
    let here = AreApart-Removed addr removed apart in
    (here.0, AreApart-IsOrder addr is_order here.1)

AllApart-IsOrder :
    {replicas order : List Replica} → IsOrder replicas order → AllApart replicas → AllApart order
AllApart-IsOrder no_replica apart = tt
AllApart-IsOrder (next r replicas rest order removed is_order) apart =
    let here = AllApart-Removed removed apart in
    (AreApart-IsOrder r.addr is_order here.0, AllApart-IsOrder is_order here.1)

module _ (nodes : String → DataNode) (content : List ℕ) (disks : String → Disk) where
  abbrev OnlyAt : Replica → Type 0
  OnlyAt r = PathHasOnly (nodes r.addr) content r.remote_path (disks r.addr)

  abbrev HasContent : Replica → Type 0
  HasContent r = get_data (nodes r.addr) no_faults 0 r.remote_path (disks r.addr) ≡ replied content

  AllOnly-Removed :
      {r : Replica} {replicas rest : List Replica}
      → IsRemoved r replicas rest
      → AllOnly nodes content disks replicas
      → OnlyAt r × AllOnly nodes content disks rest
  AllOnly-Removed (at_front replicas) only = only
  AllOnly-Removed (behind s replicas rest removed) only =
      let later = AllOnly-Removed removed only.1 in (later.0, (only.0, later.1))

  AllOnly-put_back :
      {r : Replica} {replicas rest : List Replica}
      → IsRemoved r replicas rest
      → OnlyAt r
      → AllOnly nodes content disks rest
      → AllOnly nodes content disks replicas
  AllOnly-put_back (at_front replicas) here only = (here, only)
  AllOnly-put_back (behind s replicas rest removed) here only =
      (only.0, AllOnly-put_back removed here only.1)

  AllOnly-IsOrder :
      {replicas order : List Replica}
      → IsOrder replicas order
      → AllOnly nodes content disks replicas
      → AllOnly nodes content disks order
  AllOnly-IsOrder no_replica only = tt
  AllOnly-IsOrder (next r replicas rest order removed is_order) only =
      let here = AllOnly-Removed removed only in (here.0, AllOnly-IsOrder is_order here.1)

  AllOnly-of_order :
      {replicas order : List Replica}
      → IsOrder replicas order
      → AllOnly nodes content disks order
      → AllOnly nodes content disks replicas
  AllOnly-of_order no_replica only = tt
  AllOnly-of_order (next r replicas rest order removed is_order) only =
      AllOnly-put_back removed only.0 (AllOnly-of_order is_order only.1)

  HasOne-put_back :
      {r : Replica} {replicas rest : List Replica}
      → IsRemoved r replicas rest
      → HasContent r ⊎ HasOne nodes content disks rest
      → HasOne nodes content disks replicas
  HasOne-put_back (at_front replicas) has = has
  HasOne-put_back (behind s replicas rest removed) (inl here) =
      inr (HasOne-put_back removed (inl here))
  HasOne-put_back (behind s replicas rest removed) (inr (inl there)) = inl there
  HasOne-put_back (behind s replicas rest removed) (inr (inr later)) =
      inr (HasOne-put_back removed (inr later))

  HasOne-of_order :
      {replicas order : List Replica}
      → IsOrder replicas order
      → HasOne nodes content disks order
      → HasOne nodes content disks replicas
  HasOne-of_order no_replica has = has
  HasOne-of_order (next r replicas rest order removed is_order) (inl here) =
      HasOne-put_back removed (inl here)
  HasOne-of_order (next r replicas rest order removed is_order) (inr later) =
      HasOne-put_back removed (inr (HasOne-of_order is_order later))

-- In whatever order the stores of an upload end, if one of them succeeds, the replicas then give the
-- content to a download: it is not empty, the replicas are on different nodes, and before the stores
-- there was no file with another content at their paths.
pub fetch-Parallel :
    {W : Type 0} (net : Network W) (mds_addr : String) (nodes : String → DataNode)
    (storage : IsStorage net nodes) (b : ℕ) (bytes : List ℕ) (replicas : List Replica) (w last : W)
    (results : List (Result CallError Bool))
    → AllApart replicas
    → AllOnly nodes (b ∷ bytes) (storage.disk w) replicas
    → Parallel (store_replica net mds_addr (b ∷ bytes)) replicas w results last
    → 0 < success_count results
    → (fetch net mds_addr replicas none last).0 ≡ some (b ∷ bytes)
fetch-Parallel net mds_addr nodes storage b bytes replicas w last results apart only run some_ok =
    let content = b ∷ bytes in
    let call = store_replica net mds_addr content in
    let (order, is_order, ran) = Parallel-on_replicas call replicas w last results run in
    let in_order = AllApart-IsOrder is_order apart in
    let kept =
      stores-AllOnly net mds_addr nodes storage b bytes order w in_order
        (AllOnly-IsOrder nodes content (storage.disk w) is_order only) in
    let stored =
      stores-HasOne net mds_addr nodes storage b bytes order w in_order
        (subst (λ rs. 0 < success_count rs) (sym (ap (λ x. x.0) ran)) some_ok) in
    let left = ap (λ x. x.1) ran in
    fetch-HasOne net mds_addr nodes storage b bytes replicas none last
      (AllOnly-of_order nodes content (storage.disk last) is_order
        (subst (λ x. AllOnly nodes content (storage.disk x) order) left kept))
      (HasOne-of_order nodes content (storage.disk last) is_order
        (subst (λ x. HasOne nodes content (storage.disk x) order) left stored))
