-- ===== src/Client/Storage/Downloaded.antt =====
-- `GetFile` after `PutFile` of internal/client/client.go, on the disks of the data nodes.
use file_storage.Base.{
  [], sym, ℕ, zero, suc, ◌<◌, String, ◌==◌, Bool, true, false, ◌≡◌, refl, ap, ◌∙◌, Option, none,
  some, List, ◌∷◌, length, eqb, arith, contains, eq_iff, Bool-cases, inl, inr,
}
use mathlib.Core.Bool.{false≢true}
use file_storage.Metadata.Placement.Distinct.{AreDistinct}
use file_storage.Types.{Replica, CreateFileReply, FileLocation}
use file_storage.DataNode.Service.{DataNode}
use file_storage.Client.{
  Answer, Result, ok, CallError, Network, Answer-cases, extract_leader_addr, redirect,
}
use file_storage.Client.Requests.{call_mds_with_redirect}
use file_storage.Client.Replicas.{on_replicas, success_count}
use file_storage.Client.Transfer.{
  store_replica, put_stored, put_created, fetch, save, get_fetched, get_located,
}
use file_storage.Client.Storage.{IsStorage}
use file_storage.Client.Storage.Fetched.{HasOne, AllOnly, AllOnly-same, HasOne-same, fetch-HasOne}
use file_storage.Client.Storage.Kept.{AreApart, AllApart, stores-AllOnly, stores-HasOne}

-- What every call keeps, the loop of redirects keeps.
pub redirect-keeps :
    {A W X : Type 0} (part : W → X) (method : String) (call : String → W → Answer A × W)
    → ((addr : String) (w : W) → part (call addr w).1 ≡ part w)
    → (retries : ℕ) (addr : String) (w : W) → part (redirect retries method call addr w).1 ≡ part w
unfolding redirect
redirect-keeps part method call keeps zero addr w = refl
redirect-keeps part method call keeps (suc retries) addr w = elim (Answer-cases (call addr w)) [
  | inl (e, w1, r) ↦ ground (arith, keeps addr w)
  | inr (inl (e, w1, r)) ↦ ground (
    arith,
    keeps addr w,
    redirect-keeps part method call keeps retries (extract_leader_addr e) w1,
  )
  | inr (inr (a, w1, r)) ↦ ground (arith, keeps addr w)
]

module _ {W : Type 0} (net : Network W) (mds_addr : String) (remote_path : String) where
  put_stored-ok :
      (results : List (Result CallError Bool)) (w : W)
      → (put_stored net mds_addr remote_path (results, w)).0 ≡ ok true
      → (0 < success_count results)
        × ((put_stored net mds_addr remote_path (results, w)).1
            ≡ (call_mds_with_redirect net mds_addr "MetadataService.CompleteFile"
                (λ at. net.on_complete_file at remote_path)
                w).1)
  unfolding put_stored
  put_stored-ok results w done = elim (Bool-cases (eqb (success_count results) 0)) [
    | inl nothing ↦ ground arith
    | inr something ↦ (ground arith, rw something refl)
  ]

  pub get_located-fetched :
      (local_path : String) (loc : FileLocation) (content : List ℕ) (w : W)
      → loc.status == "pending" ≡ false
      → (fetch net mds_addr loc.replicas none w).0 ≡ some content
      → get_located net mds_addr local_path (ok loc, w)
        ≡ save net mds_addr local_path content (fetch net mds_addr loc.replicas none w).2
  unfolding get_located
  get_located-fetched local_path loc content w complete got =
      rw complete (fetched (fetch net mds_addr loc.replicas none w) got)
    where
      fetched :
          (f : Option (List ℕ) × Option CallError × W)
          → f.0 ≡ some content
          → get_fetched net mds_addr local_path (length loc.replicas) f
            ≡ save net mds_addr local_path content f.2
      fetched (none, last, w1) h = ground arith
      fetched (some c, last, w1) h = ground arith

contains-differ :
    (seen : List String) (x y : String)
    → contains seen x ≡ true
    → contains seen y ≡ false
    → x == y ≡ false
contains-differ seen x y there missing = elim (Bool-cases (x == y)) [
  | inl same ↦
      absurd (false≢true (sym missing ∙ ap (contains seen) (sym ((eq_iff x y).0 same)) ∙ there))
  | inr other ↦ other
]

AreDistinct-AreApart :
    (seen : List String) (addr : String) (replicas : List Replica)
    → contains seen addr ≡ true
    → AreDistinct seen replicas
    → AreApart addr replicas
AreDistinct-AreApart seen addr [] there d = tt
AreDistinct-AreApart seen addr (r ∷ replicas) there d = (
  contains-differ seen addr r.addr there d.0,
  AreDistinct-AreApart (r.addr ∷ seen) addr replicas (ground arith) d.1,
)

AreDistinct-AllApart :
    (seen : List String) (replicas : List Replica) → AreDistinct seen replicas → AllApart replicas
AreDistinct-AllApart seen [] d = tt
AreDistinct-AllApart seen (r ∷ replicas) d = (
  AreDistinct-AreApart (r.addr ∷ seen) r.addr replicas (rw ((eq_iff r.addr r.addr).1 refl) refl)
      d.1,
  AreDistinct-AllApart (r.addr ∷ seen) replicas d.1,
)

-- What an upload that succeeded in its stores leaves: the metadata server was told, no replica has
-- other content at its path, and one has the content.
pub record IsUploaded {W : Type 0} (net : Network W) (mds_addr : String) (nodes : String → DataNode)
    (storage : IsStorage net nodes) (content : List ℕ) (remote_path : String)
    (replicas : List Replica) (w last : W) : Type 0 where
  pub told :
      last
      ≡ (call_mds_with_redirect net mds_addr "MetadataService.CompleteFile"
          (λ at. net.on_complete_file at remote_path)
          (on_replicas (store_replica net mds_addr content) replicas w).1).1
  pub only : AllOnly nodes content (storage.disk last) replicas
  pub has_one : HasOne nodes content (storage.disk last) replicas

pub put_created-IsUploaded :
    {W : Type 0} (net : Network W) (mds_addr : String) (nodes : String → DataNode)
    (storage : IsStorage net nodes) (b : ℕ) (bytes : List ℕ) (remote_path : String)
    (reply : CreateFileReply) (w : W)
    → AreDistinct [] reply.replicas
    → AllOnly nodes (b ∷ bytes) (storage.disk w) reply.replicas
    → (put_created net mds_addr (b ∷ bytes) remote_path (ok reply, w)).0 ≡ ok true
    → IsUploaded net mds_addr nodes storage
        (b ∷ bytes)
        remote_path
        reply.replicas
        w
        (put_created net mds_addr (b ∷ bytes) remote_path (ok reply, w)).1
unfolding put_created
put_created-IsUploaded net mds_addr nodes storage b bytes remote_path reply w distinct only done =
    let apart = AreDistinct-AllApart [] reply.replicas distinct in
    let stores = on_replicas (store_replica net mds_addr (b ∷ bytes)) reply.replicas w in
    let (some_ok, completed) = put_stored-ok net mds_addr remote_path stores.0 stores.1 done in
    let last = (put_stored net mds_addr remote_path stores).1 in
    let disks : (a : String) → storage.disk last a ≡ storage.disk stores.1 a = λ a.
      ap (λ x. storage.disk x a) completed
      ∙ redirect-keeps (λ x. storage.disk x a) "MetadataService.CompleteFile"
          (λ at. net.on_complete_file at remote_path)
          (λ addr x. storage.on_complete_file-disk addr remote_path x a) 3 mds_addr stores.1 in
    record {
      told = completed;
      only =
          AllOnly-same net mds_addr nodes storage b bytes (storage.disk stores.1)
            (storage.disk last) reply.replicas disks
            (stores-AllOnly net mds_addr nodes storage b bytes reply.replicas w apart only);
      has_one =
          HasOne-same net mds_addr nodes storage b bytes (storage.disk stores.1) (storage.disk last)
            reply.replicas disks
            (stores-HasOne net mds_addr nodes storage b bytes reply.replicas w apart some_ok);
    }

-- After an upload that succeeded in its stores, a download of a location with the replicas of the
-- upload, whose status is not pending, writes the content to the local file: the content is not
-- empty, the replicas are on different nodes, and before the upload there was no file with another
-- content at their paths.
pub get_located-put_created :
    {W : Type 0} (net : Network W) (mds_addr : String) (nodes : String → DataNode)
    (storage : IsStorage net nodes) (b : ℕ) (bytes : List ℕ) (remote_path local_path : String)
    (reply : CreateFileReply) (loc : FileLocation) (w : W)
    → AreDistinct [] reply.replicas
    → AllOnly nodes (b ∷ bytes) (storage.disk w) reply.replicas
    → (put_created net mds_addr (b ∷ bytes) remote_path (ok reply, w)).0 ≡ ok true
    → loc.replicas ≡ reply.replicas
    → loc.status == "pending" ≡ false
    → (then_w : W) × (get_located net mds_addr local_path
          (ok loc, (put_created net mds_addr (b ∷ bytes) remote_path (ok reply, w)).1)
        ≡ save net mds_addr local_path (b ∷ bytes) then_w)
get_located-put_created net mds_addr nodes storage b bytes remote_path local_path reply loc w
      distinct only done same complete =
    let last = (put_created net mds_addr (b ∷ bytes) remote_path (ok reply, w)).1 in
    let uploaded =
      put_created-IsUploaded net mds_addr nodes storage b bytes remote_path reply w distinct only
        done in
    (
      _,
      get_located-fetched net mds_addr remote_path local_path loc (b ∷ bytes) last complete (
          ap (λ rs. (fetch net mds_addr rs none last).0) same
          ∙ fetch-HasOne net mds_addr nodes storage b bytes reply.replicas none last uploaded.only
              uploaded.has_one),
    )
