-- ===== src/Client/Storage/Fetched.antt =====
-- What a download by internal/client/client.go finds on the disks of the data nodes.
use file_storage.Base.{
  ℕ, String, ◌≡◌, ◌⊎◌, inl, inr, refl, ap, ◌∙◌, Option, some, List, [], ◌∷◌, arith,
}
use file_storage.Types.{Replica}
use file_storage.DataNode.Disk.{Disk}
use file_storage.DataNode.Service.{DataError, Reply, failed, replied, DataNode, get_data}
use file_storage.DataNode.Service.Only.{PathHasOnly, get_data-IsOnly}
use file_storage.Client.{remote, Answer, refused, received, Network, CallError}
use file_storage.Client.Transfer.{fetch}
use file_storage.Client.Storage.{
  ReadRun, read_error, read_bytes, read_nothing, read_crash, IsStorage, no_faults,
}

-- At the paths of the replicas there is no other file than one with the content.
abbrev pub AllOnly : (String → DataNode) → List ℕ → (String → Disk) → List Replica → Type 0
AllOnly nodes content disks [] = Unit {0}
AllOnly nodes content disks (r ∷ replicas) =
    PathHasOnly (nodes r.addr) content r.remote_path (disks r.addr)
    × AllOnly nodes content disks replicas

-- One of the replicas has the content.
abbrev pub HasOne : (String → DataNode) → List ℕ → (String → Disk) → List Replica → Type 0
HasOne nodes content disks [] = ⊥
HasOne nodes content disks (r ∷ replicas) =
    (get_data (nodes r.addr) no_faults 0 r.remote_path (disks r.addr) ≡ replied content)
    ⊎ HasOne nodes content disks replicas

answer_failed :
    {reply : Reply (List ℕ)} {answer : Answer (Option (List ℕ))} (e : DataError)
    → ReadRun reply answer
    → reply ≡ failed e
    → (text : String) × (answer ≡ refused text)
answer_failed e (read_error f text) h = (text, refl)
answer_failed e (read_bytes b bytes) h = ground arith
answer_failed e (read_nothing answer) h = ground arith
answer_failed e (read_crash answer) h = ground arith

answer_replied :
    {reply : Reply (List ℕ)} {answer : Answer (Option (List ℕ))} (b : ℕ) (bytes : List ℕ)
    → ReadRun reply answer
    → reply ≡ replied (b ∷ bytes)
    → answer ≡ received (some (b ∷ bytes))
answer_replied b bytes (read_error f text) h = ground arith
answer_replied b bytes (read_bytes c others) h = ground arith
answer_replied b bytes (read_nothing answer) h = ground arith
answer_replied b bytes (read_crash answer) h = ground arith

module _ {W : Type 0} (net : Network W) (mds_addr : String) (nodes : String → DataNode)
    (storage : IsStorage net nodes) (b : ℕ) (bytes : List ℕ) where
  pub AllOnly-same :
      (old new : String → Disk) (replicas : List Replica)
      → ((a : String) → new a ≡ old a)
      → AllOnly nodes (b ∷ bytes) old replicas
      → AllOnly nodes (b ∷ bytes) new replicas
  AllOnly-same old new [] same only = tt
  AllOnly-same old new (r ∷ replicas) same only =
      (rw (same r.addr) only.0, AllOnly-same old new replicas same only.1)

  pub HasOne-same :
      (old new : String → Disk) (replicas : List Replica)
      → ((a : String) → new a ≡ old a)
      → HasOne nodes (b ∷ bytes) old replicas
      → HasOne nodes (b ∷ bytes) new replicas
  HasOne-same old new [] same has = absurd has
  HasOne-same old new (r ∷ replicas) same (inl h) = inl (rw (same r.addr) h)
  HasOne-same old new (r ∷ replicas) same (inr h) = inr (HasOne-same old new replicas same h)

  fetch-refused :
      (r : Replica) (replicas : List Replica) (last : Option CallError) (w : W) (text : String)
      → (net.on_get_data r.addr r.remote_path w).0 ≡ refused text
      → fetch net mds_addr (r ∷ replicas) last w
        ≡ fetch net mds_addr replicas
            (some (remote text))
            (net.on_get_data r.addr r.remote_path w).1
  unfolding fetch
  fetch-refused r replicas last w text h = rw (h, fetch) refl

  fetch-received :
      (r : Replica) (replicas : List Replica) (last : Option CallError) (w : W)
      → (net.on_get_data r.addr r.remote_path w).0 ≡ received (some (b ∷ bytes))
      → (fetch net mds_addr (r ∷ replicas) last w).0 ≡ some (b ∷ bytes)
  unfolding fetch
  fetch-received r replicas last w h = rw (h, fetch) refl

  pub fetch-HasOne :
      (replicas : List Replica) (last : Option CallError) (w : W)
      → AllOnly nodes (b ∷ bytes) (storage.disk w) replicas
      → HasOne nodes (b ∷ bytes) (storage.disk w) replicas
      → (fetch net mds_addr replicas last w).0 ≡ some (b ∷ bytes)
  fetch-HasOne [] last w only has = absurd has
  fetch-HasOne (r ∷ replicas) last w only has =
      let run = storage.on_get_data-run r.addr r.remote_path w in
      let next_w = (net.on_get_data r.addr r.remote_path w).1 in
      let same = storage.on_get_data-disk r.addr r.remote_path w in
      elim (get_data-IsOnly (nodes r.addr) no_faults 0 r.remote_path (b ∷ bytes)
        (storage.disk w r.addr) only.0 refl refl) [
          | inr content ↦ fetch-received r replicas last w (answer_replied b bytes run content)
          | inl (e, nothing) ↦
              let (text, h) = answer_failed e run nothing in
              ap (λ x. x.0) (fetch-refused r replicas last w text h)
              ∙ fetch-HasOne replicas (some (remote text)) next_w
                  (AllOnly-same (storage.disk w) (storage.disk next_w) replicas same only.1)
                  (HasOne-same (storage.disk w) (storage.disk next_w) replicas same
                    (has_later r replicas w e nothing has))
        ]
    where
      has_later :
          (r : Replica) (replicas : List Replica) (w : W) (e : DataError)
          → get_data (nodes r.addr) no_faults 0 r.remote_path (storage.disk w r.addr) ≡ failed e
          → HasOne nodes (b ∷ bytes) (storage.disk w) (r ∷ replicas)
          → HasOne nodes (b ∷ bytes) (storage.disk w) replicas
      has_later r replicas w e nothing (inl content) = ground arith
      has_later r replicas w e nothing (inr later) = later
