-- ===== src/Client/System.antt =====
-- The client of internal/client/client.go over a metadata server that runs internal/metadata/mds.go
-- and data nodes that run internal/datanode/datanode.go.
pub mod Stored
pub mod Uploaded
pub mod Collected
pub mod Roundtrip
use file_storage.Base.{eq_iff, inr, inl, arith, ◌≡◌, ◌⊎◌, refl, suc, List, String, ℕ, zero}
use file_storage.Metadata.Service
use file_storage.Metadata.Read
use file_storage.Metadata.Service.{failed, replied, panicked}
use file_storage.DataNode.Service.{DataNode}
use file_storage.Client.Storage.{IsStorage}
use file_storage.Metadata.Machine.{PayloadJson}
use file_storage.Metadata.{MetadataServer}
use file_storage.Metadata.Raft.{RpcError, RaftServer}
use file_storage.Client.{
  StoreArgs, CreateFileArgs, remote, CreateFileReply, Replica, no_data_node, Answer, refused,
  received, Result, err, ok, Network, redirect, extract_leader_addr,
}

-- The answer to a call whose request gets to its server and whose reply gets back. A crash of the
-- handler and an error of it end the call with a text that names no leader.
pub data Run {A B : Type 0} (reply : A → B) : Service.Answer A → Answer B → Type 0 where
  run_failed :
      (e : RpcError) (text : String)
      → extract_leader_addr text ≡ ""
      → Run reply (failed e) (refused text)
  run_replied : (a : A) → Run reply (replied a) (received (reply a))
  run_panicked : (text : String) → extract_leader_addr text ≡ "" → Run reply panicked (refused text)

abbrev pub create_reply : List Replica → CreateFileReply
create_reply replicas = record { replicas = replicas }

abbrev pub same : {A : Type 0} → A → A
same a = a

-- Every address of a metadata server leads to the one that is modelled: a request runs on its
-- state. `new_id` is what `generateFileID` gives to the next creation. A request to the metadata
-- server changes no disk, and a store does not change the metadata.
pub record IsSystem {W : Type 0} (net : Network W) (nodes : String → DataNode)
    (storage : IsStorage net nodes) (json : PayloadJson) (raft : RaftServer json) : Type 0 where
  pub mds : W → MetadataServer
  pub new_id : W → String
  pub on_create_file-run :
      (addr : String) (args : CreateFileArgs) (w : W)
      → Run create_reply
          (Service.create_file json raft args (inr (new_id w)) (mds w)).0
          (net.on_create_file addr args w).0
  pub on_create_file-mds :
      (addr : String) (args : CreateFileArgs) (w : W)
      → mds (net.on_create_file addr args w).1
        ≡ (Service.create_file json raft args (inr (new_id w)) (mds w)).1
  pub on_create_file-disk :
      (addr : String) (args : CreateFileArgs) (w : W) (node : String)
      → storage.disk (net.on_create_file addr args w).1 node ≡ storage.disk w node
  pub on_complete_file-run :
      (addr path : String) (w : W)
      → Run same
          (Service.complete_file json raft path (mds w)).0
          (net.on_complete_file addr path w).0
  pub on_complete_file-mds :
      (addr path : String) (w : W)
      → mds (net.on_complete_file addr path w).1 ≡ (Service.complete_file json raft path (mds w)).1
  pub on_get_file_location-run :
      (addr path : String) (w : W)
      → Run same (Read.get_file_location path (mds w)) (net.on_get_file_location addr path w).0
  pub on_get_file_location-disk :
      (addr path : String) (w : W) (node : String)
      → storage.disk (net.on_get_file_location addr path w).1 node ≡ storage.disk w node
  pub on_store_data-mds :
      (addr : String) (args : StoreArgs) (w : W) → mds (net.on_store_data addr args w).1 ≡ mds w

-- A reply of the server is what the call gives.
pub Run-replied :
    {A B : Type 0} {reply : A → B} {r : Service.Answer A} {x : Answer B} (a : A)
    → Run reply r x
    → r ≡ replied a
    → x ≡ received (reply a)
Run-replied a (run_failed e text h) eq = ground arith
Run-replied a (run_panicked text h) eq = ground arith
Run-replied a (run_replied b) eq = ground arith

-- There was no reply, and the answer names no leader; or the reply is what the call gives.
Run-cases :
    {A B : Type 0} {reply : A → B} {r : Service.Answer A} {x : Answer B}
    → Run reply r x
    → ((text : String) × (x ≡ refused text) × (extract_leader_addr text ≡ ""))
      ⊎ ((a : A) × (r ≡ replied a) × (x ≡ received (reply a)))
Run-cases (run_failed e text h) = inl (text, refl, h)
Run-cases (run_replied a) = inr (a, refl, refl)
Run-cases (run_panicked text h) = inl (text, refl, h)

module _ {B W : Type 0} (retries : ℕ) (method : String) (call : String → W → Answer B × W)
    (addr : String) (w : W) where
  redirect-refused :
      (text : String)
      → (call addr w).0 ≡ refused text
      → extract_leader_addr text ≡ ""
      → redirect (suc retries) method call addr w ≡ (err (remote text), (call addr w).1)
  unfolding redirect
  redirect-refused text h no_leader =
      ground (arith, (eq_iff (extract_leader_addr text) "").1 no_leader)

  redirect-received :
      (b : B)
      → (call addr w).0 ≡ received b
      → redirect (suc retries) method call addr w ≡ (ok b, (call addr w).1)
  unfolding redirect
  redirect-received b h = ground arith

  -- The loop of redirects makes the one call; where it gives a reply, that is the reply of the
  -- server.
  pub redirect-Run :
      {A : Type 0} {reply : A → B} {r : Service.Answer A}
      → Run reply r (call addr w).0
      → ((text : String) × (redirect (suc retries) method call addr w
            ≡ (err (remote text), (call addr w).1)))
        ⊎ ((a : A) × (r ≡ replied a)
            × (redirect (suc retries) method call addr w ≡ (ok (reply a), (call addr w).1)))
  redirect-Run run = elim (Run-cases run) [
    | inl (text, h, no_leader) ↦ inl (text, redirect-refused text h no_leader)
    | inr (a, r_is, h) ↦ inr (a, r_is, redirect-received _ h)
  ]
