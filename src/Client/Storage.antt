-- ===== src/Client/Storage.antt =====
-- The client of internal/client/client.go over data nodes that run internal/datanode/datanode.go.
pub mod Fetched
pub mod Kept
pub mod Downloaded
pub mod Ordered
use file_storage.Base.{
  ℕ, String, Bool, true, false, ◌≡◌, ◌≢◌, ◌==◌, Option, none, some, List, [], ◌∷◌,
}
use file_storage.Types.{StoreArgs}
use file_storage.DataNode.Disk.{Disk, Faults}
use file_storage.DataNode.Service.{
  DataError, Reply, failed, replied, crashed, DataNode, store_data, get_data,
}
use file_storage.Client.{Answer, unreachable, refused, received, Network}

abbrev pub no_faults : Faults
no_faults call = none

-- A call of `StoreData` with its answer and the disk after it: it did not reach the node, or it ran
-- there, with any calls of package os failing; a reply tells of a success, and an error may stand
-- for a reply that got lost.
pub data StoreRun (dn : DataNode) (args : StoreArgs) (disk : Disk)
    : Answer Bool → Disk → Type 0 where
  not_run :
      (answer : Answer Bool)
      → ((a : Bool) → answer ≢ received a)
      → StoreRun dn args disk answer disk
  was_run :
      (faults : Faults) (now : ℕ) (answer : Answer Bool)
      → ((a : Bool) → answer ≡ received a → (store_data dn faults now args disk).0 ≡ replied true)
      → StoreRun dn args disk answer (store_data dn faults now args disk).1

-- The answer to a call of `GetData` that reaches its node and whose reply gets back. A reply of no
-- bytes may come as a nil slice.
pub data ReadRun : Reply (List ℕ) → Answer (Option (List ℕ)) → Type 0 where
  read_error : (e : DataError) (text : String) → ReadRun (failed e) (refused text)
  read_bytes :
      (b : ℕ) (bytes : List ℕ) → ReadRun (replied (b ∷ bytes)) (received (some (b ∷ bytes)))
  read_nothing : (answer : Answer (Option (List ℕ))) → ReadRun (replied []) answer
  read_crash : (answer : Answer (Option (List ℕ))) → ReadRun crashed answer

-- The data nodes are behind the network: a store runs on the disk of its node and on no other, and
-- a read is answered from the disk of its node, without a failure of its own. What the metadata
-- server does for the mark of a complete file changes no disk.
pub record IsStorage {W : Type 0} (net : Network W) (nodes : String → DataNode) : Type 0 where
  pub disk : W → String → Disk
  pub on_store_data-run :
      (addr : String) (args : StoreArgs) (w : W)
      → StoreRun
          (nodes addr)
          args
          (disk w addr)
          (net.on_store_data addr args w).0
          (disk (net.on_store_data addr args w).1 addr)
  pub on_store_data-other :
      (addr : String) (args : StoreArgs) (w : W) (other : String)
      → addr == other ≡ false
      → disk (net.on_store_data addr args w).1 other ≡ disk w other
  pub on_get_data-run :
      (addr path : String) (w : W)
      → ReadRun
          (get_data (nodes addr) no_faults 0 path (disk w addr))
          (net.on_get_data addr path w).0
  pub on_get_data-disk :
      (addr path : String) (w : W) (other : String)
      → disk (net.on_get_data addr path w).1 other ≡ disk w other
  pub on_complete_file-disk :
      (addr path : String) (w : W) (other : String)
      → disk (net.on_complete_file addr path w).1 other ≡ disk w other
