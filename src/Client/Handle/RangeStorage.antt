-- ===== src/Client/Handle/RangeStorage.antt =====
-- Data nodes that run internal/datanode/datanode.go behind the network of
-- internal/client/file_handle.go: their requests for parts of a file.
use file_storage.DataNode.Ranges.Writes.{range_read-partial_write}
use file_storage.DataNode.Disk.{Faults, Disk}
use file_storage.Base.{
  refl, ap, length, ◌∷◌, pos, List, arith, ℕ, String, Bool, true, false, ◌≡◌, ◌≢◌, ◌==◌,
}
use file_storage.DataNode.Ranges
use file_storage.DataNode.Service.{DataError, Reply, failed, replied, crashed, DataNode}
use file_storage.Client.{
  err, CallError, Result, unreachable, ok, node_result, UpdateSizeArgs, RangeReadArgs,
  PartialWriteArgs, RangeReadReply, Answer, refused, received, Network,
}
use file_storage.Client.Storage.{no_faults}

-- A call of `PartialWrite` with its answer and the disk after it, as `StoreRun` has them.
pub data WriteRun (dn : DataNode) (args : PartialWriteArgs) (disk : Disk)
    : Answer Bool → Disk → Type 0 where
  not_run :
      (answer : Answer Bool)
      → ((a : Bool) → answer ≢ received a)
      → WriteRun dn args disk answer disk
  was_run :
      (faults : Faults) (now : ℕ) (answer : Answer Bool)
      → ((a : Bool)
          → answer ≡ received a
          → (Ranges.partial_write dn faults now args disk).0 ≡ replied true)
      → WriteRun dn args disk answer (Ranges.partial_write dn faults now args disk).1

-- The answer to a call of `RangeRead` that reaches its node and whose reply gets back.
pub data RangeRun : Reply RangeReadReply → Answer RangeReadReply → Type 0 where
  range_error : (e : DataError) (text : String) → RangeRun (failed e) (refused text)
  range_reply : (reply : RangeReadReply) → RangeRun (replied reply) (received reply)
  range_crash : (answer : Answer RangeReadReply) → RangeRun crashed answer

-- The data nodes are behind the network: a write runs on the disk of its node and on no other, and a
-- read of a range is answered from the disk of its node, without a failure of its own. What the
-- metadata server does for a new size changes no disk.
pub record IsRangeStorage {W : Type 0} (net : Network W) (nodes : String → DataNode) : Type 0 where
  pub disk : W → String → Disk
  pub on_partial_write-run :
      (addr : String) (args : PartialWriteArgs) (w : W)
      → WriteRun
          (nodes addr)
          args
          (disk w addr)
          (net.on_partial_write addr args w).0
          (disk (net.on_partial_write addr args w).1 addr)
  pub on_partial_write-other :
      (addr : String) (args : PartialWriteArgs) (w : W) (other : String)
      → addr == other ≡ false
      → disk (net.on_partial_write addr args w).1 other ≡ disk w other
  pub on_range_read-run :
      (addr : String) (args : RangeReadArgs) (w : W)
      → RangeRun
          (Ranges.range_read (nodes addr) no_faults 0 args (disk w addr))
          (net.on_range_read addr args w).0
  pub on_update_size-disk :
      (addr : String) (args : UpdateSizeArgs) (w : W) (other : String)
      → disk (net.on_update_size addr args w).1 other ≡ disk w other

pub node_result-ok :
    {A : Type 0} (context addr : String) (x : Answer A) (a : A)
    → node_result context addr x ≡ ok a
    → x ≡ received a
node_result-ok context addr (unreachable e) a h = ground arith
node_result-ok context addr (refused e) a h = ground arith
node_result-ok context addr (received b) a h = ap (λ r. answer_of b r) h
  where
    answer_of : {A : Type 0} → A → Result CallError A → Answer A
    answer_of b (err e) = received b
    answer_of b (ok c) = received c

pub WriteRun-received :
    (dn : DataNode) (path : String) (offset b : ℕ) (bytes : List ℕ) {disk after : Disk}
    {answer : Answer Bool} (a : Bool)
    → WriteRun dn
        (record { path = path; offset = pos offset; content = b ∷ bytes })
        disk
        answer
        after
    → answer ≡ received a
    → Ranges.range_read dn no_faults 0
        (record { path = path; offset = pos offset; length = pos (length (b ∷ bytes)) })
        after
      ≡ replied (record { content = b ∷ bytes; eof = false })
WriteRun-received dn path offset b bytes a (not_run answer no_reply) h = absurd (no_reply a h)
WriteRun-received dn path offset b bytes {disk = disk} a (was_run faults now answer replies) h =
    range_read-partial_write dn faults no_faults now 0 path disk offset b bytes (replies a h) refl
      refl

pub RangeRun-replied :
    {r : Reply RangeReadReply} {x : Answer RangeReadReply} (reply : RangeReadReply)
    → RangeRun r x
    → r ≡ replied reply
    → x ≡ received reply
RangeRun-replied reply (range_error e text) h = ground arith
RangeRun-replied reply (range_reply other) h = ground arith
RangeRun-replied reply (range_crash answer) h = ground arith
