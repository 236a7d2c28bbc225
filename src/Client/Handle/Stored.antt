-- ===== src/Client/Handle/Stored.antt =====
-- The handles of internal/client/file_handle.go over data nodes that run
-- internal/datanode/datanode.go.
use file_storage.Client.Handle.RangeStorage.{
  node_result-ok, WriteRun-received, RangeRun-replied, IsRangeStorage,
}
use file_storage.Client.Storage.Downloaded.{redirect-keeps}
use file_storage.Client.Handle.Outcomes.{
  write_at-Wrote, written, not_written, refused_write, without_replicas, Wrote, Sized, grew,
  within_size,
}
use file_storage.Client.Replicas.{next, done, AllDone}
use mathlib.Core.Path.{subst}
use file_storage.Base.{
  if◌then◌else◌, ◌+◌, ℤ, take, ℕ, pos, String, Bool, false, ◌≡◌, ◌≢◌, refl, sym, ap, ◌∙◌, List, [],
  ◌∷◌, length, arith, Option, none,
}
use file_storage.DataNode.Ranges
use file_storage.Client.Handle.{
  all_failed, write_at, is_no_replica, range_read, Read, read_replicas, read_at, FileHandle,
  partial_write,
}
use file_storage.DataNode.Service.{replied, DataNode}
use file_storage.Client.{
  no_replicas, ClientError, CallError, Replica, RangeReadArgs, PartialWriteArgs, RangeReadReply,
  node_result, received, Network, Result, ok, err,
}
use file_storage.Client.Storage.{no_faults}
use file_storage.Client.Storage.Kept.{AreApart, AllApart, flip}

module _ {W : Type 0} (net : Network W) (mds_addr : String) (nodes : String → DataNode)
    (storage : IsRangeStorage net nodes) (offset b : ℕ) (bytes : List ℕ) where
  abbrev write : Replica → W → Result CallError Bool × W
  write r w = partial_write net (pos offset) (b ∷ bytes) r w

  abbrev range_of : Replica → RangeReadArgs
  range_of r = record {
    path = r.remote_path;
    offset = pos offset;
    length = pos (length (b ∷ bytes));
  }

  -- The writes on other nodes leave a disk as it is.
  AllDone-apart :
      (addr : String) (replicas : List Replica) (w last : W)
      → AreApart addr replicas
      → AllDone write replicas w last
      → storage.disk last addr ≡ storage.disk w addr
  AllDone-apart addr [] _ _ apart (done w) = refl
  AllDone-apart addr _ _ _ apart (next r replicas a w then_w last h rest) =
      AllDone-apart addr replicas then_w last apart.1 rest
      ∙ ap (λ (x : Result CallError Bool × W). storage.disk x.1 addr) (sym h)
      ∙ storage.on_partial_write-other r.addr _ w addr (flip addr r.addr apart.0)

  -- After all the writes the first replica has the range.
  AllDone-first :
      (r : Replica) (replicas : List Replica) (w last : W)
      → AreApart r.addr replicas
      → AllDone write (r ∷ replicas) w last
      → Ranges.range_read (nodes r.addr) no_faults 0 (range_of r) (storage.disk last r.addr)
        ≡ replied (record { content = b ∷ bytes; eof = false })
  AllDone-first _ _ _ _ apart (next r replicas a w then_w last h rest) =
      let args : PartialWriteArgs = record {
        path = r.remote_path;
        offset = pos offset;
        content = b ∷ bytes;
      } in
      let answered =
        node_result-ok "partial write failed" r.addr (net.on_partial_write r.addr args w).0 a
          (ap (λ (x : Result CallError Bool × W). x.0) h) in
      ap (Ranges.range_read (nodes r.addr) no_faults 0 (range_of r)) (
        AllDone-apart r.addr replicas then_w last apart rest
        ∙ ap (λ (x : Result CallError Bool × W). storage.disk x.1 r.addr) (sym h))
      ∙ WriteRun-received (nodes r.addr) r.remote_path offset b bytes a
          (storage.on_partial_write-run r.addr args w) answered

  -- The size of a handle is nothing to the disks.
  Sized-disk :
      (fh : FileHandle) (end : ℕ) (then_w : W) (a : String) {size : ℤ} {last : W}
      → Sized net mds_addr fh end then_w size last
      → storage.disk last a ≡ storage.disk then_w a
  Sized-disk fh end then_w a (within_size size same more) = refl
  Sized-disk fh end then_w a (grew below) =
      redirect-keeps (λ x. storage.disk x a) "MetadataService.UpdateSize"
        (λ at. net.on_update_size at (record { path = fh.path; size = pos end }))
        (λ addr x. storage.on_update_size-disk addr _ x a) 3 mds_addr then_w

  Wrote-ok :
      (fh : FileHandle) (w : W) (n : ℕ) (x : Result ClientError ℕ × FileHandle × W)
      → Wrote net mds_addr fh (b ∷ bytes) (pos offset) w x
      → x.0 ≡ ok n
      → (x.1.replicas ≡ fh.replicas)
        × ((then_w : W) × AllDone write fh.replicas w then_w
            × ((a : String) → storage.disk x.2 a ≡ storage.disk then_w a))
  Wrote-ok fh w n x (refused_write negative) h = ground arith
  Wrote-ok fh w n x (without_replicas o at without) h = ground arith
  Wrote-ok fh w n x (not_written o e at short) h = ground arith
  Wrote-ok fh w n x (written o then_w last left at all path id flags replicas status sized) h =
      (replicas, (then_w, all, λ a. Sized-disk fh (o + length (b ∷ bytes)) then_w a sized))

  replied_first :
      (r : Replica) (replicas : List Replica) (count : ℕ) (reply : RangeReadReply) (w : W)
      → (range_read net r (pos offset) count w).0 ≡ ok reply
      → (read_replicas net (r ∷ replicas) (pos offset) count none w).0
        ≡ ok (record { content = take count reply.content; eof = reply.eof })
  unfolding read_replicas
  replied_first r replicas count reply w h = rw (read_replicas, h) refl

  all_failed-ok :
      (n : ℕ) (got : Read) (x : Result (Option CallError) Read × W)
      → x.0 ≡ ok got
      → (all_failed n x).0 ≡ ok got
  all_failed-ok n got (err e, w) h = ground arith
  all_failed-ok n got (ok other, w) h = ap (λ y. read_of y) h
    where
      read_of : Result (Option CallError) Read → Result ClientError Read
      read_of (err e) = ok other
      read_of (ok y) = ok y

  received_first :
      (r : Replica) (reply : RangeReadReply) (count : ℕ) (w : W)
      → (net.on_range_read r.addr
          (record { path = r.remote_path; offset = pos offset; length = pos count })
          w).0
        ≡ received reply
      → (range_read net r (pos offset) count w).0 ≡ ok reply
  unfolding range_read
  received_first r reply count w h = ap (node_result "range read failed" r.addr) h

  -- The first replica is read.
  read_at-first :
      (fh : FileHandle) (r : Replica) (replicas : List Replica) (w : W)
      → fh.replicas ≡ r ∷ replicas
      → Ranges.range_read (nodes r.addr) no_faults 0 (range_of r) (storage.disk w r.addr)
        ≡ replied (record { content = b ∷ bytes; eof = false })
      → (read_at net mds_addr fh (length (b ∷ bytes)) (pos offset) w).0
        ≡ ok (record { content = take (length (b ∷ bytes)) (b ∷ bytes); eof = false })
  unfolding read_at
  read_at-first fh r replicas w first has =
      let reply : RangeReadReply = record { content = b ∷ bytes; eof = false } in
      let answered = RangeRun-replied reply (storage.on_range_read-run r.addr (range_of r) w) has in
      let n = length (b ∷ bytes) in
      subst
        (λ rs.
          (if is_no_replica rs
            then (err (no_replicas fh.path), w)
            else all_failed (length rs) (read_replicas net rs (pos offset) n none w)).0
          ≡ ok (record { content = take n (b ∷ bytes); eof = false }))
        (sym first)
        (all_failed-ok (length (r ∷ replicas)) _ _
          (replied_first r replicas n reply w (received_first r reply n w answered)))

  take-length : (xs : List ℕ) → take (length xs) xs ≡ xs
  take-length [] = refl
  take-length (x ∷ xs) = ap (λ ys. x ∷ ys) (take-length xs)

  not_without :
      (fh : FileHandle) (n : ℕ) (w : W)
      → fh.replicas ≡ []
      → (write_at net mds_addr fh (b ∷ bytes) (pos offset) w).0 ≢ ok n
  unfolding write_at
  not_without fh n w without h = ground (arith, ap is_no_replica without)

-- `ReadAt` with the handle that a `WriteAt` left, of the range that was written: the bytes, and no
-- end of the file. The write succeeded, of one byte or more from an offset not below zero, and the
-- replicas are on different nodes.
pub read_at-write_at_same :
    {W : Type 0} (net : Network W) (mds_addr : String) (nodes : String → DataNode)
    (storage : IsRangeStorage net nodes) (offset b : ℕ) (bytes : List ℕ) (fh : FileHandle) (n : ℕ)
    (w : W)
    → AllApart fh.replicas
    → (write_at net mds_addr fh (b ∷ bytes) (pos offset) w).0 ≡ ok n
    → (read_at net mds_addr
        (write_at net mds_addr fh (b ∷ bytes) (pos offset) w).1
        (length (b ∷ bytes))
        (pos offset)
        (write_at net mds_addr fh (b ∷ bytes) (pos offset) w).2).0
      ≡ ok (record { content = b ∷ bytes; eof = false })
read_at-write_at_same net mds_addr nodes storage offset b bytes fh n w apart succeeded =
    by_replicas fh.replicas refl
  where
    by_replicas :
        (rs : List Replica)
        → fh.replicas ≡ rs
        → (read_at net mds_addr
            (write_at net mds_addr fh (b ∷ bytes) (pos offset) w).1
            (length (b ∷ bytes))
            (pos offset)
            (write_at net mds_addr fh (b ∷ bytes) (pos offset) w).2).0
          ≡ ok (record { content = b ∷ bytes; eof = false })
    by_replicas [] without =
        absurd (not_without net mds_addr nodes storage offset b bytes fh n w without succeeded)
    by_replicas (r ∷ replicas) first =
        let (same, (then_w, all, disks)) =
          Wrote-ok net mds_addr nodes storage offset b bytes fh w n _
            (write_at-Wrote net mds_addr fh (b ∷ bytes) (pos offset) w) succeeded in
        let last = (write_at net mds_addr fh (b ∷ bytes) (pos offset) w).2 in
        let range =
          Ranges.range_read (nodes r.addr) no_faults 0
            (range_of net mds_addr nodes storage offset b bytes r) in
        read_at-first net mds_addr nodes storage offset b bytes _ r replicas last (same ∙ first) (
          ap range (disks r.addr)
          ∙ AllDone-first net mds_addr nodes storage offset b bytes r replicas w then_w
              (subst AllApart first apart).0
              (subst (λ rs. AllDone (write net mds_addr nodes storage offset b bytes) rs w then_w)
                first all))
        ∙ ap (λ xs. ok (record { content = xs; eof = false }))
            (take-length net mds_addr nodes storage offset b bytes (b ∷ bytes))
