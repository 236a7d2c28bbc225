-- ===== src/Client/Handle.antt =====
-- The handle of an open file (internal/client/file_handle.go), and `Open` of
-- internal/client/client.go. The lock of the handle is left out: one operation runs at a time.
pub mod Open
pub mod Outcomes
pub mod RangeStorage
pub mod Stored
pub mod Resized
use file_storage.Base.{
  suc, ℕ, ◌+◌, ◌-◌, ◌/◌, ◌%◌, ℤ, pos, negsuc, String, Bool, true, false, ◌==◌, Option, none, some,
  List, [], ◌∷◌, length, eqb, ltb, take, is_negative, if◌then◌else◌,
}
use file_storage.Types.{
  Replica, FileLocation, RangeReadArgs, RangeReadReply, PartialWriteArgs, TruncateArgs, SyncArgs,
}
use file_storage.Client.{
  Answer, unreachable, refused, received, Result, err, ok, Network, CallError, within, ClientError,
  calling, replicas_failed, some_failed, negative_offset, negative_size, no_replicas, node_result,
}
use file_storage.Client.Requests.{get_file_location, update_size, complete_file}
use file_storage.Client.Replicas.{on_replicas, success_count, first_error}

pub record FileHandle : Type 0 where
  pub path : String
  pub file_id : String
  pub flags : ℕ
  pub replicas : List Replica
  pub size : ℤ
  pub status : String

-- The bytes that were read, and whether the file ended.
pub record Read : Type 0 where
  pub content : List ℕ
  pub eof : Bool

-- a < b on signed numbers.
abbrev pub ltz : ℤ → ℤ → Bool
ltz (pos a) (pos b) = ltb a b
ltz (pos a) (negsuc b) = false
ltz (negsuc a) (pos b) = true
ltz (negsuc a) (negsuc b) = ltb b a

abbrev pub end_of : ℤ → List ℕ → ℤ
end_of (pos offset) bytes = pos (offset + length bytes)
end_of (negsuc n) bytes =
    if ltb n (length bytes) then pos (length bytes - suc n) else negsuc (n - length bytes)

-- The handle after a write of all the replicas up to an end.
abbrev pub grown : FileHandle → ℤ → FileHandle
grown fh new_end = record fh {
  size = (if ltz fh.size new_end then new_end else fh.size);
  status = (if fh.status == "pending" then "complete" else fh.status);
}

abbrev pub is_no_replica : List Replica → Bool
is_no_replica [] = true
is_no_replica (r ∷ replicas) = false

abbrev pub error_of : Option CallError → Result CallError Bool
error_of none = ok true
error_of (some e) = err e

abbrev pub all_failed :
    {W : Type 0} → ℕ → Result (Option CallError) Read × W → Result ClientError Read × W
all_failed n (err last, w) = (err (replicas_failed n last), w)
all_failed n (ok got, w) = (ok got, w)

module _ {W : Type 0} (net : Network W) where
  -- `rangeRead` into a buffer of `count` bytes.
  unfoldable pub range_read : Replica → ℤ → ℕ → W → Result CallError RangeReadReply × W
  range_read r offset count w =
      let after =
        net.on_range_read r.addr
          (record { path = r.remote_path; offset = offset; length = pos count }) w in
      (node_result "range read failed" r.addr after.0, after.1)

  abbrev pub partial_write : ℤ → List ℕ → Replica → W → Result CallError Bool × W
  partial_write offset bytes r w =
      let after =
        net.on_partial_write r.addr
          (record { path = r.remote_path; offset = offset; content = bytes }) w in
      (node_result "partial write failed" r.addr after.0, after.1)

  abbrev pub truncate_replica : ℤ → Replica → W → Result CallError Bool × W
  truncate_replica size r w =
      let after = net.on_truncate r.addr (record { path = r.remote_path; size = size }) w in
      (node_result "truncate failed" r.addr after.0, after.1)

  abbrev pub sync_replica : Replica → W → Result CallError Bool × W
  sync_replica r w =
      let after = net.on_sync r.addr (record { path = r.remote_path }) w in
      (node_result "sync failed" r.addr after.0, after.1)

  -- The loop of `ReadAt` over the replicas: the first that answers, or the last error.
  unfoldable pub read_replicas :
      List Replica → ℤ → ℕ → Option CallError → W → Result (Option CallError) Read × W
  read_replicas [] offset count last w = (err last, w)
  read_replicas (r ∷ replicas) offset count last w =
      let after = range_read r offset count w in
      elim after.0 [
        | err e ↦ read_replicas replicas offset count (some e) after.1
        | ok reply ↦ (ok (record { content = take count reply.content; eof = reply.eof }), after.1)
      ]

module _ {W : Type 0} (net : Network W) (mds_addr : String) where
  unfoldable pub read_at : FileHandle → ℕ → ℤ → W → Result ClientError Read × W
  unfolding read_replicas
  read_at fh count offset w =
      let got =
        all_failed (length fh.replicas) (read_replicas net fh.replicas offset count none w) in
      if is_negative offset
      then (err negative_offset, w)
      else if is_no_replica fh.replicas
      then (err (no_replicas fh.path), w)
      else got

  -- What follows the writes of the replicas.
  unfoldable pub after_writes :
      FileHandle
      → List ℕ
      → ℤ
      → List (Result CallError Bool) × W
      → Result ClientError ℕ × FileHandle × W
  after_writes fh bytes new_end (results, w) =
      let updated = (update_size net mds_addr fh.path new_end w).1 in
      let n = length fh.replicas in
      if eqb (success_count results) n
      then (ok (length bytes), grown fh new_end, if ltz fh.size new_end then updated else w)
      else (err (some_failed (n - success_count results) n (first_error results)), fh, w)

  unfoldable pub write_at : FileHandle → List ℕ → ℤ → W → Result ClientError ℕ × FileHandle × W
  unfolding on_replicas
  write_at fh bytes offset w =
      let written =
        after_writes fh bytes (end_of offset bytes)
          (on_replicas (partial_write net offset bytes) fh.replicas w) in
      if is_negative offset
      then (err negative_offset, fh, w)
      else if is_no_replica fh.replicas
      then (err (no_replicas fh.path), fh, w)
      else written

  abbrev pub closed : Result CallError Bool × W → Result ClientError Bool × W
  closed (err e, w) = (err (calling (within "close: complete file failed" e)), w)
  closed (ok a, w) = (ok true, w)

  -- `Close` of a handle that is not nil.
  abbrev pub close : FileHandle → W → Result ClientError Bool × W
  close fh w =
      let completed = closed (complete_file net mds_addr fh.path w) in
      if fh.status == "pending" then completed else (ok true, w)

  abbrev pub truncate_located : ℤ → Result CallError FileLocation × W → Result CallError Bool × W
  truncate_located size (err e, w) = (err e, w)
  truncate_located size (ok loc, w) =
      let after = on_replicas (truncate_replica net size) loc.replicas w in
      (error_of (first_error after.0), after.1)

  unfoldable pub truncate_all_replicas : String → ℤ → W → Result CallError Bool × W
  unfolding first_error on_replicas
  truncate_all_replicas path size w = truncate_located size (get_file_location net mds_addr path w)

  abbrev pub after_update :
      FileHandle → ℤ → Result CallError Bool × W → Result ClientError Bool × FileHandle × W
  after_update fh size (err e, w) = (err (calling (within "truncate: update size failed" e)), fh, w)
  after_update fh size (ok a, w) = (ok true, record fh { size = size }, w)

  unfoldable pub after_truncates :
      FileHandle → ℤ → Result CallError Bool × W → Result ClientError Bool × FileHandle × W
  after_truncates fh size (err e, w) =
      (err (calling (within "truncate: replica truncate failed" e)), fh, w)
  after_truncates fh size (ok a, w) = after_update fh size (update_size net mds_addr fh.path size w)

  unfoldable pub truncate : FileHandle → ℤ → W → Result ClientError Bool × FileHandle × W
  truncate fh size w =
      let truncated = after_truncates fh size (truncate_all_replicas fh.path size w) in
      if is_negative size then (err negative_size, fh, w) else truncated

  unfoldable pub sync : FileHandle → W → Result ClientError Bool × W
  sync fh w =
      let after = on_replicas (sync_replica net) fh.replicas w in
      let n = length fh.replicas in
      if eqb (success_count after.0) n
      then (ok true, after.1)
      else (err (some_failed (n - success_count after.0) n (first_error after.0)), after.1)
