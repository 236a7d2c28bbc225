-- ===== src/Client/Handle/Outcomes.antt =====
-- What `ReadAt` and `WriteAt` of internal/client/file_handle.go come to.
use mathlib.Core.Path.{subst}
use file_storage.Base.{
  ◌+◌, ◌<◌, ◌≤◌, ◌≢◌, ◌==◌, pos, negsuc, false, refl, sym, eq_iff, ltb, ℕ, ℤ, String, true, Option,
  none, some, List, [], ◌∷◌, length, take, eqb, ◌≡◌, arith, Bool-cases, inl, inr, is_negative,
  if◌then◌else◌,
}
use file_storage.Types.{Replica, RangeReadReply}
use file_storage.Client.{
  Result, err, ok, Network, CallError, ClientError, Result-cases, negative_offset, no_replicas,
}
use file_storage.Client.Requests.{update_size}
use file_storage.Client.Replicas.{success_count, AllDone, on_replicas-AllDone, on_replicas}
use file_storage.Client.Handle.{
  FileHandle, Read, ltz, end_of, range_read, partial_write, read_replicas, all_failed,
  is_no_replica, read_at, after_writes, write_at,
}

-- A size is below an end of a range.
abbrev pub IsBelow : ℤ → ℕ → Type 0
IsBelow (pos size) end = size < end
IsBelow (negsuc n) end = Unit {0}

ltz-IsBelow : (size : ℤ) (end : ℕ) → ltz size (pos end) ≡ true → IsBelow size end
ltz-IsBelow (pos size) end h = ground arith
ltz-IsBelow (negsuc n) end h = tt

-- The status after a write.
pub data Settled (before : String) : String → Type 0 where
  was_pending : before ≡ "pending" → Settled before "complete"
  was_settled : before ≢ "pending" → Settled before before

Settled-after_write :
    (before : String) → Settled before (if before == "pending" then "complete" else before)
Settled-after_write before = elim (Bool-cases (before == "pending")) [
  | inl pending ↦ rw pending (was_pending ((eq_iff before "pending").0 pending))
  | inr other ↦
      rw other (was_settled (λ same. ground (arith, other, (eq_iff before "pending").1 same)))
]

module _ {W : Type 0} (net : Network W) (mds_addr : String) where
  -- The size of the handle after a write up to an end, and what was done with the servers then: a
  -- larger size stays, and of a new size the metadata server is told.
  pub data Sized (fh : FileHandle) (end : ℕ) (then_w : W) : ℤ → W → Type 0 where
    within_size : (size : ℕ) → fh.size ≡ pos size → end ≤ size → Sized fh end then_w fh.size then_w
    grew :
        IsBelow fh.size end
        → Sized fh end then_w (pos end) (update_size net mds_addr fh.path (pos end) then_w).1

  -- A write refuses a negative offset and a handle without replicas, ends with an error and the handle
  -- as it was where a replica failed, or every replica took the bytes, one after the other: then the
  -- handle has the same path, id, flags and replicas, a settled status, and the size after the write.
  pub data Wrote (fh : FileHandle) (bytes : List ℕ) (offset : ℤ) (w : W)
      : Result ClientError ℕ × FileHandle × W → Type 0 where
    refused_write : is_negative offset ≡ true → Wrote fh bytes offset w (err negative_offset, fh, w)
    without_replicas :
        (o : ℕ)
        → offset ≡ pos o
        → fh.replicas ≡ []
        → Wrote fh bytes offset w (err (no_replicas fh.path), fh, w)
    not_written :
        (o : ℕ) (e : ClientError)
        → offset ≡ pos o
        → eqb
            (success_count (on_replicas (partial_write net offset bytes) fh.replicas w).0)
            (length fh.replicas)
          ≡ false
        → Wrote fh bytes offset w
            (err e, fh, (on_replicas (partial_write net offset bytes) fh.replicas w).1)
    written :
        (o : ℕ) (then_w last : W) (left : FileHandle)
        → offset ≡ pos o
        → AllDone (partial_write net offset bytes) fh.replicas w then_w
        → left.path ≡ fh.path
        → left.file_id ≡ fh.file_id
        → left.flags ≡ fh.flags
        → left.replicas ≡ fh.replicas
        → Settled fh.status left.status
        → Sized fh (o + length bytes) then_w left.size last
        → Wrote fh bytes offset w (ok (length bytes), left, last)

  grown-Sized :
      (fh : FileHandle) (size : ℤ) (end : ℕ) (then_w : W)
      → fh.size ≡ size
      → Sized fh end then_w (if ltz size (pos end) then pos end else fh.size) (
          if ltz size (pos end)
          then (update_size net mds_addr fh.path (pos end) then_w).1
          else then_w)
  grown-Sized fh (negsuc n) end then_w same = grew (rw same tt)
  grown-Sized fh (pos size) end then_w same = elim (Bool-cases (ltb size end)) [
    | inl less ↦
        let below : size < end = ground arith in
        rw less (grew (subst (λ s. IsBelow s end) (sym same) below))
    | inr more ↦ rw more (within_size size same (ground arith))
  ]

  after_writes-Wrote :
      (fh : FileHandle) (bytes : List ℕ) (o : ℕ) (w : W)
      → Wrote fh bytes (pos o) w (
          after_writes net mds_addr fh bytes
            (end_of (pos o) bytes)
            (on_replicas (partial_write net (pos o) bytes) fh.replicas w))
  unfolding after_writes
  after_writes-Wrote fh bytes o w =
      let run = on_replicas (partial_write net (pos o) bytes) fh.replicas w in
      elim (Bool-cases (eqb (success_count run.0) (length fh.replicas))) [
        | inl same ↦
            rw (after_writes, same)
              (written o run.1 _ _ refl
                (on_replicas-AllDone (partial_write net (pos o) bytes) fh.replicas w (ground arith))
                refl refl refl refl (Settled-after_write fh.status)
                (grown-Sized fh fh.size (o + length bytes) run.1 refl))
        | inr short ↦ rw (after_writes, short) (not_written o _ refl short)
      ]

  no_replica-empty : (replicas : List Replica) → is_no_replica replicas ≡ true → replicas ≡ []
  no_replica-empty [] h = refl
  no_replica-empty (r ∷ replicas) h = absurd (ground arith)

  pub write_at-Wrote :
      (fh : FileHandle) (bytes : List ℕ) (offset : ℤ) (w : W)
      → Wrote fh bytes offset w (write_at net mds_addr fh bytes offset w)
  unfolding write_at
  write_at-Wrote fh bytes (negsuc n) w = refused_write refl
  write_at-Wrote fh bytes (pos o) w = elim (Bool-cases (is_no_replica fh.replicas)) [
    | inl without ↦
        rw (write_at, without) (without_replicas o refl (no_replica-empty fh.replicas without))
    | inr some_replica ↦ rw (write_at, some_replica) (after_writes-Wrote fh bytes o w)
  ]

  -- The first replica that answers, after others that fail.
  pub data FirstAnswer (offset : ℤ) (count : ℕ)
      : List Replica → W → RangeReadReply → W → Type 0 where
    here :
        (r : Replica) (replicas : List Replica) (reply : RangeReadReply) (w last : W)
        → range_read net r offset count w ≡ (ok reply, last)
        → FirstAnswer offset count (r ∷ replicas) w reply last
    there :
        (r : Replica) (replicas : List Replica) (reply : RangeReadReply) (e : CallError)
        (w then_w last : W)
        → range_read net r offset count w ≡ (err e, then_w)
        → FirstAnswer offset count replicas then_w reply last
        → FirstAnswer offset count (r ∷ replicas) w reply last

  -- No replica answers.
  pub data AllFail (offset : ℤ) (count : ℕ) : List Replica → W → W → Type 0 where
    nothing : (w : W) → AllFail offset count [] w w
    failing :
        (r : Replica) (replicas : List Replica) (e : CallError) (w then_w last : W)
        → range_read net r offset count w ≡ (err e, then_w)
        → AllFail offset count replicas then_w last
        → AllFail offset count (r ∷ replicas) w last

  -- What the loop over the replicas comes to, with the result that it has.
  data Tried (offset : ℤ) (count : ℕ) (replicas : List Replica) (w : W)
      : Result (Option CallError) Read × W → Type 0 where
    none_answers :
        (e : Option CallError) (last : W)
        → AllFail offset count replicas w last
        → Tried offset count replicas w (err e, last)
    one_answers :
        (reply : RangeReadReply) (last : W)
        → FirstAnswer offset count replicas w reply last
        → Tried offset count replicas w
            (ok (record { content = take count reply.content; eof = reply.eof }), last)

  Tried-failing :
      (offset : ℤ) (count : ℕ) (r : Replica) (replicas : List Replica) (e : CallError)
      (w then_w : W) {x : Result (Option CallError) Read × W}
      → range_read net r offset count w ≡ (err e, then_w)
      → Tried offset count replicas then_w x
      → Tried offset count (r ∷ replicas) w x
  Tried-failing offset count r replicas e w then_w h (none_answers f last all) =
      none_answers f last (failing r replicas e w then_w last h all)
  Tried-failing offset count r replicas e w then_w h (one_answers reply last first) =
      one_answers reply last (there r replicas reply e w then_w last h first)

  read_replicas-Tried :
      (replicas : List Replica) (offset : ℤ) (count : ℕ) (e : Option CallError) (w : W)
      → Tried offset count replicas w (read_replicas net replicas offset count e w)
  unfolding read_replicas
  read_replicas-Tried [] offset count e w = none_answers e w (nothing w)
  read_replicas-Tried (r ∷ replicas) offset count e w =
      elim (Result-cases (range_read net r offset count w)) [
        | inl (f, then_w, h) ↦
            rw (h, read_replicas, h)
              (Tried-failing offset count r replicas f w then_w h
                (read_replicas-Tried replicas offset count (some f) then_w))
        | inr (reply, then_w, h) ↦
            rw (h, read_replicas, h) (one_answers reply then_w (here r replicas reply w then_w h))
      ]

  -- What a read comes to, with the result that it has.
  pub data WasRead (fh : FileHandle) (offset : ℤ) (count : ℕ) (w : W)
      : Result ClientError Read × W → Type 0 where
    refused_read : is_negative offset ≡ true → WasRead fh offset count w (err negative_offset, w)
    without_copies :
        (o : ℕ)
        → offset ≡ pos o
        → fh.replicas ≡ []
        → WasRead fh offset count w (err (no_replicas fh.path), w)
    not_read :
        (o : ℕ) (e : ClientError) (last : W)
        → offset ≡ pos o
        → AllFail offset count fh.replicas w last
        → WasRead fh offset count w (err e, last)
    was_read :
        (o : ℕ) (reply : RangeReadReply) (last : W)
        → offset ≡ pos o
        → FirstAnswer offset count fh.replicas w reply last
        → WasRead fh offset count w
            (ok (record { content = take count reply.content; eof = reply.eof }), last)

  all_failed-WasRead :
      (fh : FileHandle) (count o : ℕ) (w : W) (n : ℕ) {x : Result (Option CallError) Read × W}
      → Tried (pos o) count fh.replicas w x
      → WasRead fh (pos o) count w (all_failed n x)
  all_failed-WasRead fh count o w n (none_answers e last all) = not_read o _ last refl all
  all_failed-WasRead fh count o w n (one_answers reply last first) =
      was_read o reply last refl first

  -- A read refuses a negative offset and a handle without replicas, and calls no server then.
  -- Otherwise it gives what the first replica that answers has, or ends with an error after every
  -- replica failed.
  pub read_at-WasRead :
      (fh : FileHandle) (count : ℕ) (offset : ℤ) (w : W)
      → WasRead fh offset count w (read_at net mds_addr fh count offset w)
  unfolding read_at
  read_at-WasRead fh count (negsuc n) w = refused_read refl
  read_at-WasRead fh count (pos o) w = elim (Bool-cases (is_no_replica fh.replicas)) [
    | inl without ↦
        rw (read_at, without) (without_copies o refl (no_replica-empty fh.replicas without))
    | inr some_replica ↦
        rw (read_at, some_replica)
          (all_failed-WasRead fh count o w (length fh.replicas)
            (read_replicas-Tried fh.replicas (pos o) count none w))
  ]
