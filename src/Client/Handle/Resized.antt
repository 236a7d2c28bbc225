-- ===== src/Client/Handle/Resized.antt =====
-- What `Truncate` of internal/client/file_handle.go comes to.
use file_storage.Base.{
  ℤ, String, Bool, true, Option, none, some, List, [], ◌∷◌, ◌≡◌, refl, arith, Bool-cases, inl, inr,
  is_negative,
}
use file_storage.Types.{Replica, FileLocation}
use file_storage.Client.{
  Result, err, ok, Network, CallError, ClientError, negative_size, Result-cases,
}
use file_storage.Client.Requests.{get_file_location, update_size}
use file_storage.Client.Replicas.{on_replicas, first_error, AllDone, done, next}
use file_storage.Client.Handle.{
  FileHandle, truncate_replica, error_of, truncate_located, truncate_all_replicas, after_update,
  after_truncates, truncate,
}

-- Where no call has an error, every call succeeded.
first_error-AllDone :
    {W : Type 0} (call : Replica → W → Result CallError Bool × W) (replicas : List Replica) (w : W)
    → first_error (on_replicas call replicas w).0 ≡ none
    → AllDone call replicas w (on_replicas call replicas w).1
unfolding on_replicas first_error
first_error-AllDone call [] w h = done w
first_error-AllDone call (r ∷ replicas) w h = elim (Result-cases (call r w)) [
  | inl (e, w1, same) ↦ absurd (some_error e (rw same at h))
  | inr (a, w1, same) ↦
      rw same (next r replicas a w w1 _ same (first_error-AllDone call replicas w1 (rw same at h)))
]
  where
    some_error : (e : CallError) → some e ≡ none → ⊥
    some_error e h = ground arith

module _ {W : Type 0} (net : Network W) (mds_addr : String) where
  -- A truncation ends with an error and the handle as it was, or every replica that the path of the
  -- handle has was truncated, and then the metadata server took the size.
  pub data Resized (fh : FileHandle) (size : ℤ) (w : W)
      : Result ClientError Bool × FileHandle × W → Type 0 where
    not_resized : (e : ClientError) (last : W) → Resized fh size w (err e, fh, last)
    resized :
        (loc : FileLocation) (a : Bool) (located_w then_w last : W)
        → get_file_location net mds_addr fh.path w ≡ (ok loc, located_w)
        → AllDone (truncate_replica net size) loc.replicas located_w then_w
        → update_size net mds_addr fh.path size then_w ≡ (ok a, last)
        → Resized fh size w (ok true, record fh { size = size }, last)

  after_update-Resized :
      (fh : FileHandle) (size : ℤ) (w : W) (loc : FileLocation) (located_w then_w : W)
      (updated : Result CallError Bool × W)
      → get_file_location net mds_addr fh.path w ≡ (ok loc, located_w)
      → AllDone (truncate_replica net size) loc.replicas located_w then_w
      → update_size net mds_addr fh.path size then_w ≡ updated
      → Resized fh size w (after_update net mds_addr fh size updated)
  after_update-Resized fh size w loc located_w then_w (err e, last) found all told =
      not_resized _ last
  after_update-Resized fh size w loc located_w then_w (ok a, last) found all told =
      resized loc a located_w then_w last found all told

  error_of-Resized :
      (fh : FileHandle) (size : ℤ) (w : W) (loc : FileLocation) (located_w then_w : W)
      (failed : Option CallError)
      → get_file_location net mds_addr fh.path w ≡ (ok loc, located_w)
      → (failed ≡ none → AllDone (truncate_replica net size) loc.replicas located_w then_w)
      → Resized fh size w (after_truncates net mds_addr fh size (error_of failed, then_w))
  unfolding after_truncates
  error_of-Resized fh size w loc located_w then_w none found all =
      after_update-Resized fh size w loc located_w then_w _ found (all refl) refl
  error_of-Resized fh size w loc located_w then_w (some e) found all = not_resized _ then_w

  after_truncates-Resized :
      (fh : FileHandle) (size : ℤ) (w : W) (located : Result CallError FileLocation × W)
      → get_file_location net mds_addr fh.path w ≡ located
      → Resized fh size w
          (after_truncates net mds_addr fh size (truncate_located net mds_addr size located))
  unfolding after_truncates
  after_truncates-Resized fh size w (err e, w1) found = not_resized _ w1
  after_truncates-Resized fh size w (ok loc, w1) found =
      error_of-Resized fh size w loc w1 _
        (first_error (on_replicas (truncate_replica net size) loc.replicas w1).0) found
        (first_error-AllDone (truncate_replica net size) loc.replicas w1)

  -- A truncation ends with an error and leaves the handle as it was, or every replica that the path
  -- of the handle has was truncated, the metadata server took the size, and the handle has it.
  pub truncate-Resized :
      (fh : FileHandle) (size : ℤ) (w : W) → Resized fh size w (truncate net mds_addr fh size w)
  unfolding truncate truncate_all_replicas
  truncate-Resized fh size w = elim (Bool-cases (is_negative size)) [
    | inl negative ↦ rw negative (not_resized negative_size w)
    | inr fine ↦ rw fine (after_truncates-Resized fh size w _ refl)
  ]
