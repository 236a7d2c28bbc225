-- ===== src/Client/Handle/Open.antt =====
-- `Open` of internal/client/client.go. The flags are those of internal/client/file_handle.go; a nil
-- list of replicas is the empty one.
use file_storage.Base.{ℕ, ◌/◌, ◌%◌, ℤ, pos, String, Bool, not, ◌==◌, List, [], eqb, if◌then◌else◌}
use file_storage.Types.{Replica, create_if_not_exist, CreateFileReply, FileInfo, FileLocation}
use file_storage.Text.{contains_text}
use file_storage.Client.{
  Result, err, ok, Network, CallError, within, text_of, ClientError, calling, no_such_file,
  file_exists, is_directory,
}
use file_storage.Client.Requests.{call_mds_with_redirect, get_file_location, update_size, stat}
use file_storage.Client.Handle.{FileHandle, is_no_replica, truncate_all_replicas}

abbrev pub o_creat : ℕ
o_creat = 64

abbrev pub o_excl : ℕ
o_excl = 128

abbrev pub o_trunc : ℕ
o_trunc = 512

-- Whether a flag, a power of two, is set.
unfoldable pub has_flag : ℕ → ℕ → Bool
has_flag flags flag = eqb ((flags / flag) % 2) 1

module _ {W : Type 0} (net : Network W) (mds_addr path : String) (flags : ℕ) where
  -- The handle, with the location of the file; `status` and `replicas` may be known from its
  -- creation.
  unfoldable pub located :
      ℤ
      → String
      → List Replica
      → Result CallError FileLocation × W
      → Result ClientError FileHandle × W
  located size status replicas (err e, w) =
      (err (calling (within "open: get location failed" e)), w)
  located size status replicas (ok loc, w) = (
    ok (record {
      path = path;
      file_id = loc.file_id;
      flags = flags;
      replicas = (if is_no_replica replicas then loc.replicas else replicas);
      size = size;
      status = (if status == "" then loc.status else status);
    }),
    w,
  )

  unfoldable pub created : Result CallError CreateFileReply × W → Result ClientError FileHandle × W
  unfolding located
  created (err e, w) = (err (calling (within "open: create failed" e)), w)
  created (ok reply, w) =
      located (pos 0) "pending" reply.replicas (get_file_location net mds_addr path w)

  abbrev pub emptied : Result CallError Bool × W → Result ClientError FileHandle × W
  emptied (err e, w) = (err (calling (within "open: update size failed" e)), w)
  emptied (ok a, w) = located (pos 0) "" [] (get_file_location net mds_addr path w)

  unfoldable pub truncated : Result CallError Bool × W → Result ClientError FileHandle × W
  truncated (err e, w) = (err (calling (within "open: truncate replicas failed" e)), w)
  truncated (ok a, w) = emptied (update_size net mds_addr path (pos 0) w)

  -- With what `Stat` gives.
  unfoldable pub opened : Result CallError FileInfo × W → Result ClientError FileHandle × W
  unfolding has_flag contains_text
  opened (err e, w) =
      let make = created (
        call_mds_with_redirect net mds_addr "MetadataService.CreateFile"
          (λ at.
            net.on_create_file at
              (record { path = path; size = pos 0; create_mode = create_if_not_exist }))
          w) in
      if not (contains_text "not found" (text_of e))
      then (err (calling (within "open: stat failed" e)), w)
      else if has_flag flags o_creat
      then make
      else (err (no_such_file path), w)
  opened (ok info, w) =
      let cut = truncated (truncate_all_replicas net mds_addr path (pos 0) w) in
      let kept = located info.size "" [] (get_file_location net mds_addr path w) in
      if has_flag flags o_excl
      then (err (file_exists path), w)
      else if info.is_dir
      then (err (is_directory path), w)
      else if has_flag flags o_trunc
      then cut
      else kept

  unfoldable pub open_handle : W → Result ClientError FileHandle × W
  open_handle w = opened (stat net mds_addr path w)
