-- ===== src/Examples/Disks.antt =====
-- Theorems on the requests of a data node at concrete inputs.
use file_storage.Base.{ℕ, pos, ◌≡◌, refl, none, some, true, false, [], ◌∷◌, length}
use file_storage.Types.{StoreArgs, RangeReadArgs, RangeReadReply, PartialWriteArgs, TruncateArgs}
use file_storage.Path.{trim_prefix, split, is_slash}
use file_storage.Path.Render.{render}
use file_storage.Text.{contains_text, after_prefix}
use file_storage.DataNode.Content.{write_at}
use file_storage.DataNode.Disk.{
  Disk, file, directory, get_node, set_node, remove_node, Faults, found, find, make_directory,
  make_path, os_mkdir_parent, os_write_file, os_rename, os_remove, on_mkdir, on_open, on_read,
  on_write, on_rename, on_remove, on_truncate, on_sync, on_walk,
}
use file_storage.DataNode.Resolve.{clean_names, resolve_path}
use file_storage.DataNode.Resolve.Safe.{ArePlain, resolve_path-ArePlain}
use file_storage.DataNode.Service.{
  DataNode, replied, failed, data_not_found, after_rename, after_write, after_mkdir, store_at,
  store_data, get_data, delete_data,
}
use file_storage.DataNode.Service.Stored.{IsKept, store_at-IsKept}
use file_storage.DataNode.Service.Roundtrip.{get_data-store_data}
use file_storage.DataNode.Service.Deleted.{delete_data-gone}
use file_storage.DataNode.Ranges.{
  open_or_create, write_opened, after_open, after_parent, write_below, partial_write, range_read,
}
use file_storage.DataNode.Ranges.Reads.{IsRange, range_read-IsRange}
use file_storage.DataNode.Ranges.Writes.{content_of, find-partial_write, range_read-partial_write}

abbrev node : DataNode
node = record { data_dir = "/d"; mds_addr = "m:1"; addr = "n:1" }

abbrev fine : Faults
fine c = none

-- A disk that is full after two bytes.
abbrev full : Faults
full on_mkdir = none
full on_open = none
full on_read = none
full on_write = some 2
full on_rename = none
full on_remove = none
full on_truncate = none
full on_sync = none
full on_walk = none

abbrev start : Disk
start = ("/d", directory) ∷ ("/d/f", file (1 ∷ 2 ∷ 3 ∷ []) 4) ∷ []

resolved : resolve_path "/a/./x/../f" ≡ some ("a" ∷ "f" ∷ [])
unfolding resolve_path clean_names trim_prefix split is_slash render contains_text after_prefix
resolved = refl

to_f : resolve_path "/f" ≡ some ("f" ∷ [])
unfolding resolve_path clean_names trim_prefix split is_slash render contains_text after_prefix
to_f = refl

resolve_path-ArePlain_example : ArePlain ("a" ∷ "f" ∷ [])
resolve_path-ArePlain_example = resolve_path-ArePlain "/a/./x/../f" ("a" ∷ "f" ∷ []) resolved

plain : ArePlain ("a" ∷ "f.tmp" ∷ [])
unfolding is_slash contains_text after_prefix
plain = (refl, (refl, tt))

store_at-IsKept_example :
    IsKept "/d/f"
      (5 ∷ 6 ∷ 7 ∷ [])
      9
      (store_at node full 9 ("f" ∷ []) (5 ∷ 6 ∷ 7 ∷ []) start)
      "/d/f"
      (1 ∷ 2 ∷ 3 ∷ [])
      4
store_at-IsKept_example =
    store_at-IsKept node full 9 ("f" ∷ []) (5 ∷ 6 ∷ 7 ∷ []) start "/d/f" (1 ∷ 2 ∷ 3 ∷ []) 4 refl
      (unfold get_node in refl)

abbrev stored : StoreArgs
stored = record { path = "/f"; content = 5 ∷ 6 ∷ [] }

stored_done : (store_data node fine 9 stored start).0 ≡ replied true
unfolding store_data resolve_path clean_names trim_prefix split is_slash render contains_text
    after_prefix store_at os_mkdir_parent make_path make_directory after_mkdir os_write_file
    after_write os_rename after_rename get_node set_node remove_node
stored_done = refl

get_data-store_data_example :
    get_data node fine 10 "/f" (store_data node fine 9 stored start).1 ≡ replied (5 ∷ 6 ∷ [])
get_data-store_data_example =
    get_data-store_data node fine fine 9 10 stored start stored_done refl refl

deleted_done : (delete_data node fine 9 "/f" start).0 ≡ replied true
unfolding delete_data resolve_path clean_names trim_prefix split is_slash render contains_text
    after_prefix os_remove find get_node remove_node
deleted_done = refl

delete_data-gone_example :
    (get_data node full 10 "/f" (delete_data node fine 9 "/f" start).1
      ≡ failed (data_not_found "/f"))
    × (delete_data node full 10 "/f" (delete_data node fine 9 "/f" start).1
        ≡ (replied true, (delete_data node fine 9 "/f" start).1))
delete_data-gone_example = delete_data-gone node fine full 9 10 "/f" start deleted_done

there : find "/d" ("f" ∷ []) start ≡ found (file (1 ∷ 2 ∷ 3 ∷ []) 4)
unfolding find get_node
there = refl

abbrev range : RangeReadArgs
range = record { path = "/f"; offset = pos 1; length = pos 5 }

range_read-IsRange_example :
    (reply : RangeReadReply) × (range_read node full 9 range start ≡ replied reply)
    × IsRange (1 ∷ 2 ∷ 3 ∷ []) 1 5 reply
range_read-IsRange_example =
    range_read-IsRange node full 9 range start ("f" ∷ []) (1 ∷ 2 ∷ 3 ∷ []) 4 1 5 to_f there refl
      refl refl refl

abbrev past_end : PartialWriteArgs
past_end = record { path = "/f"; offset = pos 5; content = 8 ∷ 9 ∷ [] }

written : (partial_write node fine 9 past_end start).0 ≡ replied true
unfolding partial_write resolve_path clean_names trim_prefix split is_slash render contains_text
    after_prefix write_below os_mkdir_parent make_path make_directory after_parent open_or_create
    after_open write_opened get_node set_node
written = refl

find-partial_write_example :
    find "/d" ("f" ∷ []) (partial_write node fine 9 past_end start).1
    ≡ found (file (write_at (content_of (get_node "/d/f" start)) 5 (8 ∷ 9 ∷ [])) 9)
find-partial_write_example =
    find-partial_write node fine 9 past_end start ("f" ∷ []) 5 8 (9 ∷ []) to_f refl refl written

range_read-partial_write_example :
    range_read node fine 10
      (record { path = "/f"; offset = pos 5; length = pos (length {A = ℕ} (8 ∷ 9 ∷ [])) })
      (partial_write node fine 9 past_end start).1
    ≡ replied (record { content = 8 ∷ 9 ∷ []; eof = false })
range_read-partial_write_example =
    range_read-partial_write node fine fine 9 10 "/f" start 5 8 (9 ∷ []) written refl refl

abbrev cut : TruncateArgs
cut = record { path = "/f"; size = pos 2 }
