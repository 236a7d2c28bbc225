-- ===== src/DataNode/Ranges/Reads.antt =====
-- What `RangeRead` of internal/datanode/datanode.go replies.
use Prim.Native.Nat.{min}
use file_storage.Base.{
  ℕ, pos, ◌+◌, ◌-◌, String, ◌≡◌, refl, ap, ◌∙◌, none, some, List, arith, length, get_elem?, ltb,
  if◌then◌else◌,
}
use file_storage.Types.{RangeReadArgs, RangeReadReply}
use file_storage.DataNode.Content.{read_at, get_elem?-read_at, length-read_at}
use file_storage.DataNode.Disk.{file, Disk, on_open, on_read, Faults, found, find}
use file_storage.DataNode.Resolve.{resolve_path}
use file_storage.DataNode.Service.{replied, DataNode}
use file_storage.DataNode.Ranges.{read_buffer, range_found, range_read}

pub range_read-resolved :
    (dn : DataNode) (faults : Faults) (now : ℕ) (args : RangeReadArgs) (disk : Disk)
    (names : List String)
    → resolve_path args.path ≡ some names
    → range_read dn faults now args disk
      ≡ range_found dn faults now args (find dn.data_dir names disk)
unfolding range_read
range_read-resolved dn faults now args disk names h = rw (h, range_read) refl

pub range_found-file :
    (dn : DataNode) (faults : Faults) (now : ℕ) (args : RangeReadArgs) (content : List ℕ)
    (time offset count : ℕ)
    → faults on_open ≡ none
    → faults on_read ≡ none
    → args.offset ≡ pos offset
    → args.length ≡ pos count
    → range_found dn faults now args (found (file content time))
      ≡ replied (record {
        content = read_at content offset count;
        eof = ltb (length (read_at content offset count)) count;
      })
unfolding range_found read_buffer
range_found-file dn faults now args content time offset count opens reads o l = ground arith

-- What a reply holds: the bytes of the file from the offset on, and the mark of the end exactly
-- where the file ends before the range does.
abbrev pub IsRange : List ℕ → ℕ → ℕ → RangeReadReply → Type 0
IsRange content offset count reply =
    (length reply.content ≡ min count (length content - offset))
    × ((i : ℕ)
        → get_elem? reply.content i
          ≡ (if ltb i count then get_elem? content (offset + i) else none))
    × (reply.eof ≡ ltb (length content - offset) count)

-- A read of a file from an offset, of a length, where no call fails: the reply is the range.
pub range_read-IsRange :
    (dn : DataNode) (faults : Faults) (now : ℕ) (args : RangeReadArgs) (disk : Disk)
    (names : List String) (content : List ℕ) (time offset count : ℕ)
    → resolve_path args.path ≡ some names
    → find dn.data_dir names disk ≡ found (file content time)
    → args.offset ≡ pos offset
    → args.length ≡ pos count
    → faults on_open ≡ none
    → faults on_read ≡ none
    → (reply : RangeReadReply) × (range_read dn faults now args disk ≡ replied reply)
      × IsRange content offset count reply
range_read-IsRange dn faults now args disk names content time offset count resolved there o l opens
      reads =
    (
      record {
        content = read_at content offset count;
        eof = ltb (length (read_at content offset count)) count;
      },
      range_read-resolved dn faults now args disk names resolved
          ∙ ap (range_found dn faults now args) there
          ∙ range_found-file dn faults now args content time offset count opens reads o l,
      (
        length-read_at content offset count,
        λ i. get_elem?-read_at content offset count i,
        ground (arith, length-read_at content offset count),
      ),
    )
