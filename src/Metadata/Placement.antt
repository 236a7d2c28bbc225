-- ===== src/Metadata/Placement.antt =====
-- `selectDataNodes` of internal/metadata/mds.go. An `int` is its 64-bit pattern.
pub mod Distinct
use Prim.Native.Char.{code}
use Prim.Native.String
use file_storage.Base.{
  ℕ, zero, suc, ◌+◌, ◌-◌, ◌*◌, ◌%◌, ◌^◌, String, ◌<>◌, Option, none, some, List, [], ◌∷◌, length,
  get_elem?, contains, ltb, if◌then◌else◌,
}
use file_storage.Types.{Replica}

-- `hash = hash*31 + int(c)` for each character, with the overflow of an `int`.
unfoldable pub hash_from : ℕ → String → ℕ
hash_from h String.[] = h
hash_from h (String.◌∷◌ c s) = hash_from ((h * 31 + code c) % 2 ^ 64) s

-- `hash % len(mds.dataNodes)`, made positive. The remainder of a negative `int` is negative.
unfoldable pub start_index : ℕ → ℕ → ℕ
start_index h n = if ltb h (2 ^ 63) then h % n else (2 ^ 64 - h) % n

-- The number of replicas that the loop goes for.
unfoldable pub replica_target : ℕ → ℕ → ℕ
replica_target count nodes =
    let n = if ltb nodes count then nodes else count in if ltb n 1 then 1 else n

abbrev pub append_replica : Replica → Option (List Replica) → Option (List Replica)
append_replica r none = none
append_replica r (some rs) = some (r ∷ rs)

-- The loop from round `i` on, with the addresses that were seen. `none` is an index out of range.
unfoldable pub pick : ℕ → ℕ → ℕ → List String → String → List String → Option (List Replica)
pick zero i start nodes path seen = some []
pick (suc rounds) i start nodes path seen = elim (get_elem? nodes ((start + i) % length nodes)) [
  | none ↦ none
  | some addr ↦
      let skipped = pick rounds (i + 1) start nodes path seen in
      let taken =
        append_replica (record { addr = addr; remote_path = path })
          (pick rounds (i + 1) start nodes path (addr ∷ seen)) in
      if contains seen addr then skipped else taken
]

-- The path of a file on every data node.
abbrev pub remote_path_of : String → String
remote_path_of file_id = "/data/" <> file_id

-- `none` is the panic of a remainder by zero, where no node is registered.
unfoldable pub select_data_nodes : String → String → ℕ → List String → Option (List Replica)
unfolding hash_from start_index replica_target pick
select_data_nodes path file_id count [] = none
select_data_nodes path file_id count (n ∷ nodes) =
    let all = n ∷ nodes in
    let start = start_index (hash_from 0 path) (length all) in
    pick (replica_target count (length all)) 0 start all (remote_path_of file_id) []
