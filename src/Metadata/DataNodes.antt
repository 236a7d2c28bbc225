-- ===== src/Metadata/DataNodes.antt =====
-- `applyHeartbeat` and `applyRemoveDataNode` of internal/metadata/apply.go.
pub mod Registry
use file_storage.Base.{
  ℕ, String, Option, none, some, List, [], ◌∷◌, ◌++◌, ◌==◌, contains, if◌then◌else◌,
}
use file_storage.Metadata.{CommandPayload, MetadataServer, Outcome}

-- `lastHeartbeat[addr] = now`
unfoldable pub set_time : String → ℕ → List (String × ℕ) → List (String × ℕ)
set_time a now [] = (a, now) ∷ []
set_time a now ((b, t) ∷ m) = if b == a then (a, now) ∷ m else (b, t) ∷ set_time a now m

-- `delete(lastHeartbeat, addr)`
unfoldable pub delete_time : String → List (String × ℕ) → List (String × ℕ)
delete_time a [] = []
delete_time a ((b, t) ∷ m) = let rest = delete_time a m in if b == a then rest else (b, t) ∷ rest

unfoldable pub get_time : String → List (String × ℕ) → Option ℕ
get_time a [] = none
get_time a ((b, t) ∷ m) = if b == a then some t else get_time a m

-- The first occurrence goes.
unfoldable pub remove_node : String → List String → List String
remove_node a [] = []
remove_node a (b ∷ nodes) = if b == a then nodes else b ∷ remove_node a nodes

unfoldable pub apply_heartbeat : ℕ → CommandPayload → MetadataServer → Outcome
unfolding set_time
apply_heartbeat now p mds = (
  none,
  record mds {
    data_nodes =
        (if contains mds.data_nodes p.addr
          then mds.data_nodes
          else mds.data_nodes ++ (p.addr ∷ []));
    last_heartbeat = set_time p.addr now mds.last_heartbeat;
  },
)

unfoldable pub apply_remove_data_node : CommandPayload → MetadataServer → Outcome
unfolding remove_node delete_time
apply_remove_data_node p mds = (
  none,
  record mds {
    data_nodes = remove_node p.addr mds.data_nodes;
    last_heartbeat = delete_time p.addr mds.last_heartbeat;
  },
)
