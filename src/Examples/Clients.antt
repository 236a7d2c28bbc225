-- ===== src/Examples/Clients.antt =====
-- Theorems on the client at concrete inputs.
use file_storage.Base.{
  ℕ, suc, pos, String, ◌==◌, true, false, ◌≡◌, refl, some, List, [], ◌∷◌, if◌then◌else◌,
}
use file_storage.Types.{Replica}
use file_storage.Text.Trim.{is_space}
use file_storage.Client.{Answer, unreachable, refused, received, ok, Network, redirect}
use file_storage.Client.Redirect.{Followed, redirect-leader, redirect-Followed}
use file_storage.Client.Handle.{FileHandle, read_at}
use file_storage.Client.Handle.{truncate}
use file_storage.Client.Handle.Resized.{Resized, truncate-Resized}
use file_storage.Client.Handle.Outcomes.{WasRead, read_at-WasRead}

-- A call that is counted. Only the server "b:2" leads.
abbrev counted : {A : Type 0} → A → String → ℕ → Answer A × ℕ
counted a addr w =
    (if addr == "b:2" then received a else refused "not leader, redirect to b:2", suc w)

-- A call of a data node, of which "n:2" is down.
abbrev node_call : {A : Type 0} → A → String → ℕ → Answer A × ℕ
node_call a addr w = (if addr == "n:2" then unreachable "refused" else received a, suc w)

abbrev net : Network ℕ
net = record {
  on_mkdir = λ addr path. counted true addr;
  on_create_file = λ addr args. counted (record { replicas = [] }) addr;
  on_complete_file = λ addr path. counted true addr;
  on_delete = λ addr path. counted (record { replicas = []; is_dir = false }) addr;
  on_rename = λ addr args. counted true addr;
  on_update_size = λ addr args. counted true addr;
  on_trigger_gc = λ addr. counted true addr;
  on_heartbeat = λ addr node. counted (record { is_leader = true; leader = "" }) addr;
  on_get_file_location =
      λ addr path. counted (record { file_id = "i"; replicas = []; status = "complete" }) addr;
  on_list_dir = λ addr path. counted [] addr;
  on_stat = λ addr path w. (refused "not found", suc w);
  on_list_data_nodes = λ addr. counted [] addr;
  on_store_data = λ addr args. node_call true addr;
  on_get_data = λ addr path. node_call (some (1 ∷ 2 ∷ [])) addr;
  on_delete_data = λ addr path. node_call true addr;
  on_range_read = λ addr args. node_call (record { content = 1 ∷ 2 ∷ []; eof = true }) addr;
  on_partial_write = λ addr args. node_call true addr;
  on_truncate = λ addr args. node_call true addr;
  on_sync = λ addr args. node_call true addr;
  read_local = λ path w. some (1 ∷ 2 ∷ []);
  write_local = λ path content w. (true, suc w);
}

abbrev at_two : List Replica
at_two =
    record { addr = "n:2"; remote_path = "/data/i" }
    ∷ record { addr = "n:1"; remote_path = "/data/i" }
    ∷ []

abbrev handle : FileHandle
handle = record {
  path = "/f";
  file_id = "i";
  flags = 0;
  replicas = at_two;
  size = pos 2;
  status = "pending";
}

redirect-Followed_example :
    Followed "m" (counted true) 3 "a:1" 7 (redirect 3 "m" (counted true) "a:1" 7)
redirect-Followed_example = redirect-Followed "m" (counted true) 3 "a:1" 7

redirect-leader_example : redirect 3 "m" (counted true) "a:1" 0 ≡ (ok true, 2)
redirect-leader_example =
    redirect-leader "m" (counted true) 1 "a:1" "b:2" true 0 1 2 refl refl (unfold is_space in refl)
      refl refl

read_at-WasRead_example :
    WasRead net "a:1" handle (pos 0) 2 0 (read_at net "a:1" handle 2 (pos 0) 0)
read_at-WasRead_example = read_at-WasRead net "a:1" handle 2 (pos 0) 0

truncate-Resized_example : Resized net "a:1" handle (pos 1) 0 (truncate net "a:1" handle (pos 1) 0)
truncate-Resized_example = truncate-Resized net "a:1" handle (pos 1) 0
