-- ===== src/Examples/Logs.antt =====
-- A server with two directories and two files, as a log builds it.
use file_storage.Base.{ℕ, pos, String, ◌≡◌, refl, false, Option, none, some, List, [], ◌∷◌}
use file_storage.Types.{create_if_not_exist}
use file_storage.Metadata.{
  CommandPayload, MetadataServer, new_metadata_server, own_subtree, not_a_directory, Error,
}
use file_storage.Metadata.Rename.{apply_rename}
use file_storage.Metadata.DataNodes.{apply_heartbeat}
use file_storage.Metadata.Mkdir.{apply_mkdir}
use file_storage.Metadata.CreateFile.{apply_create_file}
use file_storage.Metadata.Machine.{LogEntry, replay, command, dispatch}
use file_storage.View.{view}
use file_storage.Tree.{get_child, set_child, remove_child, walk, walk_dirs, modify, stat}
use file_storage.Path.{split_path}
use file_storage.Metadata.{split_last}

abbrev pub blank : CommandPayload
blank = record {
  op = "";
  path = "";
  addr = "";
  size = pos 0;
  replicas = [];
  is_dir = false;
  create_mode = create_if_not_exist;
  file_id = "";
  dst_path = "";
  new_size = pos 0;
}

abbrev pub on_path : String → String → CommandPayload
on_path op path = record blank { op = op; path = path }

abbrev pub create : String → String → CommandPayload
create path id = record blank {
  op = "create_file";
  path = path;
  size = pos 7;
  replicas = (record { addr = "n1"; remote_path = "/data/x" }) ∷ [];
  file_id = id;
}

abbrev pub rename : String → String → CommandPayload
rename src dst = record blank { op = "rename"; path = src; dst_path = dst }

abbrev entry : ℕ → CommandPayload → LogEntry
entry now p = record { now = now; op = p.op; payload = p }

abbrev pub log : List LogEntry
log =
    entry 1 (record blank { op = "heartbeat"; addr = "n1" })
    ∷ entry 2 (on_path "mkdir" "/a/b")
    ∷ entry 3 (create "/a/f" "id1")
    ∷ entry 4 (create "/a/b/g" "id2")
    ∷ entry 5 (on_path "bogus" "/a")
    ∷ []

abbrev pub start : MetadataServer
start = new_metadata_server 0

abbrev pub busy : MetadataServer
busy = replay log start

-- What a command does after the log.
then_error : CommandPayload → Option Error
unfolding replay command dispatch stat apply_rename apply_mkdir apply_create_file apply_heartbeat
    split_path split_last get_child set_child remove_child walk walk_dirs modify
then_error p = (dispatch 9 p.op (command p.op) p (replay log start)).0

shown : CommandPayload → List String → Option String
unfolding then_error
shown p q = elim (view (dispatch 9 p.op (command p.op) p (replay log start)).1 q) [
  | none ↦ none
  | some a ↦ some a.file_id
]

cycle_refused : then_error (rename "/a" "/a/b/c") ≡ some (own_subtree "/a" "/a/b/c")
unfolding then_error
cycle_refused = refl

subtree_moves : shown (rename "/a" "/c") ("c" ∷ "b" ∷ "g" ∷ []) ≡ some "id2"
unfolding shown
subtree_moves = refl

source_gone : shown (rename "/a" "/c") ("a" ∷ "f" ∷ []) ≡ none
unfolding shown
source_gone = refl

file_in_the_way : then_error (on_path "mkdir" "/a/f/c") ≡ some (not_a_directory "/a/f/c" 1 "f")
unfolding then_error
file_in_the_way = refl
