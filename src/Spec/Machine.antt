-- ===== src/Spec/Machine.antt =====
-- The state machine of internal/metadata/state_machine.go against the flat file system.
use file_storage.Base.{ℕ, String, ◌≡◌, refl, ap, ◌∙◌, Option, none, some, List, [], ◌∷◌}
use file_storage.Metadata.{CommandPayload, MetadataServer, unknown_op}
use file_storage.Metadata.DataNodes.{apply_heartbeat, apply_remove_data_node}
use file_storage.Metadata.Machine.{
  Command, heartbeat, remove_data_node, mkdir, create_file, complete_file, delete, rename,
  update_size, command, run_command, dispatch, LogEntry, apply_entry, replay,
}
use file_storage.View.{View, view}
use file_storage.Spec.{
  Effect, effect, spec_mkdir, spec_create_file, spec_delete, spec_rename, spec_complete_file,
  spec_update_size,
}
use file_storage.Spec.CreateFile.{effect-create_file, effect-delete}
use file_storage.Spec.UpdateFile.{effect-complete_file, effect-update_size}
use file_storage.Spec.Rename.{effect-rename}
use file_storage.Spec.Mkdir.{effect-mkdir}

-- The commands of data nodes do not touch the tree.
abbrev pub spec_command : ℕ → Command → CommandPayload → View → Effect
spec_command now heartbeat p v = (none, v)
spec_command now remove_data_node p v = (none, v)
spec_command now mkdir p v = spec_mkdir now p v
spec_command now create_file p v = spec_create_file now p v
spec_command now complete_file p v = spec_complete_file now p v
spec_command now delete p v = spec_delete now p v
spec_command now rename p v = spec_rename now p v
spec_command now update_size p v = spec_update_size now p v

abbrev pub spec_dispatch : ℕ → String → Option Command → CommandPayload → View → Effect
spec_dispatch now op none p v = (some (unknown_op op), v)
spec_dispatch now op (some c) p v = spec_command now c p v

abbrev pub spec_entry : LogEntry → View → Effect
spec_entry e v = spec_dispatch e.now e.op (command e.op) e.payload v

effect-run_command :
    (now : ℕ) (c : Command) (p : CommandPayload) (mds : MetadataServer)
    → effect (run_command now c p mds) ≡ spec_command now c p (view mds)
unfolding run_command
effect-run_command now heartbeat p mds = unfold apply_heartbeat in refl
effect-run_command now remove_data_node p mds = unfold apply_remove_data_node in refl
effect-run_command now mkdir p mds = effect-mkdir now p mds
effect-run_command now create_file p mds = effect-create_file now p mds
effect-run_command now complete_file p mds = effect-complete_file now p mds
effect-run_command now delete p mds = effect-delete now p mds
effect-run_command now rename p mds = effect-rename now p mds
effect-run_command now update_size p mds = effect-update_size now p mds

effect-dispatch :
    (now : ℕ) (op : String) (c : Option Command) (p : CommandPayload) (mds : MetadataServer)
    → effect (dispatch now op c p mds) ≡ spec_dispatch now op c p (view mds)
unfolding dispatch
effect-dispatch now op none p mds = refl
effect-dispatch now op (some c) p mds = effect-run_command now c p mds

-- A committed entry, known or unknown, fails with the error of the flat file system or leaves its
-- map.
pub effect-apply_entry :
    (e : LogEntry) (mds : MetadataServer) → effect (apply_entry e mds) ≡ spec_entry e (view mds)
effect-apply_entry e mds = effect-dispatch e.now e.op (command e.op) e.payload mds

abbrev pub spec_replay : List LogEntry → View → View
spec_replay [] v = v
spec_replay (e ∷ log) v = spec_replay log (spec_entry e v).1

-- After any log the tree of the server shows the map that the flat file system has after the log.
pub view-replay :
    (log : List LogEntry) (mds : MetadataServer)
    → view (replay log mds) ≡ spec_replay log (view mds)
unfolding replay
view-replay [] mds = refl
view-replay (e ∷ log) mds =
    view-replay log (apply_entry e mds).1
    ∙ ap (λ (s : Effect). spec_replay log s.1) (effect-apply_entry e mds)
