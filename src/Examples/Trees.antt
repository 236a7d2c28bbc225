-- ===== src/Examples/Trees.antt =====
-- Theorems on paths and trees at concrete inputs.
use file_storage.Metadata.DataNodes.{apply_heartbeat}
use file_storage.Metadata.{split_last}
use file_storage.Metadata.Machine.{dispatch, command, replay}
use file_storage.Tree.{modify, walk_dirs, walk, set_child, get_child, stat}
use file_storage.Base.{◌≡◌, refl, [], ◌∷◌}
use file_storage.Path.{split_path, is_slash}
use file_storage.Path.Names.{AreNames}
use file_storage.Path.Render.{render, split_path-render}
use file_storage.Metadata.Mkdir.{apply_mkdir}
use file_storage.Metadata.CreateFile.{apply_create_file}
use file_storage.Metadata.Delete.{apply_delete}
use file_storage.Metadata.Rename.{apply_rename}
use file_storage.Tree.Sound.{IsTree}
use file_storage.View.{view}
use file_storage.Spec.{effect, spec_rename}
use file_storage.Spec.Delete.{IsAlone, spec_remove, effect-delete_alone}
use file_storage.Spec.Rename.{effect-rename}
use file_storage.Spec.Machine.{spec_replay, view-replay}
use file_storage.Invariant.{replay-IsTree, new_metadata_server-IsTree}
use file_storage.Examples.Logs.{on_path, rename, log, start, busy}

names : AreNames ("a" ∷ "b.c" ∷ [])
unfolding is_slash
names = (refl, (refl, tt))

split_path-render_example : split_path (render ("a" ∷ "b.c" ∷ [])) ≡ "a" ∷ "b.c" ∷ []
split_path-render_example = split_path-render ("a" ∷ "b.c" ∷ []) names

view-replay_example : view busy ≡ spec_replay log (view start)
view-replay_example = view-replay log start

replay-IsTree_example : IsTree busy.root
replay-IsTree_example = replay-IsTree log start (new_metadata_server-IsTree 0)

effect-rename_example :
    effect (apply_rename 9 (rename "/a" "/c") busy) ≡ spec_rename 9 (rename "/a" "/c") (view busy)
effect-rename_example = effect-rename 9 (rename "/a" "/c") busy

nothing_below : IsAlone ("a" ∷ "f" ∷ []) (view busy)
unfolding replay command dispatch stat apply_mkdir apply_create_file apply_heartbeat split_path
    split_last get_child set_child walk walk_dirs modify
nothing_below k r = refl

effect-delete_alone_example :
    effect (apply_delete 9 (on_path "delete" "/a/f") busy)
    ≡ spec_remove 9 (on_path "delete" "/a/f") ("a" ∷ []) "f" (view busy)
effect-delete_alone_example =
    effect-delete_alone 9 (on_path "delete" "/a/f") busy ("a" ∷ []) "f"
      (unfold split_path split_last in refl) nothing_below
