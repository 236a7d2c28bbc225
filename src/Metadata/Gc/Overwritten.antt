-- ===== src/Metadata/Gc/Overwritten.antt =====
-- The garbage collector of internal/metadata/gc.go after an overwrite by `applyCreateFile` of
-- internal/metadata/apply.go.
use file_storage.Metadata.Gc.{collect_file_ids_recursive}
use file_storage.Base.{String, ◌≡◌, List}
use file_storage.Tree.{Entry}

-- Two entries with the same ids of files.
abbrev HaveSameIds : Entry → Entry → Type 0
HaveSameIds x y =
    (ids : List String) → collect_file_ids_recursive x ids ≡ collect_file_ids_recursive y ids
