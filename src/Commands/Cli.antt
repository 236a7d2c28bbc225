-- ===== src/Commands/Cli.antt =====
-- The command line client, cmd/fstorex/main.go.
use file_storage.Client.Options.{with_create_mode, put_file_with, PutOption}
use file_storage.Client.Requests.{trigger_gc, list_data_nodes, mkdir, list_dir, stat, get_replicas}
use file_storage.Client.Transfer.{delete, get_file}
use file_storage.Types.{overwrite_if_exists, FileInfo, Replica}
use file_storage.Client.{ok, ClientError, err, Result, CallError, Network}
use file_storage.Base.{◌==◌, if◌then◌else◌, suc, length, [], ◌∷◌, Bool, ◌<>◌, List, ℤ, String, ℕ}

-- The errors that the client's requests end with.
pub data Failure : Type 0 where
  of_call : CallError → Failure
  of_client : ClientError → Failure

-- A line on the standard output, the rows that go through a text/tabwriter, or an error in the log.
pub data Output : Type 0 where
  printed : String → Output
  table : List (List String) → Output
  logged : String → Failure → Output

-- What package fmt makes of numbers, and package time of times.
pub record Formats : Type 0 where
  pub show_int : ℤ → String
  pub show_count : ℕ → String
  pub show_time : ℕ → String

-- What the FlagSet of `put` finds in its arguments: it ends the program with a code, or it gives the
-- flag and the arguments that are left.
pub data PutFlags : Type 0 where
  flags_exit : ℕ → PutFlags
  put_flags : Bool → List String → PutFlags

-- How the program ends.
pub record Ended (W : Type 0) : Type 0 where
  pub code : ℕ
  pub output : List Output
  pub world : W

abbrev pub print_usage : List Output
print_usage =
    printed "FStoreX Client"
    ∷ printed ""
    ∷ printed "Usage: client -mds=<addr> <command> [args]"
    ∷ printed ""
    ∷ printed "Commands:"
    ∷ printed "  mkdir <path>                    Create directory"
    ∷ printed "  put [-overwrite] <local> <remote> Upload file (-overwrite to overwrite existing)"
    ∷ printed "  get <remote> <local>            Download file"
    ∷ printed "  ls [path]                       List directory (default: /)"
    ∷ printed "  stat <path>                     Show file/directory info"
    ∷ printed "  rm <path>                       Delete file/directory"
    ∷ printed "  replicas <path>                 Show file's replica locations"
    ∷ printed "  nodes                           List registered data nodes"
    ∷ printed "  gc                              Trigger orphan data garbage collection"
    ∷ []

abbrev pub usage_error : {W : Type 0} → List Output → W → Ended W
usage_error output w = record { code = 1; output = output; world = w }

-- The end of a command: an error is logged and gives the code 1.
abbrev pub report :
    {W E A : Type 0} → (E → Failure) → String → (A → List Output) → Result E A × W → Ended W
report failure message show (err e, w) = record {
  code = 1;
  output = logged message (failure e) ∷ [];
  world = w;
}
report failure message show (ok a, w) = record { code = 0; output = show a; world = w }

abbrev pub put_options : Bool → List PutOption
put_options overwrite = if overwrite then with_create_mode overwrite_if_exists ∷ [] else []

module _ (formats : Formats) where
  abbrev pub info_row : FileInfo → List String
  info_row info =
      info.name
      ∷ formats.show_int info.size
      ∷ formats.show_time info.mod_time
      ∷ (if info.is_dir then "DIR" else "FILE")
      ∷ []

  abbrev pub info_rows : List FileInfo → List (List String)
  info_rows [] = []
  info_rows (info ∷ infos) = info_row info ∷ info_rows infos

  abbrev pub show_infos : List FileInfo → List Output
  show_infos [] = printed "(empty)" ∷ []
  show_infos (info ∷ infos) =
      table (("NAME" ∷ "SIZE" ∷ "MODIFIED" ∷ "TYPE" ∷ []) ∷ info_rows (info ∷ infos)) ∷ []

  abbrev pub show_info : FileInfo → List Output
  show_info info =
      printed ("Name:      " <> info.name)
      ∷ printed ("Path:      " <> info.path)
      ∷ printed ("Type:      " <> (if info.is_dir then "Directory" else "File"))
      ∷ printed ("Size:      " <> formats.show_int info.size <> " bytes")
      ∷ printed ("Created:   " <> formats.show_time info.created_at)
      ∷ printed ("Modified:  " <> formats.show_time info.mod_time)
      ∷ []

  abbrev pub replica_rows : ℕ → List Replica → List (List String)
  replica_rows i [] = []
  replica_rows i (r ∷ replicas) =
      (formats.show_count (suc i) ∷ r.addr ∷ r.remote_path ∷ []) ∷ replica_rows (suc i) replicas

  abbrev pub show_replicas : String → List Replica → List Output
  show_replicas path replicas =
      printed
        ("Replicas for " <> path <> " (" <> formats.show_count (length replicas) <> " total):")
      ∷ table (("#" ∷ "DATA NODE" ∷ "REMOTE PATH" ∷ []) ∷ replica_rows 0 replicas)
      ∷ []

  abbrev pub node_lines : List String → List Output
  node_lines [] = []
  node_lines (n ∷ nodes) = printed ("  - " <> n) ∷ node_lines nodes

  abbrev pub show_nodes : List String → List Output
  show_nodes nodes =
      printed ("Data nodes (" <> formats.show_count (length nodes) <> "):") ∷ node_lines nodes

  module _ {W : Type 0} (net : Network W) (mds_addr : String) where
    abbrev pub main_mkdir : List String → W → Ended W
    main_mkdir [] w = usage_error (printed "Usage: client mkdir <path>" ∷ []) w
    main_mkdir (path ∷ rest) w =
        report of_call "mkdir failed" (λ done. printed ("✓ Directory created: " <> path) ∷ [])
          (mkdir net mds_addr path w)

    abbrev pub main_put_parsed : PutFlags → W → Ended W
    main_put_parsed (flags_exit code) w = record { code = code; output = []; world = w }
    main_put_parsed (put_flags overwrite (local_path ∷ remote_path ∷ rest)) w =
        report of_client "put failed"
          (λ done. printed ("✓ File uploaded: " <> local_path <> " → " <> remote_path) ∷ [])
          (put_file_with net mds_addr (put_options overwrite) local_path remote_path w)
    main_put_parsed (put_flags overwrite _) w =
        usage_error (printed "Usage: client put [-overwrite] <local> <remote>" ∷ []) w

    abbrev pub main_get : List String → W → Ended W
    main_get (remote_path ∷ local_path ∷ rest) w =
        report of_client "get failed"
          (λ done. printed ("✓ File downloaded: " <> remote_path <> " → " <> local_path) ∷ [])
          (get_file net mds_addr remote_path local_path w)
    main_get _ w = usage_error (printed "Usage: client get <remote> <local>" ∷ []) w

    abbrev pub main_ls : List String → W → Ended W
    main_ls [] w = report of_call "ls failed" show_infos (list_dir net mds_addr "/" w)
    main_ls (path ∷ rest) w = report of_call "ls failed" show_infos (list_dir net mds_addr path w)

    abbrev pub main_stat : List String → W → Ended W
    main_stat [] w = usage_error (printed "Usage: client stat <path>" ∷ []) w
    main_stat (path ∷ rest) w = report of_call "stat failed" show_info (stat net mds_addr path w)

    abbrev pub main_rm : List String → W → Ended W
    main_rm [] w = usage_error (printed "Usage: client rm <path>" ∷ []) w
    main_rm (path ∷ rest) w =
        report of_call "rm failed" (λ done. printed ("✓ Path deleted: " <> path) ∷ [])
          (delete net mds_addr path w)

    abbrev pub main_replicas : List String → W → Ended W
    main_replicas [] w = usage_error (printed "Usage: client replicas <path>" ∷ []) w
    main_replicas (path ∷ rest) w =
        report of_call "replicas failed" (show_replicas path) (get_replicas net mds_addr path w)

    abbrev pub main_nodes : W → Ended W
    main_nodes w = report of_call "list nodes failed" show_nodes (list_data_nodes net mds_addr w)

    abbrev pub main_gc : W → Ended W
    main_gc w =
        report of_call "trigger GC failed"
          (λ done. printed "✓ GC triggered in background (check MDS logs for results)" ∷ [])
          (trigger_gc net mds_addr w)

    -- The switch on the command.
    unfoldable pub main_command : (List String → PutFlags) → String → List String → W → Ended W
    main_command parse_put cmd rest w =
        if cmd == "mkdir"
        then main_mkdir rest w
        else if cmd == "put"
        then main_put_parsed (parse_put rest) w
        else if cmd == "get"
        then main_get rest w
        else if cmd == "ls"
        then main_ls rest w
        else if cmd == "stat"
        then main_stat rest w
        else if cmd == "rm"
        then main_rm rest w
        else if cmd == "replicas"
        then main_replicas rest w
        else if cmd == "nodes"
        then main_nodes w
        else if cmd == "gc"
        then main_gc w
        else usage_error (printed ("Unknown command: " <> cmd) ∷ printed "" ∷ print_usage) w

    -- `main` behind the flags: with the address of `-mds` and the arguments that are left.
    unfoldable pub main : (List String → PutFlags) → List String → W → Ended W
    unfolding main_command
    main parse_put [] w = usage_error print_usage w
    main parse_put (cmd ∷ rest) w = main_command parse_put cmd rest w
