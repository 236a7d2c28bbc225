-- ===== src/Commands/Performed.antt =====
-- What cmd/fstorex/main.go asks of the client, without what it prints.
use file_storage.Client.Options.{configure}
use file_storage.Client.{ok, err, Result, Network}
use file_storage.Types.{create_if_not_exist, overwrite_if_exists, CreateMode}
use file_storage.Commands.Cli.{
  main_put_parsed, of_call, put_flags, of_client, report, main_ls, main_replicas, flags_exit,
  main_rm, Output, main_get, main_command, main_stat, main_mkdir, main, Formats, Ended, Failure,
  PutFlags,
}
use file_storage.Base.{true, false, ◌==◌, if◌then◌else◌, List, String, Bool, ℕ, [], ◌∷◌, ◌≡◌, refl}
use file_storage.Client.Requests.{mkdir, list_dir, stat, get_replicas, list_data_nodes, trigger_gc}
use file_storage.Client.Transfer.{put_file, get_file, delete}

-- A command line is refused with a code, or it is a request.
pub data Request : Type 0 where
  refuse : ℕ → Request
  make_directory : String → Request
  upload : CreateMode → String → String → Request
  download : String → String → Request
  list : String → Request
  show : String → Request
  remove : String → Request
  locate : String → Request
  nodes : Request
  collect : Request

abbrev pub mode_of : Bool → CreateMode
mode_of true = overwrite_if_exists
mode_of false = create_if_not_exist

abbrev pub on_path : (String → Request) → List String → Request
on_path request [] = refuse 1
on_path request (path ∷ rest) = request path

abbrev pub upload_request : PutFlags → Request
upload_request (flags_exit code) = refuse code
upload_request (put_flags overwrite (local_path ∷ remote_path ∷ rest)) =
    upload (mode_of overwrite) local_path remote_path
upload_request (put_flags overwrite _) = refuse 1

abbrev pub download_request : List String → Request
download_request (remote_path ∷ local_path ∷ rest) = download remote_path local_path
download_request _ = refuse 1

abbrev pub list_request : List String → Request
list_request [] = list "/"
list_request (path ∷ rest) = list path

-- The commands by name.
abbrev pub table_of : (List String → PutFlags) → List String → List (String × Request)
table_of parse_put rest =
    ("mkdir", on_path make_directory rest)
    ∷ ("put", upload_request (parse_put rest))
    ∷ ("get", download_request rest)
    ∷ ("ls", list_request rest)
    ∷ ("stat", on_path show rest)
    ∷ ("rm", on_path remove rest)
    ∷ ("replicas", on_path locate rest)
    ∷ ("nodes", nodes)
    ∷ ("gc", collect)
    ∷ []

unfoldable pub request_at : String → List (String × Request) → Request
request_at cmd [] = refuse 1
request_at cmd ((name, request) ∷ more) =
    let later = request_at cmd more in if cmd == name then request else later

unfoldable pub request_of : (List String → PutFlags) → List String → Request
unfolding request_at
request_of parse_put [] = refuse 1
request_of parse_put (cmd ∷ rest) = request_at cmd (table_of parse_put rest)

-- The code 0 is for a success, the code 1 for an error.
abbrev pub code_of : {W E A : Type 0} → Result E A × W → ℕ × W
code_of (err e, w) = (1, w)
code_of (ok a, w) = (0, w)

abbrev pub perform : {W : Type 0} → Network W → String → Request → W → ℕ × W
perform net mds_addr (refuse code) w = (code, w)
perform net mds_addr (make_directory path) w = code_of (mkdir net mds_addr path w)
perform net mds_addr (upload mode local_path remote_path) w =
    code_of (put_file net mds_addr mode local_path remote_path w)
perform net mds_addr (download remote_path local_path) w =
    code_of (get_file net mds_addr remote_path local_path w)
perform net mds_addr (list path) w = code_of (list_dir net mds_addr path w)
perform net mds_addr (show path) w = code_of (stat net mds_addr path w)
perform net mds_addr (remove path) w = code_of (delete net mds_addr path w)
perform net mds_addr (locate path) w = code_of (get_replicas net mds_addr path w)
perform net mds_addr nodes w = code_of (list_data_nodes net mds_addr w)
perform net mds_addr collect w = code_of (trigger_gc net mds_addr w)

abbrev pub ended_as : {W : Type 0} → Ended W → ℕ × W
ended_as e = (e.code, e.world)

report-code_of :
    {W E A : Type 0} (failure : E → Failure) (message : String) (shown : A → List Output)
    (r : Result E A × W)
    → ended_as (report failure message shown r) ≡ code_of r
report-code_of failure message shown (err e, w) = refl
report-code_of failure message shown (ok a, w) = refl

module _ (formats : Formats) {W : Type 0} (net : Network W) (mds_addr : String) (w : W) where
  main_put_parsed-perform :
      (flags : PutFlags)
      → ended_as (main_put_parsed formats net mds_addr flags w)
        ≡ perform net mds_addr (upload_request flags) w
  unfolding configure
  main_put_parsed-perform (flags_exit code) = refl
  main_put_parsed-perform (put_flags overwrite []) = refl
  main_put_parsed-perform (put_flags overwrite (a ∷ [])) = refl
  main_put_parsed-perform (put_flags true (a ∷ (b ∷ rest))) =
      report-code_of of_client "put failed" _ (put_file net mds_addr overwrite_if_exists a b w)
  main_put_parsed-perform (put_flags false (a ∷ (b ∷ rest))) =
      report-code_of of_client "put failed" _ (put_file net mds_addr create_if_not_exist a b w)

  main_get-perform :
      (rest : List String)
      → ended_as (main_get formats net mds_addr rest w)
        ≡ perform net mds_addr (download_request rest) w
  main_get-perform [] = refl
  main_get-perform (a ∷ []) = refl
  main_get-perform (a ∷ (b ∷ rest)) = report-code_of of_client "get failed" _ _

  -- A request on a path.
  main_ls-perform :
      (rest : List String)
      → ended_as (main_ls formats net mds_addr rest w) ≡ perform net mds_addr (list_request rest) w
  main_ls-perform [] = report-code_of of_call "ls failed" _ _
  main_ls-perform (path ∷ rest) = report-code_of of_call "ls failed" _ _

  main_mkdir-perform :
      (rest : List String)
      → ended_as (main_mkdir formats net mds_addr rest w)
        ≡ perform net mds_addr (on_path make_directory rest) w
  main_mkdir-perform [] = refl
  main_mkdir-perform (path ∷ rest) = report-code_of of_call "mkdir failed" _ _

  main_stat-perform :
      (rest : List String)
      → ended_as (main_stat formats net mds_addr rest w)
        ≡ perform net mds_addr (on_path show rest) w
  main_stat-perform [] = refl
  main_stat-perform (path ∷ rest) = report-code_of of_call "stat failed" _ _

  main_rm-perform :
      (rest : List String)
      → ended_as (main_rm formats net mds_addr rest w)
        ≡ perform net mds_addr (on_path remove rest) w
  main_rm-perform [] = refl
  main_rm-perform (path ∷ rest) = report-code_of of_call "rm failed" _ _

  main_replicas-perform :
      (rest : List String)
      → ended_as (main_replicas formats net mds_addr rest w)
        ≡ perform net mds_addr (on_path locate rest) w
  main_replicas-perform [] = refl
  main_replicas-perform (path ∷ rest) = report-code_of of_call "replicas failed" _ _

  -- One test of the switch, and the same test in the table.
  pub if-perform :
      (b : Bool) (here later : Ended W) (r s : Request)
      → ended_as here ≡ perform net mds_addr r w
      → ended_as later ≡ perform net mds_addr s w
      → ended_as (if b then here else later) ≡ perform net mds_addr (if b then r else s) w
  if-perform true here later r s same other = same
  if-perform false here later r s same other = other

  main_command-perform :
      (parse_put : List String → PutFlags) (cmd : String) (rest : List String)
      → ended_as (main_command formats net mds_addr parse_put cmd rest w)
        ≡ perform net mds_addr (request_at cmd (table_of parse_put rest)) w
  unfolding main_command request_at
  main_command-perform parse_put cmd rest =
      if-perform (cmd == "mkdir") _ _ _ _ (main_mkdir-perform rest) (
        if-perform (cmd == "put") _ _ _ _ (main_put_parsed-perform (parse_put rest)) (
          if-perform (cmd == "get") _ _ _ _ (main_get-perform rest) (
            if-perform (cmd == "ls") _ _ _ _ (main_ls-perform rest) (
              if-perform (cmd == "stat") _ _ _ _ (main_stat-perform rest) (
                if-perform (cmd == "rm") _ _ _ _ (main_rm-perform rest) (
                  if-perform (cmd == "replicas") _ _ _ _ (main_replicas-perform rest) (
                    if-perform (cmd == "nodes") _ _ _ _
                      (report-code_of of_call "list nodes failed" _ _)
                      (if-perform (cmd == "gc") _ _ _ _
                        (report-code_of of_call "trigger GC failed" _ _) refl))))))))

-- The program does to the servers and files what the request does that its arguments stand for, and
-- ends with the code 0 exactly where that succeeds; arguments that stand for no request change
-- nothing.
pub main-perform :
    {W : Type 0} (formats : Formats) (parse_put : List String → PutFlags) (net : Network W)
    (mds_addr : String) (args : List String) (w : W)
    → ended_as (main formats net mds_addr parse_put args w)
      ≡ perform net mds_addr (request_of parse_put args) w
unfolding main request_of
main-perform formats parse_put net mds_addr [] w = refl
main-perform formats parse_put net mds_addr (cmd ∷ rest) w =
    main_command-perform formats net mds_addr w parse_put cmd rest
