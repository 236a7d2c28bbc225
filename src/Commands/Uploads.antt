-- ===== src/Commands/Uploads.antt =====
-- The commands `put` and `get` of cmd/fstorex/main.go over the servers.
use file_storage.Client.System.Roundtrip.{get_file-put_file, put_file-content}
use file_storage.Metadata.Placement.{remote_path_of}
use file_storage.DataNode.Service.Only.{PathHasOnly}
use file_storage.Path.{split_path}
use file_storage.View.{view}
use file_storage.Metadata.Service.Quiet.{IsQuiet}
use file_storage.Client.System.{IsSystem}
use file_storage.Metadata.Raft.{RaftServer}
use file_storage.Metadata.Machine.{PayloadJson}
use file_storage.Client.Storage.{IsStorage}
use file_storage.DataNode.Service.{DataNode}
use file_storage.Commands.Performed.{
  perform, upload_request, download, request_at, main-perform, request_of, code_of, ended_as,
  mode_of,
}
use file_storage.Client.Replicas.{success_count}
use file_storage.Types.{CreateMode, CreateFileReply}
use file_storage.Commands.Cli.{put_flags, main, PutFlags, Formats}
use file_storage.Client.{ok, err, CallError, Result, Network}
use file_storage.Base.{
  ◌∙◌, sym, none, some, inr, inl, eqb, ap, arith, Bool-cases, ℕ, Bool, List, String, [], ◌∷◌, true,
  ◌≡◌, refl,
}
use file_storage.Client.Transfer.{put_stored, put_created, put_content, put_file, get_file, save}

code_of-ok : {W E : Type 0} (r : Result E Bool × W) → (code_of r).0 ≡ 0 → (a : Bool) × (r.0 ≡ ok a)
code_of-ok (err e, w) h = ground arith
code_of-ok (ok a, w) h = (a, refl)

code_of-world : {W E A : Type 0} (r : Result E A × W) → (code_of r).1 ≡ r.1
code_of-world (err e, w) = refl
code_of-world (ok a, w) = refl

-- An upload that succeeds gives `true`.
module _ {W : Type 0} (net : Network W) (mds_addr remote_path : String) where
  put_stored-true :
      (x : List (Result CallError Bool) × W) (a : Bool)
      → (put_stored net mds_addr remote_path x).0 ≡ ok a
      → a ≡ true
  unfolding put_stored
  put_stored-true (results, w) a h = elim (Bool-cases (eqb (success_count results) 0)) [
    | inl nothing ↦ ground arith
    | inr something ↦ ground arith
  ]

  put_created-true :
      (content : List ℕ) (x : Result CallError CreateFileReply × W) (a : Bool)
      → (put_created net mds_addr content remote_path x).0 ≡ ok a
      → a ≡ true
  unfolding put_created
  put_created-true content (err e, w) a h = ground arith
  put_created-true content (ok reply, w) a h = put_stored-true _ a h

  put_content-true :
      (mode : CreateMode) (content : List ℕ) (w : W) (a : Bool)
      → (put_content net mds_addr mode content remote_path w).0 ≡ ok a
      → a ≡ true
  unfolding put_content
  put_content-true mode content w a h = put_created-true content _ a h

put_file-true :
    {W : Type 0} (net : Network W) (mds_addr : String) (mode : CreateMode)
    (local_path remote_path : String) (content : List ℕ) (w : W) (a : Bool)
    → net.read_local local_path w ≡ some content
    → (put_file net mds_addr mode local_path remote_path w).0 ≡ ok a
    → a ≡ true
put_file-true net mds_addr mode local_path remote_path content w a read h =
    put_content-true net mds_addr remote_path mode content w a (
      ap (λ x. x.0) (sym (put_file-content net mds_addr mode local_path remote_path content w read))
      ∙ h)

request_of-put :
    (parse_put : List String → PutFlags) (args : List String)
    → request_of parse_put ("put" ∷ args) ≡ upload_request (parse_put args)
unfolding request_of request_at
request_of-put parse_put args = refl

request_of-get :
    (parse_put : List String → PutFlags) (remote_path other_path : String)
    → request_of parse_put ("get" ∷ remote_path ∷ other_path ∷ []) ≡ download remote_path other_path
unfolding request_of request_at
request_of-get parse_put remote_path other_path = refl

-- `put`, and then `get` of the same path: what the first command stored, the second writes to a
-- local file and ends as that write does. The first ended with the code 0, its local file is not
-- empty, and nothing was at the path before; over a metadata server that leads and fails no command,
-- and whose errors name no leader, and over data nodes that have no file with other content at the
-- path of the new id.
pub main-put-get :
    {W : Type 0} (net : Network W) (nodes : String → DataNode) (storage : IsStorage net nodes)
    (json : PayloadJson) (raft : RaftServer json) (system : IsSystem net nodes storage json raft)
    (quiet : IsQuiet json raft) (formats : Formats) (parse_put : List String → PutFlags)
    (mds_addr local_path remote_path other_path : String) (b : ℕ) (bytes : List ℕ)
    (overwrite : Bool) (args rest : List String) (w : W)
    → parse_put args ≡ put_flags overwrite (local_path ∷ remote_path ∷ rest)
    → net.read_local local_path w ≡ some (b ∷ bytes)
    → view (system.mds w) (split_path remote_path) ≡ none
    → ((addr : String)
        → PathHasOnly
            (nodes addr)
            (b ∷ bytes)
            (remote_path_of (system.new_id w))
            (storage.disk w addr))
    → (main formats net mds_addr parse_put ("put" ∷ args) w).code ≡ 0
    → (then_w : W) × (ended_as (
          main formats net mds_addr parse_put
            ("get" ∷ remote_path ∷ other_path ∷ [])
            (main formats net mds_addr parse_put ("put" ∷ args) w).world)
        ≡ code_of (save net mds_addr other_path (b ∷ bytes) then_w))
main-put-get net nodes storage json raft system quiet formats parse_put mds_addr local_path
      remote_path other_path b bytes overwrite args rest w parsed read new fresh =
    let put = put_file net mds_addr (mode_of overwrite) local_path remote_path w in
    let ran : ended_as (main formats net mds_addr parse_put ("put" ∷ args) w) ≡ code_of put =
      main-perform formats parse_put net mds_addr ("put" ∷ args) w
      ∙ ap (λ r. perform net mds_addr r w)
          (request_of-put parse_put args ∙ ap upload_request parsed) in
    let last = (main formats net mds_addr parse_put ("put" ∷ args) w).world in
    let left = ap (λ x. x.1) ran ∙ code_of-world put in
    λ done.
      let (a, succeeded) = code_of-ok put (ap (λ x. x.0) (sym ran) ∙ done) in
      let is_true =
        put_file-true net mds_addr (mode_of overwrite) local_path remote_path (b ∷ bytes) w a read
          succeeded in
      let (then_w, got) =
        get_file-put_file net nodes storage json raft system quiet mds_addr remote_path local_path
          other_path b bytes (mode_of overwrite) w read new fresh (succeeded ∙ ap ok is_true) in
      (
        then_w,
        main-perform formats parse_put net mds_addr ("get" ∷ remote_path ∷ other_path ∷ []) last
            ∙ ap (λ r. perform net mds_addr r last)
                (request_of-get parse_put remote_path other_path)
            ∙ ap (λ x. code_of (get_file net mds_addr remote_path other_path x)) left
            ∙ ap code_of got,
      )
