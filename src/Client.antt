-- ===== src/Client.antt =====
-- The client of internal/client/client.go: how it calls the servers. The logger is left out.
pub mod Requests
pub mod Redirect
pub mod Replicas
pub mod Transfer
pub mod Handle
pub mod Options
pub mod Storage
pub mod System
use file_storage.Base.{
  inr, inl, ◌⊎◌, ◌≡◌, ℕ, zero, suc, ℤ, String, ◌<>◌, Bool, true, false, not, ◌&&◌, ◌||◌, ◌==◌, ◌≡◌,
  refl, ◌⊎◌, inl, inr, Option, none, some, List, if◌then◌else◌,
}
use file_storage.Types.{
  Replica, CreateFileArgs, CreateFileReply, DeleteReply, FileInfo, FileLocation, HeartbeatReply,
  RenameArgs, UpdateSizeArgs, StoreArgs, RangeReadArgs, RangeReadReply, PartialWriteArgs,
  TruncateArgs, SyncArgs,
}
use file_storage.Text.Trim.{after_first, trim_space}

-- What comes of a connection and one call over it: the texts are those of the errors of net/rpc.
pub data Answer {ℓ} (A : Type ℓ) : Type ℓ where
  unreachable : String → Answer A
  refused : String → Answer A
  received : A → Answer A

pub data Result {ℓ} (E A : Type ℓ) : Type ℓ where
  err : E → Result E A
  ok : A → Result E A

pub Answer-cases :
    {A W : Type 0} (x : Answer A × W)
    → ((e : String) × (w : W) × (x ≡ (unreachable e, w)))
      ⊎ (((e : String) × (w : W) × (x ≡ (refused e, w)))
          ⊎ ((a : A) × (w : W) × (x ≡ (received a, w))))
Answer-cases (unreachable e, w) = inl (e, w, refl)
Answer-cases (refused e, w) = inr (inl (e, w, refl))
Answer-cases (received a, w) = inr (inr (a, w, refl))

pub Result-cases :
    {E A W : Type 0} (x : Result E A × W)
    → ((e : E) × (w : W) × (x ≡ (err e, w))) ⊎ ((a : A) × (w : W) × (x ≡ (ok a, w)))
Result-cases (err e, w) = inl (e, w, refl)
Result-cases (ok a, w) = inr (a, w, refl)

-- The servers and the local files as the client meets them: each call, at an address, gives an
-- answer, and changes what is outside of the client. A nil slice of bytes is `none`.
pub record Network (W : Type 0) : Type 0 where
  pub on_mkdir : String → String → W → Answer Bool × W
  pub on_create_file : String → CreateFileArgs → W → Answer CreateFileReply × W
  pub on_complete_file : String → String → W → Answer Bool × W
  pub on_delete : String → String → W → Answer DeleteReply × W
  pub on_rename : String → RenameArgs → W → Answer Bool × W
  pub on_update_size : String → UpdateSizeArgs → W → Answer Bool × W
  pub on_trigger_gc : String → W → Answer Bool × W
  pub on_heartbeat : String → String → W → Answer HeartbeatReply × W
  pub on_get_file_location : String → String → W → Answer FileLocation × W
  pub on_list_dir : String → String → W → Answer (List FileInfo) × W
  pub on_stat : String → String → W → Answer FileInfo × W
  pub on_list_data_nodes : String → W → Answer (List String) × W
  pub on_store_data : String → StoreArgs → W → Answer Bool × W
  pub on_get_data : String → String → W → Answer (Option (List ℕ)) × W
  pub on_delete_data : String → String → W → Answer Bool × W
  pub on_range_read : String → RangeReadArgs → W → Answer RangeReadReply × W
  pub on_partial_write : String → PartialWriteArgs → W → Answer Bool × W
  pub on_truncate : String → TruncateArgs → W → Answer Bool × W
  pub on_sync : String → SyncArgs → W → Answer Bool × W
  pub read_local : String → W → Option (List ℕ)
  pub write_local : String → List ℕ → W → Bool × W

-- What a call gives. `within` is the context that fmt.Errorf puts in front of an error.
pub data CallError : Type 0 where
  cannot_connect : String → String → CallError
  no_data_node : String → String → CallError
  remote : String → CallError
  retries_exhausted : String → CallError
  within : String → CallError → CallError

-- The text of the error.
abbrev pub text_of : CallError → String
text_of (cannot_connect addr e) = "cannot connect to metadata server at " <> addr <> ": " <> e
text_of (no_data_node addr e) = "cannot connect to data node at " <> addr <> ": " <> e
text_of (remote e) = e
text_of (retries_exhausted method) = "redirect retries exhausted for method " <> method
text_of (within context e) = context <> ": " <> text_of e

-- The errors of the requests. The texts of the local ones are left out.
pub data ClientError : Type 0 where
  calling : CallError → ClientError
  read_local_failed : ClientError
  write_local_failed : ClientError
  stores_failed : ℕ → Option CallError → ClientError
  replicas_failed : ℕ → Option CallError → ClientError
  some_failed : ℕ → ℕ → Option CallError → ClientError
  negative_offset : ClientError
  negative_size : ClientError
  no_replicas : String → ClientError
  no_such_file : String → ClientError
  file_exists : String → ClientError
  is_directory : String → ClientError

unfoldable pub extract_leader_addr : String → String
unfolding after_first trim_space
extract_leader_addr message = elim (after_first "not leader, redirect to " message) [
  | none ↦ ""
  | some addr ↦ trim_space addr
]

abbrev pub in_context : {A : Type 0} → String → Result CallError A → Result CallError A
in_context context (err e) = err (within context e)
in_context context (ok a) = ok a

-- The connection of `dialMDS` and one call.
abbrev pub mds_result : {A : Type 0} → String → Answer A → Result CallError A
mds_result addr (unreachable e) = err (cannot_connect addr e)
mds_result addr (refused e) = err (remote e)
mds_result addr (received a) = ok a

-- The same, where the error of the call has a context.
abbrev pub mds_result_in : {A : Type 0} → String → String → Answer A → Result CallError A
mds_result_in context addr (unreachable e) = err (cannot_connect addr e)
mds_result_in context addr (refused e) = err (within context (remote e))
mds_result_in context addr (received a) = ok a

-- The connection of `dialDataNode` and one call.
abbrev pub node_result : {A : Type 0} → String → String → Answer A → Result CallError A
node_result context addr (unreachable e) = err (no_data_node addr e)
node_result context addr (refused e) = err (within context (remote e))
node_result context addr (received a) = ok a

-- The loop of `callMDSWithRedirect` with its rounds left.
unfoldable pub redirect :
    {A W : Type 0} → ℕ → String → (String → W → Answer A × W) → String → W → Result CallError A × W
redirect zero method call addr w = (err (retries_exhausted method), w)
redirect (suc retries) method call addr w =
    let after = call addr w in
    elim after.0 [
      | unreachable e ↦ (err (cannot_connect addr e), after.1)
      | received a ↦ (ok a, after.1)
      | refused e ↦
          let rest = redirect retries method call (extract_leader_addr e) after.1 in
          if extract_leader_addr e == "" || extract_leader_addr e == addr
          then (err (remote e), after.1)
          else rest
    ]

-- The loop of `sendHeartbeat` of internal/datanode/datanode.go, which only logs what fails.
unfoldable pub send_heartbeats : {A W : Type 0} → ℕ → (String → W → Answer A × W) → String → W → W
send_heartbeats zero call addr w = w
send_heartbeats (suc retries) call addr w =
    let after = call addr w in
    elim after.0 [
      | unreachable e ↦ after.1
      | received a ↦ after.1
      | refused e ↦
          let rest = send_heartbeats retries call (extract_leader_addr e) after.1 in
          if not (extract_leader_addr e == "") && not (extract_leader_addr e == addr)
          then rest
          else after.1
    ]
