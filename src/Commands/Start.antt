-- ===== src/Commands/Start.antt =====
-- How the servers start: cmd/fstorex-metadata/main.go with `NewMetadataServer` of
-- internal/metadata/mds.go, and cmd/fstorex-datanode/main.go with `NewDataNode`, `RegisterRPC` and
-- `StartHeartbeat` of internal/datanode/datanode.go.
use file_storage.Client.Requests.{send_heartbeat}
use file_storage.Metadata.{new_metadata_server, MetadataServer}
use file_storage.DataNode.Service.{DataNode}
use file_storage.Commands.Peers.{parse_peers}
use file_storage.Client.{ok, err, Result, Network}
use file_storage.Base.{none, some, suc, ◌<>◌, ◌^◌, ◌*◌, some, List, String, ℕ, Option, zero}

-- `rafttypes.Config`, as far as the program sets it. Durations are nanoseconds.
pub record RaftConfig : Type 0 where
  pub local_id : String
  pub peers : List String
  pub wal_dir : String
  pub snap_dir : String
  pub max_index_span : ℕ
  pub election_timeout : ℕ

-- The flags of cmd/fstorex-metadata/main.go.
pub record MetadataFlags : Type 0 where
  pub id : String
  pub peers : String
  pub wal_dir : String
  pub snap_dir : String
  pub max_index_span : ℕ

-- The flags of cmd/fstorex-datanode/main.go.
pub record DataNodeFlags : Type 0 where
  pub addr : String
  pub mds_addr : String
  pub data_dir : String

-- What the programs call at their start: os.MkdirAll, RegisterName and net.Listen, and `InitServer`
-- and `Start` of the Raft library. Each gives its error, if it failed.
pub record Host (W : Type 0) : Type 0 where
  pub make_dirs : String → W → Option String × W
  pub register_name : String → W → Option String × W
  pub listen : String → W → Option String × W
  pub init_server : RaftConfig → W → Option String × W
  pub start_raft : W → W

-- A start ends the program with the code 1 and what it logs, or the program serves.
pub data Started (S W : Type 0) : Type 0 where
  exited : String → String → W → Started S W
  serving : S → W → Started S W

-- The next step of a start, if there was no error.
abbrev pub unless_exited :
    {S W : Type 0} → String → Option String × W → (W → Started S W) → Started S W
unless_exited message (some e, w) next = exited message e w
unless_exited message (none, w) next = next w

module _ {W : Type 0} (host : Host W) where
  -- What `NewMetadataServer` does behind `InitServer`.
  abbrev pub initialized : ℕ → Option String × W → Result String MetadataServer × W
  initialized now (some e, w) = (err ("init raft server failed: " <> e), w)
  initialized now (none, w) = (ok (new_metadata_server now), host.start_raft w)

  -- `NewMetadataServer`. The goroutine that it starts is `gc_tick`.
  abbrev pub make_metadata_server : RaftConfig → ℕ → W → Result String MetadataServer × W
  make_metadata_server config now w = initialized now (host.init_server config w)

  abbrev pub raft_config : MetadataFlags → RaftConfig
  raft_config flags = record {
    local_id = flags.id;
    peers = parse_peers flags.id flags.peers;
    wal_dir = flags.wal_dir;
    snap_dir = flags.snap_dir;
    max_index_span = flags.max_index_span;
    election_timeout = 3 * 10 ^ 9;
  }

  -- The two services, and the listener.
  abbrev pub serve_metadata :
      MetadataFlags → Result String MetadataServer × W → Started MetadataServer W
  serve_metadata flags (err e, w) = exited "failed to create metadata server" e w
  serve_metadata flags (ok mds, w) =
      unless_exited "failed to register raft rpc service" (host.register_name "Server" w) (λ w1.
        unless_exited "failed to register metadata rpc service"
          (host.register_name "MetadataService" w1)
          (λ w2. unless_exited "failed to listen" (host.listen flags.id w2) (λ w3. serving mds w3)))

  -- `main` of the metadata server up to the loop that accepts connections. Errors of the
  -- directories are ignored.
  unfoldable pub start_metadata : MetadataFlags → ℕ → W → Started MetadataServer W
  unfolding parse_peers
  start_metadata flags now w =
      let dirs = (host.make_dirs flags.snap_dir (host.make_dirs flags.wal_dir w).1).1 in
      serve_metadata flags (make_metadata_server (raft_config flags) now dirs)

  -- `NewDataNode`
  abbrev pub new_data_node : DataNodeFlags → Option String × W → Result String DataNode × W
  new_data_node flags (some e, w) = (err ("failed to create data dir: " <> e), w)
  new_data_node flags (none, w) =
      (ok (record { data_dir = flags.data_dir; mds_addr = flags.mds_addr; addr = flags.addr }), w)

  -- `RegisterRPC`
  abbrev pub register_rpc : W → Option String × W
  register_rpc w = host.register_name "DataService" w

  -- What `StartHeartbeat` has done after some ticks of its timer.
  abbrev pub start_heartbeat : Network W → DataNode → ℕ → W → W
  start_heartbeat net dn zero w = send_heartbeat net dn.mds_addr dn.addr w
  start_heartbeat net dn (suc ticks) w =
      send_heartbeat net dn.mds_addr dn.addr (start_heartbeat net dn ticks w)

  abbrev pub serve_data_node :
      Network W → DataNodeFlags → Result String DataNode × W → Started DataNode W
  serve_data_node net flags (err e, w) = exited "failed to create data node" e w
  serve_data_node net flags (ok dn, w) =
      unless_exited "failed to register RPC" (register_rpc w) (λ w1.
        unless_exited "failed to listen" (host.listen flags.addr w1)
          (λ w2. serving dn (start_heartbeat net dn 0 w2)))

  -- `main` of the data node up to the loop that accepts connections.
  unfoldable pub start_data_node : Network W → DataNodeFlags → W → Started DataNode W
  start_data_node net flags w =
      serve_data_node net flags (new_data_node flags (host.make_dirs flags.data_dir w))
