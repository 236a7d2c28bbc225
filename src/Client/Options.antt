-- ===== src/Client/Options.antt =====
-- The options of `PutFile` of internal/client/client.go.
use file_storage.Types.{create_if_not_exist, CreateMode}
use file_storage.Client.{ClientError, Result, Network}
use file_storage.Client.Transfer.{put_file}
use file_storage.Base.{[], ◌∷◌, Bool, String, ◌∷◌, List}

pub record PutConfig : Type 0 where
  pub create_mode : CreateMode

abbrev pub PutOption : Type 0
PutOption = PutConfig → PutConfig

abbrev pub with_create_mode : CreateMode → PutOption
with_create_mode mode config = record config { create_mode = mode }

unfoldable pub configure : List PutOption → PutConfig → PutConfig
configure [] config = config
configure (opt ∷ opts) config = configure opts (opt config)

-- `PutFile` with its options.
abbrev pub put_file_with :
    {W : Type 0}
    → Network W
    → String
    → List PutOption
    → String
    → String
    → W
    → Result ClientError Bool × W
put_file_with net mds_addr opts local_path remote_path w =
    let config = configure opts (record { create_mode = create_if_not_exist }) in
    put_file net mds_addr config.create_mode local_path remote_path w
