-- ===== src/Config/File.antt =====
-- src/main.rs: the configuration file of a node, over its defaults.
use Prim.Native.String.{String}
use paqus_node.Base.{ℕ, max, List, [], ◌∷◌, Option, none, some, Result, ok, ◌>>=◌, ok_or}
use paqus_node.Signing.{Crypto}
use paqus_node.Config.{
  Host, RunConfig, RunConfigFile, Configured, ConfigError, OneOrMany, into_vec, invalid_value,
  unreadable, min_relay_fee_floor, parse_address, parse_secret_key, apply_wallet_file,
}

module _ ⦃crypto : Crypto⦄ ⦃host : Host⦄ where
  open host use {parse_socket_addr, read_config_file}

  unfoldable pub parse_all : List String → String → Result ConfigError (List ℕ)
  parse_all [] name = ok []
  parse_all (text ∷ texts) name = do
    addr ← ok_or (parse_socket_addr text) (invalid_value name)
    addrs ← parse_all texts name
    ok (addr ∷ addrs)

  abbrev pub unwrap_or {ℓ} : {A : Type ℓ} → A → Option A → A
  unwrap_or a none = a
  unwrap_or a (some b) = b

  abbrev pub many_or_none : Option (OneOrMany String) → List String
  many_or_none none = []
  many_or_none (some texts) = into_vec texts

  -- `if let Some(..)` for the last three fields of the file.
  abbrev pub with_wallet : RunConfig → Option String → Configured
  with_wallet config none = ok config
  with_wallet config (some path) = apply_wallet_file config (some path)

  abbrev pub with_miner_address : RunConfig → Option String → Configured
  with_miner_address config none = ok config
  with_miner_address config (some text) = do
    address ← parse_address (some text)
    ok (record config { miner_address = address })

  abbrev pub with_secret_key : RunConfig → Option String → Configured
  with_secret_key config none = ok config
  with_secret_key config (some text) = do
    secret_key ← parse_secret_key (some text)
    ok (record config { miner_secret_key = some secret_key })

  abbrev pub at_least_one : Option ℕ → Option ℕ
  at_least_one none = none
  at_least_one (some secs) = some (max secs 1)

  -- The fields of the file, with its addresses parsed.
  unfoldable pub file_fields : RunConfig → RunConfigFile → List ℕ → ℕ → List ℕ → List ℕ → RunConfig
  file_fields config file listen_addrs rpc_addr peers public_addrs = record {
    db_path = file.db_path;
    listen_addrs = listen_addrs;
    rpc_addr = rpc_addr;
    peers = peers;
    peers_file = file.peers_file;
    gateway_url = file.gateway_url;
    public_addrs = public_addrs;
    gateway_heartbeat = max file.gateway_heartbeat_secs 1;
    shutdown_file = file.shutdown_file;
    max_peers = max file.max_peers 1;
    min_relay_fee = max (unwrap_or config.min_relay_fee file.min_relay_fee) min_relay_fee_floor;
    market_fee = unwrap_or config.market_fee file.market_fee;
    low_fee_expiry = unwrap_or config.low_fee_expiry (at_least_one file.low_fee_expiry_secs);
    mempool_expiry = unwrap_or config.mempool_expiry (at_least_one file.mempool_expiry_secs);
    miner_address = config.miner_address;
    miner_secret_key = config.miner_secret_key;
    mine = file.mine;
    mine_interval = file.mine_interval_secs;
    mine_attempts = file.mine_attempts;
  }

  -- The last three fields, which set the miner.
  unfoldable pub with_miner : RunConfig → RunConfigFile → Configured
  unfolding apply_wallet_file parse_address parse_secret_key
  with_miner config file = do
    config ← with_wallet config file.wallet
    config ← with_miner_address config file.miner_address
    with_secret_key config file.miner_secret_key

  unfoldable pub apply_run_config_file : RunConfig → RunConfigFile → Configured
  unfolding into_vec parse_all file_fields with_miner
  apply_run_config_file config file = do
    listen_addrs ← parse_all (into_vec file.listen_addr) "listen_addr"
    rpc_addr ← ok_or (parse_socket_addr file.rpc_addr) (invalid_value "rpc_addr")
    peers ← parse_all file.peers "peer"
    public_addrs ← parse_all (many_or_none file.public_addr) "public_addr"
    with_miner (file_fields config file listen_addrs rpc_addr peers public_addrs) file

  unfoldable pub load_run_config_file_if_exists : String → Result ConfigError (Option RunConfigFile)
  load_run_config_file_if_exists path = ok_or (read_config_file path) (unreadable path)
