-- ===== src/Config/Args.antt =====
-- src/main.rs, `parse_run_config`: the command line of `node run`.
use Prim.Native.String.{String}
use text.Mathlib.Text.{◌==◌ as str_eq}
use paqus_node.Base.{
  ℕ, ◌^◌, max, Bool, true, false, not, ◌||◌, ◌&&◌, List, [], ◌∷◌, ◌++◌, map, Option, none, some,
  if◌then◌else◌, Result, ok, err, ◌>>=◌, ok_or, u32_modulus,
}
use paqus_node.Config.{
  Host, RunConfig, RunConfigFile, Configured, ConfigError, missing_value, invalid_value,
  unknown_option, premine_is_fixed, default_node_db, default_config_file, min_relay_fee_floor,
  parse_socket, parse_address, parse_secret_key, apply_wallet_file, dedupe_socket_addrs,
  normalize_mempool_policy,
}
use paqus_node.Config.File.{apply_run_config_file, load_run_config_file_if_exists}
use paqus_node.Signing.{Crypto}

-- The options that take a value.
pub data ValueFlag : Type 0 where
  config_flag db_flag listen_flag rpc_flag peer_flag peers_file_flag gateway_flag public_flag :
      ValueFlag
  heartbeat_flag shutdown_flag max_peers_flag min_fee_flag market_fee_flag : ValueFlag
  low_expiry_flag expiry_flag miner_flag wallet_flag secret_key_flag : ValueFlag
  mine_interval_flag mine_attempts_flag : ValueFlag

pub data Arg : Type 0 where
  takes_value : ValueFlag → Arg
  premine mine other : Arg

unfoldable pub arg_kind : String → Arg
arg_kind arg =
    if str_eq arg "--config"
    then takes_value config_flag
    else if str_eq arg "--db" || str_eq arg "--db-path"
    then takes_value db_flag
    else if str_eq arg "--listen"
    then takes_value listen_flag
    else if str_eq arg "--rpc-listen"
    then takes_value rpc_flag
    else if str_eq arg "--peer"
    then takes_value peer_flag
    else if str_eq arg "--peers-file"
    then takes_value peers_file_flag
    else if str_eq arg "--gateway" || str_eq arg "--gateway-url"
    then takes_value gateway_flag
    else if str_eq arg "--public-addr"
    then takes_value public_flag
    else if str_eq arg "--gateway-heartbeat-secs"
    then takes_value heartbeat_flag
    else if str_eq arg "--shutdown-file"
    then takes_value shutdown_flag
    else if str_eq arg "--max-peers"
    then takes_value max_peers_flag
    else if str_eq arg "--min-relay-fee"
    then takes_value min_fee_flag
    else if str_eq arg "--market-fee"
    then takes_value market_fee_flag
    else if str_eq arg "--low-fee-expiry-secs"
    then takes_value low_expiry_flag
    else if str_eq arg "--mempool-expiry-secs"
    then takes_value expiry_flag
    else if str_eq arg "--miner"
    then takes_value miner_flag
    else if str_eq arg "--wallet"
    then takes_value wallet_flag
    else if str_eq arg "--miner-secret-key"
    then takes_value secret_key_flag
    else if str_eq arg "--premine"
    then premine
    else if str_eq arg "--mine"
    then mine
    else if str_eq arg "--mine-interval-secs"
    then takes_value mine_interval_flag
    else if str_eq arg "--mine-attempts"
    then takes_value mine_attempts_flag
    else other

-- What the error says where the value of an option is missing.
unfoldable pub missing : ValueFlag → ConfigError
missing config_flag = missing_value "--config"
missing db_flag = missing_value "--db"
missing listen_flag = missing_value "--listen"
missing rpc_flag = missing_value "--rpc-listen"
missing peer_flag = missing_value "--peer"
missing peers_file_flag = missing_value "--peers-file"
missing gateway_flag = missing_value "--gateway"
missing public_flag = missing_value "--public-addr"
missing heartbeat_flag = missing_value "--gateway-heartbeat-secs"
missing shutdown_flag = missing_value "--shutdown-file"
missing max_peers_flag = missing_value "--max-peers"
missing min_fee_flag = missing_value "--min-relay-fee"
missing market_fee_flag = missing_value "--market-fee"
missing low_expiry_flag = missing_value "--low-fee-expiry-secs"
missing expiry_flag = missing_value "--mempool-expiry-secs"
missing miner_flag = missing_value "address"
missing wallet_flag = missing_value "--wallet"
missing secret_key_flag = missing_value "secret key"
missing mine_interval_flag = missing_value "--mine-interval-secs"
missing mine_attempts_flag = missing_value "--mine-attempts"

module _ ⦃crypto : Crypto⦄ where
  -- The configuration that the loop changes, and whether an option has replaced the addresses.
  pub record Parsing : Type 0 where
    pub config : RunConfig
    pub listen_overridden : Bool
    pub public_overridden : Bool

  abbrev pub Parsed : Type 0
  Parsed = Result ConfigError Parsing

  module _ ⦃host : Host⦄ where
    open host use {trim, starts_with_dash, parse_below}

    abbrev pub kept_if {ℓ} : {A : Type ℓ} → Bool → List A → List A
    kept_if true addrs = addrs
    kept_if false addrs = []

    abbrev pub set : Parsing → RunConfig → Parsed
    set p config = ok (record p { config = config })

    -- `parse::<u64>()`, and `parse::<usize>()`.
    abbrev pub parse_u64 : String → String → Result ConfigError ℕ
    parse_u64 text name = ok_or (parse_below (2 ^ 64) text) (invalid_value name)

    -- `parse::<u32>()`.
    abbrev pub parse_u32 : String → String → Result ConfigError ℕ
    parse_u32 text name = ok_or (parse_below u32_modulus text) (invalid_value name)

    unfoldable pub set_value : ValueFlag → String → Parsing → Parsed
    unfolding parse_socket parse_address parse_secret_key apply_wallet_file
    set_value config_flag text p = ok p
    set_value db_flag text p = set p (record p.config { db_path = text })
    set_value listen_flag text p = do
      addr ← parse_socket (some text) "--listen"
      let addrs = kept_if p.listen_overridden p.config.listen_addrs ++ addr ∷ []
      ok (record p { config = record p.config { listen_addrs = addrs }; listen_overridden = true })
    set_value rpc_flag text p = do
      addr ← parse_socket (some text) "--rpc-listen"
      set p (record p.config { rpc_addr = addr })
    set_value peer_flag text p = do
      addr ← parse_socket (some text) "--peer"
      set p (record p.config { peers = p.config.peers ++ addr ∷ [] })
    set_value peers_file_flag text p = set p (record p.config { peers_file = some text })
    set_value gateway_flag text p = set p (record p.config { gateway_url = some text })
    set_value public_flag text p = do
      addr ← parse_socket (some text) "--public-addr"
      let addrs = kept_if p.public_overridden p.config.public_addrs ++ addr ∷ []
      ok (record p { config = record p.config { public_addrs = addrs }; public_overridden = true })
    set_value heartbeat_flag text p = do
      secs ← parse_u64 text "gateway heartbeat interval"
      set p (record p.config { gateway_heartbeat = max secs 1 })
    set_value shutdown_flag text p = set p (record p.config { shutdown_file = text })
    set_value max_peers_flag text p = do
      count ← parse_u64 text "max peers"
      set p (record p.config { max_peers = max count 1 })
    set_value min_fee_flag text p = do
      fee ← parse_u32 text "min relay fee"
      set p (record p.config { min_relay_fee = max fee min_relay_fee_floor })
    set_value market_fee_flag text p = do
      fee ← parse_u32 text "market fee"
      set p (record p.config { market_fee = fee })
    set_value low_expiry_flag text p = do
      secs ← parse_u64 text "low fee expiry"
      set p (record p.config { low_fee_expiry = max secs 1 })
    set_value expiry_flag text p = do
      secs ← parse_u64 text "mempool expiry"
      set p (record p.config { mempool_expiry = max secs 1 })
    set_value miner_flag text p = do
      address ← parse_address (some text)
      set p (record p.config { miner_address = address })
    set_value wallet_flag text p = do config ← apply_wallet_file p.config (some text); set p config
    set_value secret_key_flag text p = do
      key ← parse_secret_key (some text)
      set p (record p.config { miner_secret_key = some key })
    set_value mine_interval_flag text p = do
      secs ← parse_u64 text "mining interval"
      set p (record p.config { mine_interval = secs })
    set_value mine_attempts_flag text p = do
      attempts ← parse_u64 text "mining attempts"
      set p (record p.config { mine_attempts = attempts })

    -- The last two arms: a plain argument names the database while it has its default name.
    unfoldable pub set_plain : String → Parsing → Parsed
    set_plain arg p =
        if not (starts_with_dash arg) && str_eq p.config.db_path default_node_db
        then set p (record p.config { db_path = arg })
        else err (unknown_option arg)

    -- The arms of the match, before the rest of the loop.
    abbrev pub match_arg : Arg → String → Parsing → (Option ValueFlag → Parsing → Parsed) → Parsed
    match_arg (takes_value flag) arg p rest = rest (some flag) p
    match_arg premine arg p rest = err premine_is_fixed
    match_arg mine arg p rest = rest none (record p { config = record p.config { mine = true } })
    match_arg other arg p rest = do p ← set_plain arg p; rest none p

    -- The loop over the arguments; a flag stands while its value is waited for.
    unfoldable pub parse_args : List String → Option ValueFlag → Parsing → Parsed
    unfolding arg_kind set_value set_plain
    parse_args [] none p = ok p
    parse_args [] (some flag) p = err (missing flag)
    parse_args (text ∷ rest) (some flag) p = do p ← set_value flag text p; parse_args rest none p
    parse_args (arg ∷ rest) none p = match_arg (arg_kind arg) arg p (parse_args rest)

    -- The value of the first `--config` that has one, whatever stands before it.
    unfoldable pub config_path_arg : List String → Option String
    config_path_arg [] = none
    config_path_arg (arg ∷ []) = none
    config_path_arg (arg ∷ value ∷ rest) =
        let behind = config_path_arg (value ∷ rest) in
        if str_eq arg "--config" then some value else behind

    abbrev pub or_default : Option String → String
    or_default none = default_config_file
    or_default (some path) = path

    abbrev pub with_file : RunConfig → Option RunConfigFile → Configured
    with_file config none = ok config
    with_file config (some file) = apply_run_config_file config file

    unfoldable pub finish : RunConfig → RunConfig
    unfolding dedupe_socket_addrs normalize_mempool_policy
    finish config = normalize_mempool_policy (record config {
      listen_addrs = dedupe_socket_addrs config.listen_addrs;
      public_addrs = dedupe_socket_addrs config.public_addrs;
    })

    -- The defaults are an argument.
    unfoldable pub parse_run_config : RunConfig → List String → Configured
    unfolding load_run_config_file_if_exists apply_run_config_file config_path_arg parse_args finish
    parse_run_config defaults args = do
      let trimmed = map trim args
      file ← load_run_config_file_if_exists (or_default (config_path_arg trimmed))
      config ← with_file defaults file
      parsed ←
          parse_args trimmed none
            (record { config = config; listen_overridden = false; public_overridden = false })
      ok (finish parsed.config)
