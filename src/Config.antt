-- ===== src/Config.antt =====
-- src/main.rs: the configuration of a node, from its defaults, its file and its command line. Durations are
-- in seconds and socket addresses are numbers.
pub mod File
pub mod Args
pub mod Normal
use Prim.Native.String.{String}
use paqus_node.Base.{
  ℕ, zero, suc, ◌*◌, max, Bool, true, false, not, List, [], ◌∷◌, Option, none, some, ltb, ◌==◌,
  if◌then◌else◌, Result, ok, err, ◌>>=◌, ◌>>◌, ok_or, reject_if, map_err, Bytes, length, of_bytes,
}
use paqus_node.Peers.{retain_unseen}
use paqus_node.Signing.{Crypto, from_secret_key}

abbrev pub min_relay_fee_floor : ℕ
min_relay_fee_floor = 1

abbrev pub default_node_db : String
default_node_db = "./data/paqus"

abbrev pub default_config_file : String
default_config_file = "./data/paqus/node.json"

-- The texts of the errors, by what they say.
pub data ConfigError : Type 0 where
  missing_value : String → ConfigError
  invalid_value : String → ConfigError
  unreadable : String → ConfigError
  unknown_option : String → ConfigError
  premine_is_fixed : ConfigError
  wallet_mismatch : ConfigError

pub data OneOrMany {ℓ} (A : Type ℓ) : Type ℓ where
  one : A → OneOrMany A
  many : List A → OneOrMany A

unfoldable pub into_vec {ℓ} : {A : Type ℓ} → OneOrMany A → List A
into_vec (one a) = a ∷ []
into_vec (many as_many) = as_many

pub record RunConfigFile : Type 0 where
  pub db_path : String
  pub listen_addr : OneOrMany String
  pub rpc_addr : String
  pub peers : List String
  pub peers_file : Option String
  pub gateway_url : Option String
  pub public_addr : Option (OneOrMany String)
  pub gateway_heartbeat_secs : ℕ
  pub shutdown_file : String
  pub max_peers : ℕ
  pub min_relay_fee : Option ℕ
  pub market_fee : Option ℕ
  pub low_fee_expiry_secs : Option ℕ
  pub mempool_expiry_secs : Option ℕ
  pub wallet : Option String
  pub miner_address : Option String
  pub miner_secret_key : Option String
  pub mine : Bool
  pub mine_interval_secs : ℕ
  pub mine_attempts : ℕ

unfoldable pub dedupe_socket_addrs : List ℕ → List ℕ
unfolding retain_unseen
dedupe_socket_addrs = retain_unseen []

module _ ⦃crypto : Crypto⦄ where
  open crypto use {SecretKey}

  -- What the code takes from the standard library, from the crate `hex`, and from files: parsing of a
  -- socket address and of a number below a bound, and the parsed contents of a configuration (`none` if
  -- there is no file) and of a wallet, its address and its key.
  pub record Host : Type 0 where
    pub trim : String → String
    pub starts_with_dash : String → Bool
    pub parse_socket_addr : String → Option ℕ
    pub parse_below : ℕ → String → Option ℕ
    pub decode_hex : String → Option Bytes
    pub secret_key_of : Bytes → Option SecretKey
    pub read_config_file : String → Option (Option RunConfigFile)
    pub read_wallet_file : String → Option (String × String)

  pub record RunConfig : Type 0 where
    pub db_path : String
    pub listen_addrs : List ℕ
    pub rpc_addr : ℕ
    pub peers : List ℕ
    pub peers_file : Option String
    pub gateway_url : Option String
    pub public_addrs : List ℕ
    pub gateway_heartbeat : ℕ
    pub shutdown_file : String
    pub max_peers : ℕ
    pub min_relay_fee : ℕ
    pub market_fee : ℕ
    pub low_fee_expiry : ℕ
    pub mempool_expiry : ℕ
    pub miner_address : ℕ
    pub miner_secret_key : Option SecretKey
    pub mine : Bool
    pub mine_interval : ℕ
    pub mine_attempts : ℕ

  -- `RunConfig::default`, with the parsed default addresses and `BLOCK_TIME`.
  unfoldable pub default_run_config : ℕ → ℕ → ℕ → RunConfig
  default_run_config listen_addr rpc_addr block_time = record {
    db_path = default_node_db;
    listen_addrs = listen_addr ∷ [];
    rpc_addr = rpc_addr;
    peers = [];
    peers_file = some "./data/paqus/peers.json";
    gateway_url = none;
    public_addrs = [];
    gateway_heartbeat = 60;
    shutdown_file = "./data/paqus/STOP";
    max_peers = 128;
    min_relay_fee = min_relay_fee_floor;
    market_fee = 2;
    low_fee_expiry = 30 * 60;
    mempool_expiry = 24 * 60 * 60;
    miner_address = of_bytes (repeat 20 9);
    miner_secret_key = none;
    mine = false;
    mine_interval = block_time;
    mine_attempts = 10_000;
  }
    where
      repeat : ℕ → ℕ → Bytes
      repeat zero b = []
      repeat (suc n) b = b ∷ repeat n b

  abbrev pub Configured : Type 0
  Configured = Result ConfigError RunConfig

  module _ ⦃host : Host⦄ where
    open host use {parse_socket_addr, decode_hex, secret_key_of, read_config_file, read_wallet_file}

    unfoldable pub parse_socket : Option String → String → Result ConfigError ℕ
    parse_socket value flag = do
      text ← ok_or value (missing_value flag)
      ok_or (parse_socket_addr text) (invalid_value flag)

    -- An address has 20 bytes.
    unfoldable pub parse_address_hex : String → Result ConfigError ℕ
    parse_address_hex value = do
      bytes ← ok_or (decode_hex value) (invalid_value "address")
      reject_if (not (length bytes == 20)) (invalid_value "address")
      ok (of_bytes bytes)

    unfoldable pub parse_address : Option String → Result ConfigError ℕ
    unfolding parse_address_hex
    parse_address value = do text ← ok_or value (missing_value "address"); parse_address_hex text

    unfoldable pub parse_secret_key : Option String → Result ConfigError SecretKey
    parse_secret_key value = do
      text ← ok_or value (missing_value "secret key")
      bytes ← ok_or (decode_hex text) (invalid_value "secret key")
      ok_or (secret_key_of bytes) (invalid_value "secret key")

    -- The wallet of a file, if its address is that of its key.
    unfoldable pub load_wallet : String → Result ConfigError (ℕ × SecretKey)
    unfolding parse_address parse_secret_key from_secret_key
    load_wallet path = do
      (address_text, key_text) ← ok_or (read_wallet_file path) (unreadable path)
      address ← parse_address (some address_text)
      secret_key ← parse_secret_key (some key_text)
      let wallet = from_secret_key secret_key
      reject_if (not (wallet.address == address)) wallet_mismatch
      ok (wallet.address, wallet.secret_key)

    unfoldable pub apply_wallet_file : RunConfig → Option String → Configured
    unfolding load_wallet
    apply_wallet_file config path = do
      file ← ok_or path (missing_value "--wallet")
      (address, secret_key) ← load_wallet file
      ok (record config { miner_address = address; miner_secret_key = some secret_key })

  unfoldable pub normalize_mempool_policy : RunConfig → RunConfig
  normalize_mempool_policy config =
      let fee = max config.min_relay_fee min_relay_fee_floor in
      record config {
        min_relay_fee = fee;
        market_fee = max config.market_fee fee;
        low_fee_expiry =
            if ltb config.mempool_expiry config.low_fee_expiry
            then config.mempool_expiry
            else config.low_fee_expiry;
      }
