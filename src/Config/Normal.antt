-- ===== src/Config/Normal.antt =====
-- What src/main.rs guarantees of a configuration, however it is given.
use Prim.Native.String.{String}
use paqus_node.Base.{
  ℕ, ◌≤◌, ◌≡◌, true, false, List, [], ◌∷◌, map, Option, none, some, ok, ◌>>=◌, ok_steps, ok_or,
  IsDistinct, arith,
}
use mathlib.Core.Path.{subst}
use paqus_node.Config.{
  Host, RunConfig, RunConfigFile, min_relay_fee_floor, default_run_config, into_vec, invalid_value,
  apply_wallet_file, dedupe_socket_addrs, normalize_mempool_policy,
}
use paqus_node.Config.File.{
  with_wallet, with_miner_address, with_secret_key, with_miner, file_fields, many_or_none,
  apply_run_config_file, load_run_config_file_if_exists, parse_all,
}
use paqus_node.Config.Args.{
  ValueFlag, Arg, config_flag, db_flag, listen_flag, rpc_flag, peer_flag, peers_file_flag,
  gateway_flag, public_flag, heartbeat_flag, shutdown_flag, max_peers_flag, min_fee_flag,
  market_fee_flag, low_expiry_flag, expiry_flag, miner_flag, wallet_flag, secret_key_flag,
  mine_interval_flag, mine_attempts_flag, takes_value, premine, mine, other, Parsing, set_value,
  set_plain, parse_args, arg_kind, match_arg, Parsed, config_path_arg, or_default, with_file,
  finish, parse_run_config,
}
use paqus_node.Peers.{dedupe_peers}
use paqus_node.Peers.Unique.{dedupe_peers-IsDistinct}
use paqus_node.Signing.{Crypto}

dedupe_socket_addrs-IsDistinct : (addrs : List ℕ) → IsDistinct (dedupe_socket_addrs addrs)
unfolding dedupe_socket_addrs dedupe_peers
dedupe_socket_addrs-IsDistinct addrs = (dedupe_peers-IsDistinct addrs).0

module _ ⦃crypto : Crypto⦄ where
  -- The limits that are not zero.
  pub record IsPositive (c : RunConfig) : Type 0 where
    pub peers_positive : 1 ≤ c.max_peers
    pub heartbeat_positive : 1 ≤ c.gateway_heartbeat
    pub low_positive : 1 ≤ c.low_fee_expiry
    pub expiry_positive : 1 ≤ c.mempool_expiry

  pub record IsNormal (c : RunConfig) : Type 0 where
    pub positive : IsPositive c
    pub fee_floor : min_relay_fee_floor ≤ c.min_relay_fee
    pub fee_order : c.min_relay_fee ≤ c.market_fee
    pub expiry_order : c.low_fee_expiry ≤ c.mempool_expiry
    pub listen_distinct : IsDistinct c.listen_addrs
    pub public_distinct : IsDistinct c.public_addrs

  module _ ⦃host : Host⦄ where
    set_value-IsPositive :
        (flag : ValueFlag) (text : String) (p q : Parsing)
        → IsPositive p.config
        → set_value flag text p ≡ ok q
        → IsPositive q.config
    unfolding set_value
    set_value-IsPositive config_flag text p q v e = ground arith
    set_value-IsPositive db_flag text p q v e = ground arith
    set_value-IsPositive listen_flag text p q v e = ground arith
    set_value-IsPositive rpc_flag text p q v e = ground arith
    set_value-IsPositive peer_flag text p q v e = ground arith
    set_value-IsPositive peers_file_flag text p q v e = ground arith
    set_value-IsPositive gateway_flag text p q v e = ground arith
    set_value-IsPositive public_flag text p q v e = ground arith
    set_value-IsPositive heartbeat_flag text p q v e = ground arith
    set_value-IsPositive shutdown_flag text p q v e = ground arith
    set_value-IsPositive max_peers_flag text p q v e = ground arith
    set_value-IsPositive min_fee_flag text p q v e = ground arith
    set_value-IsPositive market_fee_flag text p q v e = ground arith
    set_value-IsPositive low_expiry_flag text p q v e = ground arith
    set_value-IsPositive expiry_flag text p q v e = ground arith
    set_value-IsPositive miner_flag text p q v e = ground arith
    set_value-IsPositive wallet_flag text p q v e = ground arith
    set_value-IsPositive secret_key_flag text p q v e = ground arith
    set_value-IsPositive mine_interval_flag text p q v e = ground arith
    set_value-IsPositive mine_attempts_flag text p q v e = ground arith

    set_plain-IsPositive :
        (arg : String) (p q : Parsing)
        → IsPositive p.config
        → set_plain arg p ≡ ok q
        → IsPositive q.config
    unfolding set_plain
    set_plain-IsPositive arg p q v e = ground arith

    match_arg-IsPositive :
        (kind : Arg) (arg : String) (p q : Parsing) (rest : Option ValueFlag → Parsing → Parsed)
        → ((waiting : Option ValueFlag) (r : Parsing)
            → IsPositive r.config
            → rest waiting r ≡ ok q
            → IsPositive q.config)
        → IsPositive p.config
        → match_arg kind arg p rest ≡ ok q
        → IsPositive q.config
    match_arg-IsPositive (takes_value flag) arg p q rest keeps v e = keeps (some flag) p v e
    match_arg-IsPositive premine arg p q rest keeps v e = absurd (cc)
    match_arg-IsPositive mine arg p q rest keeps v e =
        keeps none (record p { config = record p.config { mine = true } }) (ground arith) e
    match_arg-IsPositive other arg p q rest keeps v e =
        let (next, set, after) = ok_steps (set_plain arg p) (rest none) e in
        keeps none next (set_plain-IsPositive arg p next v set) after

    parse_args-IsPositive :
        (args : List String) (waiting : Option ValueFlag) (p q : Parsing)
        → IsPositive p.config
        → parse_args args waiting p ≡ ok q
        → IsPositive q.config
    unfolding parse_args
    parse_args-IsPositive [] none p q v e =
        let same : p ≡ q = cc in subst (λ (r : Parsing). IsPositive r.config) same v
    parse_args-IsPositive [] (some flag) p q v e = absurd (cc)
    parse_args-IsPositive (text ∷ rest) (some flag) p q v e =
        let (next, set, after) = ok_steps (set_value flag text p) (parse_args rest none) e in
        parse_args-IsPositive rest none next q (set_value-IsPositive flag text p next v set) after
    parse_args-IsPositive (arg ∷ rest) none p q v e =
        match_arg-IsPositive (arg_kind arg) arg p q (parse_args rest)
          (λ waiting r w f. parse_args-IsPositive rest waiting r q w f) v e

    with_wallet-IsPositive :
        (c d : RunConfig) (path : Option String)
        → IsPositive c
        → with_wallet c path ≡ ok d
        → IsPositive d
    unfolding apply_wallet_file
    with_wallet-IsPositive c d none v e = ground arith
    with_wallet-IsPositive c d (some path) v e = ground arith

    with_miner_address-IsPositive :
        (c d : RunConfig) (text : Option String)
        → IsPositive c
        → with_miner_address c text ≡ ok d
        → IsPositive d
    with_miner_address-IsPositive c d none v e = ground arith
    with_miner_address-IsPositive c d (some text) v e = ground arith

    with_secret_key-IsPositive :
        (c d : RunConfig) (text : Option String)
        → IsPositive c
        → with_secret_key c text ≡ ok d
        → IsPositive d
    with_secret_key-IsPositive c d none v e = ground arith
    with_secret_key-IsPositive c d (some text) v e = ground arith

    with_miner-IsPositive :
        (c d : RunConfig) (file : RunConfigFile)
        → IsPositive c
        → with_miner c file ≡ ok d
        → IsPositive d
    unfolding with_miner
    with_miner-IsPositive c d file v e =
        let (c1, done1, e1) =
          ok_steps (with_wallet c file.wallet)
            (λ c1. do
              c2 ← with_miner_address c1 file.miner_address
              with_secret_key c2 file.miner_secret_key)
            e in
        let (c2, done2, e2) =
          ok_steps (with_miner_address c1 file.miner_address)
            (λ c2. with_secret_key c2 file.miner_secret_key) e1 in
        with_secret_key-IsPositive c2 d file.miner_secret_key
          (with_miner_address-IsPositive c1 c2 file.miner_address
            (with_wallet-IsPositive c c1 file.wallet v done1) done2)
          e2

    file_fields-IsPositive :
        (c : RunConfig) (file : RunConfigFile) (listen_addrs : List ℕ) (rpc_addr : ℕ)
        (peers public_addrs : List ℕ)
        → IsPositive c
        → IsPositive (file_fields c file listen_addrs rpc_addr peers public_addrs)
    unfolding file_fields
    file_fields-IsPositive c file listen_addrs rpc_addr peers public_addrs v = ground arith

    apply_run_config_file-IsPositive :
        (c d : RunConfig) (file : RunConfigFile)
        → IsPositive c
        → apply_run_config_file c file ≡ ok d
        → IsPositive d
    unfolding apply_run_config_file
    apply_run_config_file-IsPositive c d file v e =
        let rpc = ok_or (host.parse_socket_addr file.rpc_addr) (invalid_value "rpc_addr") in
        let public = parse_all (many_or_none file.public_addr) "public_addr" in
        let last =
          λ (l : List ℕ) (r : ℕ) (p q : List ℕ). with_miner (file_fields c file l r p q) file in
        let (l, _, e1) =
          ok_steps (parse_all (into_vec file.listen_addr) "listen_addr")
            (λ l. do r ← rpc; p ← parse_all file.peers "peer"; q ← public; last l r p q) e in
        let (r, _, e2) =
          ok_steps rpc (λ r. do p ← parse_all file.peers "peer"; q ← public; last l r p q) e1 in
        let (p, _, e3) =
          ok_steps (parse_all file.peers "peer") (λ p. do q ← public; last l r p q) e2 in
        let (q, _, e4) = ok_steps public (last l r p) e3 in
        with_miner-IsPositive (file_fields c file l r p q) d file
          (file_fields-IsPositive c file l r p q v) e4

    with_file-IsPositive :
        (c d : RunConfig) (file : Option RunConfigFile)
        → IsPositive c
        → with_file c file ≡ ok d
        → IsPositive d
    with_file-IsPositive c d none v e = ground arith
    with_file-IsPositive c d (some file) v e = apply_run_config_file-IsPositive c d file v e

    finish-IsNormal : (c : RunConfig) → IsPositive c → IsNormal (finish c)
    unfolding finish normalize_mempool_policy
    finish-IsNormal c v = record {
      positive = ground arith;
      fee_floor = ground arith;
      fee_order = ground arith;
      expiry_order = ground arith;
      listen_distinct = dedupe_socket_addrs-IsDistinct c.listen_addrs;
      public_distinct = dedupe_socket_addrs-IsDistinct c.public_addrs;
    }

    -- Of a configuration that is accepted, whatever the command line and the configuration file say: the
    -- relay fee is at least the floor and the market fee at least that, low fees do not outlive the pool's
    -- expiry, there is room for a peer, the heartbeat and both expiries last at least a second, and no address
    -- to listen on or to announce stands twice.
    pub parse_run_config-IsNormal :
        (listen_addr rpc_addr block_time : ℕ) (args : List String) (c : RunConfig)
        → parse_run_config (default_run_config listen_addr rpc_addr block_time) args ≡ ok c
        → IsNormal c
    unfolding parse_run_config default_run_config
    parse_run_config-IsNormal listen_addr rpc_addr block_time args c e =
        let defaults = default_run_config listen_addr rpc_addr block_time in
        let trimmed = map host.trim args in
        let parsing : RunConfig → Parsing =
          λ d. record { config = d; listen_overridden = false; public_overridden = false } in
        let (file, _, e1) =
          ok_steps (load_run_config_file_if_exists (or_default (config_path_arg trimmed)))
            (λ file. do
              d ← with_file defaults file
              p ← parse_args trimmed none (parsing d)
              ok (finish p.config))
            e in
        let (d, filed, e2) =
          ok_steps (with_file defaults file)
            (λ d. do p ← parse_args trimmed none (parsing d); ok (finish p.config)) e1 in
        let (p, parsed, e3) =
          ok_steps (parse_args trimmed none (parsing d)) (λ p. ok (finish p.config)) e2 in
        let same : finish p.config ≡ c = cc in
        let v = with_file-IsPositive defaults d file (omega arith) filed in
        subst IsNormal same
          (finish-IsNormal p.config (parse_args-IsPositive trimmed none (parsing d) p v parsed))
