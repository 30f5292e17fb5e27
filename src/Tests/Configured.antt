-- ===== src/Tests/Configured.antt =====
-- The configuration at a concrete command line.
use text.Mathlib.Text.{◌==◌ as str_eq}
use paqus_node.Base.{◌≡◌, refl, false, [], ◌∷◌, none, some, ok, if◌then◌else◌}
use paqus_node.BTreeMap.{get}
use paqus_node.Config.{Host, RunConfig, default_run_config}
use paqus_node.Config.Args.{parse_run_config}
use paqus_node.Config.Normal.{IsNormal, parse_run_config-IsNormal}
use paqus_node.Tests.Keys.{toy}

-- Only the texts of the command line below are read.
instance abbrev console : Host
console = record {
  trim = λ text. text;
  starts_with_dash = λ text. false;
  parse_socket_addr = λ text. some 80;
  parse_below = λ bound text. some (if str_eq text "0" then 0 else 7);
  decode_hex = λ text. none;
  secret_key_of = λ bytes. none;
  read_config_file = λ path. some none;
  read_wallet_file = λ path. none;
}

abbrev chosen : RunConfig
chosen = record (default_run_config 10 20 600) {
  listen_addrs = 80 ∷ [];
  max_peers = 1;
  min_relay_fee = 7;
  market_fee = 7;
}

line_parsed :
    parse_run_config
      (default_run_config 10 20 600)
      ("--listen" ∷ "a" ∷ "--max-peers" ∷ "0" ∷ "--min-relay-fee" ∷ "7" ∷ [])
    ≡ ok chosen
unfolding parse_run_config get default_run_config
line_parsed = refl

parse_run_config-IsNormal_example : IsNormal chosen
parse_run_config-IsNormal_example =
    parse_run_config-IsNormal 10 20 600
      ("--listen" ∷ "a" ∷ "--max-peers" ∷ "0" ∷ "--min-relay-fee" ∷ "7" ∷ []) chosen line_parsed
