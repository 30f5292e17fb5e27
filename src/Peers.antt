-- ===== src/Peers.antt =====
-- src/p2p.rs: how long a peer is left alone after a failure, and the list of peers without repeats.
-- Times are in seconds.
pub mod Backoff
pub mod Unique
pub mod Sync
pub mod Gate
pub mod Polls
use paqus_node.Base.{
  ℕ, ◌+◌, ◌-◌, ◌*◌, ◌^◌, min, Bool, List, [], ◌∷◌, Option, none, some, if◌then◌else◌, is_some,
  saturating_add_u32, u64_max,
}
use paqus_node.BTreeMap
use paqus_node.BTreeMap.{BTreeMap}

abbrev pub default_sync_interval : ℕ
default_sync_interval = 5

abbrev pub peer_retry_base : ℕ
peer_retry_base = 2

abbrev pub peer_retry_max : ℕ
peer_retry_max = 60

pub record PeerState : Type 0 where
  pub addr : ℕ
  pub failures : ℕ
  pub next_attempt : ℕ
  pub last_tip : Option ℕ

unfoldable pub new : ℕ → ℕ → PeerState
new addr now = record { addr = addr; failures = 0; next_attempt = now; last_tip = none }

unfoldable pub mark_ok : PeerState → Option ℕ → ℕ → PeerState
mark_ok p tip now = record p {
  failures = 0;
  last_tip = tip;
  next_attempt = now + default_sync_interval;
}

-- The seconds to wait after this many failures.
unfoldable pub retry_secs : ℕ → ℕ
retry_secs failures =
    let shift = min (failures - 1) 5 in
    min (min (peer_retry_base * 2 ^ shift) u64_max) peer_retry_max

unfoldable pub mark_failed : PeerState → ℕ → PeerState
mark_failed p now =
    let failures = saturating_add_u32 p.failures 1 in
    record p { failures = failures; next_attempt = now + retry_secs failures }

-- `retain(|peer| seen.insert(*peer))`, addresses read as numbers.
unfoldable pub retain_unseen : BTreeMap (Unit {0}) → List ℕ → List ℕ
retain_unseen seen [] = []
retain_unseen seen (p ∷ peers) =
    let rest = retain_unseen (BTreeMap.insert p tt seen) peers in
    if is_some (BTreeMap.get p seen) then rest else p ∷ rest

unfoldable pub dedupe_peers : List ℕ → List ℕ
dedupe_peers peers = retain_unseen [] peers
