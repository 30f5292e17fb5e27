-- ===== src/Service.antt =====
-- src/main.rs, the peers that a running node knows: `NodeService`'s tables of peers and connections, and
-- what they decide about mining. Locks are not poisoned, and files are not modelled.
pub mod Known
pub mod Mining
pub mod Table
use Prim.Native.String.{String}
use paqus_node.Base.{
  ℕ, Bool, true, false, not, ◌&&◌, ◌||◌, List, [], ◌∷◌, map, Option, none, some, ltb, leb, elem,
  any, length, if◌then◌else◌, is_some, Result, ok, err,
}
use paqus_node.BTreeMap
use paqus_node.BTreeMap.{BTreeMap, Set, values}
use paqus_node.Network.{PeerInfo}
use paqus_node.Peers.{PeerState, new, mark_ok, mark_failed}
use paqus_node.Peers.Sync.{PeerPoll, idle, synced}

abbrev pub max_peer_failures : ℕ
max_peer_failures = 3

-- The known peers, by their addresses, and the outbound connections.
pub record PeerTable : Type 0 where
  pub peers : BTreeMap PeerState
  pub peer_connections : Set

-- The peers of the configuration, without connections.
unfoldable pub collect_peers : List ℕ → ℕ → BTreeMap PeerState → BTreeMap PeerState
unfolding BTreeMap.insert new
collect_peers [] now table = table
collect_peers (addr ∷ addrs) now table =
    collect_peers addrs now (BTreeMap.insert addr (new addr now) table)

unfoldable pub new_table : List ℕ → ℕ → PeerTable
unfolding collect_peers
new_table addrs now = record { peers = collect_peers addrs now []; peer_connections = [] }

unfoldable pub requires_peer_sync : Bool → List ℕ → Option String → Bool
requires_peer_sync mine peers gateway_url =
    mine && (not (length_is_zero peers) || is_some gateway_url)
  where
    length_is_zero : List ℕ → Bool
    length_is_zero [] = true
    length_is_zero (addr ∷ addrs) = false

-- The addresses of the node itself, and the limit on the table.
pub record Limits : Type 0 where
  pub public_addrs : List ℕ
  pub listen_addrs : List ℕ
  pub max_peers : ℕ

-- The table, and whether it has changed.
abbrev pub Adding : Type 0
Adding = BTreeMap PeerState × Bool

-- Parsing a socket address is the argument.
module _ (parse_socket_addr : String → Option ℕ) where
  -- One info: unparsed, own and known addresses are passed over. `known` are the peers before the loop.
  unfoldable pub add_peer : Limits → ℕ → BTreeMap PeerState → Option ℕ → Adding → Adding
  unfolding BTreeMap.insert BTreeMap.get new
  add_peer limits now known none adding = adding
  add_peer limits now known (some addr) adding =
      if elem addr limits.public_addrs || elem addr limits.listen_addrs
      then adding
      else if is_some (BTreeMap.get addr known)
      then adding
      else if is_some (BTreeMap.get addr adding.0)
      then adding
      else (BTreeMap.insert addr (new addr now) adding.0, true)

  -- The loop, which ends at a full table.
  unfoldable pub add_infos : Limits → ℕ → BTreeMap PeerState → List PeerInfo → Adding → Adding
  unfolding add_peer
  add_infos limits now known [] adding = adding
  add_infos limits now known (info ∷ infos) adding =
      let behind =
        add_infos limits now known infos
          (add_peer limits now known (parse_socket_addr info.address) adding) in
      if leb limits.max_peers (length adding.0) then adding else behind

  unfoldable pub add_peer_infos_to : Limits → ℕ → List PeerInfo → BTreeMap PeerState → Adding
  unfolding add_infos
  add_peer_infos_to limits now infos current = add_infos limits now current infos (current, false)

-- The peers whose time has come; the order of the `HashMap` is not modelled.
unfoldable pub due_peers : ℕ → BTreeMap PeerState → List ℕ
due_peers now [] = []
due_peers now ((addr, peer) ∷ rest) =
    let behind = due_peers now rest in if leb peer.next_attempt now then addr ∷ behind else behind

abbrev pub remote_tip : PeerPoll → ℕ
remote_tip (idle height) = height
remote_tip (synced height) = height

-- `get_mut`: a peer that is known changes.
abbrev pub put_back : ℕ → Option PeerState → BTreeMap PeerState → BTreeMap PeerState
put_back addr none peers = peers
put_back addr (some peer) peers = BTreeMap.insert addr peer peers

abbrev pub with_known : (PeerState → PeerState) → Option PeerState → Option PeerState
with_known f none = none
with_known f (some peer) = some (f peer)

unfoldable pub mark_peer_ok : BTreeMap PeerState → ℕ → ℕ → ℕ → BTreeMap PeerState
unfolding BTreeMap.get BTreeMap.insert mark_ok
mark_peer_ok peers addr height now =
    put_back addr (with_known (λ peer. mark_ok peer (some height) now) (BTreeMap.get addr peers))
      peers

-- The state after a failure: a peer that has failed three times in a row is dropped.
abbrev pub drop_if_failing : ℕ → Option PeerState → BTreeMap PeerState → BTreeMap PeerState
drop_if_failing addr none peers = peers
drop_if_failing addr (some peer) peers =
    if leb max_peer_failures peer.failures
    then BTreeMap.remove addr peers
    else BTreeMap.insert addr peer peers

unfoldable pub mark_peer_failed : BTreeMap PeerState → ℕ → ℕ → BTreeMap PeerState
unfolding BTreeMap.get BTreeMap.insert BTreeMap.remove mark_failed
mark_peer_failed peers addr now =
    drop_if_failing addr (with_known (λ peer. mark_failed peer now) (BTreeMap.get addr peers)) peers

-- `opening` is what connecting gives, and `outcome` is what the poll over the connection gives.
abbrev pub with_opened {ℓ} :
    {E : Type ℓ}
    → PeerTable
    → ℕ
    → Result E (Unit {0})
    → Result E PeerPoll
    → PeerTable × Result E PeerPoll
with_opened t addr (err e) outcome = (t, err e)
with_opened t addr (ok _) outcome =
    (record t { peer_connections = BTreeMap.insert addr tt t.peer_connections }, outcome)

-- A connection is opened unless there is one.
unfoldable pub poll_persistent_peer {ℓ} :
    {E : Type ℓ}
    → PeerTable
    → ℕ
    → Result E (Unit {0})
    → Result E PeerPoll
    → PeerTable × Result E PeerPoll
unfolding BTreeMap.get BTreeMap.insert
poll_persistent_peer t addr opening outcome =
    if is_some (BTreeMap.get addr t.peer_connections)
    then (t, outcome)
    else with_opened t addr opening outcome

-- What `sync_peers` makes of a poll: the peer is marked, and the connection of a failed one is dropped.
unfoldable pub after_poll {ℓ} : {E : Type ℓ} → PeerTable → ℕ → ℕ → Result E PeerPoll → PeerTable
unfolding mark_peer_ok mark_peer_failed
after_poll t addr now (ok poll) = record t {
  peers = mark_peer_ok t.peers addr (remote_tip poll) now;
}
after_poll t addr now (err e) = record {
  peers = mark_peer_failed t.peers addr now;
  peer_connections = BTreeMap.remove addr t.peer_connections;
}

-- What `preflight` makes of a poll: nobody is dropped.
unfoldable pub after_preflight {ℓ} :
    {E : Type ℓ} → BTreeMap PeerState → ℕ → ℕ → Result E PeerPoll → BTreeMap PeerState
unfolding mark_peer_ok BTreeMap.get BTreeMap.insert mark_failed
after_preflight peers addr now (ok poll) = mark_peer_ok peers addr (remote_tip poll) now
after_preflight peers addr now (err e) =
    put_back addr (with_known (λ peer. mark_failed peer now) (BTreeMap.get addr peers)) peers

-- `unwrap_or(Height(0))`.
abbrev pub local_height : Option ℕ → ℕ
local_height none = 0
local_height (some height) = height

unfoldable pub needs_peer_handshake_before_mining : Bool → BTreeMap PeerState → Bool
needs_peer_handshake_before_mining required [] = false
needs_peer_handshake_before_mining required (entry ∷ rest) =
    required && not (any (λ peer. is_some peer.last_tip) (values (entry ∷ rest)))

abbrev pub is_ahead : ℕ → Option ℕ → Bool
is_ahead own none = false
is_ahead own (some height) = ltb own height

unfoldable pub peer_ahead_of_local_tip : Option ℕ → BTreeMap PeerState → Bool
peer_ahead_of_local_tip tip peers =
    any (λ peer. is_ahead (local_height tip) peer.last_tip) (values peers)

pub data WaitReason : Type 0 where
  sync_pending handshake_pending peer_ahead : WaitReason

-- Whether the node has work pending, whether a handshake is required, its tip and its peers.
unfoldable pub mining_wait_reason : Bool → Bool → Option ℕ → BTreeMap PeerState → Option WaitReason
unfolding needs_peer_handshake_before_mining peer_ahead_of_local_tip
mining_wait_reason pending required tip peers =
    if pending
    then some sync_pending
    else if needs_peer_handshake_before_mining required peers
    then some handshake_pending
    else if peer_ahead_of_local_tip tip peers
    then some peer_ahead
    else none
