-- ===== src/Tests/Served.antt =====
-- The peers of a running node at concrete inputs.
use Prim.Native.String.{String}
use paqus_node.Base.{
  ℕ, ◌≡◌, ◌↔◌, refl, false, true, none, arith, List, [], ◌∷◌, Option, some, ok, err,
}
use paqus_node.BTreeMap
use paqus_node.BTreeMap.{BTreeMap}
use paqus_node.Peers.Sync.{idle}
use paqus_node.Peers.{PeerState}
use paqus_node.Service.{
  Limits, new_table, mining_wait_reason, needs_peer_handshake_before_mining,
  peer_ahead_of_local_tip, peer_ahead,
}
use paqus_node.Service.Mining.{CanMine, mining_wait_reason_iff}
use paqus_node.Service.Known.{IsTable}
use paqus_node.Service.Table.{Event, announced, polled, run, run-new_table}

abbrev limits : Limits
limits = record { public_addrs = 80 ∷ []; listen_addrs = []; max_peers = 3 }

-- Every text is this address.
abbrev parsed : String → Option ℕ
parsed text = some 90

-- A peer is announced; the first one fails three times, and the announced one answers.
abbrev events : List (Event ℕ)
events =
    announced (record { address = "10.0.0.9:5555" } ∷ []) 100
    ∷ polled 70 101 (err 0) (err 1)
    ∷ polled 70 110 (ok tt) (err 1)
    ∷ polled 90 111 (ok tt) (ok (idle 7))
    ∷ polled 70 120 (ok tt) (err 1)
    ∷ []

dropped :
    BTreeMap.get 70
      (run limits (new_table (70 ∷ []) 99).peers parsed events (new_table (70 ∷ []) 99)).peers
    ≡ BTreeMap.get 71 (new_table (70 ∷ []) 99).peers
unfolding new_table run
dropped = refl

run-new_table_example :
    IsTable limits
      (new_table (70 ∷ []) 99).peers
      (run limits (new_table (70 ∷ []) 99).peers parsed events (new_table (70 ∷ []) 99)).peers
run-new_table_example = run-new_table limits parsed (70 ∷ []) 99 events

-- A node at height 7 knows a peer at height 7, and one that it has not heard.
abbrev two_known : BTreeMap PeerState
two_known =
    (70, record { addr = 70; failures = 0; next_attempt = 0; last_tip = some 7 })
    ∷ (90, record { addr = 90; failures = 1; next_attempt = 9; last_tip = none })
    ∷ []

mining_wait_reason_iff_example :
    (mining_wait_reason false true (some 7) two_known ≡ none)
    ↔ CanMine false true (some 7) two_known
mining_wait_reason_iff_example = mining_wait_reason_iff false true (some 7) two_known (ground arith)

peer_is_ahead : mining_wait_reason false true (some 6) two_known ≡ some peer_ahead
unfolding mining_wait_reason needs_peer_handshake_before_mining peer_ahead_of_local_tip
peer_is_ahead = refl

-- The only peer of the configuration fails three times: nobody is known, and the node mines without a
-- handshake.
mines_alone :
    let failed : Event ℕ = polled 70 100 (err 0) (err 0) in
    let none_left = run limits [] parsed (failed ∷ failed ∷ failed ∷ []) (new_table (70 ∷ []) 99) in
    mining_wait_reason false true (some 7) none_left.peers ≡ none
unfolding run new_table mining_wait_reason needs_peer_handshake_before_mining
    peer_ahead_of_local_tip
mines_alone = refl
