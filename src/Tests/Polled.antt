-- ===== src/Tests/Polled.antt =====
-- The poll of a peer at concrete inputs.
use paqus_node.Base.{◌≡◌, ◌⊎◌, [], ◌∷◌, some, Result, ok, err}
use paqus_node.Network.{version, ver_ack, tip, block, VersionInfo, local, validate_compatibility}
use paqus_node.Network.Handler.{local_version}
use paqus_node.Node.Invariant.{IsNode}
use paqus_node.Peers.Gate.{first_version}
use paqus_node.Peers.Polls.{poll_peer_connection-IsNode}
use paqus_node.Peers.Sync.{Exchange, SyncError, PeerPoll, poll_peer_connection}
use paqus_node.Tests.Net.{codec}
use paqus_node.Tests.Nodes.{disk, waiting, waiting-IsNode}
use paqus_node.Tests.Sample.{sample, slab}

-- A peer that is one block ahead and gives it.
abbrev ahead : Exchange
ahead = record {
  node = waiting;
  now = 1_000;
  answers =
      (1_001, ok (ver_ack (local (some (record { height = 1; hash = 101 })))))
      ∷ (1_002, ok (tip (record { height = 1; hash = 101 })))
      ∷ (1_003, ok (block (slab 1 1 0)))
      ∷ [];
  sends = [];
  sent = [];
}

poll_peer_connection-IsNode_example :
    ((y : Exchange) × (r : Result SyncError PeerPoll) × (poll_peer_connection
          ("10.0.0.1:5555" ∷ [])
          ahead
        ≡ some (y, r))
      × IsNode [] y.node)
    × (((v : VersionInfo) × (first_version ahead.answers ≡ some v)
          × (validate_compatibility v ≡ ok tt))
        ⊎ ((y : Exchange) × (e : SyncError) × (poll_peer_connection ("10.0.0.1:5555" ∷ []) ahead
              ≡ some (y, err e))
            × (y.node ≡ waiting)
            × (y.sent ≡ version (local_version waiting) ∷ [])))
poll_peer_connection-IsNode_example =
    poll_peer_connection-IsNode ("10.0.0.1:5555" ∷ []) ahead waiting-IsNode
