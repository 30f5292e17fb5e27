-- ===== src/Service/Table.antt =====
-- What holds of the peers of a running node, whatever other peers announce and however polls end.
use Prim.Native.String.{String}
use paqus_node.Base.{
  ℕ, ◌<◌, ap, false, ◌||◌, List, [], ◌∷◌, Option, none, some, leb, elem, length, is_some, Result,
  arith, Bool-cases, Option-cases, inl, inr,
}
use paqus_node.BTreeMap
use paqus_node.BTreeMap.{BTreeMap, IsSorted}
use paqus_node.BTreeMap.Sums.{length-insert}
use paqus_node.Network.{PeerInfo}
use paqus_node.Peers.{PeerState, new}
use paqus_node.Peers.Sync.{PeerPoll}
use paqus_node.Service.{
  PeerTable, Limits, Adding, new_table, add_peer, add_infos, add_peer_infos_to,
  poll_persistent_peer, after_poll,
}
use paqus_node.Service.Known.{
  IsTable, collect_peers-IsTrusted, poll_persistent_peer-peers, inserted-IsTable,
  after_poll-IsTable,
}

-- What reaches the table: announced peers, and the end of a poll, each at a time.
pub data Event (E : Type 0) : Type 0 where
  announced : List PeerInfo → ℕ → Event E
  polled : ℕ → ℕ → Result E (Unit {0}) → Result E PeerPoll → Event E

module _ (limits : Limits) (first : BTreeMap PeerState) where
  module _ (parse_socket_addr : String → Option ℕ) where
    add_peer-IsTable :
        (now : ℕ) (known : BTreeMap PeerState) (o : Option ℕ) (adding : Adding)
        → length adding.0 < limits.max_peers
        → IsTable limits first adding.0
        → IsTable limits first (add_peer parse_socket_addr limits now known o adding).0
    unfolding add_peer new
    add_peer-IsTable now known none adding room t = t
    add_peer-IsTable now known (some addr) adding room t =
        elim (Bool-cases (elem addr limits.public_addrs || elem addr limits.listen_addrs)) [
          | inl own ↦ rw own t
          | inr foreign ↦ elim (Bool-cases (is_some (BTreeMap.get addr known))) [
            | inl old ↦ rw (foreign, old) t
            | inr fresh ↦ elim (Option-cases (BTreeMap.get addr adding.0)) [
              | inr (p, there) ↦ rw (foreign, fresh, there) t
              | inl vacant ↦
                  rw (foreign, fresh, vacant)
                    (inserted-IsTable limits first addr (new addr now) adding.0 t
                      (record { trusted = omega arith; foreign = inr foreign })
                      (omega (arith, length-insert addr (new addr now) adding.0 vacant)))
            ]
          ]
        ]

    add_infos-IsTable :
        (now : ℕ) (known : BTreeMap PeerState) (infos : List PeerInfo) (adding : Adding)
        → IsTable limits first adding.0
        → IsTable limits first (add_infos parse_socket_addr limits now known infos adding).0
    unfolding add_infos
    add_infos-IsTable now known [] adding t = t
    add_infos-IsTable now known (info ∷ infos) adding t =
        elim (Bool-cases (leb limits.max_peers (length adding.0))) [
          | inl full ↦ rw full t
          | inr room ↦ rw room (
              add_infos-IsTable now known infos
                (add_peer parse_socket_addr limits now known (parse_socket_addr info.address)
                  adding)
                (add_peer-IsTable now known (parse_socket_addr info.address) adding (ground arith)
                  t))
        ]

    -- The table after an event, and after all of them.
    step : {E : Type 0} → Event E → PeerTable → PeerTable
    unfolding add_peer_infos_to after_poll poll_persistent_peer
    step (announced infos now) t = record t {
      peers = (add_peer_infos_to parse_socket_addr limits now infos t.peers).0;
    }
    step (polled addr now opening outcome) t =
        let (opened, result) = poll_persistent_peer t addr opening outcome in
        after_poll opened addr now result

    unfoldable pub run : {E : Type 0} → List (Event E) → PeerTable → PeerTable
    unfolding step
    run [] t = t
    run (event ∷ events) t = run events (step event t)

    step-IsTable :
        {E : Type 0} (event : Event E) (t : PeerTable)
        → IsTable limits first t.peers
        → IsTable limits first (step event t).peers
    unfolding step add_peer_infos_to
    step-IsTable (announced infos now) t v = add_infos-IsTable now t.peers infos (t.peers, false) v
    step-IsTable (polled addr now opening outcome) t v =
        let (opened, result) = poll_persistent_peer t addr opening outcome in
        after_poll-IsTable limits first opened addr now result
          (rw (poll_persistent_peer-peers t addr opening outcome) v)

    run-IsTable :
        {E : Type 0} (events : List (Event E)) (t : PeerTable)
        → IsTable limits first t.peers
        → IsTable limits first (run events t).peers
    unfolding run
    run-IsTable [] t v = v
    run-IsTable (event ∷ events) t v = run-IsTable events (step event t) (step-IsTable event t v)

new_table-IsTable :
    (limits : Limits) (addrs : List ℕ) (now : ℕ)
    → IsTable limits (new_table addrs now).peers (new_table addrs now).peers
unfolding new_table BTreeMap.get
new_table-IsTable limits addrs now =
    let (sorted, trusted) = collect_peers-IsTrusted addrs now [] tt (λ a p e. absurd (cc e)) in
    record {
      sorted = sorted;
      bounded = omega arith;
      known = λ a p e. record { trusted = trusted a p e; foreign = inl (ap is_some e) };
    }

-- From the peers of the configuration, whatever peers are announced and however polls end: the table never
-- grows beyond the limit or the number of those first peers, holds no address of the node itself that was
-- not among them, and no peer that has failed three times in a row.
pub run-new_table :
    {E : Type 0} (limits : Limits) (parse_socket_addr : String → Option ℕ) (addrs : List ℕ)
    (now : ℕ) (events : List (Event E))
    → IsTable limits
        (new_table addrs now).peers
        (run limits
          (new_table addrs now).peers
          parse_socket_addr
          events
          (new_table addrs now)).peers
run-new_table limits parse_socket_addr addrs now events =
    run-IsTable limits (new_table addrs now).peers parse_socket_addr events (new_table addrs now)
      (new_table-IsTable limits addrs now)
