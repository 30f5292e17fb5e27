-- ===== src/Service/Known.antt =====
-- src/main.rs: which peers stand in the table, and that marking them keeps it so.
use paqus_node.Base.{
  ℕ, ◌≤◌, ◌<◌, ◌≡◌, refl, sym, ◌∙◌, max, true, false, ◌||◌, List, [], ◌∷◌, none, some, leb, ◌==◌,
  elem, length, is_some, if◌then◌else◌, Result, ok, err, arith, Bool-cases, Option-cases, ◌⊎◌, inl,
  inr,
}
use mathlib.Core.Path.{subst}
use paqus_node.BTreeMap
use paqus_node.BTreeMap.{BTreeMap, IsSorted}
use paqus_node.BTreeMap.Laws.{insert-IsSorted, remove-IsSorted, get-insert, get-remove}
use paqus_node.BTreeMap.Sums.{length-insert_present, length-remove}
use paqus_node.Peers.{PeerState, new, mark_ok, mark_failed}
use paqus_node.Peers.Sync.{PeerPoll}
use paqus_node.Service.{
  PeerTable, Limits, max_peer_failures, collect_peers, poll_persistent_peer, mark_peer_ok,
  mark_peer_failed, after_poll, remote_tip,
}

-- A peer may stand in the table if it was there at first or is not an address of the node itself, and if it
-- has failed fewer than three times in a row.
pub record IsKnown (limits : Limits) (first : BTreeMap PeerState) (addr : ℕ) (peer : PeerState)
    : Type 0 where
  pub trusted : peer.failures < max_peer_failures
  pub foreign :
      (is_some (BTreeMap.get addr first) ≡ true)
      ⊎ ((elem addr limits.public_addrs || elem addr limits.listen_addrs) ≡ false)

pub record IsTable (limits : Limits) (first peers : BTreeMap PeerState) : Type 0 where
  pub sorted : IsSorted peers
  pub bounded : length peers ≤ max limits.max_peers (length first)
  pub known :
      (addr : ℕ) (peer : PeerState)
      → BTreeMap.get addr peers ≡ some peer
      → IsKnown limits first addr peer

-- Every peer of the table has failed fewer than three times in a row.
abbrev pub IsTrusted : BTreeMap PeerState → Type 0
IsTrusted peers =
    (a : ℕ) (p : PeerState) → BTreeMap.get a peers ≡ some p → p.failures < max_peer_failures

pub collect_peers-IsTrusted :
    (addrs : List ℕ) (now : ℕ) (peers : BTreeMap PeerState)
    → IsSorted peers
    → IsTrusted peers
    → IsSorted (collect_peers addrs now peers) × IsTrusted (collect_peers addrs now peers)
unfolding collect_peers new
collect_peers-IsTrusted [] now peers s t = (s, t)
collect_peers-IsTrusted (addr ∷ addrs) now peers s t =
    collect_peers-IsTrusted addrs now (BTreeMap.insert addr (new addr now) peers)
      (insert-IsSorted addr (new addr now) peers s)
      (λ a p e.
        let found : (if a == addr then some (new addr now) else BTreeMap.get a peers) ≡ some p =
          sym (get-insert a addr (new addr now) peers) ∙ e in
        elim (Bool-cases (a == addr)) [
          | inl same ↦
              let its : new addr now ≡ p = ground arith in
              subst (λ (q : PeerState). q.failures < max_peer_failures) its (omega arith)
          | inr other ↦ t a p (ground arith)
        ])

pub poll_persistent_peer-peers :
    {E : Type 0} (t : PeerTable) (addr : ℕ) (opening : Result E (Unit {0}))
    (outcome : Result E PeerPoll)
    → (poll_persistent_peer t addr opening outcome).0.peers ≡ t.peers
unfolding poll_persistent_peer
poll_persistent_peer-peers t addr (err e) outcome =
    elim (Bool-cases (is_some (BTreeMap.get addr t.peer_connections))) [
      | inl open_now ↦ rw open_now refl
      | inr closed ↦ rw closed refl
    ]
poll_persistent_peer-peers t addr (ok _) outcome =
    elim (Bool-cases (is_some (BTreeMap.get addr t.peer_connections))) [
      | inl open_now ↦ rw open_now refl
      | inr closed ↦ rw closed refl
    ]

module _ (limits : Limits) (first : BTreeMap PeerState) where
  pub inserted-IsTable :
      (addr : ℕ) (peer : PeerState) (peers : BTreeMap PeerState)
      → IsTable limits first peers
      → IsKnown limits first addr peer
      → length (BTreeMap.insert addr peer peers) ≤ max limits.max_peers (length first)
      → IsTable limits first (BTreeMap.insert addr peer peers)
  inserted-IsTable addr peer peers t k fits = record {
    sorted = insert-IsSorted addr peer peers t.sorted;
    bounded = fits;
    known = λ a p e.
        let found : (if a == addr then some peer else BTreeMap.get a peers) ≡ some p =
          sym (get-insert a addr peer peers) ∙ e in
        elim (Bool-cases (a == addr)) [
          | inl same ↦
              let at : addr ≡ a = ground arith in
              let its : peer ≡ p = ground arith in
              subst (λ (i : ℕ). IsKnown limits first i p) at
                (subst (IsKnown limits first addr) its k)
          | inr other ↦ t.known a p (ground arith)
        ];
  }

  -- A known peer's state is replaced.
  replaced-IsTable :
      (addr : ℕ) (old peer : PeerState) (peers : BTreeMap PeerState)
      → IsTable limits first peers
      → BTreeMap.get addr peers ≡ some old
      → peer.failures < max_peer_failures
      → IsTable limits first (BTreeMap.insert addr peer peers)
  replaced-IsTable addr old peer peers t there trust =
      inserted-IsTable addr peer peers t
        (record { trusted = trust; foreign = (t.known addr old there).foreign })
        (omega (arith, length-insert_present addr peer old peers t.sorted there, t.bounded))

  removed-IsTable :
      (addr : ℕ) (old : PeerState) (peers : BTreeMap PeerState)
      → IsTable limits first peers
      → BTreeMap.get addr peers ≡ some old
      → IsTable limits first (BTreeMap.remove addr peers)
  removed-IsTable addr old peers t there = record {
    sorted = remove-IsSorted addr peers t.sorted;
    bounded = omega (arith, length-remove addr old peers there, t.bounded);
    known = λ a p e.
        let found : (if a == addr then none else BTreeMap.get a peers) ≡ some p =
          sym (get-remove a addr peers t.sorted) ∙ e in
        elim (Bool-cases (a == addr)) [
          | inl same ↦ absurd (ground arith)
          | inr other ↦ t.known a p (ground arith)
        ];
  }

  pub mark_peer_ok-IsTable :
      (peers : BTreeMap PeerState) (addr height now : ℕ)
      → IsTable limits first peers
      → IsTable limits first (mark_peer_ok peers addr height now)
  unfolding mark_peer_ok mark_ok
  mark_peer_ok-IsTable peers addr height now t = elim (Option-cases (BTreeMap.get addr peers)) [
    | inl missing ↦ rw (missing, mark_peer_ok) t
    | inr (old, there) ↦
        rw (there, mark_peer_ok)
          (replaced-IsTable addr old (mark_ok old (some height) now) peers t there (omega arith))
  ]

  pub mark_peer_failed-IsTable :
      (peers : BTreeMap PeerState) (addr now : ℕ)
      → IsTable limits first peers
      → IsTable limits first (mark_peer_failed peers addr now)
  unfolding mark_peer_failed
  mark_peer_failed-IsTable peers addr now t = elim (Option-cases (BTreeMap.get addr peers)) [
    | inl missing ↦ rw (missing, mark_peer_failed) t
    | inr (old, there) ↦ elim (Bool-cases (leb max_peer_failures (mark_failed old now).failures)) [
      | inl failing ↦ rw (there, failing, mark_peer_failed) (removed-IsTable addr old peers t there)
      | inr hoping ↦
          rw (there, hoping, mark_peer_failed)
            (replaced-IsTable addr old (mark_failed old now) peers t there (ground arith))
    ]
  ]

  pub after_poll-IsTable :
      {E : Type 0} (t : PeerTable) (addr now : ℕ) (result : Result E PeerPoll)
      → IsTable limits first t.peers
      → IsTable limits first (after_poll t addr now result).peers
  unfolding after_poll
  after_poll-IsTable t addr now (ok poll) v =
      mark_peer_ok-IsTable t.peers addr (remote_tip poll) now v
  after_poll-IsTable t addr now (err e) v = mark_peer_failed-IsTable t.peers addr now v
