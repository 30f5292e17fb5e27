-- ===== src/Service/Mining.antt =====
-- src/main.rs, `mining_wait_reason`: when a node may mine.
use paqus_node.Base.{
  ℕ, ◌<◌, ◌≤◌, ◌≡◌, ◌↔◌, refl, sym, ◌∙◌, ap, Bool, true, false, [], ◌∷◌, Option, none, some,
  is_some, ltb, any, ◌==◌, ◌⊎◌, inl, inr, arith, Bool-cases,
}
use paqus_node.BTreeMap.{BTreeMap, get, values, IsSorted}
use paqus_node.BTreeMap.Laws.{get-cons_of_get}
use paqus_node.Peers.{PeerState}
use paqus_node.Service.{
  local_height, is_ahead, mining_wait_reason, needs_peer_handshake_before_mining,
  peer_ahead_of_local_tip,
}

module _ {V : Type 0} (test : V → Bool) where
  any-false :
      (m : BTreeMap V)
      → any test (values m) ≡ false
      → (a : ℕ) (v : V) → get a m ≡ some v
      → test v ≡ false
  unfolding get
  any-false [] e a v found = absurd (cc found)
  any-false ((b, w) ∷ m) e a v found = elim (Bool-cases (a == b)) [
    | inl here ↦ let same : w ≡ v = ground arith in ap test (sym same) ∙ (ground arith)
    | inr other ↦ any-false m (ground arith) a v (ground arith)
  ]

  any-true :
      (m : BTreeMap V)
      → IsSorted m
      → any test (values m) ≡ true
      → (a : ℕ) × (v : V) × (get a m ≡ some v) × (test v ≡ true)
  unfolding get
  any-true [] sorted e = absurd (cc e)
  any-true ((b, w) ∷ m) sorted e = elim (Bool-cases (test w)) [
    | inl here ↦ (b, w, ground arith, here)
    | inr other ↦
        let (a, v, found, passes) = any-true m sorted.1 (ground arith) in
        (a, v, get-cons_of_get a b v w m sorted.0 found, passes)
  ]

-- A peer of the table whose tip has become known.
abbrev pub HasTip : BTreeMap PeerState → ℕ → PeerState → ℕ → Type 0
HasTip peers addr peer height = (get addr peers ≡ some peer) × (peer.last_tip ≡ some height)

pub record CanMine (pending required : Bool) (tip : Option ℕ) (peers : BTreeMap PeerState)
    : Type 0 where
  pub settled : pending ≡ false
  pub shaken :
      (required ≡ false)
      ⊎ ((peers ≡ [])
          ⊎ ((addr : ℕ) × (peer : PeerState) × (height : ℕ) × HasTip peers addr peer height))
  pub ahead :
      (addr : ℕ) (peer : PeerState) (height : ℕ)
      → HasTip peers addr peer height
      → height ≤ local_height tip

is_some_inv : (o : Option ℕ) → is_some o ≡ true → (h : ℕ) × (o ≡ some h)
is_some_inv none e = absurd (cc e)
is_some_inv (some h) e = (h, refl)

is_ahead_inv : (own : ℕ) (o : Option ℕ) → is_ahead own o ≡ true → (h : ℕ) × (o ≡ some h) × (own < h)
is_ahead_inv own none e = absurd (cc e)
is_ahead_inv own (some h) e = (h, refl, ground arith)

handshake-shaken :
    (required : Bool) (peers : BTreeMap PeerState)
    → IsSorted peers
    → needs_peer_handshake_before_mining required peers ≡ false
    → (required ≡ false)
      ⊎ ((peers ≡ [])
          ⊎ ((addr : ℕ) × (peer : PeerState) × (height : ℕ) × HasTip peers addr peer height))
unfolding needs_peer_handshake_before_mining
handshake-shaken false peers sorted e = inl refl
handshake-shaken true [] sorted e = inr (inl refl)
handshake-shaken true (entry ∷ rest) sorted e =
    let (addr, peer, found, passes) =
      any-true (λ peer. is_some peer.last_tip) (entry ∷ rest) sorted (ground arith) in
    let (height, known) = is_some_inv peer.last_tip passes in
    inr (inr (addr, peer, height, (found, known)))

shaken-handshake :
    (required : Bool) (peers : BTreeMap PeerState)
    → ((required ≡ false)
        ⊎ ((peers ≡ [])
            ⊎ ((addr : ℕ) × (peer : PeerState) × (height : ℕ) × HasTip peers addr peer height)))
    → needs_peer_handshake_before_mining required peers ≡ false
unfolding needs_peer_handshake_before_mining
shaken-handshake required [] shaken = refl
shaken-handshake required (entry ∷ rest) (inl off) = ground arith
shaken-handshake required (entry ∷ rest) (inr (inl empty)) = absurd (cc empty)
shaken-handshake required (entry ∷ rest) (inr (inr (addr, peer, height, (found, known)))) =
    elim (Bool-cases (any (λ peer. is_some peer.last_tip) (values (entry ∷ rest)))) [
      | inl met ↦ ground arith
      | inr none_met ↦
          let missing =
            any-false (λ peer. is_some peer.last_tip) (entry ∷ rest) none_met addr peer found in
          absurd (cc (missing, known))
    ]

-- Over a table of peers in ascending order of their addresses, there is no reason to wait with mining exactly
-- if no work of synchronisation is pending, if a handshake is not required, or the table is empty, or the tip of
-- a peer is known, and if no known tip of a peer is higher than the node's own. So a node that requires a
-- handshake mines without one while its table of peers is empty.
pub mining_wait_reason_iff :
    (pending required : Bool) (tip : Option ℕ) (peers : BTreeMap PeerState)
    → IsSorted peers
    → (mining_wait_reason pending required tip peers ≡ none) ↔ CanMine pending required tip peers
unfolding mining_wait_reason peer_ahead_of_local_tip
mining_wait_reason_iff pending required tip peers sorted =
    let test : PeerState → Bool = λ peer. is_ahead (local_height tip) peer.last_tip in
    (
      λ e. elim (Bool-cases pending) [
        | inl busy ↦ absurd (ground arith)
        | inr settled ↦ elim (Bool-cases (needs_peer_handshake_before_mining required peers)) [
          | inl waits ↦ absurd (ground arith)
          | inr fine ↦
              let behind : any test (values peers) ≡ false = ground arith in
              record {
                settled = settled;
                shaken = handshake-shaken required peers sorted fine;
                ahead = λ addr peer height (found, known).
                    let not_ahead = any-false test peers behind addr peer found in
                    let below : ltb (local_height tip) height ≡ false =
                      ap (is_ahead (local_height tip)) (sym known) ∙ not_ahead in
                    ground arith;
              }
        ]
      ],
      λ can. elim (Bool-cases (any test (values peers))) [
        | inl some_ahead ↦
            let (addr, peer, found, passes) = any-true test peers sorted some_ahead in
            let (height, known, above) = is_ahead_inv (local_height tip) peer.last_tip passes in
            let under = can.ahead addr peer height (found, known) in absurd (omega arith)
        | inr behind ↦ rw (can.settled, shaken-handshake required peers can.shaken, behind) refl
      ],
    )
