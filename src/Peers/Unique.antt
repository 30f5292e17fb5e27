-- ===== src/Peers/Unique.antt =====
-- src/p2p.rs: `dedupe_peers` keeps each peer once.
use paqus_node.Base.{
  ℕ, ◌≡◌, refl, not, ◌&&◌, List, [], ◌∷◌, is_some, arith, elem, IsDistinct, ==_iff, ◌==◌, ap,
  Bool-cases, inl, inr,
}
use paqus_node.BTreeMap
use paqus_node.BTreeMap.{Set}
use paqus_node.BTreeMap.Laws.{get-insert}
use paqus_node.Peers.{retain_unseen, dedupe_peers}

elem-retain_unseen :
    (v : ℕ) (seen : Set) (l : List ℕ)
    → elem v (retain_unseen seen l) ≡ (elem v l && not (is_some (BTreeMap.get v seen)))
unfolding retain_unseen
elem-retain_unseen v seen [] = refl
elem-retain_unseen v seen (p ∷ l) =
    let rest = elem-retain_unseen v (BTreeMap.insert p tt seen) l in
    let read = get-insert v p tt seen in
    elim (Bool-cases (v == p)) [
      | inl same ↦
          let e = ap (λ (q : ℕ). is_some (BTreeMap.get q seen)) ((==_iff v p).0 same) in
          ground arith
      | inr other ↦ ground arith
    ]

retain_unseen-IsDistinct : (seen : Set) (l : List ℕ) → IsDistinct (retain_unseen seen l)
unfolding retain_unseen
retain_unseen-IsDistinct seen [] = tt
retain_unseen-IsDistinct seen (p ∷ l) =
    let rest = retain_unseen-IsDistinct (BTreeMap.insert p tt seen) l in
    let gone = elem-retain_unseen p (BTreeMap.insert p tt seen) l in
    ground (arith, get-insert p p tt seen, ==_iff p p)

-- The list without repeats has each of its peers once, and the same peers as before.
pub dedupe_peers-IsDistinct :
    (peers : List ℕ)
    → IsDistinct (dedupe_peers peers) × ((v : ℕ) → elem v (dedupe_peers peers) ≡ elem v peers)
unfolding dedupe_peers BTreeMap.get
dedupe_peers-IsDistinct peers =
    (retain_unseen-IsDistinct [] peers, λ v. ground (arith, elem-retain_unseen v [] peers))
