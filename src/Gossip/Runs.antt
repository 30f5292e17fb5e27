-- ===== src/Gossip/Runs.antt =====
-- src/gossip.rs: any sequence of marks on a fresh `GossipDedupe`.
use paqus_node.Base.{ℕ, ◌≡◌, refl, ap, ◌∙◌, Bool, List, [], ◌∷◌, Option, none, some, arith}
use mathlib.Core.List.{foldl}
use paqus_node.BTreeMap
use paqus_node.Gossip.{GossipDedupe, new, mark_block_seen, mark_transaction_seen}
use paqus_node.Gossip.Window.{IsWindow, remember, mark_seen-IsMarked}

pub data Mark : Type 0 where
  block : ℕ → Mark
  transaction : ℕ → Mark

unfoldable pub mark : GossipDedupe → Mark → Option (GossipDedupe × Bool)
mark d (block h) = mark_block_seen d h
mark d (transaction h) = mark_transaction_seen d h

unfoldable pub mark_all : GossipDedupe → List Mark → Option GossipDedupe
mark_all d [] = some d
mark_all d (m ∷ ms) = elim (mark d m) [ none ↦ none | some (d', _) ↦ mark_all d' ms ]

abbrev pub blocks_of : List Mark → List ℕ
blocks_of [] = []
blocks_of (block h ∷ ms) = h ∷ blocks_of ms
blocks_of (transaction h ∷ ms) = blocks_of ms

abbrev pub transactions_of : List Mark → List ℕ
transactions_of [] = []
transactions_of (block h ∷ ms) = transactions_of ms
transactions_of (transaction h ∷ ms) = h ∷ transactions_of ms

-- Both windows are well formed.
pub record IsTracking (d : GossipDedupe) : Type 0 where
  pub blocks : IsWindow d.capacity d.blocks d.block_order
  pub transactions : IsWindow d.capacity d.transactions d.transaction_order

-- What a run of marks leaves: the two windows, each moved by its own hashes alone.
abbrev pub Tracked : GossipDedupe → List Mark → Type 0
Tracked d ms =
    (d' : GossipDedupe) × (mark_all d ms ≡ some d')
    × IsTracking d'
    × (d'.capacity ≡ d.capacity)
    × (d'.block_order ≡ foldl (remember d.capacity) d.block_order (blocks_of ms))
    × (d'.transaction_order ≡ foldl (remember d.capacity) d.transaction_order (transactions_of ms))

mark_all-Tracked : (ms : List Mark) (d : GossipDedupe) → IsTracking d → Tracked d ms
unfolding mark_all mark mark_block_seen mark_transaction_seen
mark_all-Tracked [] d v = (d, refl, v, refl, refl, refl)
mark_all-Tracked (block h ∷ ms) d v =
    let (r, e, m) = mark_seen-IsMarked d.capacity d.blocks d.block_order h v.blocks in
    let d₁ : GossipDedupe = record d { blocks = r.0; block_order = r.1 } in
    let (d', run', v', cap, bs, ts) =
      mark_all-Tracked ms d₁ (record { blocks = m.window; transactions = v.transactions }) in
    (
      d',
      ground arith,
      v',
      cap,
      bs ∙ ap (λ o. foldl (remember d.capacity) o (blocks_of ms)) m.queue,
      ts,
    )
mark_all-Tracked (transaction h ∷ ms) d v =
    let (r, e, m) =
      mark_seen-IsMarked d.capacity d.transactions d.transaction_order h v.transactions in
    let d₁ : GossipDedupe = record d { transactions = r.0; transaction_order = r.1 } in
    let (d', run', v', cap, bs, ts) =
      mark_all-Tracked ms d₁ (record { blocks = v.blocks; transactions = m.window }) in
    (
      d',
      ground arith,
      v',
      cap,
      bs,
      ts ∙ ap (λ o. foldl (remember d.capacity) o (transactions_of ms)) m.queue,
    )

-- Any marks on a fresh record end; the record then holds, in its two sets and queues, exactly the
-- windows of the block hashes and of the transaction hashes, neither disturbed by the other.
pub mark_all-new :
    (capacity : ℕ) (ms : List Mark)
    → (d : GossipDedupe) × (mark_all (new capacity) ms ≡ some d)
      × IsTracking d
      × (d.block_order ≡ foldl (remember capacity) [] (blocks_of ms))
      × (d.transaction_order ≡ foldl (remember capacity) [] (transactions_of ms))
unfolding new BTreeMap.get
mark_all-new capacity ms =
    let empty : IsWindow capacity [] [] = record {
      sorted = tt;
      same = λ v. refl;
      counted = refl;
      distinct = tt;
      bounded = omega arith;
    } in
    let (d, run, v, _, bs, ts) =
      mark_all-Tracked ms (new capacity) (record { blocks = empty; transactions = empty }) in
    (d, run, v, bs, ts)
