-- ===== src/Gossip.antt =====
-- src/gossip.rs: the record of what was seen lately, `GossipDedupe`. A `HashSet` of hashes
-- is a `Set`; its order is never read.
pub mod Window
pub mod Runs
use paqus_node.Base.{
  ℕ, zero, suc, ◌+◌, Bool, true, false, List, [], ◌∷◌, ◌++◌, Option, none, some, ltb, ◌==◌,
  if◌then◌else◌, is_some, length,
}
use paqus_node.BTreeMap
use paqus_node.BTreeMap.{Set}

pub record GossipDedupe : Type 0 where
  pub capacity : ℕ
  pub blocks : Set
  pub block_order : List ℕ
  pub transactions : Set
  pub transaction_order : List ℕ

unfoldable pub new : ℕ → GossipDedupe
new capacity = record {
  capacity = capacity;
  blocks = [];
  block_order = [];
  transactions = [];
  transaction_order = [];
}

-- `while seen.len() > capacity`. On an empty queue the loop would spin for ever: `none` is also what
-- is left when the fuel runs out.
unfoldable pub evict : ℕ → ℕ → Set → List ℕ → Option (Set × List ℕ)
evict zero capacity seen order = none
evict (suc fuel) capacity seen [] = elim (ltb capacity (length seen)) [
  | true ↦ evict fuel capacity seen []
  | false ↦ some (seen, [])
]
evict (suc fuel) capacity seen (evicted ∷ order) = elim (ltb capacity (length seen)) [
  | true ↦ evict fuel capacity (BTreeMap.remove evicted seen) order
  | false ↦ some (seen, evicted ∷ order)
]

-- The set, the queue and the result. The fuel is one more than the queue is long.
unfoldable pub mark_seen : ℕ → Set → List ℕ → ℕ → Option (Set × List ℕ × Bool)
mark_seen capacity seen order value =
    if is_some (BTreeMap.get value seen)
    then some (seen, order, false)
    else if capacity == 0
    then some (seen, order, true)
    else (elim (evict (suc (length (order ++ value ∷ []))) capacity (BTreeMap.insert value tt seen)
        (order ++ value ∷ [])) [ none ↦ none | some (seen', order') ↦ some (seen', order', true) ])

unfoldable pub mark_block_seen : GossipDedupe → ℕ → Option (GossipDedupe × Bool)
mark_block_seen d hash = elim (mark_seen d.capacity d.blocks d.block_order hash) [
  | none ↦ none
  | some (seen, order, fresh) ↦ some (record d { blocks = seen; block_order = order }, fresh)
]

unfoldable pub mark_transaction_seen : GossipDedupe → ℕ → Option (GossipDedupe × Bool)
mark_transaction_seen d hash = elim (mark_seen d.capacity d.transactions d.transaction_order hash) [
  | none ↦ none
  | some (seen, order, fresh) ↦
      some (record d { transactions = seen; transaction_order = order }, fresh)
]
