-- ===== src/Node/Orphans.antt =====
-- src/runtime/node/node.rs: the blocks whose parent is not there yet, and the index of them by parent.
pub mod Index
pub mod Orphanage
use paqus_node.Base.{
  ℕ, ◌+◌, ◌-◌, Bool, true, false, not, ◌&&◌, ◌||◌, List, [], ◌∷◌, ◌++◌, Option, none, some, ltb,
  leb, ◌==◌, if◌then◌else◌, is_some, length, filter, saturating_add,
}
use paqus_node.BTreeMap
use paqus_node.BTreeMap.{BTreeMap}
use paqus_node.Node.{
  Node, OrphanBlock, max_orphan_blocks, max_orphan_height_distance, orphan_block_ttl_secs,
}
use paqus_node.Node.Requests.{queue_missing_parent_request, is_empty, zero_if_none}
use paqus_node.Paqus.{Paqus}
use paqus_node.Storage.{StorageApi}

-- The index is walked once: each list of children loses the hash.
unfoldable pub retain_others : ℕ → BTreeMap (List ℕ) → BTreeMap (List ℕ)
retain_others hash [] = []
retain_others hash ((parent, children) ∷ index) =
    (parent, filter (λ child. not (child == hash)) children) ∷ retain_others hash index

-- The parents whose list is empty then.
unfoldable pub empty_parents : BTreeMap (List ℕ) → List ℕ
empty_parents [] = []
empty_parents ((parent, children) ∷ index) =
    if is_empty children then parent ∷ empty_parents index else empty_parents index

unfoldable pub remove_parents : List ℕ → BTreeMap (List ℕ) → BTreeMap (List ℕ)
remove_parents [] index = index
remove_parents (parent ∷ parents) index = remove_parents parents (BTreeMap.remove parent index)

abbrev pub without_child : ℕ → BTreeMap (List ℕ) → BTreeMap (List ℕ)
without_child hash index =
    remove_parents (empty_parents (retain_others hash index)) (retain_others hash index)

-- `entry(..).or_default()`.
abbrev pub or_default : Option (List ℕ) → List ℕ
or_default none = []
or_default (some children) = children

module _ ⦃paqus : Paqus⦄ ⦃storage_api : StorageApi⦄ where
  open paqus use {Block, Ledger, height, block_hash, previous_hash, tip_height, fork_contains}

  unfoldable pub orphan_is_too_far_ahead : Ledger → Block → Bool
  orphan_is_too_far_ahead ledger block =
      ltb (saturating_add (zero_if_none (tip_height ledger)) max_orphan_height_distance)
        (height block)

  unfoldable pub remove_orphan_index : Node → ℕ → Node
  remove_orphan_index n hash = record n {
    orphan_children_by_parent = without_child hash n.orphan_children_by_parent;
  }

  unfoldable pub remove_orphan : Node → ℕ → Node
  remove_orphan n hash =
      let indexed = remove_orphan_index n hash in
      record indexed { orphan_blocks = BTreeMap.remove hash indexed.orphan_blocks }

  unfoldable pub is_expired : Ledger → ℕ → OrphanBlock → Bool
  is_expired ledger now orphan =
      ltb orphan_block_ttl_secs (now - orphan.received_at)
      || orphan_is_too_far_ahead ledger orphan.block

  unfoldable pub expired_orphans : Ledger → ℕ → BTreeMap OrphanBlock → List ℕ
  expired_orphans ledger now [] = []
  expired_orphans ledger now ((hash, orphan) ∷ orphans) =
      if is_expired ledger now orphan
      then hash ∷ expired_orphans ledger now orphans
      else expired_orphans ledger now orphans

  unfoldable pub remove_orphans : Node → List ℕ → Node
  remove_orphans n [] = n
  remove_orphans n (hash ∷ hashes) = remove_orphans (remove_orphan n hash) hashes

  unfoldable pub prune_expired_orphans : Node → ℕ → Node
  prune_expired_orphans n now = remove_orphans n (expired_orphans n.ledger now n.orphan_blocks)

  -- The first key, of the smallest hash, makes room.
  unfoldable pub evict_first : Node → BTreeMap OrphanBlock → Node
  evict_first n [] = n
  evict_first n ((hash, orphan) ∷ orphans) = remove_orphan n hash

  unfoldable pub make_room : Node → Node
  make_room n =
      if leb max_orphan_blocks (length n.orphan_blocks) then evict_first n n.orphan_blocks else n

  unfoldable pub store_orphan : Node → Block → ℕ → Node
  store_orphan n block now =
      let parent = previous_hash block in
      let asked = queue_missing_parent_request n parent now in
      let index = asked.orphan_children_by_parent in
      record asked {
        orphan_children_by_parent =
            BTreeMap.insert parent (or_default (BTreeMap.get parent index) ++ block_hash block ∷ [])
              index;
        orphan_blocks =
            BTreeMap.insert (block_hash block) (record { block = block; received_at = now })
              asked.orphan_blocks;
      }

  unfoldable pub cache_orphan_block : Node → Block → ℕ → Node
  cache_orphan_block n block now =
      let pruned = prune_expired_orphans n now in
      if height block == 0 || orphan_is_too_far_ahead pruned.ledger block
      then pruned
      else if fork_contains pruned.fork_choice (block_hash block)
          || is_some (BTreeMap.get (block_hash block) pruned.orphan_blocks)
      then pruned
      else store_orphan (make_room pruned) block now
