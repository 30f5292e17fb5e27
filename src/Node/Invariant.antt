-- ===== src/Node/Invariant.antt =====
-- src/runtime/node/node.rs: what holds of the node between its calls, and that caching orphans keeps it.
use paqus_node.Base.{
  ℕ, suc, ◌≡◌, ◌<◌, ◌≤◌, refl, ◌∙◌, ap, false, ◌||◌, List, [], ◌∷◌, none, some, ◌==◌, is_some,
  arith, ==_iff, elem, length, leb, Bool-cases, inl, inr,
}
use paqus_node.BTreeMap
use paqus_node.BTreeMap.{BTreeMap, IsSorted}
use paqus_node.BTreeMap.Laws.{get-remove}
use paqus_node.BTreeMap.Sums.{length-insert, length-remove}
use paqus_node.Mempool.Accounting.{IsSound}
use paqus_node.Node.{Node, OrphanBlock, max_orphan_blocks}
use paqus_node.Node.Orphans.{
  remove_orphan_index, remove_orphan, remove_orphans, prune_expired_orphans, evict_first, make_room,
  store_orphan, cache_orphan_block, orphan_is_too_far_ahead,
}
use paqus_node.Node.Orphans.Orphanage.{
  HasOrphanage, remove_orphan-IsOrphanage, stored-IsOrphanage, length-remove-le,
}
use paqus_node.Node.Requests.{queue_missing_parent_request, queue_missing_parent_request_at}
use paqus_node.Node.Requests.Steps.{HasQueue, queue_missing_parent_request_at-IsQueued}
use paqus_node.Paqus.{Paqus}
use paqus_node.Storage.{StorageApi}

module _ ⦃paqus : Paqus⦄ ⦃storage_api : StorageApi⦄ where
  open paqus use {Block, block_hash, previous_hash, height, fork_contains}

  -- The orphans and their index, the queue of missing parents, and the pool are each in step.
  pub record IsNode (todo : List ℕ) (n : Node) : Type 0 where
    pub orphanage : HasOrphanage todo n
    pub queue : HasQueue n
    pub pool : IsSound n.mempool

  remove_orphan-IsNode :
      (todo : List ℕ) (n : Node) (hash : ℕ) → IsNode todo n → IsNode todo (remove_orphan n hash)
  unfolding remove_orphan remove_orphan_index
  remove_orphan-IsNode todo n hash v = record {
    orphanage = remove_orphan-IsOrphanage todo n hash v.orphanage;
    queue = v.queue;
    pool = v.pool;
  }

  remove_orphans-IsNode :
      (todo : List ℕ) (n : Node) (hashes : List ℕ)
      → IsNode todo n
      → IsNode todo (remove_orphans n hashes)
  unfolding remove_orphans
  remove_orphans-IsNode todo n [] v = v
  remove_orphans-IsNode todo n (hash ∷ hashes) v =
      remove_orphans-IsNode todo (remove_orphan n hash) hashes (remove_orphan-IsNode todo n hash v)

  remove_orphans-shrinks :
      (n : Node) (hashes : List ℕ)
      → length (remove_orphans n hashes).orphan_blocks ≤ length n.orphan_blocks
  unfolding remove_orphans remove_orphan remove_orphan_index
  remove_orphans-shrinks n [] = omega arith
  remove_orphans-shrinks n (hash ∷ hashes) = omega (
    arith,
    remove_orphans-shrinks (remove_orphan n hash) hashes,
    length-remove-le hash n.orphan_blocks,
  )

  pub prune_expired_orphans-IsNode :
      (todo : List ℕ) (n : Node) (now : ℕ)
      → IsNode todo n
      → IsNode todo (prune_expired_orphans n now)
  unfolding prune_expired_orphans
  prune_expired_orphans-IsNode todo n now v = remove_orphans-IsNode todo n _ v

  pub prune_expired_orphans-shrinks :
      (n : Node) (now : ℕ)
      → length (prune_expired_orphans n now).orphan_blocks ≤ length n.orphan_blocks
  unfolding prune_expired_orphans
  prune_expired_orphans-shrinks n now = remove_orphans-shrinks n _

  -- A node with room for one more orphan; the block is still not one.
  record HasRoom (todo : List ℕ) (n : Node) (hash : ℕ) (after : Node) : Type 0 where
    valid : IsNode todo after
    room : length after.orphan_blocks < max_orphan_blocks
    absent : BTreeMap.get hash after.orphan_blocks ≡ none
    shrinks : length after.orphan_blocks ≤ length n.orphan_blocks

  get_head :
      (k : ℕ) (o : OrphanBlock) (m : BTreeMap OrphanBlock) → BTreeMap.get k ((k, o) ∷ m) ≡ some o
  unfolding BTreeMap.get
  get_head k o m = ground (arith, ==_iff k k)

  evict_first-HasRoom :
      (todo : List ℕ) (n : Node) (hash : ℕ) (orphans : BTreeMap OrphanBlock)
      → IsNode todo n
      → BTreeMap.get hash n.orphan_blocks ≡ none
      → n.orphan_blocks ≡ orphans
      → 0 < length orphans
      → HasRoom todo n hash (evict_first n orphans)
  unfolding evict_first remove_orphan remove_orphan_index
  evict_first-HasRoom todo n hash [] v absent same some_there = absurd (omega arith)
  evict_first-HasRoom todo n hash ((first, orphan) ∷ orphans) v absent same some_there = record {
    valid = remove_orphan-IsNode todo n first v;
    room = omega (
      arith,
      length-remove first orphan n.orphan_blocks
          (ap (λ m. BTreeMap.get first m) same ∙ get_head first orphan orphans),
      v.orphanage.bounded,
    );
    absent = ground (arith, get-remove hash first n.orphan_blocks v.orphanage.sorted_orphans);
    shrinks = length-remove-le first n.orphan_blocks;
  }

  make_room-HasRoom :
      (todo : List ℕ) (n : Node) (hash : ℕ)
      → IsNode todo n
      → BTreeMap.get hash n.orphan_blocks ≡ none
      → HasRoom todo n hash (make_room n)
  unfolding make_room
  make_room-HasRoom todo n hash v absent =
      elim (Bool-cases (leb max_orphan_blocks (length n.orphan_blocks))) [
        | inl full ↦
            rw full (evict_first-HasRoom todo n hash n.orphan_blocks v absent refl (ground arith))
        | inr room ↦
            rw room
              (record { valid = v; room = ground arith; absent = absent; shrinks = omega arith })
      ]

  -- Asking for a parent touches the queue alone.
  pub record AsksOnly (todo : List ℕ) (n after : Node) : Type 0 where
    pub valid : IsNode todo after
    pub orphans : after.orphan_blocks ≡ n.orphan_blocks
    pub index : after.orphan_children_by_parent ≡ n.orphan_children_by_parent

  pub queue_missing_parent_request_at-AsksOnly :
      (todo : List ℕ) (n : Node) (parent now : ℕ)
      → IsNode todo n
      → AsksOnly todo n (queue_missing_parent_request_at n parent now)
  unfolding queue_missing_parent_request_at
  queue_missing_parent_request_at-AsksOnly todo n parent now v =
      let q = (queue_missing_parent_request_at-IsQueued n parent now v.queue).queue in
      elim (Bool-cases (fork_contains n.fork_choice parent)) [
        | inl known ↦ rw known (record { valid = v; orphans = refl; index = refl })
        | inr unknown ↦ rw unknown (record {
          valid = record { orphanage = v.orphanage; queue = rw unknown at q; pool = v.pool };
          orphans = refl;
          index = refl;
        })
      ]

  queue_missing_parent_request-AsksOnly :
      (todo : List ℕ) (n : Node) (parent now : ℕ)
      → IsNode todo n
      → AsksOnly todo n (queue_missing_parent_request n parent now)
  unfolding queue_missing_parent_request
  queue_missing_parent_request-AsksOnly todo n parent now v =
      elim (Bool-cases (fork_contains n.fork_choice parent)) [
        | inl known ↦ rw known (record { valid = v; orphans = refl; index = refl })
        | inr unknown ↦ rw unknown (queue_missing_parent_request_at-AsksOnly todo n parent now v)
      ]

  store_orphan-IsNode :
      (todo : List ℕ) (n : Node) (block : Block) (now : ℕ)
      → IsNode todo n
      → length n.orphan_blocks < max_orphan_blocks
      → BTreeMap.get (block_hash block) n.orphan_blocks ≡ none
      → elem (block_hash block) todo ≡ false
      → IsNode todo (store_orphan n block now)
        × (length (store_orphan n block now).orphan_blocks ≤ suc (length n.orphan_blocks))
  unfolding store_orphan
  store_orphan-IsNode todo n block now v room absent idle =
      let a = queue_missing_parent_request-AsksOnly todo n (previous_hash block) now v in
      let asked = queue_missing_parent_request n (previous_hash block) now in
      let missing = ap (λ m. BTreeMap.get (block_hash block) m) a.orphans ∙ absent in
      let orphan : OrphanBlock = record { block = block; received_at = now } in
      let same = ap (λ (m : BTreeMap OrphanBlock). length m) a.orphans in
      (
        record {
          orphanage =
              stored-IsOrphanage todo asked.orphan_blocks asked.orphan_children_by_parent block now
                a.valid.orphanage (omega arith) missing idle;
          queue = a.valid.queue;
          pool = a.valid.pool;
        },
        omega (arith, length-insert (block_hash block) orphan asked.orphan_blocks missing),
      )

  abbrev Cached : List ℕ → Node → Block → ℕ → Type 0
  Cached todo n block now =
      IsNode todo (cache_orphan_block n block now)
      × (length (cache_orphan_block n block now).orphan_blocks ≤ suc (length n.orphan_blocks))

  -- Caching a block that is not being worked on keeps all of it, and adds one orphan at most.
  pub cache_orphan_block-IsNode :
      (todo : List ℕ) (n : Node) (block : Block) (now : ℕ)
      → IsNode todo n
      → elem (block_hash block) todo ≡ false
      → Cached todo n block now
  unfolding cache_orphan_block
  cache_orphan_block-IsNode todo n block now v idle =
      let pruned = prune_expired_orphans n now in
      let valid = prune_expired_orphans-IsNode todo n now v in
      let shrinks = prune_expired_orphans-shrinks n now in
      let hash = block_hash block in
      elim (Bool-cases (height block == 0 || orphan_is_too_far_ahead pruned.ledger block)) [
        | inl refused ↦ rw refused (valid, omega arith)
        | inr wanted ↦
            elim (Bool-cases (
              fork_contains pruned.fork_choice hash
              || is_some (BTreeMap.get hash pruned.orphan_blocks))) [
                | inl known ↦ rw (wanted, known) (valid, omega arith)
                | inr new ↦
                    let r = make_room-HasRoom todo pruned hash valid (ground arith) in
                    let s =
                      store_orphan-IsNode todo (make_room pruned) block now r.valid r.room r.absent
                        idle in
                    rw (wanted, new) (s.0, omega (arith, s.1, r.shrinks))
              ]
      ]
