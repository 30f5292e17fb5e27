-- ===== src/Node/Apply.antt =====
-- src/runtime/node/node.rs: what the node does with a block, and with the orphans that wait for it.
use paqus_node.Base.{
  ℕ, zero, suc, ◌+◌, Bool, false, not, List, [], ◌∷◌, Option, none, some, ◌==◌, if◌then◌else◌,
  length, Result, ok, err, ◌>>=◌, ◌>>◌, ok_or, elem,
}
use paqus_node.BTreeMap
use paqus_node.BTreeMap.{BTreeMap}
use paqus_node.Cache.{CoreCache, insert_account, insert_block, from_ledger}
use paqus_node.Mempool.{Pool, remove_confirmed}
use paqus_node.Mempool.Insert.{insert_validated_at}
use paqus_node.Node.{
  Node, NodeError, fork_choice, ledger, storage, missing_genesis_state, reorg_required,
}
use paqus_node.Node.Chain.{
  common_ancestor, ledger_for_branch_tip, extends_active_tip, validate_block_for_known_parent,
  validate_block_state_for_known_parent,
}
use paqus_node.Node.Orphans.{cache_orphan_block, prune_expired_orphans}
use paqus_node.Node.Requests.{is_empty}
use paqus_node.Paqus.{Paqus}
use paqus_node.Storage.{StorageApi}

module _ ⦃paqus : Paqus⦄ ⦃storage_api : StorageApi⦄ where
  open paqus use {
    SignedTransaction, from, to, Account, Ledger, LedgerError, account, Block, block_hash,
    miner_address, block_transactions, apply_block as ledger_apply_block, chain_blocks, tip_hash,
    ForkChoice, node_hash, fork_insert, best_tip, ancestor_hashes, branch_from_ancestor,
    is_missing_parent, is_duplicate, is_duplicate_block,
  }
  open storage_api use {Storage, StorageError, save_side_block, save_ledger}

  -- The node with what a write left of the storage.
  abbrev pub written :
      Node → Storage × Result StorageError (Unit {0}) → Node × Result NodeError (Unit {0})
  written n (s, ok _) = (record n { storage = s }, ok tt)
  written n (s, err e) = (record n { storage = s }, err (storage e))

  unfoldable pub cache_account : Ledger → CoreCache → ℕ → CoreCache
  cache_account l c a = elim (account l a) [ none ↦ c | some found ↦ insert_account c found ]

  unfoldable pub cache_parties : Ledger → CoreCache → List SignedTransaction → CoreCache
  cache_parties l c [] = c
  cache_parties l c (t ∷ ts) =
      cache_parties l (cache_account l (cache_account l c (from t)) (to t)) ts

  unfoldable pub cache_block : Ledger → CoreCache → Block → CoreCache
  cache_block l c block =
      cache_account l (cache_parties l (insert_block c block) (block_transactions block))
        (miner_address block)

  -- The block goes on top of the ledger.
  unfoldable pub extend_ledger : Node → Block → Node × Result NodeError (Unit {0})
  extend_ledger n block =
      let (l, applied) = ledger_apply_block n.ledger block in
      elim applied [
        | err e ↦ (record n { ledger = l }, err (ledger e))
        | ok _ ↦
            let extended = record n {
              ledger = l;
              mempool = remove_confirmed n.mempool (block_transactions block);
              cache = cache_block l n.cache block;
            } in
            written extended (save_ledger extended.storage l)
      ]

  unfoldable pub reinsert : Pool → Ledger → List SignedTransaction → ℕ → Pool
  reinsert m l [] now = m
  reinsert m l (t ∷ ts) now = reinsert (insert_validated_at m l t now).0 l ts now

  -- The transactions of the blocks that are not on the winning branch.
  unfoldable pub reinsert_blocks : Pool → Ledger → List ℕ → List Block → ℕ → Pool
  reinsert_blocks m l winning [] now = m
  reinsert_blocks m l winning (block ∷ blocks) now =
      reinsert_blocks
        (if elem (block_hash block) winning then m else reinsert m l (block_transactions block) now)
        l winning blocks now

  -- The hash of the best tip, and the ledger of its branch.
  unfoldable pub find_branch : Node → Result NodeError (ℕ × Ledger)
  find_branch n = if is_empty n.genesis_accounts then err missing_genesis_state else (do
    best ← ok_or (best_tip n.fork_choice) reorg_required
    let tip = node_hash best
    ancestor ← ok_or (common_ancestor n (tip_hash n.ledger) tip) reorg_required
    winning_branch ← ok_or (branch_from_ancestor n.fork_choice ancestor tip) reorg_required
    l ← ledger_for_branch_tip n tip
    ok (tip, l))

  -- The node on the ledger of the best tip's branch.
  unfoldable pub move_to_branch : Node → ℕ → Ledger → ℕ → Node × Result NodeError (Unit {0})
  move_to_branch n tip l now =
      let moved = record n { ledger = l; cache = from_ledger l } in
      let (saved, result) = written moved (save_ledger moved.storage l) in
      elim result [
        | err e ↦ (saved, err e)
        | ok _ ↦ (
          record saved {
            mempool =
                reinsert_blocks saved.mempool l (ancestor_hashes saved.fork_choice tip)
                  (BTreeMap.values (chain_blocks n.ledger)) now;
          },
          ok tt,
        )
      ]

  unfoldable pub reorg_to_best_tip : Node → ℕ → Node × Result NodeError (Unit {0})
  reorg_to_best_tip n now = elim (find_branch n) [
    | err e ↦ (n, err e)
    | ok (tip, l) ↦ move_to_branch n tip l now
  ]

  abbrev pub is_tip : ForkChoice → ℕ → Bool
  is_tip f hash = elim (best_tip f) [ none ↦ false | some best ↦ node_hash best == hash ]

  -- The block is in fork choice, under this hash.
  unfoldable pub follow_best_tip : Node → Block → ℕ → ℕ → Node × Result NodeError (Unit {0})
  follow_best_tip n block hash now =
      if not (is_tip n.fork_choice hash)
      then written n (save_side_block n.storage block)
      else if extends_active_tip n.ledger block
      then extend_ledger n block
      else reorg_to_best_tip n now

  -- The block has passed the checks.
  unfoldable pub insert_checked_block : Node → Block → ℕ → Node × Result NodeError (Unit {0})
  insert_checked_block n block now =
      let (f, inserted) = fork_insert n.fork_choice block in
      elim inserted [
        | err e ↦ (record n { fork_choice = f }, err (fork_choice e))
        | ok hash ↦ follow_best_tip (record n { fork_choice = f }) block hash now
      ]

  unfoldable pub check_block : Node → Block → ℕ → Result NodeError (Unit {0})
  check_block n block now = do
    validate_block_for_known_parent n block now
    validate_block_state_for_known_parent n block

  unfoldable pub apply_known_parent_block : Node → Block → ℕ → Node × Result NodeError (Unit {0})
  apply_known_parent_block n block now = elim (check_block n block now) [
    | err e ↦ (n, err e)
    | ok _ ↦ insert_checked_block n block now
  ]

  abbrev pub misses_parent : NodeError → Bool
  misses_parent (fork_choice e) = is_missing_parent e
  misses_parent e = false

  abbrev pub is_known : NodeError → Bool
  is_known (fork_choice e) = is_duplicate e
  is_known (ledger e) = is_duplicate_block e
  is_known e = false

  -- One child of a parent: the node, and the parents to look at next, the last one first.
  unfoldable pub process_child : Node → List ℕ → ℕ → ℕ → Node × List ℕ
  process_child n parents child_hash now = elim (BTreeMap.get child_hash n.orphan_blocks) [
    | none ↦ (n, parents)
    | some orphan ↦
        let taken = record n { orphan_blocks = BTreeMap.remove child_hash n.orphan_blocks } in
        let (after, applied) = apply_known_parent_block taken orphan.block now in
        elim applied [
          | ok _ ↦ (after, child_hash ∷ parents)
          | err e ↦ (
            if misses_parent e then cache_orphan_block after orphan.block now else after,
            parents,
          )
        ]
  ]

  unfoldable pub process_children : Node → List ℕ → List ℕ → ℕ → Node × List ℕ
  process_children n parents [] now = (n, parents)
  process_children n parents (child ∷ children) now =
      let (after, next) = process_child n parents child now in
      process_children after next children now

  -- The `while`. `none` is left when the fuel runs out.
  unfoldable pub process_parents : ℕ → Node → List ℕ → ℕ → Option Node
  process_parents zero n parents now = none
  process_parents (suc fuel) n [] now = some n
  process_parents (suc fuel) n (parent ∷ parents) now =
      elim (BTreeMap.get parent n.orphan_children_by_parent) [
        | none ↦ process_parents fuel n parents now
        | some children ↦
            let opened = record n {
              orphan_children_by_parent = BTreeMap.remove parent n.orphan_children_by_parent;
            } in
            let (after, next) = process_children opened parents children now in
            process_parents fuel after next now
      ]

  -- Each round takes a parent away, and adds one only for an orphan that it takes away.
  unfoldable pub process_orphans_for_parent : Node → ℕ → ℕ → Option Node
  process_orphans_for_parent n parent_hash now =
      let pruned = prune_expired_orphans n now in
      process_parents (2 + length pruned.orphan_blocks) pruned (parent_hash ∷ []) now

  unfoldable pub apply_block : Node → Block → ℕ → Option (Node × Result NodeError (Unit {0}))
  apply_block n block now =
      let (after, applied) = apply_known_parent_block (prune_expired_orphans n now) block now in
      elim applied [
        | ok _ ↦ elim (process_orphans_for_parent after (block_hash block) now) [
          | none ↦ none
          | some done ↦ some (done, ok tt)
        ]
        | err e ↦ some (
            if misses_parent e
            then (cache_orphan_block after block now, ok tt)
            else if is_known e
            then (after, ok tt)
            else (after, err e))
      ]
