-- ===== src/Node/Keeping.antt =====
-- src/runtime/node/node.rs: a block whose parent is known keeps what holds of the node, and its orphans.
use paqus_node.Base.{
  ℕ, ◌≡◌, refl, List, [], ◌∷◌, elem, Bool-cases, inl, inr, Result, ok, err, Result-cases,
}
use paqus_node.BTreeMap
use paqus_node.BTreeMap.{BTreeMap, IsSorted}
use paqus_node.Cache.{from_ledger}
use paqus_node.Mempool.{Pool, remove_confirmed}
use paqus_node.Mempool.Accounting.{IsSound, IsValid-IsSound, insert_validated_at-IsValid}
use paqus_node.Mempool.Histories.{remove_confirmed-IsSound}
use paqus_node.Mempool.Insert.{insert_validated_at}
use paqus_node.Node.{Node, OrphanBlock}
use paqus_node.Node.Apply.{
  written, extend_ledger, cache_block, reinsert, reinsert_blocks, find_branch, move_to_branch,
  check_block, insert_checked_block, reorg_to_best_tip, is_tip, follow_best_tip,
  apply_known_parent_block,
}
use paqus_node.Node.Chain.{extends_active_tip}
use paqus_node.Node.Invariant.{IsNode}
use paqus_node.Paqus.{Paqus}
use paqus_node.Storage.{StorageApi}

module _ ⦃paqus : Paqus⦄ ⦃storage_api : StorageApi⦄ where
  open paqus use {
    SignedTransaction, Ledger, LedgerError, Block, block_hash, block_transactions, previous_hash,
    apply_block as ledger_apply_block, chain_blocks, ancestor_hashes, fork_insert,
  }
  open storage_api use {Storage, StorageError, save_ledger, save_side_block}

  -- A step that keeps what holds of the node, and its orphans.
  pub record Keeps (todo : List ℕ) (before : BTreeMap OrphanBlock) (after : Node) : Type 0 where
    pub valid : IsNode todo after
    pub orphans : after.orphan_blocks ≡ before

  pub written-Keeps :
      (todo : List ℕ) (n : Node) (r : Storage × Result StorageError (Unit {0}))
      → IsNode todo n
      → Keeps todo n.orphan_blocks (written n r).0
  written-Keeps todo n (s, ok _) v = record {
    valid = record { orphanage = v.orphanage; queue = v.queue; pool = v.pool };
    orphans = refl;
  }
  written-Keeps todo n (s, err e) v = record {
    valid = record { orphanage = v.orphanage; queue = v.queue; pool = v.pool };
    orphans = refl;
  }

  reinsert-IsSound :
      (m : Pool) (l : Ledger) (ts : List SignedTransaction) (now : ℕ)
      → IsSound m
      → IsSound (reinsert m l ts now)
  unfolding reinsert
  reinsert-IsSound m l [] now v = v
  reinsert-IsSound m l (t ∷ ts) now v =
      reinsert-IsSound (insert_validated_at m l t now).0 l ts now
        (IsValid-IsSound _ (insert_validated_at-IsValid m l t now v))

  reinsert_blocks-IsSound :
      (m : Pool) (l : Ledger) (winning : List ℕ) (blocks : List Block) (now : ℕ)
      → IsSound m
      → IsSound (reinsert_blocks m l winning blocks now)
  unfolding reinsert_blocks
  reinsert_blocks-IsSound m l winning [] now v = v
  reinsert_blocks-IsSound m l winning (b ∷ bs) now v =
      elim (Bool-cases (elem (block_hash b) winning)) [
        | inl on ↦ rw on (reinsert_blocks-IsSound m l winning bs now v)
        | inr off ↦ rw off (
            reinsert_blocks-IsSound (reinsert m l (block_transactions b) now) l winning bs now
              (reinsert-IsSound m l (block_transactions b) now v))
      ]

  extend_ledger-Keeps :
      (todo : List ℕ) (n : Node) (block : Block)
      → IsNode todo n
      → Keeps todo n.orphan_blocks (extend_ledger n block).0
  unfolding extend_ledger
  extend_ledger-Keeps todo n block v =
      let l = (ledger_apply_block n.ledger block).0 in
      elim (Result-cases (ledger_apply_block n.ledger block).1) [
        | inl (_, done) ↦
            let confirmed = remove_confirmed-IsSound (block_transactions block) n.mempool v.pool in
            rw (done, extend_ledger)
              (written-Keeps todo
                (record n {
                  ledger = l;
                  mempool = remove_confirmed n.mempool (block_transactions block);
                  cache = cache_block l n.cache block;
                })
                (save_ledger n.storage l)
                (record { orphanage = v.orphanage; queue = v.queue; pool = confirmed }))
        | inr (e, failed) ↦
            rw (failed, extend_ledger)
              (record {
                valid = record { orphanage = v.orphanage; queue = v.queue; pool = v.pool };
                orphans = refl;
              })
      ]

  move_to_branch-Keeps :
      (todo : List ℕ) (n : Node) (tip : ℕ) (l : Ledger) (now : ℕ)
      → IsNode todo n
      → Keeps todo n.orphan_blocks (move_to_branch n tip l now).0
  unfolding move_to_branch
  move_to_branch-Keeps todo n tip l now v =
      let moved : Node = record n { ledger = l; cache = from_ledger l } in
      let saved = written moved (save_ledger n.storage l) in
      let k =
        written-Keeps todo moved (save_ledger n.storage l)
          (record { orphanage = v.orphanage; queue = v.queue; pool = v.pool }) in
      elim (Result-cases saved.1) [
        | inr (e, unsaved) ↦ rw (unsaved, move_to_branch) k
        | inl (_, done) ↦
            rw (done, move_to_branch)
              (record {
                valid = record {
                  orphanage = k.valid.orphanage;
                  queue = k.valid.queue;
                  pool =
                      reinsert_blocks-IsSound saved.0.mempool l
                        (ancestor_hashes saved.0.fork_choice tip)
                        (BTreeMap.values (chain_blocks n.ledger)) now k.valid.pool;
                };
                orphans = k.orphans;
              })
      ]

  reorg_to_best_tip-Keeps :
      (todo : List ℕ) (n : Node) (now : ℕ)
      → IsNode todo n
      → Keeps todo n.orphan_blocks (reorg_to_best_tip n now).0
  unfolding reorg_to_best_tip
  reorg_to_best_tip-Keeps todo n now v = elim (Result-cases (find_branch n)) [
    | inr (e, failed) ↦ rw (failed, reorg_to_best_tip) (record { valid = v; orphans = refl })
    | inl ((tip, l), found) ↦
        rw (found, reorg_to_best_tip) (move_to_branch-Keeps todo n tip l now v)
  ]

  follow_best_tip-Keeps :
      (todo : List ℕ) (n : Node) (block : Block) (hash now : ℕ)
      → IsNode todo n
      → Keeps todo n.orphan_blocks (follow_best_tip n block hash now).0
  unfolding follow_best_tip
  follow_best_tip-Keeps todo n block hash now v = elim (Bool-cases (is_tip n.fork_choice hash)) [
    | inr side ↦ rw side (written-Keeps todo n (save_side_block n.storage block) v)
    | inl best ↦ elim (Bool-cases (extends_active_tip n.ledger block)) [
      | inl extends ↦ rw (best, extends) (extend_ledger-Keeps todo n block v)
      | inr forks ↦ rw (best, forks) (reorg_to_best_tip-Keeps todo n now v)
    ]
  ]

  insert_checked_block-Keeps :
      (todo : List ℕ) (n : Node) (block : Block) (now : ℕ)
      → IsNode todo n
      → Keeps todo n.orphan_blocks (insert_checked_block n block now).0
  unfolding insert_checked_block
  insert_checked_block-Keeps todo n block now v =
      let f = (fork_insert n.fork_choice block).0 in
      let w : IsNode todo (record n { fork_choice = f }) = record {
        orphanage = v.orphanage;
        queue = v.queue;
        pool = v.pool;
      } in
      elim (Result-cases (fork_insert n.fork_choice block).1) [
        | inr (e, failed) ↦ rw (failed, insert_checked_block) (record { valid = w; orphans = refl })
        | inl (hash, inserted) ↦
            rw (inserted, insert_checked_block)
              (follow_best_tip-Keeps todo (record n { fork_choice = f }) block hash now w)
      ]

  pub apply_known_parent_block-Keeps :
      (todo : List ℕ) (n : Node) (block : Block) (now : ℕ)
      → IsNode todo n
      → Keeps todo n.orphan_blocks (apply_known_parent_block n block now).0
  unfolding apply_known_parent_block
  apply_known_parent_block-Keeps todo n block now v =
      elim (Result-cases (check_block n block now)) [
        | inr (e, refused) ↦
            rw (refused, apply_known_parent_block) (record { valid = v; orphans = refl })
        | inl (_, good) ↦
            rw (good, apply_known_parent_block) (insert_checked_block-Keeps todo n block now v)
      ]
