-- ===== src/Node/Chain.antt =====
-- src/runtime/node/node.rs: the ledger of a branch, the difficulty that follows on a tip, and the checks on a
-- block whose parent is known.
use paqus_node.Base.{
  ℕ, ◌-◌, Bool, true, false, not, ◌&&◌, List, [], ◌∷◌, Option, none, some, ltb, ◌==◌, if◌then◌else◌,
  Result, ok, err, ◌>>=◌, ◌>>◌, ok_or, map_err, reject_if, elem,
}
use paqus_node.Node.{
  Node, NodeError, consensus, fork_choice, ledger, missing_genesis_state, checkpoint_mismatch,
  reorg_required,
}
use paqus_node.Node.Requests.{is_empty}
use paqus_node.Paqus.{Paqus}
use paqus_node.Storage.{StorageApi}

abbrev pub last_or : ℕ → List ℕ → ℕ
last_or tip [] = tip
last_or tip (x ∷ xs) = last_or x xs

-- `Iterator::find`.
abbrev pub find_first {ℓ} : {A : Type ℓ} → (A → Bool) → List A → Option A
find_first p [] = none
find_first p (x ∷ xs) = let rest = find_first p xs in if p x then some x else rest

module _ ⦃paqus : Paqus⦄ ⦃storage_api : StorageApi⦄ where
  open paqus use {
    Ledger, LedgerError, Block, block_hash, previous_hash, height, difficulty, block_timestamp,
    state_root, is_genesis, tip_height, tip_hash, state_root_after_block, apply_block,
    with_accounts, chain_insert_block, invalid_state_root, unexpected_difficulty, config_difficulty,
    validate_genesis_block_at, validate_next_block_with_tip_at, retarget_difficulty,
    difficulty_adjustment_interval, validate_checkpoint, ForkChoice, node_hash, node_height,
    node_block, missing_parent, fork_get, ancestor_hashes, branch_from_ancestor,
  }

  -- A call of the ledger whose new state is kept only if it succeeds.
  abbrev kept : Ledger × Result LedgerError (Unit {0}) → Result NodeError Ledger
  kept (l, ok _) = ok l
  kept (l, err e) = err (ledger e)

  unfoldable pub apply_branch : Ledger → List Block → Result NodeError Ledger
  apply_branch l [] = ok l
  apply_branch l (block ∷ blocks) = do next ← kept (apply_block l block); apply_branch next blocks

  unfoldable pub ledger_for_branch_tip : Node → ℕ → Result NodeError Ledger
  ledger_for_branch_tip n tip = do
    let genesis_hash = last_or tip (ancestor_hashes n.fork_choice tip)
    genesis ← ok_or (fork_get n.fork_choice genesis_hash) reorg_required
    started ← kept (chain_insert_block (with_accounts n.genesis_accounts) (node_block genesis))
    branch ← ok_or (branch_from_ancestor n.fork_choice genesis_hash tip) reorg_required
    apply_branch started branch

  unfoldable pub common_ancestor : Node → Option ℕ → ℕ → Option ℕ
  common_ancestor n none new_tip = none
  common_ancestor n (some old_tip) new_tip =
      let old_ancestors = ancestor_hashes n.fork_choice old_tip in
      find_first (λ hash. elem hash old_ancestors) (ancestor_hashes n.fork_choice new_tip)

  abbrev is_at_height : ForkChoice → ℕ → ℕ → Bool
  is_at_height f wanted hash = elim (fork_get f hash) [
    | none ↦ false
    | some node ↦ node_height node == wanted
  ]

  unfoldable pub next_difficulty_after_branch_tip : Node → ℕ → Result NodeError ℕ
  next_difficulty_after_branch_tip n tip_hash = do
    tip ← ok_or (fork_get n.fork_choice tip_hash) (fork_choice missing_parent)
    elim (ltb (node_height tip) difficulty_adjustment_interval) [
      | true ↦ ok (config_difficulty n.consensus)
      | false ↦ (do
        let first_height = node_height tip - difficulty_adjustment_interval
        first_hash ←
            ok_or
              (find_first (λ h. is_at_height n.fork_choice first_height h)
                (ancestor_hashes n.fork_choice tip_hash))
              reorg_required
        first ← ok_or (fork_get n.fork_choice first_hash) reorg_required
        let block_count = node_height tip - node_height first
        map_err consensus (
            retarget_difficulty n.consensus (difficulty (node_block tip))
              (block_timestamp (node_block first)) (block_timestamp (node_block tip)) block_count))
    ]

  unfoldable pub check_difficulty : Node → Block → ℕ → Result NodeError (Unit {0})
  check_difficulty n block parent = elim (config_difficulty n.consensus == 0) [
    | true ↦ ok tt
    | false ↦ (do
      expected ← next_difficulty_after_branch_tip n parent
      reject_if (not (difficulty block == expected)) (consensus unexpected_difficulty))
  ]

  unfoldable pub validate_block_for_known_parent : Node → Block → ℕ → Result NodeError (Unit {0})
  validate_block_for_known_parent n block now = elim (height block == 0) [
    | true ↦ map_err consensus (validate_genesis_block_at n.consensus block now)
    | false ↦ (do
      parent ← ok_or (fork_get n.fork_choice (previous_hash block)) (fork_choice missing_parent)
      check_difficulty n block (node_hash parent)
      map_err consensus (validate_next_block_with_tip_at n.consensus block (node_block parent) now)
      reject_if (not (validate_checkpoint (height block) (block_hash block))) checkpoint_mismatch)
  ]

  -- The hash of 64 zero bytes is 0.
  unfoldable pub validate_canonical_state_root : Ledger → Block → Result NodeError (Unit {0})
  validate_canonical_state_root l block = do
    expected ← map_err ledger (state_root_after_block l block)
    reject_if (not (state_root block == expected)) (ledger invalid_state_root)
    reject_if (not (is_genesis block) && state_root block == 0) (ledger invalid_state_root)

  unfoldable pub extends_active_tip : Ledger → Block → Bool
  extends_active_tip l block = elim (tip_hash l) [
    | none ↦ height block == 0
    | some tip ↦ previous_hash block == tip
  ]

  -- The block's root, and the block itself on a copy of the ledger.
  unfoldable pub check_state : Ledger → Block → Result NodeError (Unit {0})
  check_state l block = do
    validate_canonical_state_root l block
    applied ← kept (apply_block l block)
    ok tt

  unfoldable pub validate_block_state_for_known_parent : Node → Block → Result NodeError (Unit {0})
  validate_block_state_for_known_parent n block = elim (extends_active_tip n.ledger block) [
    | true ↦ check_state n.ledger block
    | false ↦ (do
      reject_if (is_empty n.genesis_accounts) missing_genesis_state
      parent ← ledger_for_branch_tip n (previous_hash block)
      check_state parent block)
  ]
