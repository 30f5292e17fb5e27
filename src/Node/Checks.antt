-- ===== src/Node/Checks.antt =====
-- src/runtime/node/node.rs: what a block has passed when the node keeps it.
use paqus_node.Base.{
  ℕ, ◌≡◌, refl, true, false, ◌⊎◌, inl, inr, some, ◌==◌, ok, err, arith, Bool-cases, Option-cases,
  Result-cases, ◌≢◌,
}
use paqus_node.Node.{Node, NodeError}
use paqus_node.Node.Apply.{check_block, apply_known_parent_block}
use paqus_node.Node.Chain.{
  ledger_for_branch_tip, next_difficulty_after_branch_tip, check_difficulty,
  validate_block_for_known_parent, validate_canonical_state_root, extends_active_tip, check_state,
  validate_block_state_for_known_parent,
}
use paqus_node.Paqus.{Paqus}
use paqus_node.Storage.{StorageApi}

module _ ⦃paqus : Paqus⦄ ⦃storage_api : StorageApi⦄ where
  open paqus use {
    Ledger, Block, block_hash, previous_hash, height, difficulty, state_root, is_genesis,
    state_root_after_block, apply_block, config_difficulty, validate_genesis_block_at,
    validate_next_block_with_tip_at, validate_checkpoint, ForkNode, node_hash, node_block, fork_get,
  }

  -- The block's root is what the ledger computes, it is not zero but in a genesis block, and the ledger
  -- accepts the block.
  pub record FitsLedger (l : Ledger) (block : Block) : Type 0 where
    pub root : state_root_after_block l block ≡ ok (state_root block)
    pub nonzero : (is_genesis block ≡ true) ⊎ (state_root block ≢ 0)
    pub applies : (apply_block l block).1 ≡ ok tt

  -- The block follows its parent, which fork choice knows, at the difficulty that the branch asks for.
  pub record FollowsParent (n : Node) (block : Block) (now : ℕ) : Type 0 where
    pub parent : ForkNode
    pub known : fork_get n.fork_choice (previous_hash block) ≡ some parent
    pub rises :
        (config_difficulty n.consensus ≡ 0)
        ⊎ (next_difficulty_after_branch_tip n (node_hash parent) ≡ ok (difficulty block))
    pub valid : validate_next_block_with_tip_at n.consensus block (node_block parent) now ≡ ok tt
    pub checkpointed : validate_checkpoint (height block) (block_hash block) ≡ true

  -- The ledger that the block stands on.
  abbrev pub StandsOn : Node → Block → Ledger → Type 0
  StandsOn n block l =
      ((extends_active_tip n.ledger block ≡ true) × (l ≡ n.ledger))
      ⊎ ((extends_active_tip n.ledger block ≡ false)
          × (ledger_for_branch_tip n (previous_hash block) ≡ ok l))

  pub record IsChecked (n : Node) (block : Block) (now : ℕ) : Type 0 where
    pub header :
        ((height block ≡ 0) × (validate_genesis_block_at n.consensus block now ≡ ok tt))
        ⊎ FollowsParent n block now
    pub base : Ledger
    pub stands : StandsOn n block base
    pub fits : FitsLedger base block

  check_state-FitsLedger :
      (l : Ledger) (block : Block) → check_state l block ≡ ok tt → FitsLedger l block
  unfolding check_state validate_canonical_state_root
  check_state-FitsLedger l block e = record {
    root = ground arith;
    nonzero = elim (Bool-cases (is_genesis block)) [
      | inl first ↦ inl first
      | inr later ↦ inr (λ z. absurd (ground arith))
    ];
    applies = ground arith;
  }

  -- The ledger, and what it says of the block.
  abbrev Stands : Node → Block → Type 0
  Stands n block = (base : Ledger) × StandsOn n block base × FitsLedger base block

  validate_block_state_for_known_parent-Stands :
      (n : Node) (block : Block)
      → validate_block_state_for_known_parent n block ≡ ok tt
      → Stands n block
  unfolding validate_block_state_for_known_parent
  validate_block_state_for_known_parent-Stands n block e =
      elim (Bool-cases (extends_active_tip n.ledger block)) [
        | inl extends ↦
            (n.ledger, inl (extends, refl), check_state-FitsLedger n.ledger block (ground arith))
        | inr forks ↦ elim (Result-cases (ledger_for_branch_tip n (previous_hash block))) [
          | inl (base, found) ↦
              (base, inr (forks, found), check_state-FitsLedger base block (ground arith))
          | inr (x, missing) ↦ absurd (ground arith)
        ]
      ]

  check_difficulty-rises :
      (n : Node) (block : Block) (parent : ℕ)
      → check_difficulty n block parent ≡ ok tt
      → (config_difficulty n.consensus ≡ 0)
        ⊎ (next_difficulty_after_branch_tip n parent ≡ ok (difficulty block))
  unfolding check_difficulty
  check_difficulty-rises n block parent e = elim (Bool-cases (config_difficulty n.consensus == 0)) [
    | inl free ↦ inl (ground arith)
    | inr fixed ↦ elim (Result-cases (next_difficulty_after_branch_tip n parent)) [
      | inl (d, found) ↦ inr (ground arith)
      | inr (x, missing) ↦ absurd (ground arith)
    ]
  ]

  -- What the checks of the header show.
  abbrev HasHeader : Node → Block → ℕ → Type 0
  HasHeader n block now =
      ((height block ≡ 0) × (validate_genesis_block_at n.consensus block now ≡ ok tt))
      ⊎ FollowsParent n block now

  validate_block_for_known_parent-HasHeader :
      (n : Node) (block : Block) (now : ℕ)
      → validate_block_for_known_parent n block now ≡ ok tt
      → HasHeader n block now
  unfolding validate_block_for_known_parent
  validate_block_for_known_parent-HasHeader n block now e = elim (Bool-cases (height block == 0)) [
    | inl first ↦ inl (ground arith, ground arith)
    | inr later ↦ elim (Option-cases (fork_get n.fork_choice (previous_hash block))) [
      | inl orphan ↦ absurd (ground arith)
      | inr (parent, known) ↦ inr (record {
        parent = parent;
        known = known;
        rises = check_difficulty-rises n block (node_hash parent) (ground arith);
        valid = ground arith;
        checkpointed = ground arith;
      })
    ]
  ]

  -- A block whose parent is known is refused and changes nothing of the node, or its header follows the
  -- rules (of a genesis block at height 0, else of its parent, at the difficulty that the branch asks
  -- for, with the checkpoints) and the ledger that it stands on, the node's own or its branch's,
  -- accepts it with the root that the block states.
  pub apply_known_parent_block-IsChecked :
      (n : Node) (block : Block) (now : ℕ)
      → ((e : NodeError) × (apply_known_parent_block n block now ≡ (n, err e)))
        ⊎ IsChecked n block now
  unfolding apply_known_parent_block check_block
  apply_known_parent_block-IsChecked n block now = elim (Result-cases (check_block n block now)) [
    | inr (e, refused) ↦ inl (e, rw (refused, apply_known_parent_block) refl)
    | inl (_, good) ↦
        let header = validate_block_for_known_parent-HasHeader n block now (ground arith) in
        let (base, stands, fits) =
          validate_block_state_for_known_parent-Stands n block (ground arith) in
        inr (record { header = header; base = base; stands = stands; fits = fits })
  ]
