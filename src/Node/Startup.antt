-- ===== src/Node/Startup.antt =====
-- src/runtime/node/node.rs: a node on the blocks of its storage, `init_or_load`. Opening the storage is I/O:
-- the opened storage is an argument.
pub mod Ends
use paqus_node.Base.{
  ℕ, zero, suc, Bool, true, false, List, [], ◌∷◌, Option, none, some, leb, ◌==◌, if◌then◌else◌,
  length, Result, ok, err, ◌>>=◌, map_err, sort_by,
}
use paqus_node.BTreeMap.{BTreeMap}
use paqus_node.Node.{Node, NodeError, fork_choice, ledger, storage}
use paqus_node.Node.Apply.{written}
use paqus_node.Node.Calls.{with_genesis_accounts, own_genesis_accounts}
use paqus_node.Paqus.{Paqus}
use paqus_node.Storage.{StorageApi}

module _ ⦃paqus : Paqus⦄ ⦃storage_api : StorageApi⦄ where
  open paqus use {
    Account, Ledger, accounts, Block, block_hash, height, Consensus, ForkChoice, ForkChoiceError,
    fork_contains, fork_insert, is_missing_parent, new_ledger, genesis_block, genesis_hash,
    apply_block as ledger_apply_block,
  }
  open storage_api use {
    Storage, StorageError, load_tip, load_ledger, save_ledger, save_genesis_accounts,
    load_genesis_accounts, load_blocks_by_hash,
  }

  -- The blocks left, and whether any was placed.
  abbrev pub Round : Type 0
  Round = ForkChoice × Result ForkChoiceError (List Block × Bool)

  abbrev pub placed : Round → Round
  placed (f, ok (remaining, _)) = (f, ok (remaining, true))
  placed (f, err e) = (f, err e)

  abbrev pub left_over : Block → Round → Round
  left_over block (f, ok (remaining, progressed)) = (f, ok (block ∷ remaining, progressed))
  left_over block (f, err e) = (f, err e)

  -- The `for`, one round over the blocks.
  unfoldable pub index_round : ForkChoice → List Block → Round
  index_round f [] = (f, ok ([], false))
  index_round f (block ∷ blocks) = elim (fork_contains f (block_hash block)) [
    | true ↦ placed (index_round f blocks)
    | false ↦
        let (g, inserted) = fork_insert f block in
        elim inserted [
          | ok _ ↦ placed (index_round g blocks)
          | err e ↦ elim (is_missing_parent e) [
            | true ↦ left_over block (index_round g blocks)
            | false ↦ (g, err e)
          ]
        ]
  ]

  -- The `while progressed`. `none` is left when the fuel runs out.
  unfoldable pub index_rounds :
      ℕ → ForkChoice → List Block → Option (ForkChoice × Result ForkChoiceError (Unit {0}))
  index_rounds zero f blocks = none
  index_rounds (suc fuel) f blocks =
      let (g, round) = index_round f blocks in
      elim round [
        | err e ↦ some (g, err e)
        | ok (remaining, progressed) ↦ elim progressed [
          | true ↦ index_rounds fuel g remaining
          | false ↦ some (g, ok tt)
        ]
      ]

  abbrev pub by_height : Block → Block → Bool
  by_height a b = leb (height a) (height b)

  -- A round that places a block leaves fewer: one more round than there are blocks is enough.
  unfoldable pub index_stored_blocks : Node → Option (Node × Result NodeError (Unit {0}))
  index_stored_blocks n = elim (load_blocks_by_hash n.storage) [
    | err e ↦ some (n, err (storage e))
    | ok loaded ↦
        let blocks = sort_by by_height loaded in
        elim (index_rounds (suc (length blocks)) n.fork_choice blocks) [
          | none ↦ none
          | some (f, indexed) ↦ some (record n { fork_choice = f }, map_err fork_choice indexed)
        ]
  ]

  -- The genesis block on an empty ledger, saved with its accounts.
  unfoldable pub save_genesis : Storage → Storage × Result NodeError Ledger
  save_genesis store =
      let (l, applied) = ledger_apply_block new_ledger genesis_block in
      elim applied [
        | err e ↦ (store, err (ledger e))
        | ok _ ↦
            let (saved, result) = save_ledger store l in
            elim result [
              | err e ↦ (saved, err (storage e))
              | ok _ ↦
                  let (last, kept) = save_genesis_accounts saved (accounts l) in
                  elim kept [ err e ↦ (last, err (storage e)) | ok _ ↦ (last, ok l) ]
            ]
      ]

  -- `none` is the panic of the `assert_eq`.
  unfoldable pub first_ledger : Storage → Option (Storage × Result NodeError Ledger)
  first_ledger store = elim (load_tip store) [
    | err e ↦ some (store, err (storage e))
    | ok (some tip) ↦ let (left, loaded) = load_ledger store in some (left, map_err storage loaded)
    | ok none ↦ elim (block_hash genesis_block == genesis_hash) [
      | true ↦ some (save_genesis store)
      | false ↦ none
    ]
  ]

  abbrev or_own : Ledger → Option (BTreeMap Account) → BTreeMap Account
  or_own l none = own_genesis_accounts l
  or_own l (some found) = found

  -- The node on a ledger; its blocks are indexed.
  unfoldable pub start_node :
      Ledger → Storage → Consensus → Option (Storage × Result NodeError Node)
  start_node l store rules = elim (load_genesis_accounts store) [
    | err e ↦ some (store, err (storage e))
    | ok found ↦ elim (with_genesis_accounts l store rules (or_own l found)) [
      | none ↦ none
      | some n ↦ elim (index_stored_blocks n) [
        | none ↦ none
        | some (indexed, result) ↦
            some (indexed.storage, elim result [ ok _ ↦ ok indexed | err e ↦ err e ])
      ]
    ]
  ]

  -- The storage that is left, and the node.
  unfoldable pub init_or_load : Storage → Consensus → Option (Storage × Result NodeError Node)
  init_or_load store rules = elim (first_ledger store) [
    | none ↦ none
    | some (saved, found) ↦ elim found [
      | err e ↦ some (saved, err e)
      | ok l ↦ start_node l saved rules
    ]
  ]
