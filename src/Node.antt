-- ===== src/Node.antt =====
-- src/runtime/node/node.rs and src/runtime/node/error.rs: the node's state. The clock is read once in each
-- call of the node: it is the argument `now`, in seconds.
pub mod Requests
pub mod Orphans
pub mod Chain
pub mod Apply
pub mod Invariant
pub mod Keeping
pub mod Checks
pub mod Progress
pub mod Calls
pub mod Startup
pub mod Reads
use paqus_node.Base.{
  ℕ, ◌+◌, Bool, true, false, not, ◌||◌, List, [], ◌∷◌, Option, none, some, Result, ok, err, ◌==◌,
}
use paqus_node.BTreeMap.{BTreeMap, Set}
use paqus_node.Cache.{CoreCache}
use paqus_node.Mempool.{Pool, MempoolError}
use paqus_node.Paqus.{Paqus}
use paqus_node.Storage.{StorageApi}

abbrev pub max_orphan_blocks : ℕ
max_orphan_blocks = 1_024

abbrev pub max_orphan_height_distance : ℕ
max_orphan_height_distance = 512

abbrev pub orphan_block_ttl_secs : ℕ
orphan_block_ttl_secs = 600

abbrev pub missing_parent_retry_secs : ℕ
missing_parent_retry_secs = 5

module _ ⦃paqus : Paqus⦄ ⦃storage_api : StorageApi⦄ where
  open paqus use {
    Account, Ledger, Block, Consensus, ConsensusError, ForkChoice, ForkChoiceError, LedgerError,
    TransactionError,
  }
  open storage_api use {Storage, StorageError}

  pub data NodeError : Type 0 where
    consensus : ConsensusError → NodeError
    fork_choice : ForkChoiceError → NodeError
    ledger : LedgerError → NodeError
    mempool : MempoolError TransactionError LedgerError → NodeError
    storage : StorageError → NodeError
    mining_exhausted : NodeError
    missing_genesis_state : NodeError
    checkpoint_mismatch : NodeError
    reorg_required : NodeError

  pub record OrphanBlock : Type 0 where
    pub block : Block
    pub received_at : ℕ

  pub record Node : Type 0 where
    pub ledger : Ledger
    pub mempool : Pool
    pub storage : Storage
    pub consensus : Consensus
    pub cache : CoreCache
    pub fork_choice : ForkChoice
    pub genesis_accounts : BTreeMap Account
    pub orphan_blocks : BTreeMap OrphanBlock
    pub orphan_children_by_parent : BTreeMap (List ℕ)
    pub missing_parent_requests : List ℕ
    pub missing_parent_request_set : Set
    pub missing_parent_retry_at : BTreeMap ℕ
