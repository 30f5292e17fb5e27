-- ===== src/Paqus.antt =====
-- The crate `paqus` (Cargo.toml), which the node calls and whose source is not in the repository:
-- its types and functions are the fields of this record, and every model takes it as a parameter.
-- A 64-byte hash and a 20-byte address are read as numbers, most significant byte first.
use paqus_node.Base.{ℕ, Bool, List, Option, Result}
use Prim.Native.String.{String}
use paqus_node.BTreeMap.{BTreeMap}

pub record Paqus : Type 1 where
  -- `paqus::transaction::SignedTransaction`: the fields of its `transaction`, and its methods.
  pub SignedTransaction : Type 0
  pub from : SignedTransaction → ℕ
  pub to : SignedTransaction → ℕ
  pub amount : SignedTransaction → ℕ
  pub fee : SignedTransaction → ℕ
  pub nonce : SignedTransaction → ℕ
  pub timestamp : SignedTransaction → ℕ
  pub hash : SignedTransaction → ℕ
  pub serialized_size : SignedTransaction → ℕ
  pub TransactionError : Type 0
  pub from_future : TransactionError
  pub expired : TransactionError
  pub validate_signed_at : SignedTransaction → ℕ → Result TransactionError (Unit {0})
  pub validate_signed : SignedTransaction → Result TransactionError (Unit {0})
  -- `paqus::state::Account`.
  pub Account : Type 0
  pub address : Account → ℕ
  pub account_nonce : Account → ℕ
  pub available_balance_at : Account → ℕ → ℕ
  -- `paqus::ledger::Ledger` and its errors; the last three are `InvalidState` of a `StateError`.
  pub Ledger : Type 0
  pub account : Ledger → ℕ → Option Account
  pub tip_height : Ledger → Option ℕ
  pub tip_hash : Ledger → Option ℕ
  -- `paqus::params::BLOCK_TIME`, in seconds.
  pub block_time : ℕ
  pub LedgerError : Type 0
  pub account_not_found : LedgerError
  pub invalid_nonce : LedgerError
  pub balance_overflow : LedgerError
  pub insufficient_balance : LedgerError
  pub invalid_state_root : LedgerError
  pub is_duplicate_block : LedgerError → Bool
  -- `paqus::block::Block` and its coinbase. The header's fields can be assigned from outside.
  pub Block : Type 0
  pub block_hash : Block → ℕ
  pub previous_hash : Block → ℕ
  pub height : Block → ℕ
  pub miner_address : Block → ℕ
  pub block_timestamp : Block → ℕ
  pub difficulty : Block → ℕ
  pub state_root : Block → ℕ
  pub is_genesis : Block → Bool
  pub block_transactions : Block → List SignedTransaction
  pub set_nonce : Block → ℕ → Block
  pub set_difficulty : Block → ℕ → Block
  pub set_state_root : Block → ℕ → Block
  pub CoinbaseTransaction : Type 0
  pub new_coinbase : ℕ → ℕ → ℕ → CoinbaseTransaction
  -- Height, previous hash, miner, difficulty, time, nonce, coinbase and transactions.
  pub with_coinbase :
      ℕ → ℕ → ℕ → ℕ → ℕ → ℕ → Option CoinbaseTransaction → List SignedTransaction → Block
  -- More of the ledger. A method that changes it returns the ledger that it leaves, also on an error.
  pub accounts : Ledger → BTreeMap Account
  pub chain_blocks : Ledger → BTreeMap Block
  pub mintable_subsidy : Ledger → ℕ → Result LedgerError ℕ
  pub state_root_after_block : Ledger → Block → Result LedgerError ℕ
  pub apply_block : Ledger → Block → Ledger × Result LedgerError (Unit {0})
  pub with_accounts : BTreeMap Account → Ledger
  pub chain_insert_block : Ledger → Block → Ledger × Result LedgerError (Unit {0})
  pub block_at : Ledger → ℕ → Option Block
  pub new_ledger : Ledger
  pub balance : Ledger → ℕ → Option ℕ
  -- The assignment of the field `accounts`, the two state roots and the heights of snapshots.
  pub set_accounts : Ledger → BTreeMap Account → Ledger
  pub ledger_state_root : Ledger → ℕ
  pub calculate_state_root : BTreeMap Account → ℕ
  pub is_snapshot_height : ℕ → Bool
  pub confirmed_balance : Ledger → ℕ → Option ℕ
  pub unspendable_balance_at : Account → ℕ → ℕ
  -- `paqus::genesis`.
  pub genesis_block : Block
  pub genesis_hash : ℕ
  -- `paqus::consensus::Consensus`, `paqus::params` and `paqus::checkpoint`.
  pub Consensus : Type 0
  pub ConsensusError : Type 0
  pub invalid_block_state_root : ConsensusError
  pub unexpected_difficulty : ConsensusError
  pub config_difficulty : Consensus → ℕ
  pub proof_of_work_hash : Consensus → Block → Result ConsensusError ℕ
  pub is_proof_of_work : Consensus → ℕ → ℕ → Bool
  pub validate_genesis_block_at : Consensus → Block → ℕ → Result ConsensusError (Unit {0})
  pub validate_next_block_with_tip_at :
      Consensus → Block → Block → ℕ → Result ConsensusError (Unit {0})
  pub retarget_difficulty : Consensus → ℕ → ℕ → ℕ → ℕ → Result ConsensusError ℕ
  pub difficulty_start : ℕ
  pub difficulty_adjustment_interval : ℕ
  -- The fields of `CURRENT_CHAIN_PARAMS`; the four bytes of the magic are one number.
  pub protocol_version : ℕ
  pub chain_id : ℕ
  pub chain_name : String
  pub protocol_stage : String
  pub network_magic : ℕ
  pub validate_checkpoint : ℕ → ℕ → Bool
  -- `paqus::ledger::fork_choice::ForkChoice` and its nodes.
  pub ForkChoice : Type 0
  pub ForkNode : Type 0
  pub node_hash : ForkNode → ℕ
  pub node_height : ForkNode → ℕ
  pub node_block : ForkNode → Block
  pub ForkChoiceError : Type 0
  pub missing_parent : ForkChoiceError
  pub is_missing_parent : ForkChoiceError → Bool
  pub is_duplicate : ForkChoiceError → Bool
  pub fork_contains : ForkChoice → ℕ → Bool
  pub fork_get : ForkChoice → ℕ → Option ForkNode
  pub fork_insert : ForkChoice → Block → ForkChoice × Result ForkChoiceError ℕ
  pub best_tip : ForkChoice → Option ForkNode
  pub ancestor_hashes : ForkChoice → ℕ → List ℕ
  pub new_fork_choice : ForkChoice
  pub branch_from_ancestor : ForkChoice → ℕ → ℕ → Option (List Block)
