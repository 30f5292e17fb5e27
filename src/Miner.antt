-- ===== src/Miner.antt =====
-- src/runtime/miner/miner.rs: building a candidate block and searching for its proof of work.
pub mod Search
use paqus_node.Base.{
  ℕ, zero, suc, ◌+◌, Bool, true, false, Option, none, some, ◌==◌, Result, ok, err, ◌>>=◌,
  saturating_add,
}
use paqus_node.Mempool.{Pool}
use paqus_node.Mempool.Candidate.{create_candidate_block}
use paqus_node.Paqus.{Paqus}

pub record MiningConfig : Type 0 where
  pub difficulty : ℕ
  pub max_attempts : ℕ
  pub transaction_limit : ℕ

pub record MiningResult (Block : Type 0) : Type 0 where
  pub block : Block
  pub attempts : ℕ

module _ ⦃paqus : Paqus⦄ where
  open paqus use {
    Ledger, Block, set_nonce, set_difficulty, Consensus, ConsensusError, invalid_block_state_root,
    proof_of_work_hash, is_proof_of_work,
  }

  -- The `for`, from an attempt on, with as many rounds as are left of `max_attempts`.
  unfoldable pub mine_from :
      Consensus → MiningConfig → Block → ℕ → ℕ → Result ConsensusError (Option (MiningResult Block))
  mine_from consensus config block attempt zero = ok none
  mine_from consensus config block attempt (suc left) =
      let candidate = set_nonce block attempt in
      let found : MiningResult Block = record {
        block = candidate;
        attempts = saturating_add attempt 1;
      } in
      elim (config.difficulty == 0) [
        | true ↦ ok (some found)
        | false ↦ elim (proof_of_work_hash consensus candidate) [
          | err e ↦ err e
          | ok hash ↦ elim (is_proof_of_work consensus hash config.difficulty) [
            | true ↦ ok (some found)
            | false ↦ mine_from consensus config candidate (attempt + 1) left
          ]
        ]
      ]

  unfoldable pub mine_prepared_block :
      Block → Consensus → MiningConfig → Result ConsensusError (Option (MiningResult Block))
  mine_prepared_block block consensus config =
      mine_from consensus config block 0 config.max_attempts

  -- `none` stands for a panic in the selection.
  unfoldable pub prepare_candidate_block :
      Pool → Ledger → ℕ → ℕ → ℕ → ℕ → Option (Result ConsensusError Block)
  prepare_candidate_block m ledger miner_address timestamp transaction_limit difficulty =
      elim (create_candidate_block m ledger miner_address timestamp 0 transaction_limit) [
        | none ↦ none
        | some (err e) ↦ some (err invalid_block_state_root)
        | some (ok block) ↦ some (ok (set_difficulty block difficulty))
      ]

  unfoldable pub mine_candidate_block :
      Pool
      → Ledger
      → Consensus
      → ℕ
      → ℕ
      → MiningConfig
      → Option (Result ConsensusError (Option (MiningResult Block)))
  mine_candidate_block m ledger consensus miner_address timestamp config =
      elim (prepare_candidate_block m ledger miner_address timestamp config.transaction_limit
        config.difficulty) [
          | none ↦ none
          | some prepared ↦ some (do block ← prepared; mine_prepared_block block consensus config)
        ]
