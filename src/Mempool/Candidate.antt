-- ===== src/Mempool/Candidate.antt =====
-- src/runtime/mempool/mempool.rs, `create_candidate_block`. `none` stands for a panic in the selection.
use paqus_node.Base.{
  ℕ, ◌%◌, ◌&&◌, List, Option, none, some, ◌==◌, if◌then◌else◌, Result, ok, ◌>>=◌, sum_by,
  saturating_add, u32_modulus,
}
use paqus_node.Mempool.{Pool}
use paqus_node.Mempool.Select.{select_for_block}
use paqus_node.Paqus.{Paqus}

abbrev or_zero : Option ℕ → ℕ
or_zero none = 0
or_zero (some n) = n

abbrev next_height : Option ℕ → ℕ
next_height none = 0
next_height (some h) = saturating_add h 1

module _ ⦃paqus : Paqus⦄ where
  open paqus use {
    SignedTransaction, fee, Ledger, LedgerError, tip_height, tip_hash, Block, CoinbaseTransaction,
    new_coinbase, with_coinbase, set_state_root, mintable_subsidy, state_root_after_block,
    difficulty_start,
  }

  -- The sum of the `u32` fees wraps in a release build.
  unfoldable pub total_fees : List SignedTransaction → ℕ
  total_fees ts = sum_by fee ts % u32_modulus

  -- A first block has no coinbase; the hash of 64 zero bytes is 0.
  unfoldable pub candidate_coinbase :
      Ledger → ℕ → ℕ → ℕ → ℕ → Result LedgerError (Option CoinbaseTransaction)
  candidate_coinbase ledger height previous_hash miner_address fees =
      if height == 0 && previous_hash == 0 then ok none else (do
        subsidy ← mintable_subsidy ledger height
        ok (some (new_coinbase miner_address subsidy fees)))

  unfoldable pub candidate_block :
      List SignedTransaction → Ledger → ℕ → ℕ → ℕ → Result LedgerError Block
  candidate_block ts ledger miner_address timestamp nonce = do
    let height = next_height (tip_height ledger)
    let previous_hash = or_zero (tip_hash ledger)
    coinbase ← candidate_coinbase ledger height previous_hash miner_address (total_fees ts)
    let block =
        with_coinbase height previous_hash miner_address difficulty_start timestamp nonce coinbase
          ts
    root ← state_root_after_block ledger block
    ok (set_state_root block root)

  unfoldable pub create_candidate_block :
      Pool → Ledger → ℕ → ℕ → ℕ → ℕ → Option (Result LedgerError Block)
  create_candidate_block m ledger miner_address timestamp nonce transaction_limit =
      elim (select_for_block m transaction_limit) [
        | none ↦ none
        | some ts ↦ some (candidate_block ts ledger miner_address timestamp nonce)
      ]
