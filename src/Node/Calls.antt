-- ===== src/Node/Calls.antt =====
-- src/runtime/node/node.rs: the node's calls from outside, and what it reports of balances.
pub mod Histories
pub mod Pending
use paqus_node.Base.{
  ℕ, ◌+◌, Bool, true, false, List, [], ◌∷◌, Option, none, some, ◌==◌, if◌then◌else◌, Result, ok,
  err, ◌>>=◌, ok_or, map_err, saturating_add_u32,
}
use paqus_node.BTreeMap
use paqus_node.BTreeMap.{BTreeMap}
use paqus_node.Cache.{from_ledger}
use paqus_node.Mempool.{Pool, with_config, default_config, transactions, prune_expired}
use paqus_node.Mempool.Insert.{insert_validated_at}
use paqus_node.Miner.{MiningConfig, MiningResult, mine_candidate_block}
use paqus_node.Node.{Node, NodeError, consensus, mempool, storage, mining_exhausted}
use paqus_node.Node.Apply.{apply_block, written}
use paqus_node.Paqus.{Paqus}
use paqus_node.Storage.{StorageApi}

pub record PendingBalance : Type 0 where
  pub incoming : ℕ
  pub outgoing : ℕ

pub record BalanceSummary : Type 0 where
  pub confirmed : ℕ
  pub available : ℕ
  pub pending : PendingBalance

pub record AccountView : Type 0 where
  pub balance : ℕ
  pub unspendable : ℕ
  pub nonce : ℕ

module _ ⦃paqus : Paqus⦄ ⦃storage_api : StorageApi⦄ where
  open paqus use {
    SignedTransaction, from, to, amount, fee, Account, account_nonce, available_balance_at,
    unspendable_balance_at, Ledger, account, tip_height, accounts, chain_blocks, confirmed_balance,
    Block, Consensus, config_difficulty, retarget_difficulty, difficulty_adjustment_interval,
    ForkChoice, fork_insert, new_fork_choice,
  }
  open storage_api use {Storage, difficulty_window, save_ledger}

  -- `none` is the panic of the `expect`.
  unfoldable pub index_chain : ForkChoice → List Block → Option ForkChoice
  index_chain f [] = some f
  index_chain f (block ∷ blocks) =
      let (f', inserted) = fork_insert f block in
      elim inserted [ ok _ ↦ index_chain f' blocks | err e ↦ none ]

  unfoldable pub with_genesis_accounts :
      Ledger → Storage → Consensus → BTreeMap Account → Option Node
  with_genesis_accounts ledger store rules genesis_accounts =
      elim (index_chain new_fork_choice (BTreeMap.values (chain_blocks ledger))) [
        | none ↦ none
        | some fork_choice ↦ some (record {
          ledger = ledger;
          mempool = with_config default_config;
          storage = store;
          consensus = rules;
          cache = from_ledger ledger;
          fork_choice = fork_choice;
          genesis_accounts = genesis_accounts;
          orphan_blocks = [];
          orphan_children_by_parent = [];
          missing_parent_requests = [];
          missing_parent_request_set = [];
          missing_parent_retry_at = [];
        })
      ]

  abbrev pub own_genesis_accounts : Ledger → BTreeMap Account
  own_genesis_accounts ledger = elim (tip_height ledger) [
    | none ↦ []
    | some h ↦ if h == 0 then accounts ledger else []
  ]

  unfoldable pub new : Ledger → Storage → Consensus → Option Node
  new ledger store rules = with_genesis_accounts ledger store rules (own_genesis_accounts ledger)

  unfoldable pub submit_transaction : Node → SignedTransaction → ℕ → Node × Result NodeError ℕ
  submit_transaction n transaction now =
      let (pool, result) = insert_validated_at n.mempool n.ledger transaction now in
      (record n { mempool = pool }, map_err mempool result)

  unfoldable pub next_difficulty_after_tip : Node → ℕ → Result NodeError ℕ
  next_difficulty_after_tip n height = do
    window ← map_err storage (difficulty_window n.storage height difficulty_adjustment_interval)
    elim window [
      | none ↦ ok (config_difficulty n.consensus)
      | some (first_timestamp, last_timestamp, block_count, current_difficulty) ↦
          map_err consensus (
            retarget_difficulty n.consensus current_difficulty first_timestamp last_timestamp
              block_count)
    ]

  unfoldable pub next_difficulty : Node → Result NodeError ℕ
  next_difficulty n = elim (tip_height n.ledger) [
    | none ↦ ok (config_difficulty n.consensus)
    | some height ↦ next_difficulty_after_tip n height
  ]

  -- The node applies the block that it has found.
  unfoldable pub apply_mined :
      Node → MiningResult Block → ℕ → Option (Node × Result NodeError (MiningResult Block))
  apply_mined n result now = elim (apply_block n result.block now) [
    | none ↦ none
    | some (after, applied) ↦ some (after, elim applied [ ok _ ↦ ok result | err e ↦ err e ])
  ]

  -- `none` stands for a panic in the selection.
  unfoldable pub mine_block :
      Node → ℕ → ℕ → ℕ → ℕ → ℕ → Option (Node × Result NodeError (MiningResult Block))
  mine_block n miner_address timestamp max_attempts transaction_limit now =
      let pruned = record n { mempool = (prune_expired n.mempool timestamp).0 } in
      elim (next_difficulty pruned) [
        | err e ↦ some (pruned, err e)
        | ok difficulty ↦
            let config : MiningConfig = record {
              difficulty = difficulty;
              max_attempts = max_attempts;
              transaction_limit = transaction_limit;
            } in
            elim (mine_candidate_block pruned.mempool pruned.ledger pruned.consensus miner_address
              timestamp config) [
                | none ↦ none
                | some (err e) ↦ some (pruned, err (consensus e))
                | some (ok none) ↦ some (pruned, err mining_exhausted)
                | some (ok (some result)) ↦ apply_mined pruned result now
              ]
      ]

  unfoldable pub flush_to_storage : Node → Node × Result NodeError (Unit {0})
  flush_to_storage n = written n (save_ledger n.storage n.ledger)

  unfoldable pub available_balance : Node → ℕ → Option ℕ
  available_balance n address = elim (tip_height n.ledger) [
    | none ↦ none
    | some height ↦ elim (account n.ledger address) [
      | none ↦ none
      | some found ↦ some (available_balance_at found height)
    ]
  ]

  -- The loop's body.
  unfoldable pub add_transaction : ℕ → PendingBalance → SignedTransaction → PendingBalance
  add_transaction address pending t =
      let received =
        if to t == address
        then record pending { incoming = saturating_add_u32 pending.incoming (amount t) }
        else pending in
      if from t == address
      then record received {
        outgoing = saturating_add_u32 received.outgoing (saturating_add_u32 (amount t) (fee t));
      }
      else received

  unfoldable pub add_pending : ℕ → PendingBalance → List SignedTransaction → PendingBalance
  add_pending address pending [] = pending
  add_pending address pending (t ∷ ts) = add_pending address (add_transaction address pending t) ts

  unfoldable pub pending_balance : Node → ℕ → PendingBalance
  pending_balance n address =
      add_pending address (record { incoming = 0; outgoing = 0 }) (transactions n.mempool)

  unfoldable pub balance_summary : Node → ℕ → Option BalanceSummary
  balance_summary n address = elim (confirmed_balance n.ledger address) [
    | none ↦ none
    | some confirmed ↦ elim (available_balance n address) [
      | none ↦ none
      | some available ↦ some (record {
        confirmed = confirmed;
        available = available;
        pending = pending_balance n address;
      })
    ]
  ]

  unfoldable pub account_view : Node → ℕ → Option AccountView
  account_view n address = elim (account n.ledger address) [
    | none ↦ none
    | some found ↦ elim (tip_height n.ledger) [
      | none ↦ none
      | some height ↦ some (record {
        balance = available_balance_at found height;
        unspendable = unspendable_balance_at found height;
        nonce = account_nonce found;
      })
    ]
  ]
