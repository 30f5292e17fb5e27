-- ===== src/Node/Calls/Histories.antt =====
-- src/runtime/node/node.rs: any sequence of calls on a new node.
use paqus_node.Base.{
  ℕ, ◌≡◌, ◌<◌, refl, List, [], ◌∷◌, Option, none, some, arith, inl, inr, Result, ok, err, u64_max,
  saturating_add, Option-cases, Result-cases,
}
use mathlib.Core.Path.{subst}
use paqus_node.BTreeMap
use paqus_node.BTreeMap.{BTreeMap}
use paqus_node.Mempool.{Pool, default_config}
use paqus_node.Mempool.Accounting.{
  IsValid-IsSound, insert_validated_at-IsValid, prune_expired-IsValid,
}
use paqus_node.Mempool.Candidate.{candidate_block, create_candidate_block}
use paqus_node.Mempool.Histories.{with_config-IsSound}
use paqus_node.Mempool.{prune_expired}
use paqus_node.Mempool.Select.Loop.{select_for_block-IsSelection}
use paqus_node.Miner.{
  MiningConfig, MiningResult, prepare_candidate_block, mine_prepared_block, mine_candidate_block,
}
use paqus_node.Node.{Node, NodeError, missing_parent_retry_secs, consensus, mining_exhausted}
use paqus_node.Node.Apply.{apply_block}
use paqus_node.Node.Calls.{
  new, with_genesis_accounts, index_chain, submit_transaction, apply_mined, mine_block,
  flush_to_storage, next_difficulty, own_genesis_accounts,
}
use paqus_node.Node.Invariant.{IsNode, queue_missing_parent_request_at-AsksOnly}
use paqus_node.Node.Keeping.{written-Keeps}
use paqus_node.Node.Progress.{apply_block-IsNode}
use paqus_node.Node.Requests.{drain_missing_parent_requests_at, retry_missing_parent_request}
use paqus_node.Node.Requests.Steps.{drain_missing_parent_requests_at-IsDrained}
use paqus_node.Paqus.{Paqus}
use paqus_node.Storage.{StorageApi}

module _ ⦃paqus : Paqus⦄ ⦃storage_api : StorageApi⦄ where
  open paqus use {
    SignedTransaction, Account, chain_blocks, Ledger, Block, set_difficulty, Consensus,
    ConsensusError, invalid_block_state_root, new_fork_choice,
  }
  open storage_api use {Storage}

  pub data Call : Type 0 where
    submit_call : SignedTransaction → ℕ → Call
    apply_call : Block → ℕ → Call
    mine_call : ℕ → ℕ → ℕ → ℕ → ℕ → Call
    drain_call : ℕ → Call
    retry_call : ℕ → ℕ → Call
    flush_call : Call

  abbrev left_by {ℓ} : {A : Type ℓ} → Option (Node × A) → Option Node
  left_by none = none
  left_by (some r) = some r.0

  -- The node that a call leaves. `none` stands for a panic or a loop without end.
  unfoldable pub after : Call → Node → Option Node
  after (submit_call t now) n = some (submit_transaction n t now).0
  after (apply_call block now) n = left_by (apply_block n block now)
  after (mine_call miner timestamp attempts limit now) n =
      left_by (mine_block n miner timestamp attempts limit now)
  after (drain_call now) n = some (drain_missing_parent_requests_at n now).0
  after (retry_call hash now) n = some (retry_missing_parent_request n hash now)
  after flush_call n = some (flush_to_storage n).0

  unfoldable pub run : List Call → Node → Option Node
  run [] n = some n
  run (call ∷ calls) n = elim (after call n) [ none ↦ none | some next ↦ run calls next ]

  -- A result that is there, with a node in step.
  abbrev Ends : Option Node → Type 0
  Ends o = (n : Node) × (o ≡ some n) × IsNode [] n

  mine_candidate_block-returns :
      (m : Pool) (ledger : Ledger) (rules : Consensus) (miner timestamp : ℕ) (config : MiningConfig)
      → (r : Result ConsensusError (Option (MiningResult Block))) × (mine_candidate_block m ledger
            rules miner timestamp config
          ≡ some r)
  unfolding mine_candidate_block prepare_candidate_block create_candidate_block
  mine_candidate_block-returns m ledger rules miner timestamp config =
      let (ts, selected, _, _, _, _) = select_for_block-IsSelection m config.transaction_limit in
      let built = candidate_block ts ledger miner timestamp 0 in
      let created : create_candidate_block m ledger miner timestamp 0 config.transaction_limit
          ≡ some built =
        rw (selected, create_candidate_block) refl in
      let prepare =
        prepare_candidate_block m ledger miner timestamp config.transaction_limit
          config.difficulty in
      elim (Result-cases built) [
        | inl (block, good) ↦
            let ready = set_difficulty block config.difficulty in
            let prepared : prepare ≡ some (ok ready) =
              rw (created, good, prepare_candidate_block) refl in
            (mine_prepared_block ready rules config, rw (prepared, mine_candidate_block) refl)
        | inr (e, failed) ↦
            let prepared : prepare ≡ some (err invalid_block_state_root) =
              rw (created, failed, prepare_candidate_block) refl in
            (err invalid_block_state_root, rw (prepared, mine_candidate_block) refl)
      ]

  apply_mined-Ends :
      (n : Node) (result : MiningResult Block) (now : ℕ)
      → IsNode [] n
      → (r : Node × Result NodeError (MiningResult Block)) × (apply_mined n result now ≡ some r)
        × IsNode [] r.0
  unfolding apply_mined
  apply_mined-Ends n result now v =
      let (r, ended, valid) = apply_block-IsNode n result.block now v in
      elim (Result-cases r.1) [
        | inl (_, done) ↦ ((r.0, ok result), rw (ended, done, apply_mined) refl, valid)
        | inr (e, failed) ↦ ((r.0, err e), rw (ended, failed, apply_mined) refl, valid)
      ]

  mine_block-Ends :
      (n : Node) (miner timestamp attempts limit now : ℕ)
      → IsNode [] n
      → (r : Node × Result NodeError (MiningResult Block)) × (mine_block n miner timestamp attempts
            limit now
          ≡ some r)
        × IsNode [] r.0
  unfolding mine_block
  mine_block-Ends n miner timestamp attempts limit now v =
      let pruned : Node = record n { mempool = (prune_expired n.mempool timestamp).0 } in
      let w : IsNode [] pruned = record {
        orphanage = v.orphanage;
        queue = v.queue;
        pool = IsValid-IsSound _ (prune_expired-IsValid n.mempool timestamp v.pool);
      } in
      elim (Result-cases (next_difficulty pruned)) [
        | inr (e, failed) ↦ ((pruned, err e), rw (failed, mine_block) refl, w)
        | inl (difficulty, known) ↦
            let config : MiningConfig = record {
              difficulty = difficulty;
              max_attempts = attempts;
              transaction_limit = limit;
            } in
            let (r, mined) =
              mine_candidate_block-returns pruned.mempool pruned.ledger pruned.consensus miner
                timestamp config in
            elim (Result-cases r) [
              | inr (e, failed) ↦
                  ((pruned, err (consensus e)), rw (known, mined, failed, mine_block) refl, w)
              | inl (found, searched) ↦ elim (Option-cases found) [
                | inl nothing ↦ (
                  (pruned, err mining_exhausted),
                  rw (known, mined, searched, nothing, mine_block) refl,
                  w,
                )
                | inr (result, something) ↦
                    rw (known, mined, searched, something, mine_block)
                      (apply_mined-Ends pruned result now w)
              ]
            ]
      ]

  pub retried-IsNode :
      (n : Node) (hash now : ℕ) → IsNode [] n → IsNode [] (retry_missing_parent_request n hash now)
  unfolding retry_missing_parent_request
  retried-IsNode n hash now v =
      (queue_missing_parent_request_at-AsksOnly [] n hash
        (saturating_add now missing_parent_retry_secs) v).valid

  pub flushed-IsNode : (n : Node) → IsNode [] n → IsNode [] (flush_to_storage n).0
  unfolding flush_to_storage
  flushed-IsNode n v = (written-Keeps [] n _ v).valid

  after-Ends : (call : Call) (n : Node) → IsNode [] n → Ends (after call n)
  unfolding after submit_transaction drain_missing_parent_requests_at flush_to_storage
  after-Ends (submit_call t now) n v = (
    _,
    refl,
    record {
      orphanage = v.orphanage;
      queue = v.queue;
      pool = IsValid-IsSound _ (insert_validated_at-IsValid n.mempool n.ledger t now v.pool);
    },
  )
  after-Ends (apply_call block now) n v =
      let (r, ended, valid) = apply_block-IsNode n block now v in (r.0, rw ended refl, valid)
  after-Ends (mine_call miner timestamp attempts limit now) n v =
      let (r, ended, valid) = mine_block-Ends n miner timestamp attempts limit now v in
      (r.0, rw ended refl, valid)
  after-Ends (drain_call now) n v = (
    _,
    refl,
    record {
      orphanage = v.orphanage;
      queue = (drain_missing_parent_requests_at-IsDrained n now v.queue).0;
      pool = v.pool;
    },
  )
  after-Ends (retry_call hash now) n v = (_, refl, retried-IsNode n hash now v)
  after-Ends flush_call n v = (_, refl, flushed-IsNode n v)

  run-Ends : (calls : List Call) (n : Node) → IsNode [] n → Ends (run calls n)
  unfolding run
  run-Ends [] n v = (n, refl, v)
  run-Ends (call ∷ calls) n v =
      let (next, ended, valid) = after-Ends call n v in rw (ended, run) (run-Ends calls next valid)

  default_config-representable : default_config.max_bytes < u64_max
  unfolding default_config
  default_config-representable = omega arith

  abbrev pub IsStarted : Option Node → Type 0
  IsStarted none = Unit
  IsStarted (some n) = IsNode [] n

  pub with_genesis_accounts-IsStarted :
      (ledger : Ledger) (store : Storage) (rules : Consensus) (genesis : BTreeMap Account)
      → IsStarted (with_genesis_accounts ledger store rules genesis)
  unfolding with_genesis_accounts BTreeMap.get
  with_genesis_accounts-IsStarted ledger store rules genesis =
      elim (Option-cases (index_chain new_fork_choice (BTreeMap.values (chain_blocks ledger)))) [
        | inl panics ↦ rw (panics, with_genesis_accounts) tt
        | inr (f, indexed) ↦
            rw (indexed, with_genesis_accounts)
              (record {
                orphanage = record {
                  sorted_orphans = tt;
                  sorted_index = tt;
                  bounded = omega arith;
                  keyed = λ h. tt;
                  indexed = λ p h. refl;
                  tidy = λ p. tt;
                };
                queue = record {
                  distinct = tt;
                  sorted_set = tt;
                  sorted_times = tt;
                  listed = λ v. refl;
                  timed = λ v. refl;
                };
                pool = with_config-IsSound default_config default_config-representable;
              })
      ]

  -- On a new node, whose chain fork choice accepts, any sequence of submitted transactions, applied and
  -- mined blocks, drained and retried requests and flushes ends without a panic, and leaves a node in
  -- step: no more than 1024 orphans, indexed by their parents exactly; the queue of missing parents
  -- with its set and its times; a sound pool.
  pub run-new :
      (ledger : Ledger) (store : Storage) (rules : Consensus) (n : Node) (calls : List Call)
      → new ledger store rules ≡ some n
      → (last : Node) × (run calls n ≡ some last) × IsNode [] last
  unfolding new
  run-new ledger store rules n calls built = run-Ends calls n (
      subst IsStarted built
        (with_genesis_accounts-IsStarted ledger store rules (own_genesis_accounts ledger)))
