-- ===== src/Node/Startup/Ends.antt =====
-- src/runtime/node/node.rs: starting a node ends, and the node is in step.
use paqus_node.Base.{
  ℕ, zero, suc, ◌≡◌, ◌<◌, ◌≤◌, refl, ◌∙◌, ap, Bool, true, false, List, [], ◌∷◌, Option, some, arith,
  length, ==_iff, Result, ok, err, Bool-cases, Option-cases, Result-cases, inl, inr, sort_by,
  map_err,
}
use mathlib.Core.Path.{subst}
use paqus_node.BTreeMap
use paqus_node.BTreeMap.{BTreeMap}
use paqus_node.Node.{Node, NodeError, storage, fork_choice}
use paqus_node.Node.Calls.{with_genesis_accounts, index_chain}
use paqus_node.Node.Calls.Histories.{IsStarted, with_genesis_accounts-IsStarted}
use paqus_node.Node.Invariant.{IsNode}
use paqus_node.Node.Startup.{
  Round, placed, left_over, index_round, index_rounds, by_height, index_stored_blocks, first_ledger,
  save_genesis, start_node, init_or_load, or_own,
}
use paqus_node.Paqus.{Paqus}
use paqus_node.Storage.{StorageApi}

module _ ⦃paqus : Paqus⦄ ⦃storage_api : StorageApi⦄ where
  open paqus use {
    Account, Ledger, Block, block_hash, chain_blocks, Consensus, ForkChoice, ForkChoiceError,
    fork_contains, fork_insert, is_missing_parent, new_fork_choice, genesis_block, genesis_hash,
  }
  open storage_api use {Storage, load_blocks_by_hash, load_tip, load_ledger, load_genesis_accounts}

  -- What a round of so many blocks leaves: fewer, if it has placed one.
  abbrev Leaves : ℕ → Round → Type 0
  Leaves k (f, err e) = Unit
  Leaves k (f, ok (remaining, true)) = length remaining < k
  Leaves k (f, ok (remaining, false)) = length remaining ≤ k

  placed-Leaves : (k : ℕ) (r : Round) → Leaves k r → Leaves (suc k) (placed r)
  placed-Leaves k (f, err e) h = tt
  placed-Leaves k (f, ok (remaining, true)) h = omega arith
  placed-Leaves k (f, ok (remaining, false)) h = omega arith

  left_over-Leaves :
      (k : ℕ) (block : Block) (r : Round) → Leaves k r → Leaves (suc k) (left_over block r)
  left_over-Leaves k block (f, err e) h = tt
  left_over-Leaves k block (f, ok (remaining, true)) h = omega arith
  left_over-Leaves k block (f, ok (remaining, false)) h = omega arith

  index_round-Leaves :
      (f : ForkChoice) (blocks : List Block) → Leaves (length blocks) (index_round f blocks)
  unfolding index_round
  index_round-Leaves f [] = omega arith
  index_round-Leaves f (block ∷ blocks) =
      let g = (fork_insert f block).0 in
      elim (Bool-cases (fork_contains f (block_hash block))) [
        | inl known ↦
            rw (known, index_round)
              (placed-Leaves (length blocks) (index_round f blocks) (index_round-Leaves f blocks))
        | inr unknown ↦ elim (Result-cases (fork_insert f block).1) [
          | inl (hash, inserted) ↦
              rw (unknown, inserted, index_round)
                (placed-Leaves (length blocks) (index_round g blocks) (index_round-Leaves g blocks))
          | inr (e, failed) ↦ elim (Bool-cases (is_missing_parent e)) [
            | inl missing ↦
                rw (unknown, failed, missing, index_round)
                  (left_over-Leaves (length blocks) block (index_round g blocks)
                    (index_round-Leaves g blocks))
            | inr other ↦ rw (unknown, failed, other, index_round) tt
          ]
        ]
      ]

  abbrev Returns : Option (ForkChoice × Result ForkChoiceError (Unit {0})) → Type 0
  Returns o = (r : ForkChoice × Result ForkChoiceError (Unit {0})) × (o ≡ some r)

  index_rounds-Returns :
      (fuel : ℕ) (f : ForkChoice) (blocks : List Block)
      → length blocks < fuel
      → Returns (index_rounds fuel f blocks)
  unfolding index_rounds
  index_rounds-Returns zero f blocks enough = absurd (omega arith)
  index_rounds-Returns (suc fuel) f blocks enough =
      let g = (index_round f blocks).0 in
      let leaves = index_round-Leaves f blocks in
      elim (Result-cases (index_round f blocks).1) [
        | inr (e, failed) ↦ ((g, err e), rw (failed, index_rounds) refl)
        | inl ((remaining, progressed), done) ↦ elim (Bool-cases progressed) [
          | inr stuck ↦ ((g, ok tt), rw (done, stuck, index_rounds) refl)
          | inl moved ↦
              let fewer : length remaining < length blocks =
                subst (λ (p : Bool). Leaves (length blocks) (g, ok (remaining, p))) moved
                  (subst
                    (λ (r : Result ForkChoiceError (List Block × Bool)).
                      Leaves (length blocks) (g, r))
                    done leaves) in
              rw (done, moved, index_rounds) (index_rounds-Returns fuel g remaining (omega arith))
        ]
      ]

  index_stored_blocks-IsNode :
      (n : Node)
      → IsNode [] n
      → (r : Node × Result NodeError (Unit {0})) × (index_stored_blocks n ≡ some r) × IsNode [] r.0
  unfolding index_stored_blocks
  index_stored_blocks-IsNode n v = elim (Result-cases (load_blocks_by_hash n.storage)) [
    | inr (e, failed) ↦ ((n, err (storage e)), rw (failed, index_stored_blocks) refl, v)
    | inl (loaded, read) ↦
        let blocks = sort_by by_height loaded in
        let (r, ended) =
          index_rounds-Returns (suc (length blocks)) n.fork_choice blocks (omega arith) in
        (
          (record n { fork_choice = r.0 }, map_err fork_choice r.1),
          rw (read, ended, index_stored_blocks) refl,
          record { orphanage = v.orphanage; queue = v.queue; pool = v.pool },
        )
  ]

  abbrev pub IsReady : Result NodeError Node → Type 0
  IsReady (ok n) = IsNode [] n
  IsReady (err e) = Unit

  abbrev Readies : Option (Storage × Result NodeError Node) → Type 0
  Readies o = (r : Storage × Result NodeError Node) × (o ≡ some r) × IsReady r.1

  -- Fork choice accepts the blocks of a ledger's chain.
  abbrev pub IsIndexable : Ledger → Type 0
  IsIndexable l =
      (f : ForkChoice) × (index_chain new_fork_choice (BTreeMap.values (chain_blocks l)) ≡ some f)

  with_genesis_accounts-IsNode :
      (l : Ledger) (store : Storage) (rules : Consensus) (genesis : BTreeMap Account)
      → IsIndexable l
      → (n : Node) × (with_genesis_accounts l store rules genesis ≡ some n) × IsNode [] n
  unfolding with_genesis_accounts
  with_genesis_accounts-IsNode l store rules genesis (f, indexed) =
      let started = with_genesis_accounts-IsStarted l store rules genesis in
      elim (Option-cases (with_genesis_accounts l store rules genesis)) [
        | inl panics ↦ absurd (ground arith)
        | inr (n, built) ↦ (n, built, subst IsStarted built started)
      ]

  start_node-Readies :
      (l : Ledger) (store : Storage) (rules : Consensus)
      → IsIndexable l
      → Readies (start_node l store rules)
  unfolding start_node
  start_node-Readies l store rules fine = elim (Result-cases (load_genesis_accounts store)) [
    | inr (e, failed) ↦ ((store, err (storage e)), rw (failed, start_node) refl, tt)
    | inl (found, read) ↦
        let (n, built, v) = with_genesis_accounts-IsNode l store rules (or_own l found) fine in
        let (r, indexed, w) = index_stored_blocks-IsNode n v in
        elim (Result-cases r.1) [
          | inl (_, done) ↦
              ((r.0.storage, ok r.0), rw (read, built, indexed, done, start_node) refl, w)
          | inr (e, failed) ↦
              ((r.0.storage, err e), rw (read, built, indexed, failed, start_node) refl, tt)
        ]
  ]

  -- The crate's genesis block has the hash that the crate states.
  first_ledger-returns :
      (store : Storage)
      → block_hash genesis_block ≡ genesis_hash
      → (r : Storage × Result NodeError Ledger) × (first_ledger store ≡ some r)
  unfolding first_ledger
  first_ledger-returns store same =
      let holds = (==_iff (block_hash genesis_block) genesis_hash).1 same in
      elim (Result-cases (load_tip store)) [
        | inr (e, failed) ↦ ((store, err (storage e)), rw (failed, first_ledger) refl)
        | inl (tip, read) ↦ elim (Option-cases tip) [
          | inl nothing ↦ (save_genesis store, rw (read, nothing, holds, first_ledger) refl)
          | inr (t, something) ↦ (
            ((load_ledger store).0, map_err storage (load_ledger store).1),
            rw (read, something, first_ledger) refl,
          )
        ]
      ]

  -- If the genesis block has the hash that is written down for it, and fork choice accepts the chain of
  -- the ledger that the storage holds or that starts from genesis, then starting a node ends, with an
  -- error or with a node in step.
  pub init_or_load-IsReady :
      (store : Storage) (rules : Consensus)
      → block_hash genesis_block ≡ genesis_hash
      → ((saved : Storage) (l : Ledger) → first_ledger store ≡ some (saved, ok l) → IsIndexable l)
      → (r : Storage × Result NodeError Node) × (init_or_load store rules ≡ some r) × IsReady r.1
  unfolding init_or_load
  init_or_load-IsReady store rules same fine =
      let (first, found) = first_ledger-returns store same in
      elim (Result-cases first.1) [
        | inr (e, failed) ↦ ((first.0, err e), rw (found, failed, init_or_load) refl, tt)
        | inl (l, good) ↦
            let whole : first_ledger store ≡ some (first.0, ok l) =
              found ∙ ap (λ (r : Result NodeError Ledger). some (first.0, r)) good in
            rw (found, good, init_or_load)
              (start_node-Readies l first.0 rules (fine first.0 l whole))
      ]
