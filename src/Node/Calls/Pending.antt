-- ===== src/Node/Calls/Pending.antt =====
-- src/runtime/node/node.rs: the pending balance of an address.
use paqus_node.Base.{
  ℕ, ◌+◌, ◌-◌, ◌≡◌, ◌≤◌, List, [], ◌∷◌, ◌==◌, if◌then◌else◌, arith, min, sum_by, u32_modulus,
}
use paqus_node.Mempool.{transactions}
use paqus_node.Node.{Node}
use paqus_node.Node.Calls.{PendingBalance, add_transaction, add_pending, pending_balance}
use paqus_node.Paqus.{Paqus}
use paqus_node.Storage.{StorageApi}

module _ ⦃paqus : Paqus⦄ ⦃storage_api : StorageApi⦄ where
  open paqus use {SignedTransaction, from, to, amount, fee}

  -- What a transaction pays to an address, and what it costs it.
  abbrev pub received : ℕ → SignedTransaction → ℕ
  received address t = if to t == address then amount t else 0

  abbrev pub spent : ℕ → SignedTransaction → ℕ
  spent address t = if from t == address then amount t + fee t else 0

  -- The largest amount.
  abbrev pub capped : ℕ → ℕ
  capped n = min n (u32_modulus - 1)

  add_transaction-sums :
      (address : ℕ) (p : PendingBalance) (t : SignedTransaction)
      → p.incoming ≤ u32_modulus - 1
      → p.outgoing ≤ u32_modulus - 1
      → ((add_transaction address p t).incoming ≡ capped (p.incoming + received address t))
        × ((add_transaction address p t).outgoing ≡ capped (p.outgoing + spent address t))
  unfolding add_transaction
  add_transaction-sums address p t i o = (ground arith, ground arith)

  add_pending-sums :
      (address : ℕ) (p : PendingBalance) (ts : List SignedTransaction)
      → p.incoming ≤ u32_modulus - 1
      → p.outgoing ≤ u32_modulus - 1
      → ((add_pending address p ts).incoming ≡ capped (p.incoming + sum_by (received address) ts))
        × ((add_pending address p ts).outgoing ≡ capped (p.outgoing + sum_by (spent address) ts))
  unfolding add_pending
  add_pending-sums address p [] i o = (omega arith, omega arith)
  add_pending-sums address p (t ∷ ts) i o =
      let (got, paid) = add_transaction-sums address p t i o in
      let rest =
        add_pending-sums address (add_transaction address p t) ts (omega arith) (omega arith) in
      (omega (arith, rest.0), omega (arith, rest.1))

  -- The pending balance is the exact sum of what the pool's transactions pay to the address, and of
  -- what its own cost with their fees, each capped at the largest amount.
  pub pending_balance-sums :
      (n : Node) (address : ℕ)
      → ((pending_balance n address).incoming
          ≡ capped (sum_by (received address) (transactions n.mempool)))
        × ((pending_balance n address).outgoing
            ≡ capped (sum_by (spent address) (transactions n.mempool)))
  unfolding pending_balance
  pending_balance-sums n address =
      let s =
        add_pending-sums address (record { incoming = 0; outgoing = 0 }) (transactions n.mempool)
          (omega arith) (omega arith) in
      (omega (arith, s.0), omega (arith, s.1))
