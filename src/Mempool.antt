-- ===== src/Mempool.antt =====
-- src/runtime/mempool/mempool.rs and error.rs: the pool of unconfirmed transactions, its state and the
-- operations that do not validate. A method that changes the pool returns the new pool first.
pub mod Policy
pub mod Insert
pub mod Accounting
pub mod Admission
pub mod Histories
pub mod Outcome
pub mod Slots
pub mod Solvency
pub mod Nonces
pub mod Select
pub mod Candidate
use paqus_node.Base.{
  ℕ, ◌+◌, ◌-◌, ◌*◌, Bool, List, [], ◌∷◌, map, Option, none, some, ltb, leb, if◌then◌else◌, is_some,
  length, saturating_add,
}
use paqus_node.BTreeMap
use paqus_node.BTreeMap.{BTreeMap, retain, values}
use paqus_node.Paqus.{Paqus}

pub record MempoolConfig : Type 0 where
  pub max_transactions : ℕ
  pub max_bytes : ℕ
  pub transaction_ttl_secs : ℕ
  pub low_fee_ttl_secs : ℕ
  pub min_relay_fee : ℕ
  pub market_fee : ℕ

-- The constants of src/runtime/mod.rs that the configuration and the policies name.
abbrev pub min_relay_fee_floor : ℕ
min_relay_fee_floor = 1

abbrev pub max_relay_transaction_age_secs : ℕ
max_relay_transaction_age_secs = 24 * 60 * 60

unfoldable pub default_config : MempoolConfig
default_config = record {
  max_transactions = 1_000;
  max_bytes = 10 * 1024 * 1024;
  transaction_ttl_secs = 24 * 60 * 60;
  low_fee_ttl_secs = 30 * 60;
  min_relay_fee = min_relay_fee_floor;
  market_fee = 2;
}

pub record MempoolEntry (Transaction : Type 0) : Type 0 where
  pub transaction : Transaction
  pub inserted_at : ℕ

pub record Mempool (Transaction : Type 0) : Type 0 where
  pub transactions : BTreeMap (MempoolEntry Transaction)
  pub config : MempoolConfig
  pub total_bytes : ℕ

pub data MempoolError (TransactionError LedgerError : Type 0) : Type 0 where
  duplicate_transaction : MempoolError TransactionError LedgerError
  fee_too_low : MempoolError TransactionError LedgerError
  mempool_full : MempoolError TransactionError LedgerError
  replacement_fee_too_low : MempoolError TransactionError LedgerError
  invalid_transaction : TransactionError → MempoolError TransactionError LedgerError
  invalid_ledger_state : LedgerError → MempoolError TransactionError LedgerError

unfoldable pub with_config : {Transaction : Type 0} → MempoolConfig → Mempool Transaction
with_config config = record { transactions = []; config = config; total_bytes = 0 }

module _ ⦃paqus : Paqus⦄ where
  open paqus use {SignedTransaction, TransactionError, LedgerError, fee, hash, serialized_size}

  abbrev pub Pool : Type 0
  Pool = Mempool SignedTransaction

  abbrev pub Error : Type 0
  Error = MempoolError TransactionError LedgerError

  abbrev pub entry_size : MempoolEntry SignedTransaction → ℕ
  entry_size e = serialized_size e.transaction

  abbrev pub contains : Pool → ℕ → Bool
  contains m h = is_some (BTreeMap.get h m.transactions)

  abbrev pub len : Pool → ℕ
  len m = length m.transactions

  unfoldable pub get : Pool → ℕ → Option SignedTransaction
  get m h = elim (BTreeMap.get h m.transactions) [ none ↦ none | some e ↦ some e.transaction ]

  -- `transactions()`: in the order of the hashes.
  abbrev pub transactions : Pool → List SignedTransaction
  transactions m =
      map (λ (e : MempoolEntry SignedTransaction). e.transaction) (values m.transactions)

  unfoldable pub remove : Pool → ℕ → Pool × Option SignedTransaction
  remove m h = elim (BTreeMap.get h m.transactions) [
    | none ↦ (m, none)
    | some e ↦ (
      record m {
        transactions = BTreeMap.remove h m.transactions;
        total_bytes = m.total_bytes - entry_size e;
      },
      some e.transaction,
    )
  ]

  unfoldable pub clear : Pool → Pool
  clear m = record m { transactions = []; total_bytes = 0 }

  unfoldable pub ttl : MempoolConfig → MempoolEntry SignedTransaction → ℕ
  ttl config e =
      if ltb (fee e.transaction) config.market_fee
      then config.low_fee_ttl_secs
      else config.transaction_ttl_secs

  -- The closure that `retain` is given in `prune_expired`.
  abbrev pub is_fresh : MempoolConfig → ℕ → MempoolEntry SignedTransaction → Bool
  is_fresh config now e = leb (now - e.inserted_at) (ttl config e)

  -- The counter that the closure keeps beside it, over the entries that stay.
  unfoldable pub retained_bytes : ℕ → BTreeMap (MempoolEntry SignedTransaction) → ℕ
  retained_bytes bytes [] = bytes
  retained_bytes bytes ((h, e) ∷ rest) = retained_bytes (saturating_add bytes (entry_size e)) rest

  unfoldable pub prune_expired : Pool → ℕ → Pool × ℕ
  prune_expired m now =
      let kept = retain (λ _ e. is_fresh m.config now e) m.transactions in
      (
        record m { transactions = kept; total_bytes = retained_bytes 0 kept },
        length m.transactions - length kept,
      )

  -- `remove_confirmed`, over the transactions of the block. It leaves `total_bytes` alone.
  remove_hashes :
      List SignedTransaction
      → BTreeMap (MempoolEntry SignedTransaction)
      → BTreeMap (MempoolEntry SignedTransaction)
  remove_hashes [] m = m
  remove_hashes (t ∷ ts) m = remove_hashes ts (BTreeMap.remove (hash t) m)

  unfoldable pub remove_confirmed : Pool → List SignedTransaction → Pool
  unfolding remove_hashes
  remove_confirmed m block_transactions = record m {
    transactions = remove_hashes block_transactions m.transactions;
  }
