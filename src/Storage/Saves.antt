-- ===== src/Storage/Saves.antt =====
-- src/runtime/storage/storage.rs, the methods that write.
use paqus_node.Base.{
  ℕ, suc, Bool, true, false, not, ◌&&◌, ◌||◌, List, [], ◌∷◌, Option, none, some, ltb, ◌==◌,
  if◌then◌else◌, Result, ok, err, ◌>>=◌, ◌>>◌, reject_if, map_err, Bytes, be_bytes, u32_modulus,
}
use paqus_node.BTreeMap.{BTreeMap, values}
use paqus_node.Paqus.{Paqus}
use paqus_node.Storage.{Lmdb, StorageError, database, integrity}
use paqus_node.Storage.Access.{
  encode, put_bytes, put_value, height_key, address_tx_key, hash_size, address_size,
}
use paqus_node.Storage.Tables.{
  Codecs, Storage, Saved, StateSnapshot, TransactionLocation, AddressTransactionLocation, write,
  flush, flushed, tip_height_key, tip_hash_key, genesis_key,
}

module _ ⦃paqus : Paqus⦄ ⦃lmdb : Lmdb⦄ ⦃codecs : Codecs⦄ where
  open paqus use {
    SignedTransaction, from, to, hash, Account, address, Ledger, tip_height, tip_hash, Block,
    block_hash, height, block_transactions, chain_blocks, ledger_state_root, is_snapshot_height,
  }
  open lmdb use {RwTransaction, clear_db}

  abbrev pub Filled : Type 0
  Filled = Result StorageError RwTransaction

  abbrev pub location_at : Block → ℕ → TransactionLocation
  location_at block index = record {
    block_height = height block;
    block_hash = block_hash block;
    tx_index = index;
  }

  abbrev pub address_location_at : Block → ℕ → SignedTransaction → Bool → AddressTransactionLocation
  address_location_at block index transaction sent = record {
    tx_hash = hash transaction;
    block_height = height block;
    block_hash = block_hash block;
    tx_index = index;
    sent = sent;
  }

  -- One turn of the loop: where the transaction stands, under its hash and its two addresses.
  module _ (s : Storage) (block : Block) (index : ℕ) (transaction : SignedTransaction) where
    abbrev pub put_location : RwTransaction → Filled
    put_location txn =
        put_value codecs.location txn s.tx_index (be_bytes hash_size (hash transaction))
          (location_at block index)

    abbrev pub put_sent : RwTransaction → Filled
    put_sent txn =
        put_value codecs.address_location txn s.address_tx_index
          (address_tx_key (from transaction) (height block) index true)
          (address_location_at block index transaction true)

    abbrev pub put_received : RwTransaction → Filled
    put_received txn =
        if to transaction == from transaction
        then ok txn
        else put_value codecs.address_location txn s.address_tx_index
            (address_tx_key (to transaction) (height block) index false)
            (address_location_at block index transaction false)

    unfoldable pub index_transaction : RwTransaction → Filled
    unfolding put_value
    index_transaction txn = do
      reject_if (not (ltb index u32_modulus)) (integrity "transaction index exceeds u32")
      txn ← put_location txn
      txn ← put_sent txn
      put_received txn

  unfoldable pub index_from : Storage → Block → ℕ → List SignedTransaction → RwTransaction → Filled
  unfolding index_transaction
  index_from s block index [] txn = ok txn
  index_from s block index (transaction ∷ rest) txn = do
    txn ← index_transaction s block index transaction txn
    index_from s block (suc index) rest txn

  unfoldable pub index_block_transactions : Storage → Block → RwTransaction → Filled
  unfolding index_from
  index_block_transactions s block txn = index_from s block 0 (block_transactions block) txn

  -- The bytes of the block under its height and under its hash, and its transactions.
  unfoldable pub put_block : Storage → Block → Bytes → RwTransaction → Filled
  unfolding put_bytes index_block_transactions
  put_block s block bytes txn = do
    txn ← put_bytes txn s.blocks_by_height (height_key (height block)) bytes
    txn ← put_bytes txn s.blocks_by_hash (be_bytes hash_size (block_hash block)) bytes
    index_block_transactions s block txn

  -- The value is encoded before the transaction begins.
  abbrev pub write_encoded :
      Storage → Result StorageError Bytes → (Bytes → RwTransaction → Filled) → Saved
  write_encoded s (err e) fill = (s, err e)
  write_encoded s (ok bytes) fill = write s (fill bytes)

  unfoldable pub save_block : Storage → Block → Saved
  unfolding encode put_block write
  save_block s block = write_encoded s (encode codecs.block block) (put_block s block)

  unfoldable pub put_side_block : Storage → Block → Bytes → RwTransaction → Filled
  unfolding put_bytes
  put_side_block s block bytes txn =
      put_bytes txn s.blocks_by_hash (be_bytes hash_size (block_hash block)) bytes

  unfoldable pub save_side_block : Storage → Block → Saved
  unfolding encode put_side_block write
  save_side_block s block = write_encoded s (encode codecs.block block) (put_side_block s block)

  unfoldable pub put_account : Storage → Account → RwTransaction → Filled
  unfolding put_value
  put_account s account txn =
      put_value codecs.account txn s.accounts (be_bytes address_size (address account)) account

  unfoldable pub save_account : Storage → Account → Saved
  unfolding put_account write
  save_account s account = write s (put_account s account)

  unfoldable pub save_genesis_accounts : Storage → BTreeMap Account → Saved
  unfolding put_value write
  save_genesis_accounts s accounts =
      write s (λ txn. put_value codecs.genesis_accounts txn s.genesis_accounts genesis_key accounts)

  unfoldable pub snapshot_of : Ledger → ℕ → ℕ → StateSnapshot
  snapshot_of ledger height block_hash = record {
    height = height;
    block_hash = block_hash;
    state_root = ledger_state_root ledger;
    accounts = paqus.accounts ledger;
  }

  unfoldable pub put_snapshot : Storage → Ledger → ℕ → ℕ → RwTransaction → Filled
  unfolding put_value snapshot_of
  put_snapshot s ledger height block_hash txn =
      put_value codecs.snapshot txn s.state_snapshots (height_key height)
        (snapshot_of ledger height block_hash)

  unfoldable pub save_state_snapshot : Storage → Ledger → Saved
  unfolding put_snapshot write
  save_state_snapshot s ledger = elim (tip_height ledger) [
    | none ↦ (s, ok tt)
    | some height ↦ elim (tip_hash ledger) [
      | none ↦ (s, ok tt)
      | some block_hash ↦
          if not (height == 0) && not (is_snapshot_height height)
          then (s, err (integrity "state snapshot height is not a protocol snapshot height"))
          else write s (put_snapshot s ledger height block_hash)
    ]
  ]

  unfoldable pub put_tip : Storage → ℕ → ℕ → RwTransaction → Filled
  unfolding put_value put_bytes
  put_tip s height hash txn = do
    txn ← put_value codecs.block_height txn s.meta tip_height_key height
    put_bytes txn s.meta tip_hash_key (be_bytes hash_size hash)

  unfoldable pub save_tip : Storage → ℕ → ℕ → Saved
  unfolding put_tip write
  save_tip s height hash = write s (put_tip s height hash)

  -- The two loops of `save_ledger`.
  unfoldable pub put_accounts : Storage → List Account → RwTransaction → Filled
  unfolding put_account
  put_accounts s [] txn = ok txn
  put_accounts s (account ∷ rest) txn = do txn ← put_account s account txn; put_accounts s rest txn

  unfoldable pub put_blocks : Storage → List Block → RwTransaction → Filled
  unfolding encode put_block
  put_blocks s [] txn = ok txn
  put_blocks s (block ∷ rest) txn = do
    bytes ← encode codecs.block block
    txn ← put_block s block bytes txn
    put_blocks s rest txn

  unfoldable pub clear_tables : List ℕ → RwTransaction → Filled
  clear_tables [] txn = ok txn
  clear_tables (db ∷ rest) txn = do txn ← map_err database (clear_db txn db); clear_tables rest txn

  -- What `save_ledger` writes of the tip: a snapshot at its heights, and the genesis accounts.
  unfoldable pub put_ledger_tip : Storage → Ledger → ℕ → ℕ → RwTransaction → Filled
  unfolding put_tip put_snapshot put_value
  put_ledger_tip s ledger height hash txn = do
    txn ← put_tip s height hash txn
    txn ←
        (if height == 0 || is_snapshot_height height
          then put_snapshot s ledger height hash txn
          else ok txn)
    if height == 0
        then put_value codecs.genesis_accounts txn s.genesis_accounts genesis_key
            (paqus.accounts ledger)
        else ok txn

  -- `if let (Some(height), Some(hash))`.
  abbrev pub put_known_tip : Storage → Ledger → Option ℕ → Option ℕ → RwTransaction → Filled
  put_known_tip s ledger (some height) (some hash) txn = put_ledger_tip s ledger height hash txn
  put_known_tip s ledger none hash txn = ok txn
  put_known_tip s ledger (some height) none txn = ok txn

  unfoldable pub put_ledger : Storage → Ledger → RwTransaction → Filled
  unfolding clear_tables put_accounts put_blocks
  put_ledger s ledger txn = do
    txn ←
        clear_tables
          (s.blocks_by_height ∷ s.accounts ∷ s.state_snapshots ∷ s.tx_index ∷ s.address_tx_index
            ∷ [])
          txn
    txn ← put_accounts s (values (paqus.accounts ledger)) txn
    txn ← put_blocks s (values (chain_blocks ledger)) txn
    put_known_tip s ledger (tip_height ledger) (tip_hash ledger) txn

  unfoldable pub save_ledger : Storage → Ledger → Saved
  unfolding put_ledger write flush
  save_ledger s ledger = flushed (write s (put_ledger s ledger))
