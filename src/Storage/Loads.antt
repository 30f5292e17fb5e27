-- ===== src/Storage/Loads.antt =====
-- src/runtime/storage/storage.rs, the methods that read.
use paqus_node.Base.{
  ℕ, zero, suc, ◌-◌, Bool, true, false, not, ◌&&◌, ◌||◌, List, [], ◌∷◌, Option, none, some, ltb,
  ◌==◌, if◌then◌else◌, Result, ok, ◌>>=◌, ◌>>◌, ok_or, reject_if, map_err, Bytes, be_bytes,
  of_bytes, same_bytes, starts_with, length, sort_by,
}
use paqus_node.BTreeMap
use paqus_node.BTreeMap.{BTreeMap}
use paqus_node.Paqus.{Paqus}
use paqus_node.Storage.{Lmdb, StorageError, database, integrity}
use paqus_node.Storage.Access.{
  decode, read_bytes, read_value, height_key, invalid_data, hash_size, address_size,
}
use paqus_node.Storage.Tables.{
  Codecs, Storage, StateSnapshot, TransactionLocation, AddressTransactionLocation,
  verify_state_root, tip_height_key, tip_hash_key, genesis_key, ensure_storage_version,
}
use paqus_node.Storage.Integrity.{Reads, validate_chain_integrity}

-- `Vec::get`.
unfoldable pub get_elem? {ℓ} : {A : Type ℓ} → List A → ℕ → Option A
get_elem? [] i = none
get_elem? (x ∷ xs) zero = some x
get_elem? (x ∷ xs) (suc i) = get_elem? xs i

-- The order of the key `(block_height, tx_index, sent)`; `false` is below `true`.
unfoldable pub le_location : AddressTransactionLocation → AddressTransactionLocation → Bool
le_location a b =
    ltb a.block_height b.block_height
    || (a.block_height == b.block_height
        && (ltb a.tx_index b.tx_index || (a.tx_index == b.tx_index && (not a.sent || b.sent))))

module _ ⦃paqus : Paqus⦄ ⦃lmdb : Lmdb⦄ ⦃codecs : Codecs⦄ where
  open paqus use {
    SignedTransaction, hash, Account, address, Ledger, Block, block_hash, height,
    block_transactions, block_timestamp, difficulty, set_accounts, chain_insert_block, new_ledger,
  }
  open lmdb use {RoTransaction, begin_ro_txn, entries}

  abbrev pub reading : Storage → Result StorageError RoTransaction
  reading s = map_err database (begin_ro_txn s.env)

  unfoldable pub load_block_by_height : Storage → ℕ → Result StorageError (Option Block)
  unfolding read_bytes decode
  load_block_by_height s at = do
    txn ← reading s
    found ← read_bytes txn s.blocks_by_height (height_key at)
    elim found [
      | none ↦ ok none
      | some bytes ↦ do
        block ← decode codecs.block bytes
        reject_if (not (height block == at))
            (integrity "stored block height does not match height key")
        ok (some block)
    ]

  unfoldable pub load_block_by_hash : Storage → ℕ → Result StorageError (Option Block)
  unfolding read_bytes decode
  load_block_by_hash s key = do
    txn ← reading s
    found ← read_bytes txn s.blocks_by_hash (be_bytes hash_size key)
    elim found [
      | none ↦ ok none
      | some bytes ↦ do
        block ← decode codecs.block bytes
        reject_if (not (block_hash block == key))
            (integrity "stored block hash does not match hash key")
        ok (some block)
    ]

  unfoldable pub decode_blocks : List (Bytes × Bytes) → Result StorageError (List Block)
  unfolding decode
  decode_blocks [] = ok []
  decode_blocks ((_, bytes) ∷ rest) = do
    block ← decode codecs.block bytes
    blocks ← decode_blocks rest
    ok (block ∷ blocks)

  unfoldable pub load_blocks_by_hash : Storage → Result StorageError (List Block)
  unfolding decode_blocks
  load_blocks_by_hash s = do
    txn ← reading s
    rows ← map_err database (entries txn s.blocks_by_hash)
    decode_blocks rows

  unfoldable pub load_transaction_location :
      Storage → ℕ → Result StorageError (Option TransactionLocation)
  unfolding read_value
  load_transaction_location s key = do
    txn ← reading s
    read_value codecs.location txn s.tx_index (be_bytes hash_size key)

  -- The transaction at a location, checked against the block and the hash that the index names.
  unfoldable pub located :
      Storage
      → ℕ
      → TransactionLocation
      → Result StorageError (TransactionLocation × SignedTransaction)
  unfolding load_block_by_height get_elem?
  located s key location = do
    found ← load_block_by_height s location.block_height
    block ← ok_or found (integrity "indexed transaction block is missing")
    reject_if (not (block_hash block == location.block_hash))
        (integrity "indexed transaction block hash mismatch")
    transaction ←
        ok_or (get_elem? (block_transactions block) location.tx_index)
          (integrity "indexed transaction position is missing")
    reject_if (not (hash transaction == key))
        (integrity "indexed transaction hash does not match transaction")
    ok (location, transaction)

  unfoldable pub load_transaction :
      Storage → ℕ → Result StorageError (Option (TransactionLocation × SignedTransaction))
  unfolding load_transaction_location located
  load_transaction s key = do
    found ← load_transaction_location s key
    elim found [ none ↦ ok none | some location ↦ do pair ← located s key location; ok (some pair) ]

  -- The value of an entry whose key passes, before those of the entries behind it.
  abbrev pub keep_location :
      Bool
      → Bytes
      → Result StorageError (List AddressTransactionLocation)
      → Result StorageError (List AddressTransactionLocation)
  keep_location true bytes behind = do
    location ← decode codecs.address_location bytes
    rest ← behind
    ok (location ∷ rest)
  keep_location false bytes behind = behind

  unfoldable pub decode_locations :
      Bytes → List (Bytes × Bytes) → Result StorageError (List AddressTransactionLocation)
  unfolding decode
  decode_locations prefix [] = ok []
  decode_locations prefix ((key, bytes) ∷ rows) =
      keep_location (starts_with key prefix) bytes (decode_locations prefix rows)

  unfoldable pub load_address_transaction_locations :
      Storage → ℕ → Result StorageError (List AddressTransactionLocation)
  unfolding decode_locations le_location
  load_address_transaction_locations s key = do
    txn ← reading s
    rows ← map_err database (entries txn s.address_tx_index)
    locations ← decode_locations (be_bytes address_size key) rows
    ok (sort_by le_location locations)

  unfoldable pub load_account : Storage → ℕ → Result StorageError (Option Account)
  unfolding read_value
  load_account s key = do
    txn ← reading s
    read_value codecs.account txn s.accounts (be_bytes address_size key)

  unfoldable pub load_genesis_accounts : Storage → Result StorageError (Option (BTreeMap Account))
  unfolding read_value
  load_genesis_accounts s = do
    txn ← reading s
    read_value codecs.genesis_accounts txn s.genesis_accounts genesis_key

  unfoldable pub load_state_snapshot : Storage → ℕ → Result StorageError (Option StateSnapshot)
  unfolding read_bytes decode verify_state_root
  load_state_snapshot s at = do
    txn ← reading s
    found ← read_bytes txn s.state_snapshots (height_key at)
    elim found [
      | none ↦ ok none
      | some bytes ↦ do
        snapshot ← decode codecs.snapshot bytes
        reject_if (not (snapshot.height == at))
            (integrity "stored state snapshot height does not match height key")
        reject_if (not (verify_state_root snapshot))
            (integrity "stored state snapshot root does not match accounts")
        ok (some snapshot)
    ]

  unfoldable pub load_tip : Storage → Result StorageError (Option (ℕ × ℕ))
  unfolding read_bytes decode invalid_data
  load_tip s = do
    txn ← reading s
    height_found ← read_bytes txn s.meta tip_height_key
    elim height_found [
      | none ↦ ok none
      | some height_bytes ↦ do
        hash_found ← read_bytes txn s.meta tip_hash_key
        elim hash_found [
          | none ↦ ok none
          | some hash_bytes ↦ do
            height ← decode codecs.block_height height_bytes
            reject_if (not (length hash_bytes == hash_size))
                (invalid_data "stored tip hash has invalid length")
            ok (some (height, of_bytes hash_bytes))
        ]
    ]

  abbrev pub reads : Storage → Reads
  reads s = record { load_tip = load_tip s; load_block_by_height = load_block_by_height s }

  -- The first loop of `load_ledger`, which inserts the accounts one by one.
  unfoldable pub decode_accounts :
      List (Bytes × Bytes) → BTreeMap Account → Result StorageError (BTreeMap Account)
  unfolding decode BTreeMap.insert
  decode_accounts [] accounts = ok accounts
  decode_accounts ((key, bytes) ∷ rows) accounts = do
    account ← decode codecs.account bytes
    reject_if (not (same_bytes (be_bytes address_size (address account)) key))
        (integrity "stored account address does not match account key")
    decode_accounts rows (BTreeMap.insert (address account) account accounts)

  -- The second loop, at so many blocks from a height upwards.
  unfoldable pub insert_stored : Storage → ℕ → ℕ → Ledger → Result StorageError Ledger
  unfolding load_block_by_height
  insert_stored s at zero ledger = ok ledger
  insert_stored s at (suc more) ledger = do
    found ← load_block_by_height s at
    block ← ok_or found (integrity "stored chain block is missing")
    let (left, inserted) = chain_insert_block ledger block
    map_err (λ _. integrity "stored chain block is invalid") inserted
    insert_stored s (suc at) more left

  unfoldable pub read_ledger : Storage → Result StorageError Ledger
  unfolding decode_accounts insert_stored load_tip validate_chain_integrity
  read_ledger s = do
    validate_chain_integrity (reads s)
    txn ← reading s
    rows ← map_err database (entries txn s.accounts)
    accounts ← decode_accounts rows (paqus.accounts new_ledger)
    let ledger = set_accounts new_ledger accounts
    tip ← load_tip s
    elim tip [
      | none ↦ ok ledger
      | some (tip_height, tip_hash) ↦ insert_stored s 0 (suc tip_height) ledger
    ]

  -- The check of the version may write it, into an empty database.
  unfoldable pub load_ledger : Storage → Storage × Result StorageError Ledger
  unfolding ensure_storage_version read_ledger
  load_ledger s = let (s', checked) = ensure_storage_version s in (s', (do checked; read_ledger s'))

  unfoldable pub difficulty_window : Storage → ℕ → ℕ → Result StorageError (Option (ℕ × ℕ × ℕ × ℕ))
  unfolding load_block_by_height
  difficulty_window s tip_height window =
      if window == 0 || ltb tip_height window then ok none else do
        found ← load_block_by_height s tip_height
        elim found [
          | none ↦ ok none
          | some tip ↦ do
            below ← load_block_by_height s (tip_height - window)
            elim below [
              | none ↦ ok none
              | some first ↦ ok (
                  some (
                    block_timestamp first,
                    block_timestamp tip,
                    tip_height - (tip_height - window),
                    difficulty tip,
                  ))
            ]
        ]
