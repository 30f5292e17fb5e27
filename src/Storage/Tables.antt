-- ===== src/Storage/Tables.antt =====
-- src/runtime/storage/storage.rs: the stored records, the databases of the environment, its opening and
-- the check of its version.
use Prim.Native.String.{String}
use paqus_node.Base.{
  ℕ, Bool, true, false, ◌&&◌, List, [], ◌∷◌, Option, none, some, ◌==◌, if◌then◌else◌, Result, ok,
  err, ◌>>=◌, ◌>>◌, map_err, Bytes,
}
use paqus_node.BTreeMap.{BTreeMap}
use paqus_node.Paqus.{Paqus}
use paqus_node.Storage.{
  Lmdb, StorageError, database, io, missing_storage_version, unsupported_storage_version,
}
use paqus_node.Storage.Access.{Codec, read_value, put_value, is_db_empty}

-- src/runtime/mod.rs, `params::STORAGE_VERSION`.
abbrev pub storage_version : ℕ
storage_version = 1

-- The keys of the database `meta`, in ASCII: `tip_height`, `tip_hash` and `storage_version`.
abbrev pub tip_height_key : Bytes
tip_height_key = 116 ∷ 105 ∷ 112 ∷ 95 ∷ 104 ∷ 101 ∷ 105 ∷ 103 ∷ 104 ∷ 116 ∷ []

abbrev pub tip_hash_key : Bytes
tip_hash_key = 116 ∷ 105 ∷ 112 ∷ 95 ∷ 104 ∷ 97 ∷ 115 ∷ 104 ∷ []

abbrev pub storage_version_key : Bytes
storage_version_key =
    115 ∷ 116 ∷ 111 ∷ 114 ∷ 97 ∷ 103 ∷ 101 ∷ 95 ∷ 118 ∷ 101 ∷ 114 ∷ 115 ∷ 105 ∷ 111 ∷ 110 ∷ []

-- The key of the database `genesis_accounts`: `accounts`.
abbrev pub genesis_key : Bytes
genesis_key = 97 ∷ 99 ∷ 99 ∷ 111 ∷ 117 ∷ 110 ∷ 116 ∷ 115 ∷ []

pub record TransactionLocation : Type 0 where
  pub block_height : ℕ
  pub block_hash : ℕ
  pub tx_index : ℕ

pub record AddressTransactionLocation : Type 0 where
  pub tx_hash : ℕ
  pub block_height : ℕ
  pub block_hash : ℕ
  pub tx_index : ℕ
  pub sent : Bool

module _ ⦃paqus : Paqus⦄ where
  pub record StateSnapshot : Type 0 where
    pub height : ℕ
    pub block_hash : ℕ
    pub state_root : ℕ
    pub accounts : BTreeMap paqus.Account

  unfoldable pub verify_state_root : StateSnapshot → Bool
  verify_state_root s = paqus.calculate_state_root s.accounts == s.state_root

  unfoldable pub verify_against_block : StateSnapshot → paqus.Block → Bool
  unfolding verify_state_root
  verify_against_block s block =
      paqus.height block == s.height
      && (paqus.block_hash block == s.block_hash
          && (paqus.state_root block == s.state_root && verify_state_root s))

  module _ ⦃lmdb : Lmdb⦄ where
    open lmdb use {
      Environment, create_dir_all, open_environment, create_db, sync, begin_ro_txn, begin_rw_txn,
      commit, RwTransaction,
    }

    -- Borsh at the types that are stored.
    pub record Codecs : Type 0 where
      pub version : Codec ℕ
      pub block_height : Codec ℕ
      pub block : Codec paqus.Block
      pub account : Codec paqus.Account
      pub genesis_accounts : Codec (BTreeMap paqus.Account)
      pub snapshot : Codec StateSnapshot
      pub location : Codec TransactionLocation
      pub address_location : Codec AddressTransactionLocation

    -- The environment is shared by the clones of a `Storage`; each method returns the one it leaves.
    pub record Storage : Type 0 where
      pub env : Environment
      pub blocks_by_height : ℕ
      pub blocks_by_hash : ℕ
      pub accounts : ℕ
      pub genesis_accounts : ℕ
      pub state_snapshots : ℕ
      pub tx_index : ℕ
      pub address_tx_index : ℕ
      pub meta : ℕ

    abbrev pub Saved : Type 0
    Saved = Storage × Result StorageError (Unit {0})

    -- `create_db` on the environment that the one before left.
    abbrev create : Environment → String → Result StorageError (Environment × ℕ)
    create env name =
        let (left, made) = create_db env name in map_err database made >>= λ db. ok (left, db)

    unfoldable pub from_env : Environment → Result StorageError Storage
    from_env env = do
      (env, blocks_by_height) ← create env "blocks_by_height"
      (env, blocks_by_hash) ← create env "blocks_by_hash"
      (env, accounts) ← create env "accounts"
      (env, genesis_accounts) ← create env "genesis_accounts"
      (env, state_snapshots) ← create env "state_snapshots"
      (env, tx_index) ← create env "tx_index"
      (env, address_tx_index) ← create env "address_tx_index"
      (env, meta) ← create env "meta"
      ok (record {
        env = env;
        blocks_by_height = blocks_by_height;
        blocks_by_hash = blocks_by_hash;
        accounts = accounts;
        genesis_accounts = genesis_accounts;
        state_snapshots = state_snapshots;
        tx_index = tx_index;
        address_tx_index = address_tx_index;
        meta = meta;
      })

    -- `begin_rw_txn`, the writes, and `commit`: an error before the commit drops the transaction.
    abbrev pub committed : Storage → Result StorageError RwTransaction → Saved
    committed s (err e) = (s, err e)
    committed s (ok txn) =
        let (left, done) = commit s.env txn in (record s { env = left }, map_err database done)

    unfoldable pub write : Storage → (RwTransaction → Result StorageError RwTransaction) → Saved
    write s fill = committed s (map_err database (begin_rw_txn s.env) >>= fill)

    unfoldable pub flush : Storage → Result StorageError (Unit {0})
    flush s = map_err database (sync s.env true)

    -- A save and, when it succeeds, a flush.
    abbrev pub flushed : Saved → Saved
    flushed (s, saved) = (s, (do saved; flush s))

    -- `&&` stops at the first database that is not empty.
    unfoldable pub all_empty : lmdb.RoTransaction → List ℕ → Result StorageError Bool
    unfolding is_db_empty
    all_empty txn [] = ok true
    all_empty txn (db ∷ rest) = do
      is_empty ← is_db_empty txn db
      if is_empty then all_empty txn rest else ok false

    unfoldable pub is_empty_database : Storage → Result StorageError Bool
    unfolding all_empty
    is_empty_database s = do
      txn ← map_err database (begin_ro_txn s.env)
      all_empty txn (
          s.blocks_by_height ∷ s.blocks_by_hash ∷ s.accounts ∷ s.genesis_accounts
          ∷ s.state_snapshots ∷ s.tx_index ∷ s.address_tx_index ∷ [])

    module _ ⦃codecs : Codecs⦄ where
      unfoldable pub load_storage_version : Storage → Result StorageError (Option ℕ)
      load_storage_version s = do
        txn ← map_err database (begin_ro_txn s.env)
        read_value codecs.version txn s.meta storage_version_key

      unfoldable pub save_storage_version : Storage → ℕ → Saved
      unfolding write put_value
      save_storage_version s version =
          write s (λ txn. put_value codecs.version txn s.meta storage_version_key version)

      -- `None if self.is_empty_database()?`: a database without a version gets one while it is empty.
      abbrev pub mark_if : Storage → Result StorageError Bool → Saved
      mark_if s (err e) = (s, err e)
      mark_if s (ok false) = (s, err missing_storage_version)
      mark_if s (ok true) = flushed (save_storage_version s storage_version)

      abbrev pub check_version : Storage → Result StorageError (Option ℕ) → Saved
      check_version s (err e) = (s, err e)
      check_version s (ok none) = mark_if s (is_empty_database s)
      check_version s (ok (some found)) =
          if found == storage_version
          then (s, ok tt)
          else (s, err (unsupported_storage_version storage_version found))

      unfoldable pub ensure_storage_version : Storage → Saved
      unfolding load_storage_version is_empty_database save_storage_version flush
      ensure_storage_version s = check_version s (load_storage_version s)

      unfoldable pub open_path : String → Result StorageError Storage
      unfolding from_env ensure_storage_version
      open_path path = do
        map_err io (create_dir_all path)
        env ← map_err database (open_environment 16 1_073_741_824 path)
        s ← from_env env
        let (left, checked) = ensure_storage_version s
        checked
        ok left
