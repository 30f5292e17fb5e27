-- ===== src/Storage.antt =====
-- What the node calls of src/runtime/storage/storage.rs, as an interface, and src/runtime/storage/error.rs.
pub mod Integrity
pub mod Access
pub mod Tables
pub mod Saves
pub mod Loads
pub mod Contents
pub mod Fills
pub mod Written
pub mod Indexed
pub mod Found
pub mod SavedBlock
pub mod Roundtrip
pub mod SavedTip
pub mod SavedLedger
pub mod Tipless
pub mod Reloaded
pub mod Restart
pub mod Version
pub mod AccountRows
pub mod ChainRows
pub mod Restored
pub mod AddressIndex
pub mod Implementation
use Prim.Native.String.{String}
use paqus_node.Base.{ℕ, Bool, List, Option, Result, Bytes}
use paqus_node.BTreeMap.{BTreeMap}
use paqus_node.Paqus.{Paqus}

-- The libraries under the storage: LMDB, the errors of I/O and the file system. A database's handle is a
-- number. An operation on a transaction that fails leaves a transaction that is dropped, and `commit`
-- returns the environment that it leaves.
pub record Lmdb : Type 1 where
  pub LmdbError : Type 0
  pub not_found : LmdbError
  pub is_not_found : LmdbError → Bool
  pub IoError : Type 0
  -- `io::Error::new(InvalidData, ..)`.
  pub invalid_data_error : String → IoError
  pub create_dir_all : String → Result IoError (Unit {0})
  pub Environment : Type 0
  pub RoTransaction : Type 0
  pub RwTransaction : Type 0
  -- The number of databases, the size of the map and the path.
  pub open_environment : ℕ → ℕ → String → Result LmdbError Environment
  pub create_db : Environment → String → Environment × Result LmdbError ℕ
  pub sync : Environment → Bool → Result LmdbError (Unit {0})
  pub begin_ro_txn : Environment → Result LmdbError RoTransaction
  pub get : RoTransaction → ℕ → Bytes → Result LmdbError Bytes
  -- `open_ro_cursor` and its `iter`: the entries of the database.
  pub entries : RoTransaction → ℕ → Result LmdbError (List (Bytes × Bytes))
  pub begin_rw_txn : Environment → Result LmdbError RwTransaction
  pub put : RwTransaction → ℕ → Bytes → Bytes → Result LmdbError RwTransaction
  pub clear_db : RwTransaction → ℕ → Result LmdbError RwTransaction
  pub commit : Environment → RwTransaction → Environment × Result LmdbError (Unit {0})

-- src/runtime/storage/error.rs.
module _ ⦃lmdb : Lmdb⦄ where
  open lmdb use {LmdbError, IoError}

  pub data StorageError : Type 0 where
    database : LmdbError → StorageError
    io : IoError → StorageError
    serialization : IoError → StorageError
    integrity : String → StorageError
    missing_storage_version : StorageError
    unsupported_storage_version : ℕ → ℕ → StorageError

module _ ⦃paqus : Paqus⦄ where
  open paqus use {Account, Ledger, Block}

  -- A method that writes returns the storage that it leaves, also on an error.
  pub record StorageApi : Type 1 where
    pub Storage : Type 0
    pub StorageError : Type 0
    pub save_side_block : Storage → Block → Storage × Result StorageError (Unit {0})
    pub save_ledger : Storage → Ledger → Storage × Result StorageError (Unit {0})
    pub save_genesis_accounts :
        Storage → BTreeMap Account → Storage × Result StorageError (Unit {0})
    pub load_tip : Storage → Result StorageError (Option (ℕ × ℕ))
    -- The check of the version may write it.
    pub load_ledger : Storage → Storage × Result StorageError Ledger
    pub load_genesis_accounts : Storage → Result StorageError (Option (BTreeMap Account))
    pub load_blocks_by_hash : Storage → Result StorageError (List Block)
    -- First and last time, number of blocks and current difficulty.
    pub difficulty_window : Storage → ℕ → ℕ → Result StorageError (Option (ℕ × ℕ × ℕ × ℕ))
