-- ===== src/Storage/Access.antt =====
-- src/runtime/storage/storage.rs, the helpers at its end: keys, and the values that Borsh writes, by the
-- reads and writes of LMDB.
use Prim.Native.String.{String}
use paqus_node.Base.{
  ℕ, ◌<◌, ◌^◌, Bool, true, false, [], ◌∷◌, ◌++◌, Option, none, some, if◌then◌else◌, Result, ok, err,
  ◌>>=◌, map_err, Bytes, be_bytes,
}
use paqus_node.Storage.{Lmdb, StorageError, database, serialization}

-- `paqus::params::{ADDRESS_SIZE, HASH_SIZE}`: 20 and 64 bytes.
abbrev pub address_size : ℕ
address_size = 20

abbrev pub hash_size : ℕ
hash_size = 64

-- The numbers that are hashes and heights: those that fit the keys.
abbrev pub IsHash : ℕ → Type 0
IsHash n = n < 256 ^ hash_size

abbrev pub IsAddress : ℕ → Type 0
IsAddress n = n < 256 ^ address_size

abbrev pub IsHeight : ℕ → Type 0
IsHeight n = n < 256 ^ 8

unfoldable pub height_key : ℕ → Bytes
height_key = be_bytes 8

unfoldable pub address_tx_key : ℕ → ℕ → ℕ → Bool → Bytes
address_tx_key address height tx_index sent =
    be_bytes address_size address
    ++ (be_bytes 8 height ++ (be_bytes 4 tx_index ++ ((if sent then 1 else 0) ∷ [])))

module _ ⦃lmdb : Lmdb⦄ where
  open lmdb use {
    IoError, invalid_data_error, LmdbError, is_not_found, RoTransaction, RwTransaction, get,
    entries, put,
  }

  -- Borsh at one type: `BorshSerialize` and `BorshDeserialize`.
  pub record Codec {ℓ} (A : Type ℓ) : Type ℓ where
    pub to_vec : A → Result IoError Bytes
    pub try_from_slice : Bytes → Result IoError A

  unfoldable pub read_bytes : RoTransaction → ℕ → Bytes → Result StorageError (Option Bytes)
  read_bytes txn db key = elim (get txn db key) [
    | ok bytes ↦ ok (some bytes)
    | err e ↦ if is_not_found e then ok none else err (database e)
  ]

  unfoldable pub is_db_empty : RoTransaction → ℕ → Result StorageError Bool
  is_db_empty txn db = do
    rows ← map_err database (entries txn db)
    ok (elim rows [ [] ↦ true | row ∷ rest ↦ false ])

  unfoldable pub invalid_data : String → StorageError
  invalid_data message = serialization (invalid_data_error message)

  unfoldable pub put_bytes : RwTransaction → ℕ → Bytes → Bytes → Result StorageError RwTransaction
  put_bytes txn db key bytes = map_err database (put txn db key bytes)

  module _ {A : Type 0} (codec : Codec A) where
    unfoldable pub encode : A → Result StorageError Bytes
    encode value = map_err serialization (codec.to_vec value)

    unfoldable pub decode : Bytes → Result StorageError A
    decode bytes = map_err serialization (codec.try_from_slice bytes)

    unfoldable pub read_value : RoTransaction → ℕ → Bytes → Result StorageError (Option A)
    unfolding read_bytes decode
    read_value txn db key = do
      found ← read_bytes txn db key
      elim found [ none ↦ ok none | some bytes ↦ do value ← decode bytes; ok (some value) ]

    unfoldable pub put_value : RwTransaction → ℕ → Bytes → A → Result StorageError RwTransaction
    unfolding encode put_bytes
    put_value txn db key value = do bytes ← encode value; put_bytes txn db key bytes
