-- ===== src/Storage/Implementation.antt =====
-- The storage of src/runtime/storage/storage.rs as the interface that the node calls.
use paqus_node.Paqus.{Paqus}
use paqus_node.Storage.{Lmdb, StorageError, StorageApi}
use paqus_node.Storage.Tables.{Codecs, Storage}
use paqus_node.Storage.Saves.{save_side_block, save_ledger, save_genesis_accounts}
use paqus_node.Storage.Loads.{
  load_tip, load_ledger, load_genesis_accounts, load_blocks_by_hash, difficulty_window,
}

abbrev pub lmdb_storage : ⦃paqus : Paqus⦄ → ⦃lmdb : Lmdb⦄ → ⦃codecs : Codecs⦄ → StorageApi
lmdb_storage = record {
  Storage = Storage;
  StorageError = StorageError;
  save_side_block = save_side_block;
  save_ledger = save_ledger;
  save_genesis_accounts = save_genesis_accounts;
  load_tip = load_tip;
  load_ledger = load_ledger;
  load_genesis_accounts = load_genesis_accounts;
  load_blocks_by_hash = load_blocks_by_hash;
  difficulty_window = difficulty_window;
}
