-- ===== src/Tests/Restarted.antt =====
-- A ledger that is saved, and loaded again.
use paqus_node.Base.{◌≡◌, refl, List, [], ◌∷◌, map, some, ok, arith, Bytes, be_bytes}
use paqus_node.BTreeMap.{BTreeMap, get, values}
use paqus_node.BTreeMap.Sums.{AllEntries}
use paqus_node.Storage.Access.{encode, decode, read_bytes, read_value, put_bytes, put_value}
use paqus_node.Storage.Tables.{
  Storage, write, flush, load_storage_version, storage_version, storage_version_key,
}
use paqus_node.Storage.Saves.{
  put_block, index_block_transactions, index_from, index_transaction, put_account, put_tip,
  save_ledger, put_ledger, clear_tables, put_accounts, put_blocks, put_ledger_tip,
}
use paqus_node.Storage.Loads.{load_ledger}
use paqus_node.Storage.Contents.{IsReadable}
use paqus_node.Storage.ChainRows.{LedgerLaws}
use paqus_node.Storage.Restored.{Lists, IsSame, save_ledger-load_ledger}
use paqus_node.Tests.Disk.{files, files_laws, plain, plain_laws, new_storage}
use paqus_node.Tests.Sample.{sample, slab, Book, Holder, apply_slab}
use paqus_node.Tests.Saved.{full, two, two-IsLedger, new_storage-AreApart}

holders_back :
    (m : BTreeMap Holder)
    → AllEntries (λ a h. h.address ≡ a) m
    → map (λ h. (h.address, h)) (values m) ≡ m
holders_back [] all = refl
holders_back ((k, h) ∷ m) (same, all) = rw (same, holders_back m all) refl

abbrev sample_laws : LedgerLaws
sample_laws = record {
  new_accounts = refl;
  new_tip = refl;
  accounts-set = λ l m all. holders_back m all;
  tip-set = λ l m. refl;
  inserted = λ l b follows. (apply_slab l b, refl, refl, refl, refl, refl);
}

-- A storage with its version.
abbrev versioned : Storage
versioned = record new_storage {
  env = record { opened = 8; rows = (7, storage_version_key, storage_version ∷ []) ∷ [] };
}

abbrev kept : Storage
kept = (save_ledger versioned two).0

ledger_written : save_ledger versioned two ≡ (kept, ok tt)
unfolding save_ledger put_ledger clear_tables put_accounts put_account put_blocks put_block
    index_block_transactions index_from index_transaction put_ledger_tip put_tip write flush encode
    put_bytes put_value
ledger_written = refl

version_there : load_storage_version kept ≡ ok (some storage_version)
unfolding save_ledger put_ledger clear_tables put_accounts put_account put_blocks put_block
    index_block_transactions index_from index_transaction put_ledger_tip put_tip write flush encode
    put_bytes put_value load_storage_version read_value read_bytes decode
version_there = refl

abbrev readable : IsReadable files_laws kept.env
readable = (kept.env.rows, refl, λ d k. refl)

-- The rows of the two accounts, the last one first.
abbrev account_rows : List (Bytes × Bytes)
account_rows = (be_bytes 20 2, 2 ∷ 5 ∷ 50 ∷ []) ∷ (be_bytes 20 1, 1 ∷ 0 ∷ 100 ∷ []) ∷ []

rows_listed : Lists files_laws kept.env readable kept.accounts account_rows
unfolding save_ledger put_ledger clear_tables put_accounts put_account put_blocks put_block
    index_block_transactions index_from index_transaction put_ledger_tip put_tip write flush encode
    put_bytes put_value be_bytes
rows_listed = (refl, (refl, (refl, tt)), λ k bytes e. ground arith)

save_ledger-load_ledger_example :
    (l' : Book) × (load_ledger kept ≡ (kept, ok l')) × IsSame two 1 101 l'
unfolding get
save_ledger-load_ledger_example =
    save_ledger-load_ledger files_laws plain_laws sample_laws versioned kept new_storage-AreApart
      two 1 101 readable account_rows ledger_written version_there rows_listed two-IsLedger refl
      refl (omega arith) (omega arith) (full, refl, refl, (slab 0 0 0, refl, refl, refl))
