-- ===== src/Tests/Saved.antt =====
-- The storage at concrete inputs.
use paqus_node.Base.{
  ℕ, ◌≡◌, refl, ◌⊎◌, false, of_bytes, List, [], ◌∷◌, none, some, Result, ok, err, arith,
  IsAscending, Bytes, be_bytes, sort_by,
}
use paqus_node.BTreeMap.{get}
use paqus_node.Storage.{StorageError, integrity}
use paqus_node.Storage.Access.{
  encode, decode, read_bytes, read_value, put_bytes, put_value, address_tx_key, is_db_empty, IsHash,
  IsHeight, IsAddress,
}
use paqus_node.Storage.Tables.{
  Storage, write, flush, is_empty_database, load_storage_version, save_storage_version,
  ensure_storage_version, storage_version, AddressTransactionLocation,
}
use paqus_node.Storage.Saves.{
  save_block, put_block, index_block_transactions, index_from, index_transaction, save_side_block,
  put_side_block, put_account, put_tip, save_ledger, put_ledger, clear_tables, put_accounts,
  put_blocks, put_ledger_tip, location_at,
}
use paqus_node.Storage.Loads.{
  le_location, load_block_by_height, load_block_by_hash, load_transaction, load_account, load_tip,
  reads, get_elem?, load_address_transaction_locations, decode_locations,
}
use paqus_node.Storage.Indexed.{AreApart}
use paqus_node.Storage.Roundtrip.{save_block-load, save_side_block-load}
use paqus_node.Storage.Reloaded.{IsLedger, save_ledger-load}
use paqus_node.Storage.Tipless.{IsTipless}
use paqus_node.Storage.Version.{IsBare, ensure_storage_version-load}
use paqus_node.Storage.AddressIndex.{
  Decodes, entries_of, NotBehind, load_address_transaction_locations-IsAscending,
}
use paqus_node.Tests.Disk.{files, files_laws, files-IsReadable, plain, plain_laws, new_storage}
use mathlib.Core.List.{Perm}
use paqus_node.Storage.Integrity.{validate_chain_integrity, check_tip}
use paqus_node.Tests.Sample.{empty_book, sample, slab, Slab, Payment, payment, Book}

pub new_storage-AreApart : AreApart new_storage
new_storage-AreApart = (refl, (refl, (refl, (refl, (refl, (refl, (refl, (refl, tt))))))))

-- A block with two payments.
abbrev pub full : Slab
full = record (slab 1 1 0) { payments = payment 1 0 2 5 ∷ payment 2 5 3 6 ∷ [] }

abbrev saved : Storage
saved = (save_block new_storage full).0

block_written : save_block new_storage full ≡ (saved, ok tt)
unfolding save_block put_block index_block_transactions index_from index_transaction write encode
    put_bytes put_value
block_written = refl

save_block-load_example :
    (load_block_by_height saved 1 ≡ ok (some full))
    × (load_block_by_hash saved 101 ≡ ok (some full))
    × ((j : ℕ) (t : Payment)
        → get_elem? full.payments j ≡ some t
        → (i : ℕ) × (u : Payment) × (get_elem? full.payments i ≡ some u)
          × (u.hash ≡ t.hash)
          × (load_transaction saved t.hash ≡ ok (some (location_at full i, u))))
save_block-load_example =
    save_block-load files_laws plain_laws new_storage saved new_storage-AreApart full block_written
      (files-IsReadable saved.env) (ground arith)

abbrev sided : Storage
sided = (save_side_block new_storage (slab 7 1 5)).0

side_written : save_side_block new_storage (slab 7 1 5) ≡ (sided, ok tt)
unfolding save_side_block put_side_block write encode put_bytes
side_written = refl

save_side_block-load_example :
    (load_block_by_hash sided 106 ≡ ok (some (slab 7 1 5)))
    × (load_tip sided ≡ load_tip new_storage)
    × ((h : ℕ) → load_block_by_height sided h ≡ load_block_by_height new_storage h)
    × ((k : ℕ) → load_transaction sided k ≡ load_transaction new_storage k)
save_side_block-load_example =
    save_side_block-load files_laws plain_laws new_storage sided new_storage-AreApart (slab 7 1 5)
      side_written (files-IsReadable new_storage.env) (files-IsReadable sided.env)

-- A ledger of two blocks and two accounts.
abbrev pub two : Book
two = record {
  holders =
      record { address = 1; nonce = 0; balance = 100 }
      ∷ record { address = 2; nonce = 5; balance = 50 }
      ∷ [];
  slabs = (0, slab 0 0 0) ∷ (1, full) ∷ [];
  height = some 1;
  hash = some 101;
}

abbrev kept : Storage
kept = (save_ledger new_storage two).0

ledger_written : save_ledger new_storage two ≡ (kept, ok tt)
unfolding save_ledger put_ledger clear_tables put_accounts put_account put_blocks put_block
    index_block_transactions index_from index_transaction put_ledger_tip put_tip write flush encode
    put_bytes put_value
ledger_written = refl

pub two-IsLedger : IsLedger two
two-IsLedger = ground arith

save_ledger-load_example :
    ((h : ℕ) → IsHeight h → load_block_by_height kept h ≡ ok (get h two.slabs))
    × ((a : ℕ) → IsAddress a → load_account kept a ≡ ok (get a (sample.accounts two)))
    × ((t h : ℕ)
        → two.height ≡ some t
        → two.hash ≡ some h
        → IsHash h
        → load_tip kept ≡ ok (some (t, h)))
    × (IsTipless two → load_tip kept ≡ load_tip new_storage)
save_ledger-load_example =
    save_ledger-load files_laws plain_laws new_storage kept new_storage-AreApart two ledger_written
      (files-IsReadable new_storage.env) (files-IsReadable kept.env) two-IsLedger

-- The tip stays when a ledger without blocks is saved, and the check of the chain then fails.
stale_tip :
    (load_tip (save_ledger kept empty_book).0 ≡ ok (some (1, 101)))
    × (validate_chain_integrity (reads (save_ledger kept empty_book).0)
        ≡ err (integrity "stored tip height block is missing"))
unfolding save_ledger put_ledger clear_tables put_accounts put_account put_blocks put_block
    index_block_transactions index_from index_transaction put_ledger_tip put_tip write flush encode
    put_bytes put_value load_tip decode read_bytes be_bytes of_bytes validate_chain_integrity
    check_tip load_block_by_height
stale_tip = (refl, refl)

abbrev marked : Storage
marked = (ensure_storage_version new_storage).0

new_marked : ensure_storage_version new_storage ≡ (marked, ok tt)
unfolding ensure_storage_version load_storage_version is_empty_database is_db_empty
    save_storage_version write flush encode put_bytes put_value read_value read_bytes
new_marked = refl

ensure_storage_version-load_example :
    (load_storage_version marked ≡ ok (some storage_version))
    × ((marked ≡ new_storage)
        ⊎ ((load_storage_version new_storage ≡ ok none) × IsBare files_laws plain_laws new_storage))
ensure_storage_version-load_example =
    ensure_storage_version-load files_laws plain_laws new_storage marked ([], refl, λ d k. refl)
      (λ d rows read k bytes there. absurd (cc there)) new_marked (files-IsReadable marked.env)

abbrev payments_of : ℕ → Result StorageError (List AddressTransactionLocation)
payments_of = load_address_transaction_locations saved

-- The address 9 has received both payments.
abbrev received : ℕ → ℕ → AddressTransactionLocation
received hash index = record {
  tx_hash = hash;
  block_height = 1;
  block_hash = 101;
  tx_index = index;
  sent = false;
}

both_received : payments_of 9 ≡ ok (received 5 0 ∷ received 6 1 ∷ [])
unfolding save_block put_block index_block_transactions index_from index_transaction write encode
    put_bytes put_value load_address_transaction_locations decode_locations decode be_bytes
    address_tx_key sort_by le_location
both_received = refl

load_address_transaction_locations-IsAscending_example :
    (txn : files.RoTransaction) × (rows : List (Bytes × Bytes)) × (found : List
      AddressTransactionLocation)
    × (files.begin_ro_txn saved.env ≡ ok txn)
    × (files.entries txn saved.address_tx_index ≡ ok rows)
    × Decodes (entries_of 9 rows) found
    × IsAscending NotBehind (received 5 0 ∷ received 6 1 ∷ [])
    × Perm (received 5 0 ∷ received 6 1 ∷ []) found
load_address_transaction_locations-IsAscending_example =
    load_address_transaction_locations-IsAscending saved 9 (received 5 0 ∷ received 6 1 ∷ [])
      both_received
