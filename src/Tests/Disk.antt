-- ===== src/Tests/Disk.antt =====
-- A small LMDB in memory, and plain codecs, on which the storage runs.
use paqus_node.Base.{
  ℕ, suc, ◌≡◌, refl, ◌∙◌, ap, ◌&&◌, List, [], ◌∷◌, Option, none, some, ◌==◌, if◌then◌else◌, Result,
  ok, err, ok_or, Bytes, same_bytes, arith,
}
use paqus_node.Storage.{Lmdb}
use paqus_node.Storage.Access.{Codec}
use paqus_node.Storage.Tables.{Codecs, Storage, TransactionLocation, AddressTransactionLocation}
use paqus_node.Storage.Contents.{LmdbLaws, CodecsLaws, IsReadable}
use paqus_node.Tests.Sample.{sample, Payment, Holder, Slab}

abbrev pub Rows : Type 0
Rows = List (ℕ × Bytes × Bytes)

-- The number of open databases and the entries, newest first.
pub record Files : Type 0 where
  pub opened : ℕ
  pub rows : Rows

abbrev pub lookup : Rows → ℕ → Bytes → Option Bytes
lookup [] d k = none
lookup ((db, key, bytes) ∷ rows) d k =
    if d == db && same_bytes k key then some bytes else lookup rows d k

abbrev drop : ℕ → Rows → Rows
drop db [] = []
drop db ((d, key, bytes) ∷ rows) = if d == db then drop db rows else (d, key, bytes) ∷ drop db rows

abbrev of_db : ℕ → Rows → List (Bytes × Bytes)
of_db db [] = []
of_db db ((d, key, bytes) ∷ rows) = if d == db then (key, bytes) ∷ of_db db rows else of_db db rows

instance abbrev pub files : Lmdb
files = record {
  LmdbError = ℕ;
  not_found = 0;
  is_not_found = λ e. e == 0;
  IoError = ℕ;
  invalid_data_error = λ message. 9;
  create_dir_all = λ path. ok tt;
  Environment = Files;
  RoTransaction = Rows;
  RwTransaction = Rows;
  open_environment = λ dbs size path. ok (record { opened = 0; rows = [] });
  create_db = λ env name. (record env { opened = suc env.opened }, ok env.opened);
  sync = λ env force. ok tt;
  begin_ro_txn = λ env. ok env.rows;
  get = λ rows d k. ok_or (lookup rows d k) 0;
  entries = λ rows d. ok (of_db d rows);
  begin_rw_txn = λ env. ok env.rows;
  put = λ rows d key bytes. ok ((d, key, bytes) ∷ rows);
  clear_db = λ rows d. ok (drop d rows);
  commit = λ env rows. (record env { rows = rows }, ok tt);
}

pub lookup-drop :
    (db : ℕ) (rows : Rows) (d : ℕ) (k : Bytes)
    → lookup (drop db rows) d k ≡ (if d == db then none else lookup rows d k)
lookup-drop db [] d k = ground arith
lookup-drop db ((e, key, bytes) ∷ rows) d k = ground (arith, lookup-drop db rows d k)

pub ok_eq : {A : Type 0} (a b : A) → ◌≡◌ {A = Result ℕ A} (ok a) (ok b) → b ≡ a
ok_eq a b e = cc

abbrev pub files_laws : LmdbLaws
files_laws = record {
  stored = λ env. lookup env.rows;
  written = lookup;
  not_found_lem = refl;
  written-begin = λ env txn e d k. ap (λ r. lookup r d k) (ok_eq env.rows txn e);
  written-put =
      λ txn left db key bytes e d k. ap (λ r. lookup r d k) (ok_eq ((db, key, bytes) ∷ txn) left e);
  written-clear = λ txn left db e d k.
      ap (λ r. lookup r d k) (ok_eq (drop db txn) left e) ∙ lookup-drop db txn d k;
  stored-commit = λ env txn e d k. refl;
}

pub files-IsReadable : (env : Files) → IsReadable files_laws env
files-IsReadable env = (env.rows, refl, λ d k. refl)

-- A number by itself, and the fields of a record one after another.
abbrev one : Codec ℕ
one = record {
  to_vec = λ n. ok (n ∷ []);
  try_from_slice = λ bytes. elim bytes [ [] ↦ err 1 | n ∷ rest ↦ ok n ];
}

abbrev holder_bytes : Bytes → Result ℕ Holder
holder_bytes (a ∷ n ∷ b ∷ []) = ok (record { address = a; nonce = n; balance = b })
holder_bytes _ = err 1

abbrev location_bytes : Bytes → Result ℕ TransactionLocation
location_bytes (h ∷ b ∷ i ∷ []) = ok (record { block_height = h; block_hash = b; tx_index = i })
location_bytes _ = err 1

abbrev address_location_bytes : Bytes → Result ℕ AddressTransactionLocation
address_location_bytes (t ∷ h ∷ b ∷ i ∷ d ∷ []) =
    ok (record { tx_hash = t; block_height = h; block_hash = b; tx_index = i; sent = d == 1 })
address_location_bytes _ = err 1

abbrev payments_out : List Payment → Bytes
payments_out [] = []
payments_out (p ∷ ps) =
    p.from ∷ p.to ∷ p.amount ∷ p.fee ∷ p.nonce ∷ p.timestamp ∷ p.hash ∷ payments_out ps

abbrev payments_in : Bytes → List Payment
payments_in (a ∷ b ∷ c ∷ d ∷ e ∷ f ∷ g ∷ rest) =
    record { from = a; to = b; amount = c; fee = d; nonce = e; timestamp = f; hash = g }
    ∷ payments_in rest
payments_in _ = []

pub payments_in-out : (ps : List Payment) → payments_in (payments_out ps) ≡ ps
payments_in-out [] = refl
payments_in-out (p ∷ ps) = ap (λ rest. p ∷ rest) (payments_in-out ps)

abbrev slab_bytes : Bytes → Result ℕ Slab
slab_bytes (a ∷ b ∷ c ∷ d ∷ e ∷ f ∷ g ∷ rest) = ok (record {
  parent = a;
  height = b;
  miner = c;
  timestamp = d;
  difficulty = e;
  nonce = f;
  root = g;
  payments = payments_in rest;
})
slab_bytes _ = err 1

instance abbrev pub plain : Codecs
plain = record {
  version = one;
  block_height = one;
  block = record {
    to_vec = λ b. ok (
        b.parent
        ∷ b.height
        ∷ b.miner
        ∷ b.timestamp
        ∷ b.difficulty
        ∷ b.nonce
        ∷ b.root
        ∷ payments_out b.payments);
    try_from_slice = slab_bytes;
  };
  account = record {
    to_vec = λ h. ok (h.address ∷ h.nonce ∷ h.balance ∷ []);
    try_from_slice = holder_bytes;
  };
  genesis_accounts = record { to_vec = λ m. ok []; try_from_slice = λ bytes. ok [] };
  snapshot = record { to_vec = λ s. ok []; try_from_slice = λ bytes. err 1 };
  location = record {
    to_vec = λ l. ok (l.block_height ∷ l.block_hash ∷ l.tx_index ∷ []);
    try_from_slice = location_bytes;
  };
  address_location = record {
    to_vec = λ l.
        ok
          (l.tx_hash ∷ l.block_height ∷ l.block_hash ∷ l.tx_index ∷ (if l.sent then 1 else 0) ∷ []);
    try_from_slice = address_location_bytes;
  };
}

pub of_out :
    {A : Type 0} (read : Bytes → Result ℕ A) (a : A) (out bytes : Bytes)
    → ◌≡◌ {A = Result ℕ Bytes} (ok out) (ok bytes)
    → read out ≡ ok a
    → read bytes ≡ ok a
of_out read a out bytes e back = ap read (ok_eq out bytes e) ∙ back

abbrev pub plain_laws : CodecsLaws plain
plain_laws = record {
  version_lem = λ a bytes e. of_out plain.version.try_from_slice a (a ∷ []) bytes e refl;
  block_height_lem = λ a bytes e. of_out plain.block_height.try_from_slice a (a ∷ []) bytes e refl;
  block_lem = λ a bytes e.
      of_out slab_bytes a
        (a.parent
          ∷ a.height
          ∷ a.miner
          ∷ a.timestamp
          ∷ a.difficulty
          ∷ a.nonce
          ∷ a.root
          ∷ payments_out a.payments)
        bytes e (ap (λ ps. ok (record a { payments = ps })) (payments_in-out a.payments));
  account_lem =
      λ a bytes e. of_out holder_bytes a (a.address ∷ a.nonce ∷ a.balance ∷ []) bytes e refl;
  location_lem = λ a bytes e.
      of_out location_bytes a (a.block_height ∷ a.block_hash ∷ a.tx_index ∷ []) bytes e refl;
}

-- A storage whose databases are open, without entries.
abbrev pub new_storage : Storage
new_storage = record {
  env = record { opened = 8; rows = [] };
  blocks_by_height = 0;
  blocks_by_hash = 1;
  accounts = 2;
  genesis_accounts = 3;
  state_snapshots = 4;
  tx_index = 5;
  address_tx_index = 6;
  meta = 7;
}
