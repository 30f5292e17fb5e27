-- ===== src/Storage/Contents.antt =====
-- What src/runtime/storage/storage.rs relies on in LMDB and Borsh, as hypotheses: the contents of the
-- environment and of a write transaction, and how each call changes them.
use paqus_node.Base.{
  ℕ, ◌≡◌, refl, sym, ◌∙◌, ap, true, ◌&&◌, List, any, Option, none, some, ◌==◌, if◌then◌else◌,
  Result, ok, ◌>>=◌, ok_or, map_err, map_err-ok, Bytes, same_bytes, Option-cases, Result-cases, inl,
  inr,
}
use paqus_node.Paqus.{Paqus}
use paqus_node.Storage.{Lmdb, StorageError, database}
use paqus_node.Storage.Access.{Codec, read_bytes}
use paqus_node.Storage.Tables.{Codecs, Storage, Saved, write, committed}

module _ ⦃lmdb : Lmdb⦄ where
  open lmdb use {
    LmdbError, not_found, is_not_found, Environment, RoTransaction, RwTransaction, begin_ro_txn,
    get, begin_rw_txn, put, clear_db, commit,
  }

  -- The entry that a write at a key of a database leaves in its place.
  abbrev pub Contents : Type 0
  Contents = ℕ → Bytes → Option Bytes

  abbrev pub with_entry : Contents → ℕ → Bytes → Bytes → Contents
  with_entry c db key bytes d k = if d == db && same_bytes k key then some bytes else c d k

  abbrev pub without : Contents → ℕ → Contents
  without c db d k = if d == db then none else c d k

  pub record LmdbLaws : Type 0 where
    pub stored : Environment → Contents
    pub written : RwTransaction → Contents
    pub not_found_lem : is_not_found not_found ≡ true
    -- A write transaction starts from what is stored, and its writes and clears change it alone.
    pub written-begin :
        (env : Environment) (txn : RwTransaction)
        → begin_rw_txn env ≡ ok txn
        → (d : ℕ) (k : Bytes) → written txn d k ≡ stored env d k
    pub written-put :
        (txn left : RwTransaction) (db : ℕ) (key bytes : Bytes)
        → put txn db key bytes ≡ ok left
        → (d : ℕ) (k : Bytes) → written left d k ≡ with_entry (written txn) db key bytes d k
    pub written-clear :
        (txn left : RwTransaction) (db : ℕ)
        → clear_db txn db ≡ ok left
        → (d : ℕ) (k : Bytes) → written left d k ≡ without (written txn) db d k
    -- A commit stores what was written.
    pub stored-commit :
        (env : Environment) (txn : RwTransaction)
        → (commit env txn).1 ≡ ok tt
        → (d : ℕ) (k : Bytes) → stored (commit env txn).0 d k ≡ written txn d k

  -- A codec reads back what it wrote.
  abbrev pub IsLawful : {A : Type 0} → Codec A → Type 0
  IsLawful {A} codec =
      (a : A) (bytes : Bytes) → codec.to_vec a ≡ ok bytes → codec.try_from_slice bytes ≡ ok a

  pub record CodecsLaws ⦃paqus : Paqus⦄ (codecs : Codecs) : Type 0 where
    pub version_lem : IsLawful codecs.version
    pub block_height_lem : IsLawful codecs.block_height
    pub block_lem : IsLawful codecs.block
    pub account_lem : IsLawful codecs.account
    pub location_lem : IsLawful codecs.location

  module _ (laws : LmdbLaws) where
    -- A read transaction opens, and each of its reads gives what is stored.
    abbrev pub IsReadable : Environment → Type 0
    IsReadable env =
        (txn : RoTransaction) × (begin_ro_txn env ≡ ok txn)
        × ((d : ℕ) (k : Bytes) → get txn d k ≡ ok_or (laws.stored env d k) not_found)

    -- A cursor passes over every entry of a database.
    abbrev pub IsListed : (env : Environment) → IsReadable env → Type 0
    IsListed env r =
        (d : ℕ) (rows : List (Bytes × Bytes))
        → lmdb.entries r.0 d ≡ ok rows
        → (k bytes : Bytes) → laws.stored env d k ≡ some bytes
        → any (λ row. same_bytes k row.0) rows ≡ true

    pub read_bytes-stored :
        (env : Environment) (r : IsReadable env) (d : ℕ) (k : Bytes)
        → read_bytes r.0 d k ≡ ok (laws.stored env d k)
    unfolding read_bytes
    read_bytes-stored env (txn, opens, gets) d k = elim (Option-cases (laws.stored env d k)) [
      | inl e ↦ rw (gets d k, e, laws.not_found_lem, read_bytes) refl
      | inr (v, e) ↦ rw (gets d k, e, read_bytes) refl
    ]

  module _ ⦃paqus : Paqus⦄ (laws : LmdbLaws) where
    write-filled :
        (s : Storage) (fill : RwTransaction → Result StorageError RwTransaction)
        {txn : RwTransaction} {left : Result StorageError RwTransaction}
        → begin_rw_txn s.env ≡ ok txn
        → fill txn ≡ left
        → write s fill ≡ committed s left
    unfolding write
    write-filled s fill begun filled = rw (begun, filled, write) refl

    -- A successful write begins a transaction, fills it, and stores what it then holds.
    pub write-stored :
        (s : Storage) (fill : RwTransaction → Result StorageError RwTransaction)
        → (write s fill).1 ≡ ok tt
        → (txn : RwTransaction) × (left : RwTransaction) × ((d : ℕ) (k : Bytes)
            → laws.written txn d k ≡ laws.stored s.env d k)
          × (fill txn ≡ ok left)
          × (write s fill ≡ committed s (ok left))
          × ((d : ℕ) (k : Bytes) → laws.stored (write s fill).0.env d k ≡ laws.written left d k)
    unfolding write
    write-stored s fill e = elim (Result-cases (begin_rw_txn s.env)) [
      | inr (x, failed) ↦
          absurd (let stop = ap (λ r. committed s (map_err database r >>= fill)) failed in cc)
      | inl (txn, begun) ↦ elim (Result-cases (fill txn)) [
        | inr (x, failed) ↦ absurd (let stop = write-filled s fill begun failed in cc)
        | inl (left, filled) ↦
            let done = write-filled s fill begun filled in
            let fine : (commit s.env left).1 ≡ ok tt =
              map_err-ok database (commit s.env left).1 (sym (ap (λ w. w.1) done) ∙ e) in
            (
              txn,
              left,
              laws.written-begin s.env txn begun,
              filled,
              done,
              λ d k.
                  ap (λ (w : Saved). laws.stored w.0.env d k) done
                  ∙ laws.stored-commit s.env left fine d k,
            )
      ]
    ]

    pub write-saves :
        (s s' : Storage) (fill : RwTransaction → Result StorageError RwTransaction)
        → write s fill ≡ (s', ok tt)
        → (txn : RwTransaction) × (left : RwTransaction) × (env : Environment) × ((d : ℕ)
              (k : Bytes)
            → laws.written txn d k ≡ laws.stored s.env d k)
          × (fill txn ≡ ok left)
          × (record s { env = env } ≡ s')
          × ((d : ℕ) (k : Bytes) → laws.stored env d k ≡ laws.written left d k)
    write-saves s s' fill e =
        let (txn, left, begun, filled, done, contents) = write-stored s fill (ap (λ w. w.1) e) in
        let same : record s { env = (commit s.env left).0 } ≡ s' =
          sym (ap (λ (w : Saved). w.0) done) ∙ ap (λ (w : Saved). w.0) e in
        (
          txn,
          left,
          (commit s.env left).0,
          begun,
          filled,
          same,
          λ d k. ap (λ (w : Saved). laws.stored w.0.env d k) (sym done) ∙ contents d k,
        )
