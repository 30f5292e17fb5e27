-- ===== src/Storage/Version.antt =====
-- The check of the version by src/runtime/storage/storage.rs.
use paqus_node.Base.{
  ℕ, ◌≡◌, List, [], ◌∷◌, Bytes, All, ◌>>=◌, map_err, if◌then◌else◌, Result-cases, Option-cases,
  refl, sym, ◌∙◌, ap, ◌⊎◌, inl, inr, Bool, true, false, Option, none, some, ◌==◌, Result, ok, err,
  Bool-cases, arith,
}
use mathlib.Core.Path.{subst}
use paqus_node.Paqus.{Paqus}
use paqus_node.Storage.{Lmdb, StorageError, database, unsupported_storage_version}
use paqus_node.Storage.Tables.{
  Codecs, Storage, Saved, storage_version, storage_version_key, ensure_storage_version, mark_if,
  check_version, load_storage_version, save_storage_version, all_empty, is_empty_database,
}
use paqus_node.Storage.Access.{put_value, is_db_empty}
use paqus_node.Storage.Contents.{LmdbLaws, CodecsLaws, IsReadable, IsListed, write-saves}
use paqus_node.Storage.SavedBlock.{flushed-saved}
use paqus_node.Storage.Written.{put_value-Sets}
use paqus_node.Storage.Found.{read_value-some}

module _ ⦃lmdb : Lmdb⦄ (laws : LmdbLaws) ⦃paqus : Paqus⦄ ⦃codecs : Codecs⦄
    (codecs_laws : CodecsLaws codecs) where
  -- The version that was saved is the one that is loaded.
  save_storage_version-load :
      (s s' : Storage) (version : ℕ)
      → save_storage_version s version ≡ (s', ok tt)
      → IsReadable laws s'.env
      → load_storage_version s' ≡ ok (some version)
  unfolding save_storage_version load_storage_version
  save_storage_version-load s s' version e r =
      let fill = λ (txn : lmdb.RwTransaction).
        put_value codecs.version txn s.meta storage_version_key version in
      let (txn, left, env, begun, filled, same, contents) = write-saves laws s s' fill e in
      let (bytes, encoded, at) =
        put_value-Sets laws codecs.version txn left s.meta storage_version_key version filled in
      let found : laws.stored env s.meta storage_version_key ≡ some bytes =
        contents s.meta storage_version_key ∙ at.0 storage_version_key in
      let there : laws.stored s'.env s'.meta storage_version_key ≡ some bytes =
        subst (λ (z : Storage). laws.stored z.env z.meta storage_version_key ≡ some bytes) same
          found in
      rw
        (
          r.1,
          read_value-some laws codecs.version codecs_laws.version_lem s'.env r s'.meta
              storage_version_key version bytes there encoded,
          load_storage_version,
        )
        refl

  mark_if-ok :
      (s s' : Storage) (read : Result StorageError Bool)
      → mark_if s read ≡ (s', ok tt)
      → (read ≡ ok true) × (save_storage_version s storage_version ≡ (s', ok tt))
  mark_if-ok s s' (err x) e = absurd (cc (ap (λ (w : Saved). w.1) e))
  mark_if-ok s s' (ok false) e = absurd (cc (ap (λ (w : Saved). w.1) e))
  mark_if-ok s s' (ok true) e = (refl, flushed-saved (save_storage_version s storage_version) s' e)

  -- How the check can pass, by the version that was read.
  check_version-ok :
      (s s' : Storage) (read : Result StorageError (Option ℕ))
      → check_version s read ≡ (s', ok tt)
      → ((read ≡ ok (some storage_version)) × (s' ≡ s))
        ⊎ ((read ≡ ok none)
            × (is_empty_database s ≡ ok true)
            × (save_storage_version s storage_version ≡ (s', ok tt)))
  check_version-ok s s' (err x) e = absurd (cc (ap (λ (w : Saved). w.1) e))
  check_version-ok s s' (ok none) e =
      let (is_empty, saved) = mark_if-ok s s' (is_empty_database s) e in inr (refl, is_empty, saved)
  check_version-ok s s' (ok (some found)) e = elim (Bool-cases (found == storage_version)) [
    | inl right ↦
        let same : found ≡ storage_version = ground arith in
        let kept : check_version s (ok (some found)) ≡ (s, ok tt) = rw right refl in
        inl (ap (λ v. ok (some v)) same, ap (λ (w : Saved). w.0) (sym e ∙ kept))
    | inr wrong ↦
        let refused : check_version s (ok (some found))
            ≡ (s, err (unsupported_storage_version storage_version found)) =
          rw wrong refl in
        absurd (cc (ap (λ (w : Saved). w.1) (sym e ∙ refused)))
  ]

  abbrev first_empty :
      lmdb.RoTransaction
      → List ℕ
      → Result StorageError (List (Bytes × Bytes))
      → Result StorageError Bool
  first_empty txn dbs read = do
    is_empty ← (do rows ← read; ok (elim rows [ [] ↦ true | row ∷ rest ↦ false ]))
    if is_empty then all_empty txn dbs else ok false

  entry_free :
      (s : Storage) (r : IsReadable laws s.env)
      → IsListed laws s.env r
      → (db : ℕ) → lmdb.entries r.0 db ≡ ok []
      → (k : Bytes) → laws.stored s.env db k ≡ none
  entry_free s r listed db none_read k = elim (Option-cases (laws.stored s.env db k)) [
    | inl empty ↦ empty
    | inr (bytes, there) ↦ absurd (cc (listed db [] none_read k bytes there))
  ]

  all_empty-entries :
      (txn : lmdb.RoTransaction) (dbs : List ℕ)
      → all_empty txn dbs ≡ ok true
      → All (λ db. lmdb.entries txn db ≡ ok []) dbs
  unfolding all_empty is_db_empty
  all_empty-entries txn [] e = tt
  all_empty-entries txn (db ∷ dbs) e = elim (Result-cases (lmdb.entries txn db)) [
    | inr (x, failed) ↦
        absurd (let stop = ap (λ r. first_empty txn dbs (map_err database r)) failed in cc)
    | inl ([], read) ↦
        let rest = sym (ap (λ r. first_empty txn dbs (map_err database r)) read) ∙ e in
        (read, all_empty-entries txn dbs rest)
    | inl (row ∷ rows, read) ↦
        absurd (let stop = ap (λ r. first_empty txn dbs (map_err database r)) read in cc)
  ]

  -- Every database but that of the version is without an entry.
  abbrev pub IsBare : Storage → Type 0
  IsBare s =
      (k : Bytes)
      → (laws.stored s.env s.blocks_by_height k ≡ none)
        × (laws.stored s.env s.blocks_by_hash k ≡ none)
        × (laws.stored s.env s.accounts k ≡ none)
        × (laws.stored s.env s.genesis_accounts k ≡ none)
        × (laws.stored s.env s.state_snapshots k ≡ none)
        × (laws.stored s.env s.tx_index k ≡ none)
        × (laws.stored s.env s.address_tx_index k ≡ none)

  is_empty_database-IsBare :
      (s : Storage) (r : IsReadable laws s.env)
      → IsListed laws s.env r
      → is_empty_database s ≡ ok true
      → IsBare s
  unfolding is_empty_database
  is_empty_database-IsBare s r listed e k =
      let dbs =
        s.blocks_by_height ∷ s.blocks_by_hash ∷ s.accounts ∷ s.genesis_accounts ∷ s.state_snapshots
        ∷ s.tx_index ∷ s.address_tx_index ∷ [] in
      let tested : all_empty r.0 dbs ≡ ok true =
        sym (ap (λ t. map_err database t >>= λ txn. all_empty txn dbs) r.1) ∙ e in
      let bare = λ (db : ℕ) (none_read : lmdb.entries r.0 db ≡ ok []).
        entry_free s r listed db none_read k in
      let (a, (b, (c, (d, (f, (g, (h, _))))))) = all_empty-entries r.0 dbs tested in
      (
        bare s.blocks_by_height a,
        bare s.blocks_by_hash b,
        bare s.accounts c,
        bare s.genesis_accounts d,
        bare s.state_snapshots f,
        bare s.tx_index g,
        bare s.address_tx_index h,
      )

  -- If the check of the version passes, on an environment that can be read, before and after, and whose
  -- cursors pass over every entry, then the version that is stored is the expected one; and either it was
  -- there and the storage is as it was, or there was no version and no entry in any of the databases of blocks
  -- (by height and by hash), accounts, genesis accounts, snapshots, transactions and transactions of addresses.
  pub ensure_storage_version-load :
      (s s' : Storage) (before : IsReadable laws s.env)
      → IsListed laws s.env before
      → ensure_storage_version s ≡ (s', ok tt)
      → IsReadable laws s'.env
      → (load_storage_version s' ≡ ok (some storage_version))
        × ((s' ≡ s) ⊎ ((load_storage_version s ≡ ok none) × IsBare s))
  unfolding ensure_storage_version
  ensure_storage_version-load s s' before listed e r =
      elim (check_version-ok s s' (load_storage_version s) e) [
        | inl (right, same) ↦ (ap load_storage_version same ∙ right, inl same)
        | inr (missing, is_empty, saved) ↦ (
          save_storage_version-load s s' storage_version saved r,
          inr (missing, is_empty_database-IsBare s before listed is_empty),
        )
      ]
