-- ===== src/Storage/Restored.antt =====
-- src/runtime/storage/storage.rs: `load_ledger` after `save_ledger`.
use paqus_node.Base.{
  ℕ, suc, ◌+◌, ◌<◌, ◌≤◌, ◌^◌, ◌≡◌, sym, ◌∙◌, ap, true, List, none, some, is_some, Result, ok, ◌>>=◌,
  ◌>>◌, Bytes, be_bytes, any, same_bytes, map_err, All, All-imp, arith, Option-cases, inl, inr,
}
use mathlib.Core.Path.{subst}
use paqus_node.BTreeMap.{BTreeMap, get, values}
use paqus_node.Paqus.{Paqus}
use paqus_node.Storage.{Lmdb, database}
use paqus_node.Storage.Access.{address_size, IsHash, IsHeight}
use paqus_node.Storage.Tables.{
  Codecs, Storage, Saved, check_version, ensure_storage_version, load_storage_version,
  storage_version,
}
use paqus_node.Storage.Saves.{save_ledger}
use paqus_node.Storage.Loads.{
  load_ledger, read_ledger, load_block_by_height, load_tip, reads, reading,
}
use paqus_node.Storage.Integrity.{validate_chain_integrity}
use paqus_node.Storage.Contents.{LmdbLaws, CodecsLaws, IsReadable}
use paqus_node.Storage.Fills.{Fills-cases}
use paqus_node.Storage.Found.{decode-lawful}
use paqus_node.Storage.Indexed.{AreApart, EncodesAccount, address_of}
use paqus_node.Storage.SavedLedger.{HoldsLedger, save_ledger-HoldsLedger}
use paqus_node.Storage.Reloaded.{
  IsLedger, IsKeyedAt, IsKeyed-values, Fills-get, All-entries, save_ledger-reads,
}
use paqus_node.Storage.Restart.{IsLinked, save_ledger-validate}
use paqus_node.Storage.AccountRows.{IsRow, IsPart, HasKey, decode_accounts-IsPart}
use paqus_node.Storage.ChainRows.{
  LedgerLaws, TopIs, HasLowest, linked-Links, linked-top, insert_stored-HasLowest,
}

-- A first step that succeeds is followed by the next.
then_ok :
    {E A B : Type 0} (m : Result E A) (f : A → Result E B) {a : A} {r : Result E B}
    → m ≡ ok a
    → f a ≡ r
    → (m >>= f) ≡ r
then_ok m f e rest = ap (λ q. q >>= f) e ∙ rest

module _ ⦃lmdb : Lmdb⦄ (laws : LmdbLaws) where
  -- A cursor gives what is stored in a database, and nothing else.
  abbrev pub Lists :
      (env : lmdb.Environment) → IsReadable laws env → ℕ → List (Bytes × Bytes) → Type 0
  Lists env r d rows =
      (lmdb.entries r.0 d ≡ ok rows)
      × All (λ row. laws.stored env d row.0 ≡ some row.1) rows
      × ((k : Bytes) (bytes : Bytes)
          → laws.stored env d k ≡ some bytes
          → any (λ row. same_bytes k row.0) rows ≡ true)

module _ ⦃paqus : Paqus⦄ where
  open paqus use {Ledger, tip_height, tip_hash, chain_blocks}

  -- The loaded ledger has the accounts of the saved one, its blocks up to the tip, and its tip.
  pub record IsSame (l : Ledger) (top hash : ℕ) (l' : Ledger) : Type 0 where
    pub same_accounts : (a : ℕ) → get a (paqus.accounts l') ≡ get a (paqus.accounts l)
    pub same_blocks : (h : ℕ) → h ≤ top → get h (chain_blocks l') ≡ get h (chain_blocks l)
    pub same_height : tip_height l' ≡ some top
    pub same_hash : tip_hash l' ≡ some hash

module _ ⦃lmdb : Lmdb⦄ (laws : LmdbLaws) ⦃paqus : Paqus⦄ ⦃codecs : Codecs⦄
    (codecs_laws : CodecsLaws codecs) (ledger_laws : LedgerLaws) where
  open paqus use {
    Ledger, Account, Block, height, address, block_hash, previous_hash, tip_height, tip_hash,
    chain_blocks, new_ledger, set_accounts,
  }

  module _ (s : Storage) (l : Ledger) (kept : IsLedger l) (holds : HoldsLedger laws s.env s l) where
    rows-IsRow :
        (row : Bytes × Bytes)
        → laws.stored s.env s.accounts row.0 ≡ some row.1
        → IsRow (paqus.accounts l) row
    rows-IsRow row there =
        elim (Fills-cases address_of EncodesAccount
          (IsKeyedAt address_size address (paqus.accounts l)) (values (paqus.accounts l))
          (λ k. none) (laws.stored s.env s.accounts)
          (IsKeyed-values address_size address (paqus.accounts l) kept.1) holds.by_address row.0) [
            | inr empty ↦ absurd (cc (there, empty))
            | inl (v, (at, small), its_key, bytes, encodes, found) ↦
                let same : bytes ≡ row.1 = cc (there, found) in
                (
                  v,
                  at,
                  small,
                  its_key,
                  decode-lawful laws codecs.account codecs_laws.account_lem v row.1
                      (subst (λ (b : Bytes). codecs.account.to_vec v ≡ ok b) same encodes),
                )
          ]

    -- The accounts that are found in all rows.
    all-accounts :
        (r : IsReadable laws s.env) (rows : List (Bytes × Bytes)) (all : BTreeMap Account)
        → Lists laws s.env r s.accounts rows
        → IsPart (paqus.accounts l) all
        → ((a : ℕ)
            → a < 256 ^ address_size
            → HasKey (paqus.accounts l) a rows
            → is_some (get a all) ≡ true)
        → (a : ℕ) → get a all ≡ get a (paqus.accounts l)
    all-accounts r rows all (read, stored, whole) part covers a = elim (Option-cases (get a all)) [
      | inr (v, there) ↦ there ∙ sym (part.known a v there)
      | inl missing ↦ elim (Option-cases (get a (paqus.accounts l))) [
        | inl none_there ↦ missing ∙ sym none_there
        | inr (v, there) ↦
            let small =
              (All-entries (λ e. (address e.1 ≡ e.0) × (e.0 < 256 ^ address_size))
                (paqus.accounts l) kept.1.1 a v there).1 in
            elim (Fills-get address_size address (paqus.accounts l) EncodesAccount
              (laws.stored s.env s.accounts) kept.1 holds.by_address a small) [
                | inr (absent, empty) ↦ absurd (cc (there, absent))
                | inl (w, at, number, bytes, encodes, found) ↦
                    let present = covers a small (whole (be_bytes address_size a) bytes found) in
                    absurd (cc (present, missing))
              ]
      ]
    ]

  empty-IsPart : (m : BTreeMap Account) → IsPart m (paqus.accounts new_ledger)
  unfolding get
  empty-IsPart m =
      subst (IsPart m) (sym ledger_laws.new_accounts)
        (record { placed = tt; known = λ a v e. absurd (cc e) })

  read_ledger-IsSame :
      (s : Storage) (l : Ledger) (top hash : ℕ) (rows : List (Bytes × Bytes))
      (r : IsReadable laws s.env)
      → IsLedger l
      → HoldsLedger laws s.env s l
      → ((h : ℕ) → IsHeight h → load_block_by_height s h ≡ ok (get h (chain_blocks l)))
      → validate_chain_integrity (reads s) ≡ ok tt
      → load_tip s ≡ ok (some (top, hash))
      → Lists laws s.env r s.accounts rows
      → IsHeight top
      → IsLinked (chain_blocks l) top hash
      → (l' : Ledger) × (read_ledger s ≡ ok l') × IsSame l top hash l'
  unfolding read_ledger
  read_ledger-IsSame s l top hash rows r kept holds loads valid tip listed fits linked =
      let blocks = chain_blocks l in
      let (all, decoded, part, _, covers) =
        decode_accounts-IsPart (paqus.accounts l) rows (paqus.accounts new_ledger)
          (All-imp (λ row there. rows-IsRow s l kept holds row there) rows listed.1)
          (empty-IsPart (paqus.accounts l)) in
      let first = set_accounts new_ledger all in
      let start : HasLowest blocks 0 first = record {
        lowest = λ h below. absurd (omega arith);
        top = ledger_laws.tip-set new_ledger all ∙ ledger_laws.new_tip;
      } in
      let (l', inserted, low, accounts') =
        insert_stored-HasLowest blocks ledger_laws s loads
          (λ h b e.
            (All-entries (λ e. (height e.1 ≡ e.0) × (e.0 < 256 ^ 8)) blocks kept.0.1 h b e).0)
          (suc top) 0 first
          (λ h below.
            let (b, there, links) = linked-Links blocks top hash linked h (omega arith) in
            (omega arith, b, there, links))
          start in
      let count : 0 + suc top ≡ suc top = omega arith in
      let highest : TopIs blocks (suc top) l' =
        subst (λ (n : ℕ). TopIs blocks n l') count low.top in
      let (b, there, up, known) = highest in
      let (c, there', named) = linked-top blocks top hash linked in
      let same : c ≡ b = cc in
      (
        l',
        let opened : reading s ≡ ok r.0 = ap (map_err database) r.1 in
            let read : map_err database (lmdb.entries r.0 s.accounts) ≡ ok rows =
              ap (map_err database) listed.0 in
            then_ok _ _ valid (
              then_ok _ _ opened
                (then_ok _ _ read (then_ok _ _ decoded (then_ok _ _ tip inserted)))),
        record {
          same_accounts = λ a.
              ap (get a) (accounts' ∙ ledger_laws.accounts-set new_ledger all part.placed)
              ∙ all-accounts s l kept holds r rows all listed part covers a;
          same_blocks = λ h below. low.lowest h (omega arith);
          same_height = up;
          same_hash = known ∙ ap some (sym (named ∙ ap block_hash same));
        },
      )

  load_ledger-read :
      (s : Storage)
      → load_storage_version s ≡ ok (some storage_version)
      → load_ledger s ≡ (s, read_ledger s)
  unfolding load_ledger ensure_storage_version
  load_ledger-read s e =
      ap (λ (w : Saved). (w.0, (do w.1; read_ledger w.0))) (ap (check_version s) e)

  -- If `save_ledger` succeeds, on a storage of the expected version, which can be read and whose databases
  -- are apart, for a ledger whose blocks and accounts are kept under their heights and addresses and whose
  -- blocks are linked from its tip down to a first block with the previous hash zero, then `load_ledger`
  -- succeeds, leaves the storage as it is, and gives a ledger with the same accounts, the same blocks up to
  -- the tip, and the same tip.
  pub save_ledger-load_ledger :
      (s s' : Storage) (apart : AreApart s) (l : Ledger) (top hash : ℕ) (r : IsReadable laws s'.env)
      (rows : List (Bytes × Bytes))
      → save_ledger s l ≡ (s', ok tt)
      → load_storage_version s' ≡ ok (some storage_version)
      → Lists laws s'.env r s'.accounts rows
      → IsLedger l
      → tip_height l ≡ some top
      → tip_hash l ≡ some hash
      → IsHeight top
      → IsHash hash
      → IsLinked (chain_blocks l) top hash
      → (l' : Ledger) × (load_ledger s' ≡ (s', ok l')) × IsSame l top hash l'
  save_ledger-load_ledger s s' apart l top hash r rows e version listed kept at known fits fits'
        linked =
      let (loads, _, tip) = save_ledger-reads laws codecs_laws s s' apart l e r kept in
      let valid =
        save_ledger-validate laws codecs_laws s s' apart l top hash e r kept at known fits fits'
          linked in
      let (l', done, same) =
        read_ledger-IsSame s' l top hash rows r kept (save_ledger-HoldsLedger laws s s' apart l e)
          loads valid (tip top hash at known fits') listed fits linked in
      (l', load_ledger-read s' version ∙ ap (λ o. (s', o)) done, same)
