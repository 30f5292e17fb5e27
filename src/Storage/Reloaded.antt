-- ===== src/Storage/Reloaded.antt =====
-- What src/runtime/storage/storage.rs loads after `save_ledger`.
use paqus_node.Base.{
  ℕ, ◌<◌, ◌^◌, ◌≡◌, refl, sym, ◌∙◌, ap, true, ◌⊎◌, inl, inr, [], ◌∷◌, Option, none, some, ◌==◌, ok,
  Bytes, be_bytes, of_bytes, of_bytes-be_bytes, length, length-be_bytes, All, All-imp, All-both,
  arith, Bool-cases, Option-cases,
}
use mathlib.Core.Path.{subst}
use paqus_node.BTreeMap.{BTreeMap, get, values, IsSorted}
use paqus_node.BTreeMap.Laws.{get-cons_of_get}
use paqus_node.Paqus.{Paqus}
use paqus_node.Storage.{Lmdb}
use paqus_node.Storage.Access.{height_key, hash_size, address_size, IsHash, IsHeight, IsAddress}
use paqus_node.Storage.Tables.{Codecs, Storage, tip_height_key, tip_hash_key}
use paqus_node.Storage.Saves.{save_ledger}
use paqus_node.Storage.Loads.{load_block_by_height, load_account, load_tip}
use paqus_node.Storage.Contents.{LmdbLaws, CodecsLaws, IsReadable, read_bytes-stored}
use paqus_node.Storage.Fills.{Fills, Fills-cases, Fills-All}
use paqus_node.Storage.Indexed.{AreApart, EncodesBlock, EncodesAccount}
use paqus_node.Storage.Found.{
  load_block_by_height-none, load_block_by_height-some, load_account-none, load_account-some,
  decode-lawful,
}
use paqus_node.Storage.Tipless.{IsTipless, save_ledger-tipless}
use paqus_node.Storage.SavedLedger.{HoldsLedger, save_ledger-HoldsLedger}

pub All-entries :
    {V : Type 0} (P : ℕ × V → Type 0) (m : BTreeMap V)
    → All P m
    → (k : ℕ) (v : V) → get k m ≡ some v
    → P (k, v)
unfolding get
All-entries P [] ps k v e = absurd (cc)
All-entries P ((j, w) ∷ m) ps k v e = elim (Bool-cases (k == j)) [
  | inl here ↦
      let key : k ≡ j = ground arith in
      let value : w ≡ v = ground arith in
      subst (λ u. P (k, u)) value (subst (λ i. P (i, w)) (sym key) ps.0)
  | inr other ↦ All-entries P m ps.1 k v (ground arith)
]

All-values : {V : Type 0} (P : V → Type 0) (m : BTreeMap V) → All (λ e. P e.1) m → All P (values m)
All-values P [] ps = tt
All-values P ((j, v) ∷ m) ps = (ps.0, All-values P m ps.1)

values-at :
    {V : Type 0} (P : V → Type 0) (m : BTreeMap V)
    → All P (values m)
    → (k : ℕ) (v : V) → get k m ≡ some v
    → P v
unfolding get
values-at P [] ps k v e = absurd (cc)
values-at P ((j, w) ∷ m) ps k v e = elim (Bool-cases (k == j)) [
  | inl here ↦ let value : w ≡ v = ground arith in subst P value ps.0
  | inr other ↦ values-at P m ps.1 k v (ground arith)
]

-- In a sorted map every entry is the one found under its key.
entries-found : {V : Type 0} (m : BTreeMap V) → IsSorted m → All (λ e. get e.0 m ≡ some e.1) m
unfolding get
entries-found [] sorted = tt
entries-found ((j, w) ∷ m) sorted = (
  ground arith,
  All-imp (λ e found. get-cons_of_get e.0 j e.1 w m sorted.0 found) m (entries-found m sorted.1),
)

module _ {V : Type 0} (width : ℕ) (ident : V → ℕ) (m : BTreeMap V) where
  -- Each value stands in the map under its own number, which fits the key.
  abbrev pub IsKeyed : Type 0
  IsKeyed = IsSorted m × All (λ e. (ident e.1 ≡ e.0) × (e.0 < 256 ^ width)) m

  abbrev pub IsKeyedAt : V → Type 0
  IsKeyedAt v = (get (ident v) m ≡ some v) × (ident v < 256 ^ width)

  pub IsKeyed-values : IsKeyed → All IsKeyedAt (values m)
  IsKeyed-values (sorted, keyed) = All-values IsKeyedAt m (
      All-imp
        (λ e both. (
          subst (λ i. get i m ≡ some e.1) (sym both.0.0) both.1,
          subst (λ i. i < 256 ^ width) (sym both.0.0) both.0.1,
        ))
        m
        (All-both (λ e. (ident e.1 ≡ e.0) × (e.0 < 256 ^ width)) (λ e. get e.0 m ≡ some e.1) m keyed
          (entries-found m sorted)))

  -- The table written from the values of a map has an entry exactly where the map has one.
  pub Fills-get :
      (Encodes : V → Bytes → Type 0) (table : Bytes → Option Bytes)
      → IsKeyed
      → Fills (λ v. be_bytes width (ident v)) Encodes (values m) (λ k. none) table
      → (n : ℕ) → n < 256 ^ width
      → ((v : V) × (get n m ≡ some v)
          × (ident v ≡ n)
          × (bytes : Bytes) × Encodes v bytes
          × (table (be_bytes width n) ≡ some bytes))
        ⊎ ((get n m ≡ none) × (table (be_bytes width n) ≡ none))
  Fills-get Encodes table keyed fills n fits =
      let values_keyed = IsKeyed-values keyed in
      let key = λ (v : V). be_bytes width (ident v) in
      elim (Fills-cases key Encodes IsKeyedAt (values m) (λ k. none) table values_keyed fills
        (be_bytes width n)) [
          | inl (v, (there, small), same, bytes, encodes, found) ↦
              let number : ident v ≡ n =
                sym (of_bytes-be_bytes width (ident v) small)
                ∙ ap of_bytes (sym same)
                ∙ of_bytes-be_bytes width n fits in
              inl
                (v, subst (λ (i : ℕ). get i m ≡ some v) number there, number, bytes, encodes, found)
          | inr kept ↦ elim (Option-cases (get n m)) [
            | inl missing ↦ inr (missing, kept)
            | inr (v, there) ↦
                let all =
                  Fills-All key Encodes IsKeyedAt (values m) (λ k. none) table values_keyed fills in
                let number =
                  (All-entries (λ e. (ident e.1 ≡ e.0) × (e.0 < 256 ^ width)) m keyed.1 n v
                    there).0 in
                let (x, (at, small), same, bytes, encodes, found) = values-at _ m all n v there in
                let table_some : table (be_bytes width n) ≡ some bytes =
                  ap (λ i. table (be_bytes width i)) (sym number) ∙ found in
                absurd (cc (kept, table_some))
          ]
        ]

module _ ⦃paqus : Paqus⦄ where
  open paqus use {Ledger, height, address, chain_blocks}

  -- A ledger whose blocks stand under their heights and whose accounts under their addresses.
  abbrev pub IsLedger : Ledger → Type 0
  IsLedger l = IsKeyed 8 height (chain_blocks l) × IsKeyed address_size address (paqus.accounts l)

module _ ⦃lmdb : Lmdb⦄ (laws : LmdbLaws) ⦃paqus : Paqus⦄ ⦃codecs : Codecs⦄
    (codecs_laws : CodecsLaws codecs) where
  open paqus use {
    Ledger, Block, height, block_hash, previous_hash, address, tip_height, tip_hash, chain_blocks,
  }

  module _ (s' : Storage) (r : IsReadable laws s'.env) (l : Ledger) (kept : IsLedger l)
      (holds : HoldsLedger laws s'.env s' l) where
    pub loaded_block :
        (h : ℕ) → IsHeight h → load_block_by_height s' h ≡ ok (get h (chain_blocks l))
    unfolding height_key
    loaded_block h fits =
        elim (Fills-get 8 height (chain_blocks l) EncodesBlock
          (laws.stored s'.env s'.blocks_by_height) kept.0 holds.by_height h fits) [
            | inl (b, there, number, bytes, encodes, found) ↦
                let at =
                  load_block_by_height-some laws codecs_laws s' r b bytes
                    (ap (λ i. laws.stored s'.env s'.blocks_by_height (height_key i)) number ∙ found)
                    encodes in
                ap (load_block_by_height s') (sym number) ∙ at ∙ ap (λ o. ok o) (sym there)
            | inr (missing, empty) ↦
                load_block_by_height-none laws codecs_laws s' r h empty
                ∙ ap (λ o. ok o) (sym missing)
          ]

    pub loaded_account : (a : ℕ) → IsAddress a → load_account s' a ≡ ok (get a (paqus.accounts l))
    loaded_account a fits =
        elim (Fills-get address_size address (paqus.accounts l) EncodesAccount
          (laws.stored s'.env s'.accounts) kept.1 holds.by_address a fits) [
            | inl (v, there, number, bytes, encodes, found) ↦
                load_account-some laws codecs_laws s' r a v bytes found encodes
                ∙ ap (λ o. ok o) (sym there)
            | inr (missing, empty) ↦
                load_account-none laws codecs_laws s' r a empty ∙ ap (λ o. ok o) (sym missing)
          ]

    pub loaded_tip :
        (t h : ℕ)
        → tip_height l ≡ some t
        → tip_hash l ≡ some h
        → IsHash h
        → load_tip s' ≡ ok (some (t, h))
    unfolding load_tip
    loaded_tip t h at known fits =
        let (bytes, encoded, height_there, hash_there) = holds.tip t h at known in
        let size : (length (be_bytes hash_size h) == hash_size) ≡ true =
          ap (λ n. n == hash_size) (length-be_bytes hash_size h) in
        rw
          (
            r.1,
            read_bytes-stored laws s'.env r s'.meta tip_height_key,
            height_there,
            read_bytes-stored laws s'.env r s'.meta tip_hash_key,
            hash_there,
            decode-lawful laws codecs.block_height codecs_laws.block_height_lem t bytes encoded,
            size,
            of_bytes-be_bytes hash_size h fits,
            load_tip,
          )
          refl

  -- Every read of the storage, by the tables that hold the ledger.
  pub save_ledger-reads :
      (s s' : Storage) (apart : AreApart s) (l : Ledger)
      → save_ledger s l ≡ (s', ok tt)
      → IsReadable laws s'.env
      → IsLedger l
      → ((h : ℕ) → IsHeight h → load_block_by_height s' h ≡ ok (get h (chain_blocks l)))
        × ((a : ℕ) → IsAddress a → load_account s' a ≡ ok (get a (paqus.accounts l)))
        × ((t h : ℕ)
            → tip_height l ≡ some t
            → tip_hash l ≡ some h
            → IsHash h
            → load_tip s' ≡ ok (some (t, h)))
  save_ledger-reads s s' apart l e r kept =
      let holds = save_ledger-HoldsLedger laws s s' apart l e in
      (
        loaded_block s' r l kept holds,
        loaded_account s' r l kept holds,
        loaded_tip s' r l kept holds,
      )

  -- After a successful `save_ledger`, on environments that can be read, whose databases are apart, and for a
  -- ledger whose blocks and accounts are kept under their heights and addresses: the storage and the ledger
  -- have the same block at every height and the same account at every address; the tip that is loaded is the
  -- ledger's, if it has one, with a hash of 64 bytes; and if the ledger lacks a tip, it is the one that the
  -- storage had before.
  pub save_ledger-load :
      (s s' : Storage) (apart : AreApart s) (l : Ledger)
      → save_ledger s l ≡ (s', ok tt)
      → IsReadable laws s.env
      → IsReadable laws s'.env
      → IsLedger l
      → ((h : ℕ) → IsHeight h → load_block_by_height s' h ≡ ok (get h (chain_blocks l)))
        × ((a : ℕ) → IsAddress a → load_account s' a ≡ ok (get a (paqus.accounts l)))
        × ((t h : ℕ)
            → tip_height l ≡ some t
            → tip_hash l ≡ some h
            → IsHash h
            → load_tip s' ≡ ok (some (t, h)))
        × (IsTipless l → load_tip s' ≡ load_tip s)
  save_ledger-load s s' apart l e before r kept =
      let (blocks, accounts, tip) = save_ledger-reads s s' apart l e r kept in
      (blocks, accounts, tip, save_ledger-tipless laws codecs_laws s s' apart l e before r)
