-- ===== src/Storage/SavedLedger.antt =====
-- The tables that `save_ledger` of src/runtime/storage/storage.rs leaves.
use paqus_node.Base.{
  ℕ, ◌≡◌, refl, sym, ◌∙◌, ap, true, List, [], ◌∷◌, Option, none, some, ◌==◌, if◌then◌else◌, ok,
  ◌>>=◌, ok_steps, map_err, map_err-ok, Bytes, elem, inl, inr, arith, Bool-cases,
}
use mathlib.Core.Path.{subst}
use paqus_node.BTreeMap.{values}
use paqus_node.Paqus.{Paqus}
use paqus_node.Storage.{Lmdb, database}
use paqus_node.Storage.Tables.{Codecs, Storage, write, tip_height_key, tip_hash_key}
use paqus_node.Storage.Saves.{
  clear_tables, put_accounts, put_blocks, put_known_tip, put_ledger, save_ledger,
}
use paqus_node.Storage.Contents.{LmdbLaws, write-saves}
use paqus_node.Storage.Fills.{Fills, Fills-agree}
use paqus_node.Storage.SavedBlock.{flushed-saved}
use paqus_node.Storage.Indexed.{
  AreApart, AreApart-HasTables, EncodesBlock, EncodesAccount, height_of, address_of, placed_in,
  placed_key, EncodesPlaced, put_blocks-Fills, put_accounts-Fills,
}
use paqus_node.Storage.SavedTip.{HasTip, put_known_tip-HasTip}

module _ ⦃lmdb : Lmdb⦄ (laws : LmdbLaws) where
  open lmdb use {RwTransaction, clear_db}

  pub clear_tables-written :
      ⦃paqus : Paqus⦄
      → ⦃codecs : Codecs⦄ → (dbs : List ℕ) (txn left : RwTransaction)
      → clear_tables dbs txn ≡ ok left
      → (d : ℕ) (k : Bytes)
      → laws.written left d k ≡ (if elem d dbs then none else laws.written txn d k)
  unfolding clear_tables
  clear_tables-written [] txn left e d k =
      let same : txn ≡ left = cc in ap (λ (r : RwTransaction). laws.written r d k) (sym same)
  clear_tables-written (db ∷ dbs) txn left e d k =
      let (middle, first, rest) =
        ok_steps (map_err database (clear_db txn db)) (clear_tables dbs) e in
      let cleared =
        laws.written-clear txn middle db (map_err-ok database (clear_db txn db) first) d k in
      let after = clear_tables-written dbs middle left rest d k in
      elim (Bool-cases (d == db)) [
        | inl here ↦ elim (Bool-cases (elem d dbs)) [
          | inl again ↦ rw (after, again, here) refl
          | inr once ↦ rw (after, once, here, cleared, here) refl
        ]
        | inr other ↦ rw (after, cleared, other) refl
      ]

module _ ⦃lmdb : Lmdb⦄ (laws : LmdbLaws) ⦃paqus : Paqus⦄ ⦃codecs : Codecs⦄ where
  open lmdb use {RwTransaction, Environment}
  open paqus use {Ledger, Block, tip_height, tip_hash, chain_blocks, is_snapshot_height}

  abbrev none_yet : Bytes → Option Bytes
  none_yet k = none

  -- The tables that hold a ledger: its blocks, its accounts, its transactions and its tip.
  pub record HoldsLedger (env : Environment) (s : Storage) (l : Ledger) : Type 0 where
    pub by_height :
        Fills height_of EncodesBlock
          (values (chain_blocks l))
          (λ k. none)
          (laws.stored env s.blocks_by_height)
    pub by_address :
        Fills address_of EncodesAccount
          (values (paqus.accounts l))
          (λ k. none)
          (laws.stored env s.accounts)
    pub by_transaction :
        Fills placed_key EncodesPlaced
          (placed_in (values (chain_blocks l)))
          (λ k. none)
          (laws.stored env s.tx_index)
    pub tip :
        (t h : ℕ)
        → tip_height l ≡ some t
        → tip_hash l ≡ some h
        → HasTip (laws.stored env s.meta) t h

  -- The five tables that are cleared.
  abbrev pub cleared_tables : Storage → List ℕ
  cleared_tables s =
      s.blocks_by_height ∷ s.accounts ∷ s.state_snapshots ∷ s.tx_index ∷ s.address_tx_index ∷ []

  -- The transaction between the steps of `put_ledger`.
  pub record Steps (s : Storage) (l : Ledger) (txn left : RwTransaction) : Type 0 where
    pub txn1 : RwTransaction
    pub txn2 : RwTransaction
    pub txn3 : RwTransaction
    pub clears : clear_tables (cleared_tables s) txn ≡ ok txn1
    pub puts_accounts : put_accounts s (values (paqus.accounts l)) txn1 ≡ ok txn2
    pub puts_blocks : put_blocks s (values (chain_blocks l)) txn2 ≡ ok txn3
    pub puts_tip : put_known_tip s l (tip_height l) (tip_hash l) txn3 ≡ ok left

  pub put_ledger-Steps :
      (s : Storage) (l : Ledger) (txn left : RwTransaction)
      → put_ledger s l txn ≡ ok left
      → Steps s l txn left
  unfolding put_ledger
  put_ledger-Steps s l txn left e =
      let accounts = values (paqus.accounts l) in
      let blocks = values (chain_blocks l) in
      let known = put_known_tip s l (tip_height l) (tip_hash l) in
      let (txn1, done1, e1) =
        ok_steps (clear_tables (cleared_tables s) txn)
          (λ txn1. do
            txn2 ← put_accounts s accounts txn1
            txn3 ← put_blocks s blocks txn2
            known txn3)
          e in
      let (txn2, done2, e2) =
        ok_steps (put_accounts s accounts txn1)
          (λ txn2. do txn3 ← put_blocks s blocks txn2; known txn3) e1 in
      let (txn3, done3, e3) = ok_steps (put_blocks s blocks txn2) known e2 in
      record {
        txn1 = txn1;
        txn2 = txn2;
        txn3 = txn3;
        clears = done1;
        puts_accounts = done2;
        puts_blocks = done3;
        puts_tip = e3;
      }

  put_ledger-HoldsLedger :
      (s : Storage) (apart : AreApart s) (l : Ledger) (txn left : RwTransaction) (env : Environment)
      → put_ledger s l txn ≡ ok left
      → ((d : ℕ) (k : Bytes) → laws.stored env d k ≡ laws.written left d k)
      → HoldsLedger env (record s { env = env }) l
  put_ledger-HoldsLedger s apart l txn left env e contents =
      let dbs = cleared_tables s in
      let accounts = values (paqus.accounts l) in
      let blocks = values (chain_blocks l) in
      let steps = put_ledger-Steps s l txn left e in
      let txn1 = steps.txn1 in
      let txn2 = steps.txn2 in
      let txn3 = steps.txn3 in
      let cleared = clear_tables-written laws dbs txn txn1 steps.clears in
      let (by_address, kept2) = put_accounts-Fills laws s accounts txn1 txn2 steps.puts_accounts in
      let (by_height, by_hash, by_transaction, kept3) =
        put_blocks-Fills laws s (AreApart-HasTables s apart) blocks txn2 txn3 steps.puts_blocks in
      let (tip, kept4) =
        put_known_tip-HasTip laws s apart l (tip_height l) (tip_hash l) txn3 left steps.puts_tip in
      let elem_heights : elem s.blocks_by_height dbs ≡ true = ground arith in
      let elem_accounts : elem s.accounts dbs ≡ true = ground arith in
      let elem_txs : elem s.tx_index dbs ≡ true = ground arith in
      let other_accounts =
        kept3 s.accounts (ground arith, ground arith, ground arith, ground arith) in
      record {
        by_height =
            Fills-agree height_of EncodesBlock blocks none_yet (laws.stored env s.blocks_by_height)
              (λ k.
                kept2 s.blocks_by_height (ground arith) k
                ∙ cleared s.blocks_by_height k
                ∙ (rw elem_heights refl))
              (λ k.
                contents s.blocks_by_height k
                ∙ kept4 s.blocks_by_height (ground arith) (ground arith) (ground arith) k)
              by_height;
        by_address =
            Fills-agree address_of EncodesAccount accounts none_yet (laws.stored env s.accounts)
              (λ k. cleared s.accounts k ∙ (rw elem_accounts refl))
              (λ k.
                contents s.accounts k
                ∙ kept4 s.accounts (ground arith) (ground arith) (ground arith) k
                ∙ other_accounts k)
              by_address;
        by_transaction =
            Fills-agree placed_key EncodesPlaced (placed_in blocks) none_yet
              (laws.stored env s.tx_index)
              (λ k. kept2 s.tx_index (ground arith) k ∙ cleared s.tx_index k ∙ (rw elem_txs refl))
              (λ k.
                contents s.tx_index k
                ∙ kept4 s.tx_index (ground arith) (ground arith) (ground arith) k)
              by_transaction;
        tip = λ t h at known.
            let has = tip t h at known in
            (
              has.0,
              has.1,
              contents s.meta tip_height_key ∙ has.2,
              contents s.meta tip_hash_key ∙ has.3,
            );
      }

  pub save_ledger-HoldsLedger :
      (s s' : Storage) (apart : AreApart s) (l : Ledger)
      → save_ledger s l ≡ (s', ok tt)
      → HoldsLedger s'.env s' l
  unfolding save_ledger
  save_ledger-HoldsLedger s s' apart l e =
      let wrote : write s (put_ledger s l) ≡ (s', ok tt) =
        flushed-saved (write s (put_ledger s l)) s' e in
      let (txn, left, env, begun, filled, same, contents) =
        write-saves laws s s' (put_ledger s l) wrote in
      subst (λ (z : Storage). HoldsLedger z.env z l) same
        (put_ledger-HoldsLedger s apart l txn left env filled contents)
