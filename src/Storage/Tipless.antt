-- ===== src/Storage/Tipless.antt =====
-- `save_ledger` of src/runtime/storage/storage.rs for a ledger without a tip.
use paqus_node.Base.{
  ℕ, ◌≡◌, sym, ◌∙◌, refl, ap, ◌⊎◌, inl, inr, false, Option, none, some, ok, elem, arith,
}
use mathlib.Core.Path.{subst}
use paqus_node.BTreeMap.{values}
use paqus_node.Paqus.{Paqus}
use paqus_node.Storage.{Lmdb}
use paqus_node.Storage.Tables.{Codecs, Storage, write}
use paqus_node.Storage.Saves.{put_known_tip, put_ledger, save_ledger}
use paqus_node.Storage.Loads.{load_tip}
use paqus_node.Storage.Contents.{LmdbLaws, CodecsLaws, IsReadable, write-saves}
use paqus_node.Storage.Written.{Keeps}
use paqus_node.Storage.Indexed.{AreApart, AreApart-HasTables, put_accounts-Fills, put_blocks-Fills}
use paqus_node.Storage.SavedBlock.{flushed-saved}
use paqus_node.Storage.SavedLedger.{cleared_tables, clear_tables-written, put_ledger-Steps}
use paqus_node.Storage.Roundtrip.{load_tip-same}

abbrev pub IsTipless : ⦃paqus : Paqus⦄ → paqus.Ledger → Type 0
IsTipless ⦃paqus⦄ l = (paqus.tip_height l ≡ none) ⊎ (paqus.tip_hash l ≡ none)

module _ ⦃lmdb : Lmdb⦄ (laws : LmdbLaws) ⦃paqus : Paqus⦄ ⦃codecs : Codecs⦄
    (codecs_laws : CodecsLaws codecs) where
  open lmdb use {RwTransaction}
  open paqus use {Ledger, tip_height, tip_hash, chain_blocks}

  put_known_tip-tipless :
      (s : Storage) (l : Ledger) (height hash : Option ℕ) (txn left : RwTransaction)
      → ((height ≡ none) ⊎ (hash ≡ none))
      → put_known_tip s l height hash txn ≡ ok left
      → txn ≡ left
  put_known_tip-tipless s l none hash txn left without e = cc
  put_known_tip-tipless s l (some height) none txn left without e = cc
  put_known_tip-tipless s l (some height) (some hash) txn left (inl missing) e = absurd (cc missing)
  put_known_tip-tipless s l (some height) (some hash) txn left (inr missing) e = absurd (cc missing)

  put_ledger-meta :
      (s : Storage) (apart : AreApart s) (l : Ledger) (txn left : RwTransaction)
      → IsTipless l
      → put_ledger s l txn ≡ ok left
      → Keeps laws s.meta txn left
  put_ledger-meta s apart l txn left without e k =
      let steps = put_ledger-Steps laws s l txn left e in
      let cleared =
        clear_tables-written laws (cleared_tables laws s) txn steps.txn1 steps.clears s.meta k in
      let apart_cleared : elem s.meta (cleared_tables laws s) ≡ false = ground arith in
      let kept =
        (put_accounts-Fills laws s (values (paqus.accounts l)) steps.txn1 steps.txn2
            steps.puts_accounts).1
          s.meta (ground arith) k in
      let kept' =
        (put_blocks-Fills laws s (AreApart-HasTables s apart) (values (chain_blocks l)) steps.txn2
            steps.txn3 steps.puts_blocks).3
          s.meta (ground arith, ground arith, ground arith, ground arith) k in
      let same =
        put_known_tip-tipless s l (tip_height l) (tip_hash l) steps.txn3 left without
          steps.puts_tip in
      ap (λ (r : RwTransaction). laws.written r s.meta k) (sym same)
      ∙ kept'
      ∙ kept
      ∙ cleared
      ∙ (rw apart_cleared refl)

  -- The tip of the storage stays, also an old one.
  pub save_ledger-tipless :
      (s s' : Storage) (apart : AreApart s) (l : Ledger)
      → save_ledger s l ≡ (s', ok tt)
      → IsReadable laws s.env
      → IsReadable laws s'.env
      → IsTipless l
      → load_tip s' ≡ load_tip s
  unfolding save_ledger
  save_ledger-tipless s s' apart l e r r' without =
      let wrote : write s (put_ledger s l) ≡ (s', ok tt) =
        flushed-saved (write s (put_ledger s l)) s' e in
      let (txn, left, env, begun, filled, same, contents) =
        write-saves laws s s' (put_ledger s l) wrote in
      let r'' = subst (λ (z : Storage). IsReadable laws z.env) (sym same) r' in
      subst (λ (z : Storage). load_tip z ≡ load_tip s) same
        (load_tip-same laws codecs_laws s env r r'' (λ k.
          contents s.meta k ∙ put_ledger-meta s apart l txn left without filled k ∙ begun s.meta k))
