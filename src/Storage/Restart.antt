-- ===== src/Storage/Restart.antt =====
-- The check of the chain by src/runtime/storage/storage.rs, after its `save_ledger`.
use paqus_node.Base.{ℕ, zero, suc, ◌≡◌, ◌∙◌, ap, some, ok, arith, inr}
use paqus_node.BTreeMap.{BTreeMap, get}
use paqus_node.Paqus.{Paqus}
use paqus_node.Storage.{Lmdb}
use paqus_node.Storage.Access.{IsHash, IsHeight}
use paqus_node.Storage.Tables.{Codecs, Storage}
use paqus_node.Storage.Saves.{save_ledger}
use paqus_node.Storage.Loads.{load_block_by_height, reads}
use paqus_node.Storage.Integrity.{validate_chain_integrity}
use paqus_node.Storage.Integrity.Chain.{IsChain, validate_chain_integrity_iff}
use paqus_node.Storage.Contents.{LmdbLaws, CodecsLaws, IsReadable}
use paqus_node.Storage.Indexed.{AreApart}
use paqus_node.Storage.Reloaded.{IsLedger, save_ledger-reads}

module _ ⦃paqus : Paqus⦄ where
  open paqus use {Block, block_hash, previous_hash}

  -- The blocks of a ledger from a height, under this hash, down to the first, whose previous hash is zero.
  abbrev pub IsLinked : BTreeMap Block → ℕ → ℕ → Type 0
  IsLinked m zero hash =
      (b : Block) × (get 0 m ≡ some b) × (block_hash b ≡ hash) × (previous_hash b ≡ 0)
  IsLinked m (suc height) hash =
      (b : Block) × (get (suc height) m ≡ some b)
      × (block_hash b ≡ hash)
      × IsLinked m height (previous_hash b)

module _ ⦃lmdb : Lmdb⦄ (laws : LmdbLaws) ⦃paqus : Paqus⦄ ⦃codecs : Codecs⦄
    (codecs_laws : CodecsLaws codecs) where
  open paqus use {Ledger, Block, block_hash, previous_hash, tip_height, tip_hash, chain_blocks}

  linked-IsChain :
      (s : Storage) (m : BTreeMap Block)
      → ((h : ℕ) → IsHeight h → load_block_by_height s h ≡ ok (get h m))
      → (height hash : ℕ) → IsHeight height
      → IsLinked m height hash
      → IsChain (reads s) height hash
  linked-IsChain s m loads zero hash fits (b, there, same, first) =
      (b, loads 0 fits ∙ ap (λ o. ok o) there, same, first)
  linked-IsChain s m loads (suc height) hash fits (b, there, same, below) = (
    b,
    loads (suc height) fits ∙ ap (λ o. ok o) there,
    same,
    linked-IsChain s m loads height (previous_hash b) (omega arith) below,
  )

  -- After a successful `save_ledger`, on an environment that can be read, whose databases are apart, of a
  -- ledger whose blocks and accounts are kept under their heights and addresses and whose blocks are linked
  -- from its tip down to a first block with the previous hash zero: the check of the stored chain, with
  -- which the node starts again, passes.
  pub save_ledger-validate :
      (s s' : Storage) (apart : AreApart s) (l : Ledger) (height hash : ℕ)
      → save_ledger s l ≡ (s', ok tt)
      → IsReadable laws s'.env
      → IsLedger l
      → tip_height l ≡ some height
      → tip_hash l ≡ some hash
      → IsHeight height
      → IsHash hash
      → IsLinked (chain_blocks l) height hash
      → validate_chain_integrity (reads s') ≡ ok tt
  save_ledger-validate s s' apart l height hash e r kept top known fits fits' linked =
      let (blocks, accounts, tip) = save_ledger-reads laws codecs_laws s s' apart l e r kept in
      (validate_chain_integrity_iff (reads s')).1 (
        inr (
          height,
          hash,
          tip height hash top known fits',
          linked-IsChain s' (chain_blocks l) blocks height hash fits linked,
        ))
