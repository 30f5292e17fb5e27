-- ===== src/Storage/Roundtrip.antt =====
-- Reading back from src/runtime/storage/storage.rs what `save_block` and `save_side_block` stored.
use paqus_node.Base.{
  ℕ, ◌≡◌, refl, sym, ◌∙◌, ap, false, some, ◌==◌, ok, Bytes, All, arith, be_bytes, same_bytes, true,
  same_bytes_refl, Result-cases, Option-cases, inl, inr,
}
use mathlib.Core.Path.{subst}
use paqus_node.Paqus.{Paqus}
use paqus_node.Storage.{Lmdb}
use paqus_node.Storage.Access.{encode, height_key, hash_size, IsHash, read_bytes, read_value}
use paqus_node.Storage.Tables.{Codecs, Storage, tip_height_key, tip_hash_key}
use paqus_node.Storage.Saves.{save_block, save_side_block, put_side_block, location_at}
use paqus_node.Storage.Loads.{
  load_block_by_height, load_block_by_hash, load_transaction, load_transaction_location, located,
  load_tip, get_elem?,
}
use paqus_node.Storage.Contents.{LmdbLaws, CodecsLaws, IsReadable, write-saves, read_bytes-stored}
use paqus_node.Storage.Written.{put_bytes-Sets, encode-ok}
use paqus_node.Storage.Indexed.{AreApart, AreApart-HasTables, hash_of}
use paqus_node.Storage.Found.{load_block_by_hash-some}
use paqus_node.Storage.SavedBlock.{
  save_block-HasBlock, HasBlock-load_block_by_height, HasBlock-load_block_by_hash,
  HasBlock-load_transaction, write_encoded-saves,
}

module _ ⦃lmdb : Lmdb⦄ (laws : LmdbLaws) ⦃paqus : Paqus⦄ ⦃codecs : Codecs⦄
    (codecs_laws : CodecsLaws codecs) where
  open paqus use {SignedTransaction, hash, Block, block_hash, height, block_transactions}
  open lmdb use {Environment}

  -- After a successful `save_block`, on an environment that can be read, whose databases are apart and
  -- whose transactions' hashes have 64 bytes: the block is loaded by its height and by its hash, and the hash of each of
  -- its transactions loads a transaction with that hash, located in this block at the place where it is.
  pub save_block-load :
      (s s' : Storage) (apart : AreApart s) (b : Block)
      → save_block s b ≡ (s', ok tt)
      → IsReadable laws s'.env
      → All (λ v. IsHash (hash v)) (block_transactions b)
      → (load_block_by_height s' (height b) ≡ ok (some b))
        × (load_block_by_hash s' (block_hash b) ≡ ok (some b))
        × ((j : ℕ) (t : SignedTransaction)
            → get_elem? (block_transactions b) j ≡ some t
            → (i : ℕ) × (u : SignedTransaction) × (get_elem? (block_transactions b) i ≡ some u)
              × (hash u ≡ hash t)
              × (load_transaction s' (hash t) ≡ ok (some (location_at b i, u))))
  save_block-load s s' apart b e r fits =
      let own = AreApart-HasTables s apart in
      let has = save_block-HasBlock laws codecs_laws s s' own b e in
      (
        HasBlock-load_block_by_height laws codecs_laws s' r b has,
        HasBlock-load_block_by_hash laws codecs_laws s' r b has,
        HasBlock-load_transaction laws codecs_laws s' r b has fits,
      )

  -- Two environments with the same entries in a database.
  abbrev pub Agrees : Environment → Environment → ℕ → Type 0
  Agrees env env' d = (k : Bytes) → laws.stored env' d k ≡ laws.stored env d k

  module _ (s : Storage) (env : Environment) (r : IsReadable laws s.env)
      (r' : IsReadable laws env) where
    reads-same :
        (d : ℕ) → Agrees s.env env d → (k : Bytes) → read_bytes r'.0 d k ≡ read_bytes r.0 d k
    reads-same d agrees k =
        read_bytes-stored laws env r' d k
        ∙ ap (λ o. ok o) (agrees k)
        ∙ sym (read_bytes-stored laws s.env r d k)

    pub load_block_by_height-same :
        Agrees s.env env s.blocks_by_height
        → (h : ℕ) → load_block_by_height (record s { env = env }) h ≡ load_block_by_height s h
    unfolding load_block_by_height
    load_block_by_height-same agrees h =
        rw (r'.1, r.1, reads-same s.blocks_by_height agrees (height_key h), load_block_by_height)
          refl

    pub load_tip-same : Agrees s.env env s.meta → load_tip (record s { env = env }) ≡ load_tip s
    unfolding load_tip
    load_tip-same agrees =
        let here = read_bytes-stored laws s.env r s.meta tip_height_key in
        let height_same = reads-same s.meta agrees tip_height_key in
        let hash_same = reads-same s.meta agrees tip_hash_key in
        elim (Option-cases (laws.stored s.env s.meta tip_height_key)) [
          | inl missing ↦ rw (r'.1, r.1, height_same, here, missing, load_tip) refl
          | inr (v, found) ↦ rw (r'.1, r.1, height_same, here, found, hash_same, load_tip) refl
        ]

    load_transaction_location-same :
        Agrees s.env env s.tx_index
        → (k : ℕ)
        → load_transaction_location (record s { env = env }) k ≡ load_transaction_location s k
    unfolding load_transaction_location read_value
    load_transaction_location-same agrees k =
        rw
          (
            r'.1,
            r.1,
            reads-same s.tx_index agrees (be_bytes hash_size k),
            load_transaction_location,
            read_value,
          )
          refl

    pub load_transaction-same :
        Agrees s.env env s.blocks_by_height
        → Agrees s.env env s.tx_index
        → (k : ℕ) → load_transaction (record s { env = env }) k ≡ load_transaction s k
    unfolding load_transaction located
    load_transaction-same agrees agrees' k = elim (Result-cases (load_transaction_location s k)) [
      | inr (x, e) ↦ rw (load_transaction_location-same agrees' k, e, load_transaction) refl
      | inl (found, e) ↦ elim (Option-cases found) [
        | inl none_found ↦
            rw (load_transaction_location-same agrees' k, e, none_found, load_transaction) refl
        | inr (l, some_found) ↦
            rw
              (
                load_transaction_location-same agrees' k,
                e,
                some_found,
                load_block_by_height-same agrees l.block_height,
                load_transaction,
                located,
              )
              refl
      ]
    ]

  -- After a successful `save_side_block`, on environments that can be read, whose databases are apart: the
  -- block is loaded by its hash, and the chain is as it was: the tip, the block at every height and the
  -- transaction under every hash.
  pub save_side_block-load :
      (s s' : Storage) (apart : AreApart s) (b : Block)
      → save_side_block s b ≡ (s', ok tt)
      → IsReadable laws s.env
      → IsReadable laws s'.env
      → (load_block_by_hash s' (block_hash b) ≡ ok (some b))
        × (load_tip s' ≡ load_tip s)
        × ((h : ℕ) → load_block_by_height s' h ≡ load_block_by_height s h)
        × ((k : ℕ) → load_transaction s' k ≡ load_transaction s k)
  unfolding save_side_block put_side_block
  save_side_block-load s s' apart b e r r' =
      let own = AreApart-HasTables s apart in
      let meta_apart : (s.meta == s.blocks_by_hash) ≡ false = ground arith in
      let (bytes, encoded, wrote) =
        write_encoded-saves s s' (encode codecs.block b) (put_side_block s b) e in
      let (txn, left, env, begun, filled, same, contents) =
        write-saves laws s s' (put_side_block s b bytes) wrote in
      let (sets, others) = put_bytes-Sets laws txn left s.blocks_by_hash (hash_of b) bytes filled in
      let agrees = λ (d : ℕ) (other : (d == s.blocks_by_hash) ≡ false) (k : Bytes).
        contents d k ∙ others d other k ∙ begun d k in
      let itself : same_bytes (hash_of b) (hash_of b) ≡ true = same_bytes_refl (hash_of b) in
      let here = contents s.blocks_by_hash (hash_of b) ∙ sets (hash_of b) ∙ (rw itself refl) in
      let written = encode-ok laws codecs.block b bytes encoded in
      let r'' = subst (λ (z : Storage). IsReadable laws z.env) (sym same) r' in
      subst
        (λ (z : Storage).
          (load_block_by_hash z (block_hash b) ≡ ok (some b))
          × (load_tip z ≡ load_tip s)
          × ((h : ℕ) → load_block_by_height z h ≡ load_block_by_height s h)
          × ((k : ℕ) → load_transaction z k ≡ load_transaction s k))
        same
        (
          load_block_by_hash-some laws codecs_laws (record s { env = env }) r'' b bytes here
              written,
          load_tip-same s env r r'' (agrees s.meta meta_apart),
          load_block_by_height-same s env r r'' (agrees s.blocks_by_height own.heights_hashes),
          load_transaction-same s env r r'' (agrees s.blocks_by_height own.heights_hashes)
              (agrees s.tx_index own.txs_hashes),
        )
