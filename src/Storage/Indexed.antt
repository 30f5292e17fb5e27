-- ===== src/Storage/Indexed.antt =====
-- What src/runtime/storage/storage.rs writes for whole blocks: under the height, under the hash, and in the
-- index of the transactions.
use paqus_node.Base.{
  ℕ, suc, ◌≡◌, sym, ◌∙◌, ap, false, List, [], ◌∷◌, ◌++◌, some, ◌==◌, if◌then◌else◌, ok, ◌>>=◌,
  ok_steps, Bytes, be_bytes, same_bytes, IsDistinct, arith,
}
use paqus_node.Paqus.{Paqus}
use paqus_node.Storage.{Lmdb}
use paqus_node.Storage.Access.{encode, put_bytes, height_key, hash_size, address_size}
use paqus_node.Storage.Tables.{Codecs, Storage}
use paqus_node.Storage.Saves.{
  index_transaction, index_from, index_block_transactions, put_block, put_blocks, put_account,
  put_accounts, location_at,
}
use paqus_node.Storage.Contents.{LmdbLaws}
use paqus_node.Storage.Fills.{Fills, Fills-append, Fills-from}
use paqus_node.Storage.Written.{
  Keeps, index_transaction-Sets, put_bytes-Sets, put_value-Sets, encode-ok,
}

-- The handles that tell the databases of blocks, transactions and accounts apart.
pub record HasTables ⦃paqus : Paqus⦄ ⦃lmdb : Lmdb⦄ (s : Storage) : Type 0 where
  pub heights_hashes : (s.blocks_by_height == s.blocks_by_hash) ≡ false
  pub heights_txs : (s.blocks_by_height == s.tx_index) ≡ false
  pub heights_addresses : (s.blocks_by_height == s.address_tx_index) ≡ false
  pub hashes_heights : (s.blocks_by_hash == s.blocks_by_height) ≡ false
  pub hashes_txs : (s.blocks_by_hash == s.tx_index) ≡ false
  pub hashes_addresses : (s.blocks_by_hash == s.address_tx_index) ≡ false
  pub txs_heights : (s.tx_index == s.blocks_by_height) ≡ false
  pub txs_hashes : (s.tx_index == s.blocks_by_hash) ≡ false
  pub txs_addresses : (s.tx_index == s.address_tx_index) ≡ false

-- The eight databases are different.
abbrev pub AreApart : ⦃paqus : Paqus⦄ → ⦃lmdb : Lmdb⦄ → Storage → Type 0
AreApart s = IsDistinct (
    s.meta ∷ s.state_snapshots ∷ s.genesis_accounts ∷ s.accounts ∷ s.blocks_by_height
    ∷ s.blocks_by_hash ∷ s.tx_index ∷ s.address_tx_index ∷ [])

pub AreApart-HasTables : ⦃paqus : Paqus⦄ → ⦃lmdb : Lmdb⦄ → (s : Storage) → AreApart s → HasTables s
AreApart-HasTables s apart = record {
  heights_hashes = ground arith;
  heights_txs = ground arith;
  heights_addresses = ground arith;
  hashes_heights = ground arith;
  hashes_txs = ground arith;
  hashes_addresses = ground arith;
  txs_heights = ground arith;
  txs_hashes = ground arith;
  txs_addresses = ground arith;
}

module _ ⦃paqus : Paqus⦄ where
  open paqus use {
    SignedTransaction, hash, Block, block_hash, height, block_transactions, Account, address,
  }

  -- A transaction of a block, with its place.
  abbrev pub Placed : Type 0
  Placed = Block × (ℕ × SignedTransaction)

  abbrev pub placed_from : Block → ℕ → List SignedTransaction → List Placed
  placed_from b i [] = []
  placed_from b i (t ∷ ts) = (b, (i, t)) ∷ placed_from b (suc i) ts

  abbrev pub placed_in : List Block → List Placed
  placed_in [] = []
  placed_in (b ∷ bs) = placed_from b 0 (block_transactions b) ++ placed_in bs

  abbrev pub placed_key : Placed → Bytes
  placed_key p = be_bytes hash_size (hash p.1.1)

  abbrev pub height_of : Block → Bytes
  height_of b = height_key (height b)

  abbrev pub hash_of : Block → Bytes
  hash_of b = be_bytes hash_size (block_hash b)

  abbrev pub address_of : Account → Bytes
  address_of a = be_bytes address_size (address a)

  module _ ⦃lmdb : Lmdb⦄ ⦃codecs : Codecs⦄ where
    abbrev pub EncodesPlaced : Placed → Bytes → Type 0
    EncodesPlaced p bytes = codecs.location.to_vec (location_at p.0 p.1.0) ≡ ok bytes

    abbrev pub EncodesBlock : Block → Bytes → Type 0
    EncodesBlock b bytes = codecs.block.to_vec b ≡ ok bytes

    abbrev pub EncodesAccount : Account → Bytes → Type 0
    EncodesAccount a bytes = codecs.account.to_vec a ≡ ok bytes

module _ ⦃lmdb : Lmdb⦄ (laws : LmdbLaws) ⦃paqus : Paqus⦄ ⦃codecs : Codecs⦄ where
  open lmdb use {RwTransaction}
  open paqus use {SignedTransaction, Block, block_transactions, Account}

  module _ (s : Storage) (own : HasTables s) where
    index_from-Fills :
        (b : Block) (i : ℕ) (ts : List SignedTransaction) (txn left : RwTransaction)
        → index_from s b i ts txn ≡ ok left
        → Fills placed_key EncodesPlaced
            (placed_from b i ts)
            (laws.written txn s.tx_index)
            (laws.written left s.tx_index)
          × ((d : ℕ)
              → (d == s.tx_index) ≡ false
              → (d == s.address_tx_index) ≡ false
              → Keeps laws d txn left)
    unfolding index_from
    index_from-Fills b i [] txn left e =
        let same : txn ≡ left = cc in
        let kept =
          λ (d : ℕ) (k : Bytes). ap (λ (r : RwTransaction). laws.written r d k) (sym same) in
        (kept s.tx_index, λ d other other' k. kept d k)
    index_from-Fills b i (t ∷ ts) txn left e =
        let (middle, first, rest) =
          ok_steps (index_transaction s b i t txn) (index_from s b (suc i) ts) e in
        let (bytes, encoded, sets, others) =
          index_transaction-Sets laws s own.txs_addresses b i t txn middle first in
        let (fills, kept) = index_from-Fills b (suc i) ts middle left rest in
        (
          (laws.written middle s.tx_index, bytes, encoded, sets, fills),
          λ d other other' k. kept d other other' k ∙ others d other other' k,
        )

    -- The three tables after a block.
    pub put_block-Fills :
        (b : Block) (bytes : Bytes) (txn left : RwTransaction)
        → put_block s b bytes txn ≡ ok left
        → ((k : Bytes)
            → laws.written left s.blocks_by_height k ≡ (
                if same_bytes k (height_of b)
                then some bytes
                else laws.written txn s.blocks_by_height k))
          × ((k : Bytes)
              → laws.written left s.blocks_by_hash k ≡ (
                  if same_bytes k (hash_of b)
                  then some bytes
                  else laws.written txn s.blocks_by_hash k))
          × Fills placed_key EncodesPlaced
              (placed_from b 0 (block_transactions b))
              (laws.written txn s.tx_index)
              (laws.written left s.tx_index)
          × ((d : ℕ)
              → (d == s.blocks_by_height) ≡ false
              → (d == s.blocks_by_hash) ≡ false
              → (d == s.tx_index) ≡ false
              → (d == s.address_tx_index) ≡ false
              → Keeps laws d txn left)
    unfolding put_block index_block_transactions
    put_block-Fills b bytes txn left e =
        let (txn1, done1, e1) =
          ok_steps (put_bytes txn s.blocks_by_height (height_of b) bytes)
            (λ txn1. do
              txn2 ← put_bytes txn1 s.blocks_by_hash (hash_of b) bytes
              index_block_transactions s b txn2)
            e in
        let (txn2, done2, e2) =
          ok_steps (put_bytes txn1 s.blocks_by_hash (hash_of b) bytes)
            (index_block_transactions s b) e1 in
        let (at1, others1) =
          put_bytes-Sets laws txn txn1 s.blocks_by_height (height_of b) bytes done1 in
        let (at2, others2) =
          put_bytes-Sets laws txn1 txn2 s.blocks_by_hash (hash_of b) bytes done2 in
        let (fills, kept) = index_from-Fills b 0 (block_transactions b) txn2 left e2 in
        (
          λ k.
              kept s.blocks_by_height own.heights_txs own.heights_addresses k
              ∙ others2 s.blocks_by_height own.heights_hashes k
              ∙ at1 k,
          λ k.
              kept s.blocks_by_hash own.hashes_txs own.hashes_addresses k
              ∙ at2 k
              ∙ ap (λ o. if same_bytes k (hash_of b) then some bytes else o)
                  (others1 s.blocks_by_hash own.hashes_heights k),
          Fills-from placed_key EncodesPlaced (placed_from b 0 (block_transactions b))
              (laws.written txn s.tx_index) (laws.written txn2 s.tx_index)
              (laws.written left s.tx_index)
              (λ k. others2 s.tx_index own.txs_hashes k ∙ others1 s.tx_index own.txs_heights k)
              fills,
          λ d o1 o2 o3 o4 k. kept d o3 o4 k ∙ others2 d o2 k ∙ others1 d o1 k,
        )

    -- The databases that the blocks do not concern.
    abbrev pub IsOther : ℕ → Type 0
    IsOther d =
        ((d == s.blocks_by_height) ≡ false)
        × ((d == s.blocks_by_hash) ≡ false)
        × ((d == s.tx_index) ≡ false)
        × ((d == s.address_tx_index) ≡ false)

    pub put_blocks-Fills :
        (bs : List Block) (txn left : RwTransaction)
        → put_blocks s bs txn ≡ ok left
        → Fills height_of EncodesBlock bs
            (laws.written txn s.blocks_by_height)
            (laws.written left s.blocks_by_height)
          × Fills hash_of EncodesBlock bs
              (laws.written txn s.blocks_by_hash)
              (laws.written left s.blocks_by_hash)
          × Fills placed_key EncodesPlaced
              (placed_in bs)
              (laws.written txn s.tx_index)
              (laws.written left s.tx_index)
          × ((d : ℕ) → IsOther d → Keeps laws d txn left)
    unfolding put_blocks
    put_blocks-Fills [] txn left e =
        let same : txn ≡ left = cc in
        let kept =
          λ (d : ℕ) (k : Bytes). ap (λ (r : RwTransaction). laws.written r d k) (sym same) in
        (kept s.blocks_by_height, kept s.blocks_by_hash, kept s.tx_index, λ d other. kept d)
    put_blocks-Fills (b ∷ bs) txn left e =
        let (bytes, encoded, e1) =
          ok_steps (encode codecs.block b)
            (λ bytes. do txn1 ← put_block s b bytes txn; put_blocks s bs txn1) e in
        let (middle, first, rest) = ok_steps (put_block s b bytes txn) (put_blocks s bs) e1 in
        let (at_height, at_hash, placed, kept) = put_block-Fills b bytes txn middle first in
        let (heights, hashes, others, kept') = put_blocks-Fills bs middle left rest in
        let written = encode-ok laws codecs.block b bytes encoded in
        (
          (laws.written middle s.blocks_by_height, bytes, written, at_height, heights),
          (laws.written middle s.blocks_by_hash, bytes, written, at_hash, hashes),
          Fills-append placed_key EncodesPlaced (placed_from b 0 (block_transactions b))
              (placed_in bs) (laws.written txn s.tx_index) (laws.written middle s.tx_index)
              (laws.written left s.tx_index) placed others,
          λ d other k. kept' d other k ∙ kept d other.0 other.1 other.2 other.3 k,
        )

  pub put_accounts-Fills :
      (s : Storage) (accounts : List Account) (txn left : RwTransaction)
      → put_accounts s accounts txn ≡ ok left
      → Fills address_of EncodesAccount accounts
          (laws.written txn s.accounts)
          (laws.written left s.accounts)
        × ((d : ℕ) → (d == s.accounts) ≡ false → Keeps laws d txn left)
  unfolding put_accounts put_account
  put_accounts-Fills s [] txn left e =
      let same : txn ≡ left = cc in
      let kept = λ (d : ℕ) (k : Bytes). ap (λ (r : RwTransaction). laws.written r d k) (sym same) in
      (kept s.accounts, λ d other. kept d)
  put_accounts-Fills s (a ∷ rest) txn left e =
      let (middle, first, after) = ok_steps (put_account s a txn) (put_accounts s rest) e in
      let (bytes, encoded, at) =
        put_value-Sets laws codecs.account txn middle s.accounts (address_of a) a first in
      let (fills, kept) = put_accounts-Fills s rest middle left after in
      (
        (laws.written middle s.accounts, bytes, encoded, at.0, fills),
        λ d other k. kept d other k ∙ at.1 d other k,
      )
