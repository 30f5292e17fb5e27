-- ===== src/Storage/Found.antt =====
-- What the reads of src/runtime/storage/storage.rs give of an entry that stands in the environment.
use paqus_node.Base.{ℕ, ◌≡◌, refl, ap, true, none, some, ◌==◌, ok, map_err, Bytes, be_bytes, arith}
use paqus_node.Paqus.{Paqus}
use paqus_node.Storage.{Lmdb, serialization}
use paqus_node.Storage.Access.{Codec, decode, read_value, height_key, hash_size, address_size}
use paqus_node.Storage.Tables.{Codecs, Storage, TransactionLocation}
use paqus_node.Storage.Loads.{
  load_block_by_height, load_block_by_hash, load_transaction_location, load_account,
}
use paqus_node.Storage.Contents.{LmdbLaws, CodecsLaws, IsLawful, IsReadable, read_bytes-stored}

module _ ⦃lmdb : Lmdb⦄ (laws : LmdbLaws) where
  open lmdb use {Environment}

  pub decode-lawful :
      {A : Type 0} (codec : Codec A) (lawful : IsLawful codec) (a : A) (bytes : Bytes)
      → codec.to_vec a ≡ ok bytes
      → decode codec bytes ≡ ok a
  unfolding decode
  decode-lawful codec lawful a bytes e = ap (map_err serialization) (lawful a bytes e)

  read_value-none :
      {A : Type 0} (codec : Codec A) (env : Environment) (r : IsReadable laws env) (d : ℕ)
      (k : Bytes)
      → laws.stored env d k ≡ none
      → read_value codec r.0 d k ≡ ok none
  unfolding read_value
  read_value-none codec env r d k e = rw (read_bytes-stored laws env r d k, e, read_value) refl

  pub read_value-some :
      {A : Type 0} (codec : Codec A) (lawful : IsLawful codec) (env : Environment)
      (r : IsReadable laws env) (d : ℕ) (k : Bytes) (a : A) (bytes : Bytes)
      → laws.stored env d k ≡ some bytes
      → codec.to_vec a ≡ ok bytes
      → read_value codec r.0 d k ≡ ok (some a)
  unfolding read_value
  read_value-some codec lawful env r d k a bytes e encoded =
      rw
        (
          read_bytes-stored laws env r d k,
          e,
          decode-lawful codec lawful a bytes encoded,
          read_value,
        )
        refl

  module _ ⦃paqus : Paqus⦄ ⦃codecs : Codecs⦄ (codecs_laws : CodecsLaws codecs) (s : Storage)
      (r : IsReadable laws s.env) where
    open paqus use {Account, Block, block_hash, height}

    pub load_block_by_height-none :
        (h : ℕ)
        → laws.stored s.env s.blocks_by_height (height_key h) ≡ none
        → load_block_by_height s h ≡ ok none
    unfolding load_block_by_height
    load_block_by_height-none h e =
        rw
          (
            r.1,
            read_bytes-stored laws s.env r s.blocks_by_height (height_key h),
            e,
            load_block_by_height,
          )
          refl

    pub load_block_by_height-some :
        (b : Block) (bytes : Bytes)
        → laws.stored s.env s.blocks_by_height (height_key (height b)) ≡ some bytes
        → codecs.block.to_vec b ≡ ok bytes
        → load_block_by_height s (height b) ≡ ok (some b)
    unfolding load_block_by_height
    load_block_by_height-some b bytes e encoded =
        let same : (height b == height b) ≡ true = ground arith in
        rw
          (
            r.1,
            read_bytes-stored laws s.env r s.blocks_by_height (height_key (height b)),
            e,
            decode-lawful codecs.block codecs_laws.block_lem b bytes encoded,
            same,
            load_block_by_height,
          )
          refl

    pub load_block_by_hash-some :
        (b : Block) (bytes : Bytes)
        → laws.stored s.env s.blocks_by_hash (be_bytes hash_size (block_hash b)) ≡ some bytes
        → codecs.block.to_vec b ≡ ok bytes
        → load_block_by_hash s (block_hash b) ≡ ok (some b)
    unfolding load_block_by_hash
    load_block_by_hash-some b bytes e encoded =
        let same : (block_hash b == block_hash b) ≡ true = ground arith in
        rw
          (
            r.1,
            read_bytes-stored laws s.env r s.blocks_by_hash (be_bytes hash_size (block_hash b)),
            e,
            decode-lawful codecs.block codecs_laws.block_lem b bytes encoded,
            same,
            load_block_by_hash,
          )
          refl

    pub load_transaction_location-some :
        (k : ℕ) (l : TransactionLocation) (bytes : Bytes)
        → laws.stored s.env s.tx_index (be_bytes hash_size k) ≡ some bytes
        → codecs.location.to_vec l ≡ ok bytes
        → load_transaction_location s k ≡ ok (some l)
    unfolding load_transaction_location
    load_transaction_location-some k l bytes e encoded =
        rw
          (
            r.1,
            read_value-some codecs.location codecs_laws.location_lem s.env r s.tx_index
                (be_bytes hash_size k) l bytes e encoded,
            load_transaction_location,
          )
          refl

    pub load_account-none :
        (a : ℕ)
        → laws.stored s.env s.accounts (be_bytes address_size a) ≡ none
        → load_account s a ≡ ok none
    unfolding load_account
    load_account-none a e =
        rw
          (
            r.1,
            read_value-none codecs.account s.env r s.accounts (be_bytes address_size a) e,
            load_account,
          )
          refl

    pub load_account-some :
        (key : ℕ) (a : Account) (bytes : Bytes)
        → laws.stored s.env s.accounts (be_bytes address_size key) ≡ some bytes
        → codecs.account.to_vec a ≡ ok bytes
        → load_account s key ≡ ok (some a)
    unfolding load_account
    load_account-some key a bytes e encoded =
        rw
          (
            r.1,
            read_value-some codecs.account codecs_laws.account_lem s.env r s.accounts
                (be_bytes address_size key) a bytes e encoded,
            load_account,
          )
          refl
