-- ===== src/Storage/Written.antt =====
-- What the writes of src/runtime/storage/storage.rs leave in each database of a transaction.
use paqus_node.Base.{
  ℕ, ◌≡◌, refl, sym, ◌∙◌, ap, true, false, not, some, ◌==◌, ltb, if◌then◌else◌, ok, ◌>>=◌,
  map_err-ok, ok_steps, reject_if-ok, Bool-cases, Bytes, be_bytes, same_bytes, u32_modulus, inl,
  inr, arith,
}
use paqus_node.Paqus.{Paqus}
use paqus_node.Storage.{Lmdb, database, serialization, integrity}
use paqus_node.Storage.Access.{Codec, encode, put_bytes, put_value, address_tx_key, hash_size}
use paqus_node.Storage.Tables.{Codecs, Storage}
use paqus_node.Storage.Saves.{
  put_location, put_sent, put_received, index_transaction, location_at, address_location_at,
}
use paqus_node.Storage.Contents.{LmdbLaws}

module _ ⦃lmdb : Lmdb⦄ (laws : LmdbLaws) where
  open lmdb use {RwTransaction, put}

  -- A database that the writes between two states of the transaction leave alone.
  abbrev pub Keeps : ℕ → RwTransaction → RwTransaction → Type 0
  Keeps d txn left = (k : Bytes) → laws.written left d k ≡ laws.written txn d k

  -- A write of one entry.
  abbrev pub Sets : ℕ → Bytes → Bytes → RwTransaction → RwTransaction → Type 0
  Sets db key bytes txn left =
      ((k : Bytes)
        → laws.written left db k ≡ (if same_bytes k key then some bytes else laws.written txn db k))
      × ((d : ℕ) → (d == db) ≡ false → Keeps d txn left)

  pub put_bytes-Sets :
      (txn left : RwTransaction) (db : ℕ) (key bytes : Bytes)
      → put_bytes txn db key bytes ≡ ok left
      → Sets db key bytes txn left
  unfolding put_bytes
  put_bytes-Sets txn left db key bytes e =
      let done =
        laws.written-put txn left db key bytes (map_err-ok database (put txn db key bytes) e) in
      let same : (db == db) ≡ true = ground arith in
      (λ k. done db k ∙ (rw same refl), λ d other k. done d k ∙ (rw other refl))

  pub encode-ok :
      {A : Type 0} (codec : Codec A) (a : A) (bytes : Bytes)
      → encode codec a ≡ ok bytes
      → codec.to_vec a ≡ ok bytes
  unfolding encode
  encode-ok codec a bytes e = map_err-ok serialization (codec.to_vec a) e

  pub put_value-Sets :
      {A : Type 0} (codec : Codec A) (txn left : RwTransaction) (db : ℕ) (key : Bytes) (a : A)
      → put_value codec txn db key a ≡ ok left
      → (bytes : Bytes) × (codec.to_vec a ≡ ok bytes) × Sets db key bytes txn left
  unfolding put_value
  put_value-Sets codec txn left db key a e =
      let (bytes, encoded, rest) = ok_steps (encode codec a) (put_bytes txn db key) e in
      (bytes, encode-ok codec a bytes encoded, put_bytes-Sets txn left db key bytes rest)

  module _ ⦃paqus : Paqus⦄ ⦃codecs : Codecs⦄ where
    open paqus use {
      SignedTransaction, hash, from, to, Block, block_hash, height, block_transactions,
    }

    abbrev pub tx_key : ℕ × SignedTransaction → Bytes
    tx_key e = be_bytes hash_size (hash e.1)

    -- The bytes of the location of a transaction.
    abbrev pub EncodesLocation : Block → ℕ × SignedTransaction → Bytes → Type 0
    EncodesLocation block e bytes = codecs.location.to_vec (location_at block e.0) ≡ ok bytes

    module _ (s : Storage) (own : (s.tx_index == s.address_tx_index) ≡ false) where
      received-Keeps :
          (block : Block) (index : ℕ) (t : SignedTransaction) (txn left : RwTransaction)
          → put_received s block index t txn ≡ ok left
          → (d : ℕ) → (d == s.address_tx_index) ≡ false
          → Keeps d txn left
      received-Keeps block index t txn left e d other k = elim (Bool-cases (to t == from t)) [
        | inl same ↦
            let kept : txn ≡ left = ground arith in
            ap (λ (r : RwTransaction). laws.written r d k) (sym kept)
        | inr differs ↦
            let put : put_value codecs.address_location txn s.address_tx_index
                  (address_tx_key (to t) (height block) index false)
                  (address_location_at block index t false)
                ≡ ok left =
              ground arith in
            (put_value-Sets codecs.address_location txn left s.address_tx_index
                (address_tx_key (to t) (height block) index false)
                (address_location_at block index t false) put).2.1
              d other k
      ]

      pub index_transaction-Sets :
          (block : Block) (index : ℕ) (t : SignedTransaction) (txn left : RwTransaction)
          → index_transaction s block index t txn ≡ ok left
          → (bytes : Bytes) × EncodesLocation block (index, t) bytes
            × ((k : Bytes)
                → laws.written left s.tx_index k ≡ (
                    if same_bytes k (tx_key (index, t))
                    then some bytes
                    else laws.written txn s.tx_index k))
            × ((d : ℕ)
                → (d == s.tx_index) ≡ false
                → (d == s.address_tx_index) ≡ false
                → Keeps d txn left)
      unfolding index_transaction
      index_transaction-Sets block index t txn left e =
          let location = put_location s block index t in
          let sent = put_sent s block index t in
          let received = put_received s block index t in
          let (_, e1) =
            reject_if-ok (not (ltb index u32_modulus)) (integrity "transaction index exceeds u32")
              (do txn1 ← location txn; txn2 ← sent txn1; received txn2) e in
          let (txn1, done1, e2) =
            ok_steps (location txn) (λ txn1. do txn2 ← sent txn1; received txn2) e1 in
          let (txn2, done2, e3) = ok_steps (sent txn1) received e2 in
          let (bytes, encoded, at) =
            put_value-Sets codecs.location txn txn1 s.tx_index (tx_key (index, t))
              (location_at block index) done1 in
          let kept2 =
            (put_value-Sets codecs.address_location txn1 txn2 s.address_tx_index
              (address_tx_key (from t) (height block) index true)
              (address_location_at block index t true) done2).2.1 in
          let kept3 = received-Keeps block index t txn2 left e3 in
          (
            bytes,
            encoded,
            λ k. kept3 s.tx_index own k ∙ kept2 s.tx_index own k ∙ at.0 k,
            λ d other other' k. kept3 d other' k ∙ kept2 d other' k ∙ at.1 d other k,
          )
