-- ===== src/Storage/SavedBlock.antt =====
-- What src/runtime/storage/storage.rs reads after `save_block`.
use paqus_node.Base.{
  ℕ, zero, suc, ◌+◌, ◌≡◌, refl, sym, ◌∙◌, ap, true, List, [], ◌∷◌, some, ◌==◌, Result, ok, err,
  Bytes, same_bytes, same_bytes_refl, of_bytes, of_bytes-be_bytes, All, arith,
}
use mathlib.Core.Path.{subst}
use paqus_node.Paqus.{Paqus}
use paqus_node.Storage.{Lmdb, StorageError}
use paqus_node.Storage.Access.{encode, hash_size, IsHash}
use paqus_node.Storage.Tables.{Codecs, Storage, Saved, write, flushed}
use paqus_node.Storage.Saves.{Filled, save_block, put_block, write_encoded, location_at}
use paqus_node.Storage.Loads.{
  load_block_by_height, load_block_by_hash, load_transaction, located, get_elem?,
}
use paqus_node.Storage.Contents.{LmdbLaws, CodecsLaws, IsReadable, write-saves}
use paqus_node.Storage.Fills.{Fills-All, Fills-to, Holds}
use paqus_node.Storage.Written.{encode-ok}
use paqus_node.Storage.Indexed.{
  HasTables, Placed, placed_from, placed_key, EncodesPlaced, height_of, hash_of, put_block-Fills,
}
use paqus_node.Storage.Found.{
  load_block_by_height-some, load_block_by_hash-some, load_transaction_location-some,
}

module _ ⦃lmdb : Lmdb⦄ ⦃paqus : Paqus⦄ ⦃codecs : Codecs⦄ where
  open lmdb use {RwTransaction}

  -- An encoded value that is saved was encoded and written.
  pub write_encoded-saves :
      (s s' : Storage) (encoded : Result StorageError Bytes) (fill : Bytes → RwTransaction → Filled)
      → write_encoded s encoded fill ≡ (s', ok tt)
      → (bytes : Bytes) × (encoded ≡ ok bytes) × (write s (fill bytes) ≡ (s', ok tt))
  write_encoded-saves s s' (err x) fill e = absurd (cc (ap (λ (w : Saved). w.1) e))
  write_encoded-saves s s' (ok bytes) fill e = (bytes, refl, e)

  -- A save that was flushed was made.
  pub flushed-saved : (w : Saved) (s' : Storage) → flushed w ≡ (s', ok tt) → w ≡ (s', ok tt)
  flushed-saved (z, ok u) s' e =
      let same : z ≡ s' = ap (λ (p : Saved). p.0) e in ap (λ i. (i, ok tt)) same
  flushed-saved (z, err x) s' e = absurd (cc (ap (λ (p : Saved). p.1) e))

All-get_elem? :
    {A : Type 0} (P : A → Type 0) (xs : List A)
    → All P xs
    → (i : ℕ) (x : A) → get_elem? xs i ≡ some x
    → P x
unfolding get_elem?
All-get_elem? P [] ps i x e = absurd (cc)
All-get_elem? P (y ∷ ys) ps zero x e = subst P (cc) ps.0
All-get_elem? P (y ∷ ys) ps (suc i) x e = All-get_elem? P ys ps.1 i x e

module _ ⦃lmdb : Lmdb⦄ (laws : LmdbLaws) ⦃paqus : Paqus⦄ ⦃codecs : Codecs⦄
    (codecs_laws : CodecsLaws codecs) where
  open paqus use {SignedTransaction, hash, Block, block_hash, height, block_transactions}
  open lmdb use {RwTransaction, Environment}

  -- A transaction of a block is at its place.
  abbrev pub IsPlaced : Block → Placed → Type 0
  IsPlaced b p = (p.0 ≡ b) × (get_elem? (block_transactions b) p.1.0 ≡ some p.1.1)

  placed_from-IsPlaced :
      (b : Block) (i : ℕ) (ts : List SignedTransaction)
      → ((j : ℕ) (t : SignedTransaction)
          → get_elem? ts j ≡ some t
          → get_elem? (block_transactions b) (i + j) ≡ some t)
      → All (IsPlaced b) (placed_from b i ts)
  unfolding get_elem?
  placed_from-IsPlaced b i [] at = tt
  placed_from-IsPlaced b i (t ∷ ts) at = (
    (refl, ap (get_elem? (block_transactions b)) (omega arith) ∙ at 0 t refl),
    placed_from-IsPlaced b (suc i) ts
        (λ j u e. ap (get_elem? (block_transactions b)) (omega arith) ∙ at (suc j) u e),
  )

  placed_from-at :
      (P : Placed → Type 0) (b : Block) (i : ℕ) (ts : List SignedTransaction)
      → All P (placed_from b i ts)
      → (j : ℕ) (t : SignedTransaction) → get_elem? ts j ≡ some t
      → P (b, (i + j, t))
  unfolding get_elem?
  placed_from-at P b i [] ps j t e = absurd (cc)
  placed_from-at P b i (u ∷ ts) ps zero t e =
      subst (λ (x : ℕ × SignedTransaction). P (b, x))
        (ap (λ n. (n, u)) (omega arith) ∙ ap (λ v. (i + 0, v)) (cc)) ps.0
  placed_from-at P b i (u ∷ ts) ps (suc j) t e =
      subst (λ (n : ℕ). P (b, (n, t))) (omega arith) (placed_from-at P b (suc i) ts ps.1 j t e)

  -- The entries of a block in the tables of an environment.
  abbrev pub HasBlock : Environment → Storage → Block → Type 0
  HasBlock env s b =
      (bytes : Bytes) × (codecs.block.to_vec b ≡ ok bytes)
      × (laws.stored env s.blocks_by_height (height_of b) ≡ some bytes)
      × (laws.stored env s.blocks_by_hash (hash_of b) ≡ some bytes)
      × All
          (λ p.
            Holds placed_key EncodesPlaced (IsPlaced b) (laws.stored env s.tx_index) (placed_key p))
          (placed_from b 0 (block_transactions b))

  -- The tables that `save_block` leaves.
  pub save_block-HasBlock :
      (s s' : Storage) (own : HasTables s) (b : Block)
      → save_block s b ≡ (s', ok tt)
      → HasBlock s'.env s' b
  unfolding save_block
  save_block-HasBlock s s' own b e =
      let (bytes, encoded, wrote) =
        write_encoded-saves s s' (encode codecs.block b) (put_block s b) e in
      let (txn, left, env, begun, filled, same, contents) =
        write-saves laws s s' (put_block s b bytes) wrote in
      let (at_height, at_hash, fills, _) = put_block-Fills laws s own b bytes txn left filled in
      let itself : (k : Bytes) → same_bytes k k ≡ true = same_bytes_refl in
      let placed =
        Fills-All placed_key EncodesPlaced (IsPlaced b) (placed_from b 0 (block_transactions b))
          (laws.written txn s.tx_index) (laws.stored env s.tx_index)
          (placed_from-IsPlaced b 0 (block_transactions b)
            (λ j t at. ap (get_elem? (block_transactions b)) (omega arith) ∙ at))
          (Fills-to placed_key EncodesPlaced (placed_from b 0 (block_transactions b))
            (laws.written txn s.tx_index) (laws.written left s.tx_index)
            (laws.stored env s.tx_index) (contents s.tx_index) fills) in
      subst (λ (z : Storage). HasBlock z.env z b) same
        (
          bytes,
          encode-ok laws codecs.block b bytes encoded,
          contents s.blocks_by_height (height_of b)
              ∙ at_height (height_of b)
              ∙ (rw (itself (height_of b)) refl),
          contents s.blocks_by_hash (hash_of b)
              ∙ at_hash (hash_of b)
              ∙ (rw (itself (hash_of b)) refl),
          placed,
        )

  module _ (s' : Storage) (r : IsReadable laws s'.env) (b : Block)
      (has : HasBlock s'.env s' b) where
    pub HasBlock-load_block_by_height : load_block_by_height s' (height b) ≡ ok (some b)
    HasBlock-load_block_by_height =
        load_block_by_height-some laws codecs_laws s' r b has.0 has.2 has.1

    pub HasBlock-load_block_by_hash : load_block_by_hash s' (block_hash b) ≡ ok (some b)
    HasBlock-load_block_by_hash = load_block_by_hash-some laws codecs_laws s' r b has.0 has.3 has.1

    located-found :
        (j : ℕ) (u : SignedTransaction) (k : ℕ)
        → get_elem? (block_transactions b) j ≡ some u
        → hash u ≡ k
        → located s' k (location_at b j) ≡ ok (location_at b j, u)
    unfolding located
    located-found j u k at same =
        let first : (block_hash b == block_hash b) ≡ true = ground arith in
        let second : (hash u == k) ≡ true = ground arith in
        rw (HasBlock-load_block_by_height, first, at, second, located) refl

    -- A transaction of the block is found by its hash, in the block.
    pub HasBlock-load_transaction :
        All (λ v. IsHash (hash v)) (block_transactions b)
        → (j : ℕ) (t : SignedTransaction) → get_elem? (block_transactions b) j ≡ some t
        → (i : ℕ) × (u : SignedTransaction) × (get_elem? (block_transactions b) i ≡ some u)
          × (hash u ≡ hash t)
          × (load_transaction s' (hash t) ≡ ok (some (location_at b i, u)))
    unfolding load_transaction
    HasBlock-load_transaction fits j t at =
        let ((c, (i, u)), (same, there), key, bytes, encoded, found) =
          placed_from-at
            (λ p.
              Holds placed_key EncodesPlaced (IsPlaced b) (laws.stored s'.env s'.tx_index)
                (placed_key p))
            b 0 (block_transactions b) has.4 j t at in
        let hashes : hash u ≡ hash t =
          sym (
            of_bytes-be_bytes hash_size (hash u)
              (All-get_elem? (λ v. IsHash (hash v)) (block_transactions b) fits i u there))
          ∙ ap of_bytes (sym key)
          ∙ of_bytes-be_bytes hash_size (hash t)
              (All-get_elem? (λ v. IsHash (hash v)) (block_transactions b) fits j t at) in
        let here =
          subst (λ (z : Block). codecs.location.to_vec (location_at z i) ≡ ok bytes) same encoded in
        (
          i,
          u,
          there,
          hashes,
          rw
              (
                load_transaction_location-some laws codecs_laws s' r (hash t) (location_at b i)
                    bytes found here,
                located-found i u (hash t) there hashes,
                load_transaction,
              )
              refl,
        )
