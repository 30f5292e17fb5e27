-- ===== src/Storage/SavedTip.antt =====
-- The entries of the tip that `save_ledger` of src/runtime/storage/storage.rs leaves.
use paqus_node.Base.{
  ℕ, ◌≡◌, sym, ◌∙◌, ap, Bool, true, false, ◌||◌, Option, none, some, ◌==◌, if◌then◌else◌, ok, ◌>>=◌,
  ok_steps, Bytes, be_bytes, arith,
}
use mathlib.Core.Path.{subst}
use paqus_node.Paqus.{Paqus}
use paqus_node.Storage.{Lmdb}
use paqus_node.Storage.Access.{put_bytes, put_value, height_key, hash_size}
use paqus_node.Storage.Tables.{Codecs, Storage, tip_height_key, tip_hash_key, genesis_key}
use paqus_node.Storage.Saves.{
  Filled, put_tip, put_snapshot, put_ledger_tip, put_known_tip, snapshot_of,
}
use paqus_node.Storage.Contents.{LmdbLaws}
use paqus_node.Storage.Written.{Keeps, put_bytes-Sets, put_value-Sets}
use paqus_node.Storage.Indexed.{AreApart}

module _ ⦃lmdb : Lmdb⦄ ⦃paqus : Paqus⦄ ⦃codecs : Codecs⦄ where
  -- The two entries of the tip.
  abbrev pub HasTip : (Bytes → Option Bytes) → ℕ → ℕ → Type 0
  HasTip table height hash =
      (bytes : Bytes) × (codecs.block_height.to_vec height ≡ ok bytes)
      × (table tip_height_key ≡ some bytes)
      × (table tip_hash_key ≡ some (be_bytes hash_size hash))

module _ ⦃lmdb : Lmdb⦄ (laws : LmdbLaws) ⦃paqus : Paqus⦄ ⦃codecs : Codecs⦄ where
  open lmdb use {RwTransaction, Environment}
  open paqus use {Ledger, Block, tip_height, tip_hash, chain_blocks, is_snapshot_height}

  put_tip-HasTip :
      (s : Storage) (height hash : ℕ) (txn left : RwTransaction)
      → put_tip s height hash txn ≡ ok left
      → HasTip (laws.written left s.meta) height hash
        × ((d : ℕ) → (d == s.meta) ≡ false → Keeps laws d txn left)
  unfolding put_tip
  put_tip-HasTip s height hash txn left e =
      let (middle, first, rest) =
        ok_steps (put_value codecs.block_height txn s.meta tip_height_key height)
          (λ txn. put_bytes txn s.meta tip_hash_key (be_bytes hash_size hash)) e in
      let (bytes, encoded, at) =
        put_value-Sets laws codecs.block_height txn middle s.meta tip_height_key height first in
      let (sets, others) =
        put_bytes-Sets laws middle left s.meta tip_hash_key (be_bytes hash_size hash) rest in
      (
        (bytes, encoded, sets tip_height_key ∙ at.0 tip_height_key, sets tip_hash_key),
        λ d other k. others d other k ∙ at.1 d other k,
      )

  -- A write that is made or not.
  optional-Keeps :
      (b : Bool) (m : Filled) (txn left : RwTransaction) (d : ℕ)
      → ((if b then m else ok txn) ≡ ok left)
      → (m ≡ ok left → Keeps laws d txn left)
      → Keeps laws d txn left
  optional-Keeps true m txn left d e keeps k = keeps e k
  optional-Keeps false m txn left d e keeps k =
      let same : txn ≡ left = cc in ap (λ (r : RwTransaction). laws.written r d k) (sym same)

  put_ledger_tip-HasTip :
      (s : Storage) (apart : AreApart s) (l : Ledger) (height hash : ℕ) (txn left : RwTransaction)
      → put_ledger_tip s l height hash txn ≡ ok left
      → HasTip (laws.written left s.meta) height hash
        × ((d : ℕ)
            → (d == s.meta) ≡ false
            → (d == s.state_snapshots) ≡ false
            → (d == s.genesis_accounts) ≡ false
            → Keeps laws d txn left)
  unfolding put_ledger_tip put_snapshot
  put_ledger_tip-HasTip s apart l height hash txn left e =
      let snapshot = λ (r : RwTransaction).
        if height == 0 || is_snapshot_height height then put_snapshot s l height hash r else ok r in
      let genesis = λ (r : RwTransaction).
        if height == 0
        then put_value codecs.genesis_accounts r s.genesis_accounts genesis_key (paqus.accounts l)
        else ok r in
      let (txn1, done1, e1) =
        ok_steps (put_tip s height hash txn) (λ txn1. do txn2 ← snapshot txn1; genesis txn2) e in
      let (txn2, done2, e2) = ok_steps (snapshot txn1) genesis e1 in
      let (tip, kept1) = put_tip-HasTip s height hash txn txn1 done1 in
      let kept2 = λ (d : ℕ) (other : (d == s.state_snapshots) ≡ false).
        optional-Keeps (height == 0 || is_snapshot_height height)
          (put_snapshot s l height hash txn1) txn1 txn2 d done2
          (λ put.
            (put_value-Sets laws codecs.snapshot txn1 txn2 s.state_snapshots (height_key height)
                (snapshot_of l height hash) put).2.1
              d other) in
      let kept3 = λ (d : ℕ) (other : (d == s.genesis_accounts) ≡ false).
        optional-Keeps (height == 0)
          (put_value codecs.genesis_accounts txn2 s.genesis_accounts genesis_key (paqus.accounts l))
          txn2 left d e2
          (λ put.
            (put_value-Sets laws codecs.genesis_accounts txn2 left s.genesis_accounts genesis_key
                (paqus.accounts l) put).2.1
              d other) in
      let meta2 = kept2 s.meta (ground arith) in
      let meta3 = kept3 s.meta (ground arith) in
      (
        (
          tip.0,
          tip.1,
          meta3 tip_height_key ∙ meta2 tip_height_key ∙ tip.2,
          meta3 tip_hash_key ∙ meta2 tip_hash_key ∙ tip.3,
        ),
        λ d o1 o2 o3 k. kept3 d o3 k ∙ kept2 d o2 k ∙ kept1 d o1 k,
      )

  pub put_known_tip-HasTip :
      (s : Storage) (apart : AreApart s) (l : Ledger) (height hash : Option ℕ)
      (txn left : RwTransaction)
      → put_known_tip s l height hash txn ≡ ok left
      → ((t h : ℕ) → height ≡ some t → hash ≡ some h → HasTip (laws.written left s.meta) t h)
        × ((d : ℕ)
            → (d == s.meta) ≡ false
            → (d == s.state_snapshots) ≡ false
            → (d == s.genesis_accounts) ≡ false
            → Keeps laws d txn left)
  put_known_tip-HasTip s apart l none hash txn left e =
      let same : txn ≡ left = cc in
      (
        λ t h known. absurd (cc known),
        λ d o1 o2 o3 k. ap (λ (r : RwTransaction). laws.written r d k) (sym same),
      )
  put_known_tip-HasTip s apart l (some height) none txn left e =
      let same : txn ≡ left = cc in
      (
        λ t h at known. absurd (cc known),
        λ d o1 o2 o3 k. ap (λ (r : RwTransaction). laws.written r d k) (sym same),
      )
  put_known_tip-HasTip s apart l (some height) (some hash) txn left e =
      let (tip, kept) = put_ledger_tip-HasTip s apart l height hash txn left e in
      (
        λ t h at known.
            subst (λ (i : ℕ). HasTip (laws.written left s.meta) i h) (cc at)
              (subst (λ (i : ℕ). HasTip (laws.written left s.meta) height i) (cc known) tip),
        kept,
      )
